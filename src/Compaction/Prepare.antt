-- ===== src/Compaction/Prepare.antt =====
-- `prepare_compaction` of compaction.rs: what is summarised, and what is kept. The outer `none` is a
-- panic.
pub mod Slices
pub mod Partition
use ri.Base.{
  ℕ, ◌+◌, ◌-◌, Bool, true, false, ◌&&◌, ◌||◌, Option, none, some, List, [], ◌∷◌, Text, codes,
  length, take, drop, get_elem?, leb, if◌then◌else◌, is_empty, last, filter_map, or_else,
}
use ri.Base.Maps.{TextMap}
use ri.Message.{Host}
use ri.Session.Entry.{SessionTreeEntry, SessionMessage, SessionEntryMessage, CompactionFields, id}
use ri.Session.Context.{
  Clock, SessionContext, build_session_context, parse_timestamp_millis, position,
  from_entry_message,
}
use ri.Compaction.Usage.{
  CompactionThresholdSettings, ContextTokenEstimate, estimate_session_context_token_usage,
  rfind_map,
}
use ri.Compaction.Cut.{CutPointResult, find_cut_point, indexed}
use ri.Compaction.Files.{Json, FileOperations, extract_file_operations, extract_from_all}

pub data CompactionErrorCode : Type 0 where
  aborted summarization_failed invalid_session unknown : CompactionErrorCode

pub record CompactionError : Type 0 where
  pub code : CompactionErrorCode
  pub message : Text

-- `Result<_, CompactionError>`.
pub data Attempt {ℓ} (A : Type ℓ) : Type ℓ where
  done : A → Attempt A
  failed : CompactionError → Attempt A

pub record CompactionPreparation (H : Host) : Type 0 where
  pub first_kept_entry_id : Text
  pub messages_to_summarize : List (SessionMessage H)
  pub turn_prefix_messages : List (SessionMessage H)
  pub is_split_turn : Bool
  pub tokens_before : ℕ
  pub previous_summary : Option Text
  pub file_ops : FileOperations
  pub settings : CompactionThresholdSettings

abbrev pub no_uuid : CompactionError
no_uuid = record {
  code = CompactionErrorCode.invalid_session;
  message = codes "First kept entry has no UUID - session may need migration";
}

abbrev pub no_turn_start : CompactionError
no_turn_start = record {
  code = CompactionErrorCode.invalid_session;
  message = codes "Split-turn compaction is missing turn start";
}

-- `es[from..to]`.
unfoldable pub slice {ℓ} : {A : Type ℓ} → ℕ → ℕ → List A → Option (List A)
slice from to es =
    if leb from to && leb to (length es) then some (take (to - from) (drop from es)) else none

-- The end of the part that is summarised whole.
unfoldable pub history_end : CutPointResult → Attempt ℕ
history_end r =
    if r.is_split_turn then of_turn r.turn_start_index else done r.first_kept_entry_index
  where
    of_turn : Option ℕ → Attempt ℕ
    of_turn none = failed no_turn_start
    of_turn (some t) = done t

module _ {H : Host} where
  unfoldable pub get_message_from_entry : Clock → SessionTreeEntry H → Option (SessionMessage H)
  get_message_from_entry clock (SessionTreeEntry.message d m) = some (from_entry_message m)
  get_message_from_entry clock (SessionTreeEntry.custom_message d t c display details) =
      some (SessionMessage.custom t c display details (parse_timestamp_millis clock d.timestamp))
  get_message_from_entry clock (SessionTreeEntry.branch_summary d from_id summary details u k) =
      some
        (SessionMessage.branch_summary summary from_id (parse_timestamp_millis clock d.timestamp))
  get_message_from_entry clock (SessionTreeEntry.compaction d c) = some (
      SessionMessage.compaction_summary c.summary c.tokens_before
        (parse_timestamp_millis clock d.timestamp))
  get_message_from_entry clock _ = none

  unfoldable pub get_message_from_entry_for_compaction :
      Clock → SessionTreeEntry H → Option (SessionMessage H)
  get_message_from_entry_for_compaction clock (SessionTreeEntry.compaction d c) = none
  get_message_from_entry_for_compaction clock e = get_message_from_entry clock e

  unfoldable pub compaction_of : SessionTreeEntry H → Option (CompactionFields H)
  compaction_of (SessionTreeEntry.compaction d c) = some c
  compaction_of _ = none

  unfoldable pub ends_compacted : Option (SessionTreeEntry H) → Bool
  ends_compacted (some (SessionTreeEntry.compaction d c)) = true
  ends_compacted _ = false

  place : Option Text → List (SessionTreeEntry H) → Option ℕ
  place none es = none
  place (some k) es = position k es

  -- Where the part that can be summarised begins, by the last compaction.
  unfoldable pub boundary : Option (ℕ × CompactionFields H) → List (SessionTreeEntry H) → ℕ
  unfolding place
  boundary none es = 0
  boundary (some (index, c)) es = or_else (index + 1) (place c.first_kept_entry_id es)

  abbrev pub fields_of : Option (ℕ × CompactionFields H) → Option (CompactionFields H)
  fields_of none = none
  fields_of (some (index, c)) = some c

  abbrev pub summary_of : Option (ℕ × CompactionFields H) → Option Text
  summary_of none = none
  summary_of (some (index, c)) = some c.summary

  unfoldable pub prefix_slice :
      CutPointResult → List (SessionTreeEntry H) → Option (List (SessionTreeEntry H))
  prefix_slice r es = of_turn r.turn_start_index
    where
      of_turn : Option ℕ → Option (List (SessionTreeEntry H))
      of_turn none = some []
      of_turn (some t) = slice t r.first_kept_entry_index es

module _ {H : Host} (to_string : TextMap H.Value → Option Text) (json : Json H) (clock : Clock)
    (settings : CompactionThresholdSettings) where
  -- The preparation, once all parts are there.
  unfoldable pub prepared :
      List (SessionTreeEntry H)
      → Option (ℕ × CompactionFields H)
      → CutPointResult
      → SessionTreeEntry H
      → List (SessionTreeEntry H)
      → List (SessionTreeEntry H)
      → CompactionPreparation H
  prepared es previous r kept history prefix =
      let messages = filter_map (get_message_from_entry_for_compaction clock) history in
      let turn_prefix = filter_map (get_message_from_entry_for_compaction clock) prefix in
      let ops = extract_file_operations json messages (fields_of previous) in
      record {
        first_kept_entry_id = id kept;
        messages_to_summarize = messages;
        turn_prefix_messages = turn_prefix;
        is_split_turn = r.is_split_turn;
        tokens_before =
            (estimate_session_context_token_usage to_string
              (build_session_context clock es).messages).tokens;
        previous_summary = summary_of previous;
        file_ops = if r.is_split_turn then extract_from_all json turn_prefix ops else ops;
        settings = settings;
      }

  unfoldable pub with_history :
      List (SessionTreeEntry H)
      → Option (ℕ × CompactionFields H)
      → CutPointResult
      → SessionTreeEntry H
      → Attempt ℕ
      → Option (Attempt (Option (CompactionPreparation H)))
  with_history es previous r kept (failed e) = some (failed e)
  with_history es previous r kept (done end) =
      indexed (slice (boundary previous es) end es) (λ history.
        indexed (prefix_slice r es)
          (λ prefix. some (done (some (prepared es previous r kept history prefix)))))

  unfoldable pub with_kept :
      List (SessionTreeEntry H)
      → Option (ℕ × CompactionFields H)
      → CutPointResult
      → Option (SessionTreeEntry H)
      → Option (Attempt (Option (CompactionPreparation H)))
  unfolding with_history
  with_kept es previous r none = some (failed no_uuid)
  with_kept es previous r (some kept) = with_history es previous r kept (history_end r)

  unfoldable pub prepare_compaction :
      List (SessionTreeEntry H) → Option (Attempt (Option (CompactionPreparation H)))
  unfolding with_kept
  prepare_compaction es =
      let previous = rfind_map compaction_of 0 es in
      if is_empty es || ends_compacted (last es)
      then some (done none)
      else indexed
          (find_cut_point to_string es (boundary previous es) (length es)
            settings.keep_recent_tokens)
          (λ r. with_kept es previous r (get_elem? es r.first_kept_entry_index))
