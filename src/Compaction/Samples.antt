-- ===== src/Compaction/Samples.antt =====
-- Compaction at concrete inputs: tests of the definitions, and uses of the theorems.
use ri.Base.{
  u64_mod, ℕ, ◌+◌, ◌%◌, ◌-◌, ◌≤◌, filter_map, reverse, take, drop, get_elem?, ◌≡◌, refl, ◌⊎◌, true,
  false, Option, none, some, List, [], ◌∷◌, ◌++◌, Text, codes, All, length,
}
use ri.Base.Int.{pos}
use ri.Base.Maps.{TextMap}
use ri.Message.{
  Host, Message, UserContentValue, AssistantMessage, AssistantContent, Usage, StopReason,
  usage_zero,
}
use ri.Session.Entry.{id, SessionTreeEntry, SessionEntryMessage, SessionMessage, EntryHead}
use ri.Compaction.Estimate.{
  calculate_context_tokens, assistant_usage_is_valid, estimate_session_context_tokens,
  estimate_entry_message_tokens, estimate_message_tokens, estimate_message_chars, sum,
}
use ri.Compaction.Usage.{
  session_usage_of, usage_of, estimate_session_context_token_usage, estimate_session-anchor,
}
use ri.Compaction.Cut.{
  CutPointResult, min, find_cut_point, find_valid_cut_points, cut_points_from, is_cut_point,
  cut_among, cut_by_tokens, weigh, next_cut, step_back, cut_result, is_message_or_compaction,
  is_user_message, find_entry_turn_start_index, turn_start_from, is_turn_start,
}
use ri.Session.Context.{Clock}
use ri.Compaction.Usage.{CompactionThresholdSettings, rfind_map}
use ri.Compaction.Files.{Json}
use ri.Compaction.Prepare.{CompactionPreparation, done, prepare_compaction, compaction_of, boundary}
use ri.Compaction.Prepare.Partition.{messages_of, prepare_compaction-partition}
use ri.Compaction.Branch.{prepare_branch_entries, get_message_from_entry_for_branch_summary}
use ri.Compaction.Branch.Budget.{IsWithin, IsStopped, prepare_branch_entries-budget}
use ri.Compaction.Cut.Bounds.{IsCut, find_cut_point_lem}

abbrev plain : Host
plain = record { Value = ℕ; Float = ℕ; float_zero = 0 }

abbrev stringify : TextMap ℕ → Option Text
stringify arguments = some (codes "{}")

abbrev spent : Usage plain
spent = record (usage_zero {H = plain}) { total_tokens = 120 }

abbrev answer : AssistantMessage plain
answer = record {
  content =
      AssistantContent.text (record { text = codes "some words"; text_signature = none }) ∷ [];
  api = codes "a";
  provider = codes "p";
  model = codes "m";
  response_model = none;
  response_id = none;
  diagnostics = [];
  usage = spent;
  stop_reason = StopReason.stop;
  error_message = none;
  timestamp = pos 2;
}

abbrev question : Message plain
question =
    Message.user (record { content = UserContentValue.plain (codes "hello"); timestamp = pos 1 })

abbrev at_id : ℕ → EntryHead
at_id n = record { id = n ∷ []; parent_id = none; timestamp = codes "t" }

abbrev path : List (SessionTreeEntry plain)
path =
    SessionTreeEntry.message (at_id 1) (SessionEntryMessage.llm question)
    ∷ SessionTreeEntry.message (at_id 2) (SessionEntryMessage.llm (Message.assistant answer))
    ∷ SessionTreeEntry.thinking_level_change (at_id 3) (codes "high")
    ∷ SessionTreeEntry.message (at_id 4) (SessionEntryMessage.llm (Message.assistant answer))
    ∷ []

find_cut_point_lem_example :
    let low = min 0 (length path) in
    let high = min 4 (length path) in
    (r : CutPointResult) × (find_cut_point stringify path 0 4 1 ≡ some r)
    × (((find_valid_cut_points path low high ≡ some [])
          × (r ≡ record {
            first_kept_entry_index = low;
            turn_start_index = none;
            is_split_turn = false;
          }))
        ⊎ IsCut path low high r)
find_cut_point_lem_example = find_cut_point_lem stringify path 0 4 1

spent_counts : session_usage_of (SessionMessage.llm (Message.assistant answer)) ≡ some spent
unfolding session_usage_of usage_of assistant_usage_is_valid calculate_context_tokens
spent_counts = refl

question_free : All (λ n. session_usage_of n ≡ none) (SessionMessage.llm question ∷ [])
unfolding session_usage_of usage_of
question_free = (refl, tt)

estimate_session-anchor_example :
    estimate_session_context_token_usage stringify (
      (SessionMessage.llm question ∷ [])
      ++ SessionMessage.llm (Message.assistant answer) ∷ (SessionMessage.llm question ∷ []))
    ≡ record {
      tokens =
          (calculate_context_tokens spent
            + estimate_session_context_tokens stringify (SessionMessage.llm question ∷ []))
          % u64_mod;
      usage_tokens = calculate_context_tokens spent;
      last_usage_index = some 1;
    }
estimate_session-anchor_example =
    estimate_session-anchor stringify (SessionMessage.llm question ∷ [])
      (SessionMessage.llm question ∷ []) (SessionMessage.llm (Message.assistant answer)) spent
      spent_counts question_free

-- A test: the last answer is kept, with the change before it, and its turn, which began with the
-- question, is split.
cut_here :
    find_cut_point stringify path 0 4 1
    ≡ some (record { first_kept_entry_index = 2; turn_start_index = some 0; is_split_turn = true })
unfolding find_cut_point find_valid_cut_points cut_points_from is_cut_point cut_among cut_by_tokens
    weigh next_cut step_back cut_result is_message_or_compaction is_user_message
    find_entry_turn_start_index turn_start_from is_turn_start estimate_entry_message_tokens
    estimate_message_tokens estimate_message_chars sum
cut_here = refl

abbrev json : Json plain
json = record { as_str = λ v. none; as_array = λ v. none; field = λ v name. none }

abbrev clock : Clock
clock = record { parse_rfc3339 = λ t. none; now_millis = pos 0 }

abbrev thresholds : CompactionThresholdSettings
thresholds = record { enabled = true; reserve_tokens = 16384; keep_recent_tokens = 1 }

abbrev last_answer : SessionTreeEntry plain
last_answer =
    SessionTreeEntry.message (at_id 4) (SessionEntryMessage.llm (Message.assistant answer))

no_compaction : compaction_of last_answer ≡ none
unfolding compaction_of
no_compaction = refl

prepare_compaction-partition_example :
    let low = boundary (rfind_map compaction_of 0 path) path in
    (p : CompactionPreparation plain) × (cut : ℕ) × (kept : SessionTreeEntry plain)
    × (prepare_compaction stringify json clock thresholds path ≡ some (done (some p)))
    × (low ≤ cut)
    × (get_elem? path cut ≡ some kept)
    × (p.first_kept_entry_id ≡ id kept)
    × (p.messages_to_summarize ++ p.turn_prefix_messages
        ≡ messages_of clock (take (cut - low) (drop low path)))
prepare_compaction-partition_example =
    prepare_compaction-partition stringify json clock thresholds path last_answer refl no_compaction

prepare_branch_entries-budget_example :
    let r = prepare_branch_entries stringify json clock path 5 in
    (before after : List (SessionTreeEntry plain)) × (before ++ after ≡ path)
    × (r.messages ≡ filter_map (get_message_from_entry_for_branch_summary clock) after)
    × (r.total_tokens ≡ estimate_session_context_tokens stringify r.messages)
    × IsWithin stringify json clock 5 r
    × IsStopped stringify json clock 5 r (reverse before)
prepare_branch_entries-budget_example = prepare_branch_entries-budget stringify json clock path 5
