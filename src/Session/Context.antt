-- ===== src/Session/Context.antt =====
-- How a session's branch becomes the context of the model, in
-- crates/ri-agent-core/src/harness/session.rs.
-- `Clock` is what `parse_timestamp_millis` takes from elsewhere: the parser of RFC 3339 times of
-- `chrono`, and the time now, which is used for a text that is no such time.
pub mod State
pub mod Transform
pub mod Kept
pub mod Messages
use ri.Base.{
  ℕ, zero, suc, ◌+◌, Bool, true, false, not, ◌||◌, ◌&&◌, Option, none, some, List, [], ◌∷◌, ◌++◌,
  Text, codes, if◌then◌else◌, length, take, drop, is_some, is_empty, text_eq, map,
}
use ri.Base.Int.{ℤ, is_zero, show_int}
use ri.Base.Maps.{TextMap, get}
use ri.Message.{Host, Message, AssistantMessage}
use ri.Session.Entry.{
  SessionTreeEntry, EntryHead, CompactionFields, SessionEntryMessage, SessionMessage,
  BashExecutionMessage, id, message, thinking_level_change, active_tools_change, model_change,
  compaction, branch_summary, custom, custom_message,
}

pub record Clock : Type 0 where
  pub parse_rfc3339 : Text → Option ℤ
  pub now_millis : ℤ

abbrev pub or_now : Clock → Option ℤ → ℤ
or_now clock none = clock.now_millis
or_now clock (some t) = t

unfoldable pub parse_timestamp_millis : Clock → Text → ℤ
parse_timestamp_millis clock t = or_now clock (clock.parse_rfc3339 t)

pub record SessionModelSelection : Type 0 where
  pub provider : Text
  pub model_id : Text

-- The three variables that `derive_session_context_state` assigns and returns.
pub record ContextState : Type 0 where
  pub thinking_level : Text
  pub model : Option SessionModelSelection
  pub active_tool_names : Option (List Text)

pub record SessionContext (H : Host) : Type 0 where
  pub messages : List (SessionMessage H)
  pub thinking_level : Text
  pub model : Option SessionModelSelection
  pub active_tool_names : Option (List Text)

abbrev pub one_further : Option ℕ → Option ℕ
one_further none = none
one_further (some i) = some (suc i)

module _ {H : Host} where
  -- One round of the loop of `derive_session_context_state`.
  unfoldable pub note_entry : ContextState → SessionTreeEntry H → ContextState
  note_entry s (thinking_level_change d next) = record s { thinking_level = next }
  note_entry s (active_tools_change d next) = record s { active_tool_names = some next }
  note_entry s (model_change d p m) = record s {
    model = some (record { provider = p; model_id = m });
  }
  note_entry s (message d (SessionEntryMessage.llm (Message.assistant a))) = record s {
    model = some (record { provider = a.provider; model_id = a.model });
  }
  note_entry s e = s

  unfoldable pub note_entries : ContextState → List (SessionTreeEntry H) → ContextState
  note_entries s [] = s
  note_entries s (e ∷ es) = note_entries (note_entry s e) es

  unfoldable pub derive_session_context_state : List (SessionTreeEntry H) → ContextState
  unfolding note_entries
  derive_session_context_state es =
      note_entries (record { thinking_level = codes "off"; model = none; active_tool_names = none })
        es

  -- The last compaction of a path, by its parts.
  unfoldable pub last_compaction :
      Option (EntryHead × CompactionFields H)
      → List (SessionTreeEntry H)
      → Option (EntryHead × CompactionFields H)
  last_compaction found [] = found
  last_compaction found (compaction d c ∷ es) = last_compaction (some (d, c)) es
  last_compaction found (e ∷ es) = last_compaction found es

  -- `path_entries.iter().position(|entry| entry.id() == id)`.
  unfoldable pub position : Text → List (SessionTreeEntry H) → Option ℕ
  position k [] = none
  position k (e ∷ es) = if text_eq (id e) k then some 0 else one_further (position k es)

  -- The loop over the entries before the compaction, with its flag `found_first_kept`.
  unfoldable pub kept_from : Bool → Text → List (SessionTreeEntry H) → List (SessionTreeEntry H)
  kept_from found k [] = []
  kept_from found k (e ∷ es) =
      let found' = text_eq (id e) k || found in
      let rest = kept_from found' k es in if found' then e ∷ rest else rest

  kept_before : Option Text → List (SessionTreeEntry H) → List (SessionTreeEntry H)
  kept_before none es = []
  kept_before (some k) es = kept_from false k es

  after_compaction :
      EntryHead → CompactionFields H → ℕ → List (SessionTreeEntry H) → List (SessionTreeEntry H)
  unfolding kept_before
  after_compaction d c i es =
      if is_some c.retained_tail
      then compaction d c ∷ drop (suc i) es
      else compaction d c ∷ (kept_before c.first_kept_entry_id (take i es) ++ drop (suc i) es)

  unfoldable pub default_context_entry_transform :
      List (SessionTreeEntry H) → List (SessionTreeEntry H)
  unfolding after_compaction
  default_context_entry_transform es = elim (last_compaction none es) [
    | none ↦ es
    | some (d, c) ↦ elim (position d.id es) [ none ↦ es | some i ↦ after_compaction d c i es ]
  ]

pub record SessionContextBuildOptions (H : Host) : Type 0 where
  pub entry_transforms : List (List (SessionTreeEntry H) → List (SessionTreeEntry H))
  pub entry_projectors :
      TextMap
        (SessionTreeEntry H → ℕ → List (SessionTreeEntry H) → Option (List (SessionMessage H)))

abbrev pub default_options : {H : Host} → SessionContextBuildOptions H
default_options = record { entry_transforms = []; entry_projectors = [] }

module _ {H : Host} where
  unfoldable pub apply_transforms :
      List (List (SessionTreeEntry H) → List (SessionTreeEntry H))
      → List (SessionTreeEntry H)
      → List (SessionTreeEntry H)
  apply_transforms [] es = es
  apply_transforms (t ∷ ts) es = apply_transforms ts (t es)

  unfoldable pub build_context_entries :
      SessionContextBuildOptions H → List (SessionTreeEntry H) → List (SessionTreeEntry H)
  unfolding apply_transforms
  build_context_entries o es =
      apply_transforms o.entry_transforms (default_context_entry_transform es)

  unfoldable pub from_entry_message : SessionEntryMessage H → SessionMessage H
  from_entry_message (SessionEntryMessage.llm m) = SessionMessage.llm m
  from_entry_message (SessionEntryMessage.bash_execution m) = SessionMessage.bash_execution m

  from_tail : Option (List (SessionEntryMessage H)) → List (SessionMessage H)
  from_tail none = []
  from_tail (some ms) = map from_entry_message ms

  unfoldable pub append_context_message : Clock → SessionTreeEntry H → List (SessionMessage H)
  append_context_message clock (message d m) = from_entry_message m ∷ []
  append_context_message clock (custom_message d t c display details) =
      SessionMessage.custom t c display details (parse_timestamp_millis clock d.timestamp) ∷ []
  append_context_message clock (branch_summary d from_id summary details u k) =
      if not (is_empty summary)
      then SessionMessage.branch_summary summary from_id (parse_timestamp_millis clock d.timestamp)
        ∷ []
      else []
  append_context_message clock e = []

  abbrev pub or_nothing : Option (List (SessionMessage H)) → List (SessionMessage H)
  or_nothing none = []
  or_nothing (some ms) = ms

  projected :
      Option (SessionTreeEntry H → ℕ → List (SessionTreeEntry H) → Option (List (SessionMessage H)))
      → SessionTreeEntry H
      → ℕ
      → List (SessionTreeEntry H)
      → List (SessionMessage H)
  projected none e i es = []
  projected (some project) e i es = or_nothing (project e i es)

  unfoldable pub session_entry_to_context_messages :
      Clock
      → SessionContextBuildOptions H
      → SessionTreeEntry H
      → ℕ
      → List (SessionTreeEntry H)
      → List (SessionMessage H)
  unfolding from_tail projected
  session_entry_to_context_messages clock o (compaction d c) i es =
      SessionMessage.compaction_summary c.summary c.tokens_before
        (parse_timestamp_millis clock d.timestamp)
      ∷ from_tail c.retained_tail
  session_entry_to_context_messages clock o (custom d t payload) i es =
      projected (get o.entry_projectors t) (custom d t payload) i es
  session_entry_to_context_messages clock o e i es = append_context_message clock e

  -- The messages of the entries `es`, the first of which has the index `i` in `all`.
  unfoldable pub messages_from :
      Clock
      → SessionContextBuildOptions H
      → List (SessionTreeEntry H)
      → ℕ
      → List (SessionTreeEntry H)
      → List (SessionMessage H)
  messages_from clock o all i [] = []
  messages_from clock o all i (e ∷ es) =
      session_entry_to_context_messages clock o e i all ++ messages_from clock o all (i + 1) es

  unfoldable pub build_session_context_with_options :
      Clock → SessionContextBuildOptions H → List (SessionTreeEntry H) → SessionContext H
  unfolding messages_from
  build_session_context_with_options clock o path =
      let state = derive_session_context_state path in
      let entries = build_context_entries o path in
      record {
        messages = messages_from clock o entries 0 entries;
        thinking_level = state.thinking_level;
        model = state.model;
        active_tool_names = state.active_tool_names;
      }

  unfoldable pub build_session_context : Clock → List (SessionTreeEntry H) → SessionContext H
  unfolding build_session_context_with_options
  build_session_context clock path = build_session_context_with_options clock default_options path

-- The notes at the end of `bash_execution_to_text`.
exit_note : BashExecutionMessage → Option ℤ → Text
exit_note m none = []
exit_note m (some code) =
    if not (is_zero code) then codes "\n\nCommand exited with code " ++ show_int code else []

output_note : Option Text → Text
output_note none = []
output_note (some path) = codes "\n\n[Output truncated. Full output: " ++ (path ++ codes "]")

unfoldable pub bash_execution_to_text : BashExecutionMessage → Text
unfolding exit_note output_note
bash_execution_to_text m =
    let ran = codes "Ran `" ++ (m.command ++ codes "`\n") in
    let out =
      if is_empty m.output
      then codes "(no output)"
      else codes "```\n" ++ (m.output ++ codes "\n```") in
    let status = if m.cancelled then codes "\n\n(command cancelled)" else exit_note m m.exit_code in
    let more = if m.truncated then output_note m.full_output_path else [] in
    ran ++ (out ++ (status ++ more))
