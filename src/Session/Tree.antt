-- ===== src/Session/Tree.antt =====
-- `Session` of crates/ri-agent-core/src/harness/session.rs, over the in-memory storage: the appends,
-- the moves of the leaf, and the reads of the active branch. A method that changes the storage
-- returns the new one; one that fails has changed nothing.
pub mod Name
pub mod Steps
pub mod Branch
pub mod Growth
pub mod Reach
pub mod Labels
use ri.Base.{
  ℕ, Bool, true, false, not, ◌&&◌, ◌||◌, Option, none, some, List, [], ◌∷◌, ◌++◌, Text, codes,
  if◌then◌else◌, ◌==◌, is_some, is_empty, last, trim, text_eq,
}
use ri.Message.{Host, Message, Usage}
use ri.Session.Entry.{
  SessionTreeEntry, EntryHead, CompactionFields, SessionEntryMessage, BashExecutionMessage,
  CustomMessageContent, Result, ok, err, ◌>>=◌, ◌>>◌, entry_not_found, not_found, message,
  thinking_level_change, active_tools_change, model_change, compaction, branch_summary, custom,
  custom_message, label, session_info, leaf, id, SessionMetadata,
}
use ri.Session.Entry
use ri.Session.Storage.{
  Env, InMemorySessionStorage, current_leaf, create_entry_id, set_leaf_id, append_entry, get_entry,
  find_entries, non_empty, label_of,
}
use ri.Session.Path.{get_path_to_root_or_compaction}

pub record BranchMoveSummary (H : Host) : Type 0 where
  pub summary : Text
  pub details : Option H.Value
  pub usage : Option (Usage H)
  pub from_hook : Option Bool

is_newline : ℕ → Bool
is_newline c = c == b'\r' || c == b'\n'

-- The loop of `normalize_session_name`, with its flag.
collapse_newlines : Bool → Text → Text
unfolding is_newline
collapse_newlines in_newline_run [] = []
collapse_newlines in_newline_run (c ∷ s) =
    let run = collapse_newlines true s in
    let rest = collapse_newlines false s in
    if is_newline c then (if in_newline_run then run else b' ' ∷ run) else c ∷ rest

unfoldable pub normalize_session_name : Text → Text
unfolding collapse_newlines
normalize_session_name name = trim (collapse_newlines false name)

abbrev pub or_root : Option Text → Text
or_root none = codes "root"
or_root (some k) = k

abbrev pub trimmed_name : Option Text → Option Text
trimmed_name none = none
trimmed_name (some name) = non_empty (trim name)

module _ {H : Host} where
  -- What every append does: a new id, the current leaf as the parent, and the entry at the end.
  pub append_with :
      Env
      → InMemorySessionStorage H
      → (EntryHead → SessionTreeEntry H)
      → Result (InMemorySessionStorage H × Text)
  append_with env s make = do
    parent ← current_leaf s
    let entry =
        make (record { id = create_entry_id env s; parent_id = parent; timestamp = env.now })
    ok (append_entry s entry, id entry)

  unfoldable pub append_message :
      Env → InMemorySessionStorage H → Message H → Result (InMemorySessionStorage H × Text)
  unfolding append_with
  append_message env s m = append_with env s (λ h. message h (SessionEntryMessage.llm m))

  unfoldable pub append_bash_execution :
      Env
      → InMemorySessionStorage H
      → BashExecutionMessage
      → Result (InMemorySessionStorage H × Text)
  unfolding append_with
  append_bash_execution env s m =
      append_with env s (λ h. message h (SessionEntryMessage.bash_execution m))

  unfoldable pub append_thinking_level_change :
      Env → InMemorySessionStorage H → Text → Result (InMemorySessionStorage H × Text)
  unfolding append_with
  append_thinking_level_change env s level = append_with env s (λ h. thinking_level_change h level)

  unfoldable pub append_model_change :
      Env → InMemorySessionStorage H → Text → Text → Result (InMemorySessionStorage H × Text)
  unfolding append_with
  append_model_change env s provider model_id =
      append_with env s (λ h. model_change h provider model_id)

  unfoldable pub append_compaction_entry :
      Env → InMemorySessionStorage H → CompactionFields H → Result (InMemorySessionStorage H × Text)
  unfolding append_with
  append_compaction_entry env s c = append_with env s (λ h. compaction h c)

  -- The method that keeps the entries from `first_kept_entry_id` on, with no retained tail.
  unfoldable pub append_compaction_with_usage :
      Env
      → InMemorySessionStorage H
      → (summary first_kept_entry_id : Text) (tokens_before : ℕ) (details : Option H.Value)
        (from_hook : Option Bool) (usage : Option (Usage H))
      → Result (InMemorySessionStorage H × Text)
  unfolding append_compaction_entry
  append_compaction_with_usage env s summary first_kept tokens details from_hook usage =
      append_compaction_entry env s (record {
        summary = summary;
        first_kept_entry_id = some first_kept;
        tokens_before = tokens;
        retained_tail = none;
        details = details;
        usage = usage;
        from_hook = from_hook;
      })

  unfoldable pub append_custom_entry :
      Env
      → InMemorySessionStorage H
      → Text
      → Option H.Value
      → Result (InMemorySessionStorage H × Text)
  unfolding append_with
  append_custom_entry env s custom_type payload =
      append_with env s (λ h. custom h custom_type payload)

  unfoldable pub append_custom_message_entry :
      Env
      → InMemorySessionStorage H
      → Text
      → CustomMessageContent
      → Bool
      → Option H.Value
      → Result (InMemorySessionStorage H × Text)
  unfolding append_with
  append_custom_message_entry env s custom_type content display details =
      append_with env s (λ h. custom_message h custom_type content display details)

  unfoldable pub append_label :
      Env → InMemorySessionStorage H → Text → Option Text → Result (InMemorySessionStorage H × Text)
  unfolding append_with
  append_label env s target l =
      if not (is_some (get_entry s target))
      then err (entry_not_found not_found target)
      else append_with env s (λ h. label h target l)

  unfoldable pub append_session_name :
      Env → InMemorySessionStorage H → Text → Result (InMemorySessionStorage H × Text)
  unfolding append_with
  append_session_name env s name =
      append_with env s (λ h. session_info h (some (normalize_session_name name)))

  unfoldable pub append_active_tools_change :
      Env → InMemorySessionStorage H → List Text → Result (InMemorySessionStorage H × Text)
  unfolding append_with
  append_active_tools_change env s names = append_with env s (λ h. active_tools_change h names)

  -- The summary of the branch that is left, under the entry moved to.
  unfoldable pub summary_entry :
      Env → InMemorySessionStorage H → Option Text → BranchMoveSummary H → SessionTreeEntry H
  summary_entry env s entry_id summary =
      let from_id = or_root entry_id in
      branch_summary
        (record {
          id = create_entry_id env s;
          parent_id = if not (text_eq from_id (codes "root")) then some from_id else none;
          timestamp = env.now;
        })
        from_id summary.summary summary.details summary.usage summary.from_hook

  unfoldable pub is_missing : InMemorySessionStorage H → Option Text → Bool
  is_missing s none = false
  is_missing s (some k) = not (is_some (get_entry s k))

  pub summarise :
      Env
      → InMemorySessionStorage H
      → Option Text
      → Option (BranchMoveSummary H)
      → InMemorySessionStorage H × Option Text
  unfolding summary_entry
  summarise env s entry_id none = (s, none)
  summarise env s entry_id (some summary) =
      let entry = summary_entry env s entry_id summary in (append_entry s entry, some (id entry))

  -- The first environment serves the leaf marker, the second the summary.
  unfoldable pub move_to :
      Env
      → Env
      → InMemorySessionStorage H
      → Option Text
      → Option (BranchMoveSummary H)
      → Result (InMemorySessionStorage H × Option Text)
  unfolding is_missing summarise
  move_to env env' s entry_id summary =
      if is_missing s entry_id
      then err (entry_not_found not_found (or_root entry_id))
      else (set_leaf_id env s entry_id >>= λ s'. ok (summarise env' s' entry_id summary))

  branch_from :
      ℕ
      → InMemorySessionStorage H
      → Result (Option Text)
      → Option (Result (List (SessionTreeEntry H)))
  branch_from fuel s (err e) = some (err e)
  branch_from fuel s (ok leaf_id) = get_path_to_root_or_compaction fuel (get_entry s) leaf_id

  -- The active branch; the fuel is that of the walk.
  unfoldable pub branch :
      ℕ → InMemorySessionStorage H → Option Text → Option (Result (List (SessionTreeEntry H)))
  unfolding branch_from
  branch fuel s none = branch_from fuel s (current_leaf s)
  branch fuel s (some from_id) = branch_from fuel s (ok (some from_id))

  unfoldable pub names_of : List (SessionTreeEntry H) → List Text
  names_of [] = []
  names_of (session_info h (some name) ∷ es) = name ∷ names_of es
  names_of (e ∷ es) = names_of es

  unfoldable pub session_name : InMemorySessionStorage H → Option Text
  unfolding names_of
  session_name s = trimmed_name (last (names_of (find_entries s (codes "session_info"))))
