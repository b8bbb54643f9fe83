-- ===== src/Session/Samples.antt =====
-- Sessions at concrete inputs: tests of the definitions, and uses of the theorems.
use ri.Base.{
  ℕ, ◌+◌, ◌*◌, ◌≡◌, refl, ◌⊎◌, inl, true, false, Option, none, some, List, [], ◌∷◌, ◌++◌, Text,
  codes, arith, last, or_else, filter_map, retain, text_eq, trim, not, if◌then◌else◌, is_whitespace,
  ap,
}
use ri.Base.Int.{pos, show_int}
use ri.Base.Maps.{TextMap, get, insert, contains_key}
use ri.Message.{Host, Message, UserContentValue}
use ri.Session.Entry.{
  SessionTreeEntry, SessionMetadata, SessionMessage, BashExecutionMessage, CompactionFields,
  EntryHead, ok, err, is_leaf, parent_id, entry_not_found, not_found,
}
use ri.Session.Storage.{
  Env, InMemorySessionStorage, append_entry, with_options, generate_entry_id, trimmed_label,
  label_of, build_labels_by_id, non_empty, get_entry, validate_existing_leaf,
}
use ri.Session.Storage.Freshness.{HasFreeId, generate_entry_id_fresh}
use ri.Session.Storage.Invariant.{IsValid, append_entry-IsValid}
use ri.Session.Path.{get_path_to_root, get_path_to_root_or_compaction}
use ri.Session.Path.Ends.{IsPassed, ends_at}
use ri.Session.Path.Cycle.{get_path_to_root_cycle}
use ri.Session.Tree.{append_session_name, normalize_session_name, session_name, branch, is_missing}
use ri.Session.Tree.Steps.{Call, perform, new_head}
use ri.Session.Tree.Branch.{IsPathTo, get_path_to_root_total, or_compaction_total}
use ri.Session.Tree.Growth.{
  entry_of, misses, perform_outcome, perform-branch, move-branch, perform_append,
}
use ri.Session.Tree.Name.{session_name-append}
use ri.Session.Tree.Reach.{empty, empty-IsValid, Reachable, Reachable-IsValid, new, call}
use ri.Session.Tree.Labels.{label-label_of}
use ri.Session.Context.{
  Clock, build_session_context, default_context_entry_transform, derive_session_context_state,
  bash_execution_to_text,
}
use ri.Session.Context.Kept.{Keeps, transform_last}
use ri.Session.Context.State.{level_of, model_of, tools_of, derive_state-last}
use ri.Session.Context.Messages.{append_message-context}

abbrev plain : Host
plain = record { Value = ℕ; Float = ℕ; float_zero = 0 }

-- The i-th id that the n-th call is given.
abbrev env : ℕ → Env
env n = record { now = codes "2026-01-01T00:00:00.000Z"; uuid = λ i. (100 * n + i) ∷ [] }

abbrev meta : SessionMetadata
meta = record { id = codes "s"; created_at = codes "2026-01-01T00:00:00.000Z" }

abbrev hello : Message plain
hello =
    Message.user (record { content = UserContentValue.plain (codes "hello"); timestamp = pos 1 })

abbrev clock : Clock
clock = record { parse_rfc3339 = λ t. none; now_millis = pos 0 }

abbrev start : InMemorySessionStorage plain
start = empty meta

-- One user message.
abbrev first : SessionTreeEntry plain
first =
    entry_of (Call.message hello)
      (record { id = 100 ∷ []; parent_id = none; timestamp = codes "t" })

one : InMemorySessionStorage plain
one = append_entry start first

one-IsValid : IsValid one
unfolding one get
one-IsValid = append_entry-IsValid start first (empty-IsValid meta) refl tt tt

one-HasFreeId : HasFreeId 100 0 (env 2).uuid one.by_id
unfolding one append_entry get insert contains_key text_eq
one-HasFreeId = inl refl

found : (q : SessionTreeEntry plain) × (get one.by_id (100 ∷ []) ≡ some q)
unfolding one append_entry get insert text_eq
found = (first, refl)

perform-branch_example :
    (path : List (SessionTreeEntry plain)) × (s' : InMemorySessionStorage plain) × (branch 1 one
        none
      ≡ some (ok path))
    × (perform (env 2) (env 3) one (Call.thinking_level (codes "high")) ≡ ok s')
    × (branch 2 s' none
        ≡ some (
            ok (path ++ entry_of (Call.thinking_level (codes "high")) (new_head (env 2) one) ∷ [])))
unfolding one append_entry is_missing
perform-branch_example =
    perform-branch (env 2) (env 3) one (Call.thinking_level (codes "high")) 1 one-IsValid
      one-HasFreeId refl refl refl (omega arith)

perform_outcome_example :
    ((misses one (Call.label (7 ∷ []) none) ≡ true)
      × (perform (env 2) (env 3) one (Call.label (7 ∷ []) none)
          ≡ err (entry_not_found not_found (7 ∷ []))))
    ⊎ ((misses one (Call.label (7 ∷ []) none) ≡ false)
        × ((s' : InMemorySessionStorage plain) × (perform
                (env 2)
                (env 3)
                one
                (Call.label (7 ∷ []) none)
              ≡ ok s')
            × IsValid s'))
perform_outcome_example =
    perform_outcome (env 2) (env 3) one (Call.label (7 ∷ []) none) one-IsValid one-HasFreeId

move-branch_example :
    (s' : InMemorySessionStorage plain) × (perform
        (env 2)
        (env 3)
        one
        (Call.move (some (100 ∷ [])) none)
      ≡ ok s')
    × (branch 1 s' none ≡ get_path_to_root_or_compaction 1 (get_entry one) (some (100 ∷ [])))
unfolding one append_entry is_missing get_entry get insert text_eq
move-branch_example =
    move-branch (env 2) (env 3) one (some (100 ∷ [])) 1 one-IsValid one-HasFreeId refl (omega arith)

append_message-context_example :
    (path path' : List (SessionTreeEntry plain)) × (s' : InMemorySessionStorage plain) × (branch 1
        one none
      ≡ some (ok path))
    × (perform (env 2) (env 3) one (Call.message hello) ≡ ok s')
    × (branch 2 s' none ≡ some (ok path'))
    × ((build_session_context clock path').messages
        ≡ (build_session_context clock path).messages ++ SessionMessage.llm hello ∷ [])
unfolding one append_entry
append_message-context_example =
    append_message-context clock (env 2) (env 3) one hello 1 one-IsValid one-HasFreeId (omega arith)

get_path_to_root_total_example :
    (path : List (SessionTreeEntry plain)) × (get_path_to_root 1 one.by_id (some (100 ∷ []))
      ≡ some (ok path))
    × IsPathTo one.by_id (100 ∷ []) path
unfolding one append_entry
get_path_to_root_total_example =
    get_path_to_root_total one (100 ∷ []) 1 one-IsValid found (omega arith)

-- Three messages and a compaction that keeps from the second on.
abbrev head_of : ℕ → Option Text → EntryHead
head_of n p = record { id = n ∷ []; parent_id = p; timestamp = codes "t" }

abbrev note : ℕ → SessionTreeEntry plain
note n = entry_of (Call.message hello) (head_of n none)

abbrev summary : CompactionFields plain
summary = record {
  summary = codes "so far";
  first_kept_entry_id = some (2 ∷ []);
  tokens_before = 10;
  retained_tail = none;
  details = none;
  usage = none;
  from_hook = none;
}

-- Two messages, a compaction that keeps the second, and one more message, each under the last.
abbrev second : SessionTreeEntry plain
second = entry_of (Call.message hello) (head_of 2 (some (100 ∷ [])))

abbrev third : SessionTreeEntry plain
third = SessionTreeEntry.compaction (head_of 3 (some (2 ∷ []))) summary

abbrev fourth : SessionTreeEntry plain
fourth = entry_of (Call.message hello) (head_of 4 (some (3 ∷ [])))

compacted : InMemorySessionStorage plain
compacted = append_entry (append_entry (append_entry one second) third) fourth

compacted-IsValid : IsValid compacted
unfolding compacted one append_entry get insert text_eq
compacted-IsValid =
    append_entry-IsValid (append_entry (append_entry one second) third) fourth
      (append_entry-IsValid (append_entry one second) third
        (append_entry-IsValid one second one-IsValid refl (first, refl) tt) refl (second, refl) tt)
      refl (third, refl) tt

compacted_walk :
    get_path_to_root_or_compaction 4 (get_entry compacted) (some (4 ∷ []))
    ≡ some (ok (second ∷ third ∷ fourth ∷ []))
unfolding compacted one append_entry get_entry get insert text_eq get_path_to_root_or_compaction
    ri.Session.Path.finish_path
compacted_walk = refl

or_compaction_total_example :
    (before : List (SessionTreeEntry plain)) × (e : SessionTreeEntry plain) × (after : List
      (SessionTreeEntry plain))
    × (get_path_to_root 4 compacted.by_id (some (4 ∷ [])) ≡ some (ok (before ++ e ∷ after)))
    × (get_path_to_root_or_compaction 4 (get_entry compacted) (some (4 ∷ []))
        ≡ some (ok (retain (λ d. not (is_leaf d)) (e ∷ after))))
    × IsPassed after
    × ((before ≡ []) ⊎ (ends_at after e ≡ true))
unfolding compacted one append_entry get insert text_eq
or_compaction_total_example =
    or_compaction_total compacted (4 ∷ []) 4 compacted-IsValid (fourth, refl) (omega arith)

transform_last_example :
    default_context_entry_transform (
      (note 1 ∷ note 2 ∷ note 3 ∷ [])
      ++ SessionTreeEntry.compaction (head_of 4 none) summary ∷ note 5 ∷ [])
    ≡ SessionTreeEntry.compaction (head_of 4 none) summary ∷ ((note 2 ∷ note 3 ∷ []) ++ note 5 ∷ [])
unfolding text_eq
transform_last_example =
    transform_last (note 1 ∷ note 2 ∷ note 3 ∷ []) (note 5 ∷ []) (note 2 ∷ note 3 ∷ [])
      (head_of 4 none) summary (refl, (refl, (refl, tt))) (refl, tt)
      (Keeps.from (note 1 ∷ []) (note 2) (note 3 ∷ []) refl refl refl (refl, tt))

generate_entry_id_fresh_example :
    contains_key one.by_id (generate_entry_id (env 2).uuid one.by_id) ≡ false
generate_entry_id_fresh_example = generate_entry_id_fresh (env 2).uuid one.by_id one-HasFreeId

derive_state-last_example :
    let s = derive_session_context_state (note 1 ∷ []) in
    (s.thinking_level ≡ or_else (codes "off") (last (filter_map level_of (note 1 ∷ []))))
    × (s.model ≡ last (filter_map model_of (note 1 ∷ [])))
    × (s.active_tool_names ≡ last (filter_map tools_of (note 1 ∷ [])))
derive_state-last_example = derive_state-last (note 1 ∷ [])

normalize_sample : normalize_session_name (codes " a\n\nb ") ≡ codes "a b"
unfolding normalize_session_name trim is_whitespace
normalize_sample = refl

session_name-append_example :
    (s' : InMemorySessionStorage plain) × (key : Text) × (append_session_name
        (env 2)
        one
        (codes "plan")
      ≡ ok (s', key))
    × (session_name s' ≡ non_empty (normalize_session_name (codes "plan")))
session_name-append_example = session_name-append (env 2) one (codes "plan") one-IsValid

label-label_of_example :
    (s' : InMemorySessionStorage plain) × (perform
        (env 2)
        (env 3)
        one
        (Call.label (100 ∷ []) (some (codes " x ")))
      ≡ ok s')
    × (label_of s' (100 ∷ []) ≡ (
        if text_eq (100 ∷ []) (100 ∷ [])
        then trimmed_label (some (codes " x "))
        else label_of one (100 ∷ [])))
unfolding one append_entry is_missing get_entry get insert text_eq
label-label_of_example =
    label-label_of (env 2) (env 3) one (100 ∷ []) (some (codes " x ")) (100 ∷ []) one-IsValid refl

start-HasFreeId : HasFreeId 100 0 (env 1).uuid start.by_id
unfolding contains_key get
start-HasFreeId = inl refl

start-Reachable : Reachable start
unfolding with_options validate_existing_leaf build_labels_by_id
start-Reachable = new (env 1) (some meta) refl

greeted :
    perform (env 1) (env 2) start (Call.message hello)
    ≡ ok (append_entry start (entry_of (Call.message hello) (new_head (env 1) start)))
unfolding is_missing
greeted = perform_append (env 1) (env 2) start (Call.message hello) (empty-IsValid meta) refl refl

Reachable-IsValid_example :
    IsValid (append_entry start (entry_of (Call.message hello) (new_head (env 1) start)))
Reachable-IsValid_example =
    Reachable-IsValid
      (call (env 1) (env 2) (Call.message hello) start-Reachable start-HasFreeId greeted)

-- A session file may hold an entry that is its own parent.
abbrev own_parent : SessionTreeEntry plain
own_parent = entry_of (Call.message hello) (head_of 1 (some (1 ∷ [])))

abbrev looped : TextMap (SessionTreeEntry plain)
looped = (1 ∷ [], own_parent) ∷ []

looped-closed :
    (e : SessionTreeEntry plain)
    → e ≡ own_parent
    → (p : Text) × (q : SessionTreeEntry plain) × (parent_id e ≡ some p)
      × (get looped p ≡ some q)
      × (q ≡ own_parent)
unfolding get text_eq
looped-closed e h = (1 ∷ [], own_parent, ap parent_id h, refl, refl)

get_path_to_root_cycle_example : get_path_to_root 1000000 looped (some (1 ∷ [])) ≡ none
unfolding get text_eq
get_path_to_root_cycle_example =
    get_path_to_root_cycle looped (λ e. e ≡ own_parent) looped-closed 1000000 (1 ∷ []) own_parent
      refl refl

ran : BashExecutionMessage
ran = record {
  command = codes "ls";
  output = [];
  exit_code = some (pos 2);
  cancelled = false;
  truncated = false;
  full_output_path = none;
  timestamp = pos 0;
  exclude_from_context = false;
}

bash_sample :
    bash_execution_to_text ran ≡ codes "Ran `ls`\n(no output)\n\nCommand exited with code 2"
unfolding ran bash_execution_to_text show_int
bash_sample = refl
