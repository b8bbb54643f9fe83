-- ===== src/Session/Entry.antt =====
-- Session entries and errors: the data of crates/ri-agent-core/src/harness/session.rs.
use ri.Base.{ℕ, Bool, Option, List, Text, false, true, codes, ◌++◌}
use ri.Base.Int.{ℤ}
use ri.Message.{Host, Message, Usage, UserContent}

pub data SessionErrorCode : Type 0 where
  not_found invalid_session invalid_entry invalid_fork_target storage unknown : SessionErrorCode

pub record SessionError : Type 0 where
  pub code : SessionErrorCode
  pub message : Text

pub data Result {ℓ} (A : Type ℓ) : Type ℓ where
  ok : A → Result A
  err : SessionError → Result A

-- `Entry {id} not found`, under a code.
abbrev pub entry_not_found : SessionErrorCode → Text → SessionError
entry_not_found code id = record {
  code = code;
  message = codes "Entry " ++ (id ++ codes " not found");
}

-- The operator `?` of the source.
infixl 5 ◌>>=◌ ◌>>◌
abbrev pub ◌>>=◌ {ℓ κ} : {X : Type ℓ} {Y : Type κ} → Result X → (X → Result Y) → Result Y
◌>>=◌ (err failure) next = err failure
◌>>=◌ (ok x) next = next x

abbrev pub ◌>>◌ {ℓ} : {Y : Type ℓ} → Result (Unit {0}) → Result Y → Result Y
check >> rest = check >>= λ _. rest

pub record SessionMetadata : Type 0 where
  pub id : Text
  pub created_at : Text

pub data CustomMessageContent : Type 0 where
  text : Text → CustomMessageContent
  blocks : List UserContent → CustomMessageContent

pub record BashExecutionMessage : Type 0 where
  pub command : Text
  pub output : Text
  pub exit_code : Option ℤ
  pub cancelled : Bool
  pub truncated : Bool
  pub full_output_path : Option Text
  pub timestamp : ℤ
  pub exclude_from_context : Bool

pub data SessionEntryMessage (H : Host) : Type 0 where
  llm : Message H → SessionEntryMessage H
  bash_execution : BashExecutionMessage → SessionEntryMessage H

pub data SessionMessage (H : Host) : Type 0 where
  llm : Message H → SessionMessage H
  bash_execution : BashExecutionMessage → SessionMessage H
  custom :
      (custom_type : Text) (content : CustomMessageContent) (display : Bool)
      (details : Option H.Value) (timestamp : ℤ)
      → SessionMessage H
  branch_summary : (summary : Text) (from_id : Text) (timestamp : ℤ) → SessionMessage H
  compaction_summary : (summary : Text) (tokens_before : ℕ) (timestamp : ℤ) → SessionMessage H

-- The fields that every variant of `SessionTreeEntry` begins with.
pub record EntryHead : Type 0 where
  pub id : Text
  pub parent_id : Option Text
  pub timestamp : Text

pub record CompactionFields (H : Host) : Type 0 where
  pub summary : Text
  pub first_kept_entry_id : Option Text
  pub tokens_before : ℕ
  pub retained_tail : Option (List (SessionEntryMessage H))
  pub details : Option H.Value
  pub usage : Option (Usage H)
  pub from_hook : Option Bool

pub data SessionTreeEntry (H : Host) : Type 0 where
  message : EntryHead → SessionEntryMessage H → SessionTreeEntry H
  thinking_level_change : EntryHead → (thinking_level : Text) → SessionTreeEntry H
  active_tools_change : EntryHead → (active_tool_names : List Text) → SessionTreeEntry H
  model_change : EntryHead → (provider model_id : Text) → SessionTreeEntry H
  compaction : EntryHead → CompactionFields H → SessionTreeEntry H
  branch_summary :
      EntryHead
      → (from_id summary : Text) (details : Option H.Value) (usage : Option (Usage H))
        (from_hook : Option Bool)
      → SessionTreeEntry H
  custom : EntryHead → (custom_type : Text) (payload : Option H.Value) → SessionTreeEntry H
  custom_message :
      EntryHead
      → (custom_type : Text) (content : CustomMessageContent) (display : Bool)
        (details : Option H.Value)
      → SessionTreeEntry H
  label : EntryHead → (target_id : Text) (label : Option Text) → SessionTreeEntry H
  session_info : EntryHead → (name : Option Text) → SessionTreeEntry H
  leaf : EntryHead → (target_id : Option Text) → SessionTreeEntry H

module _ {H : Host} where
  abbrev pub head : SessionTreeEntry H → EntryHead
  head (message h m) = h
  head (thinking_level_change h t) = h
  head (active_tools_change h n) = h
  head (model_change h p m) = h
  head (compaction h c) = h
  head (branch_summary h f s d u k) = h
  head (custom h t d) = h
  head (custom_message h t c s d) = h
  head (label h t l) = h
  head (session_info h n) = h
  head (leaf h t) = h

  abbrev pub id : SessionTreeEntry H → Text
  id e = (head e).id

  abbrev pub parent_id : SessionTreeEntry H → Option Text
  parent_id e = (head e).parent_id

  abbrev pub is_leaf : SessionTreeEntry H → Bool
  is_leaf (leaf h t) = true
  is_leaf _ = false

  unfoldable pub entry_type : SessionTreeEntry H → Text
  entry_type (message h m) = codes "message"
  entry_type (thinking_level_change h t) = codes "thinking_level_change"
  entry_type (active_tools_change h n) = codes "active_tools_change"
  entry_type (model_change h p m) = codes "model_change"
  entry_type (compaction h c) = codes "compaction"
  entry_type (branch_summary h f s d u k) = codes "branch_summary"
  entry_type (custom h t d) = codes "custom"
  entry_type (custom_message h t c s d) = codes "custom_message"
  entry_type (label h t l) = codes "label"
  entry_type (session_info h n) = codes "session_info"
  entry_type (leaf h t) = codes "leaf"
