-- ===== src/Compaction/Branch.antt =====
-- `prepare_branch_entries` of compaction.rs: what is summarised of a branch that is left, within a
-- budget of tokens.
pub mod Budget
use ri.Base.{
  u64_mod, ℕ, ◌+◌, ◌*◌, ◌-◌, Bool, true, false, not, ◌&&◌, Option, none, some, List, [], ◌∷◌, Text,
  codes, ltb, if◌then◌else◌, reverse, or_else,
}
use ri.Base.Maps.{TextMap}
use ri.Message.{Host, Message}
use ri.Session.Entry.{SessionTreeEntry, SessionEntryMessage, SessionMessage}
use ri.Session.Context.{Clock}
use ri.Compaction.Estimate.{estimate_session_message_tokens}
use ri.Compaction.Files.{
  Json, FileOperations, create_file_ops, extract_file_ops_from_message, add_string_array_field,
}
use ri.Compaction.Prepare.{get_message_from_entry}

pub record BranchPreparation (H : Host) : Type 0 where
  pub messages : List (SessionMessage H)
  pub file_ops : FileOperations
  pub total_tokens : ℕ

-- `saturating_mul` of `u64`.
abbrev pub saturating_mul : ℕ → ℕ → ℕ
saturating_mul a b = if ltb (a * b) u64_mod then a * b else 18446744073709551615

module _ {H : Host} where
  unfoldable pub get_message_from_entry_for_branch_summary :
      Clock → SessionTreeEntry H → Option (SessionMessage H)
  get_message_from_entry_for_branch_summary clock
        (SessionTreeEntry.message h (SessionEntryMessage.llm (Message.tool_result m))) =
      none
  get_message_from_entry_for_branch_summary clock e = get_message_from_entry clock e

  unfoldable pub is_summary : SessionTreeEntry H → Bool
  is_summary (SessionTreeEntry.compaction h c) = true
  is_summary (SessionTreeEntry.branch_summary h f s d u k) = true
  is_summary _ = false

module _ {H : Host} (json : Json H) where
  add_details : Option H.Value → FileOperations → FileOperations
  add_details none ops = ops
  add_details (some details) ops = record ops {
    read = add_string_array_field json details (codes "readFiles") ops.read;
    edited = add_string_array_field json details (codes "modifiedFiles") ops.edited;
  }

  note_summary : SessionTreeEntry H → FileOperations → FileOperations
  unfolding add_details
  note_summary (SessionTreeEntry.branch_summary h f s details u from_hook) ops =
      if or_else false from_hook then ops else add_details details ops
  note_summary _ ops = ops

  -- The first loop.
  unfoldable pub note_summaries : List (SessionTreeEntry H) → FileOperations → FileOperations
  unfolding note_summary
  note_summaries [] ops = ops
  note_summaries (e ∷ es) ops = note_summaries es (note_summary e ops)

module _ {H : Host} (to_string : TextMap H.Value → Option Text) (json : Json H)
    (clock : Clock) where
  -- `messages.insert(0, message)`, with its tokens.
  unfoldable pub insert_front : SessionMessage H → BranchPreparation H → BranchPreparation H
  insert_front m p = record p {
    messages = m ∷ p.messages;
    total_tokens = p.total_tokens + estimate_session_message_tokens to_string m;
  }

  -- One pass of the second loop, with the message of the entry; `later` is what the passes after
  -- it do.
  unfoldable pub gather_one :
      ℕ
      → SessionTreeEntry H
      → Option (SessionMessage H)
      → (BranchPreparation H → BranchPreparation H)
      → BranchPreparation H
      → BranchPreparation H
  gather_one budget e none later p = later p
  gather_one budget e (some m) later p =
      let noted = record p { file_ops = extract_file_ops_from_message json m p.file_ops } in
      let tokens = estimate_session_message_tokens to_string m in
      if ltb 0 budget && ltb budget (p.total_tokens + tokens)
      then (if is_summary e && ltb (saturating_mul p.total_tokens 10) (saturating_mul budget 9)
          then insert_front m noted
          else noted)
      else later (insert_front m noted)

  -- The second loop, over the entries from the last.
  unfoldable pub gather : ℕ → List (SessionTreeEntry H) → BranchPreparation H → BranchPreparation H
  gather budget [] p = p
  gather budget (e ∷ es) p =
      gather_one budget e (get_message_from_entry_for_branch_summary clock e) (gather budget es) p

  unfoldable pub prepare_branch_entries : List (SessionTreeEntry H) → ℕ → BranchPreparation H
  prepare_branch_entries entries token_budget = gather token_budget (reverse entries) (record {
    messages = [];
    file_ops = note_summaries json entries create_file_ops;
    total_tokens = 0;
  })
