-- ===== src/Compaction/Files.antt =====
-- The files that compaction.rs finds in a conversation. `Json` stands for what `serde_json` tells of
-- a value.
use ri.Base.{
  Bool, true, false, Option, none, some, List, [], ◌∷◌, Text, codes, text_eq, if◌then◌else◌,
  or_else,
}
use ri.Base.Maps.{get}
use ri.Base.Sets.{set_insert}
use ri.Message.{Host, Message, AssistantContent}
use ri.Session.Entry.{SessionMessage, CompactionFields}

pub record Json (H : Host) : Type 0 where
  pub as_str : H.Value → Option Text
  pub as_array : H.Value → Option (List H.Value)
  pub field : H.Value → Text → Option H.Value

-- Each is a `BTreeSet<String>`.
pub record FileOperations : Type 0 where
  pub read : List Text
  pub written : List Text
  pub edited : List Text

abbrev pub create_file_ops : FileOperations
create_file_ops = record { read = []; written = []; edited = [] }

-- An edit to `ops` under the name of a tool, at a path.
unfoldable pub note_path : Text → Text → FileOperations → FileOperations
note_path name path ops =
    if text_eq name (codes "read")
    then record ops { read = set_insert ops.read path }
    else if text_eq name (codes "write")
    then record ops { written = set_insert ops.written path }
    else if text_eq name (codes "edit")
    then record ops { edited = set_insert ops.edited path }
    else ops

module _ {H : Host} (json : Json H) where
  string_of : Option H.Value → Option Text
  string_of none = none
  string_of (some v) = json.as_str v

  note_at : Text → Option Text → FileOperations → FileOperations
  note_at name none ops = ops
  note_at name (some path) ops = note_path name path ops

  note_block : AssistantContent H → FileOperations → FileOperations
  unfolding string_of note_at
  note_block (AssistantContent.tool_call c) ops =
      note_at c.name (string_of (get c.arguments (codes "path"))) ops
  note_block _ ops = ops

  note_blocks : List (AssistantContent H) → FileOperations → FileOperations
  unfolding note_block
  note_blocks [] ops = ops
  note_blocks (b ∷ bs) ops = note_blocks bs (note_block b ops)

  unfoldable pub extract_file_ops_from_message : SessionMessage H → FileOperations → FileOperations
  unfolding note_blocks
  extract_file_ops_from_message (SessionMessage.llm (Message.assistant m)) ops =
      note_blocks m.content ops
  extract_file_ops_from_message _ ops = ops

  unfoldable pub extract_from_all : List (SessionMessage H) → FileOperations → FileOperations
  extract_from_all [] ops = ops
  extract_from_all (m ∷ ms) ops = extract_from_all ms (extract_file_ops_from_message m ops)

  insert_strings : List H.Value → List Text → List Text
  insert_strings [] target = target
  insert_strings (v ∷ vs) target = insert_strings vs (insert_one (json.as_str v) target)
    where
      insert_one : Option Text → List Text → List Text
      insert_one none target = target
      insert_one (some path) target = set_insert target path

  array_of : Option H.Value → List H.Value
  array_of none = []
  array_of (some v) = or_else [] (json.as_array v)

  unfoldable pub add_string_array_field : H.Value → Text → List Text → List Text
  unfolding insert_strings array_of
  add_string_array_field value name target =
      insert_strings (array_of (json.field value name)) target

  unfoldable pub from_details : Bool → Option H.Value → FileOperations
  from_details true details = create_file_ops
  from_details false none = create_file_ops
  from_details false (some details) = record {
    read = add_string_array_field details (codes "readFiles") [];
    written = [];
    edited = add_string_array_field details (codes "modifiedFiles") [];
  }

  -- The last compaction is given by its fields.
  unfoldable pub extract_file_operations :
      List (SessionMessage H) → Option (CompactionFields H) → FileOperations
  extract_file_operations messages none = extract_from_all messages create_file_ops
  extract_file_operations messages (some c) =
      extract_from_all messages (from_details (or_else false c.from_hook) c.details)
