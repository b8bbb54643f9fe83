-- ===== src/Session/Storage.antt =====
-- `InMemorySessionStorage` of crates/ri-agent-core/src/harness/session.rs, with the helpers that
-- it shares with the other backends. An operation that changes the storage returns the new one.
pub mod Freshness
pub mod Labels
pub mod Invariant
use ri.Base.{
  ℕ, zero, suc, ◌-◌, Bool, true, false, not, Option, none, some, List, [], ◌∷◌, ◌++◌, Text,
  if◌then◌else◌, length, drop, retain, is_empty, trim, text_eq, ◌<◌, ◌≤◌,
}
use ri.Base.Maps.{TextMap, get, insert, remove, contains_key}
use ri.Message.{Host}
use ri.Session.Entry.{
  SessionTreeEntry, SessionMetadata, EntryHead, SessionErrorCode, SessionError, Result, ok, err,
  ◌>>=◌, ◌>>◌, entry_not_found, not_found, invalid_session, leaf, label, message, id, entry_type,
}

-- What one operation takes from outside: the time, and the results of its calls of `uuidv7`.
pub record Env : Type 0 where
  pub now : Text
  pub uuid : ℕ → Text

-- The metadata of a new session, where none is given.
abbrev pub or_new : Env → Option SessionMetadata → SessionMetadata
or_new env none = record { id = env.uuid 0; created_at = env.now }
or_new env (some m) = m

-- The last eight characters of a `uuidv7`, which is ASCII.
abbrev pub short_id : Text → Text
short_id full = drop (length full - 8) full

-- The loop of `generate_entry_id`, with the rounds left and the number of the next call.
unfoldable pub try_ids : {V : Type 0} → ℕ → ℕ → (ℕ → Text) → TextMap V → Text
try_ids zero i uuid by_id = uuid i
try_ids (suc n) i uuid by_id =
    let rest = try_ids n (suc i) uuid by_id in
    if not (contains_key by_id (short_id (uuid i))) then short_id (uuid i) else rest

unfoldable pub generate_entry_id : {V : Type 0} → (ℕ → Text) → TextMap V → Text
generate_entry_id uuid by_id = try_ids 100 0 uuid by_id

abbrev pub non_empty : Text → Option Text
non_empty t = if is_empty t then none else some t

-- `label.as_deref().map(str::trim).filter(|label| !label.is_empty())`.
abbrev pub trimmed_label : Option Text → Option Text
trimmed_label none = none
trimmed_label (some l) = non_empty (trim l)

set_or_remove : TextMap Text → Text → Option Text → TextMap Text
set_or_remove labels target (some l) = insert labels target l
set_or_remove labels target none = remove labels target

module _ {H : Host} where
  unfoldable pub leaf_id_after_entry : SessionTreeEntry H → Option Text
  leaf_id_after_entry (leaf h target) = target
  leaf_id_after_entry e = some (id e)

  unfoldable pub update_label_cache : TextMap Text → SessionTreeEntry H → TextMap Text
  unfolding set_or_remove
  update_label_cache labels (label h target l) = set_or_remove labels target (trimmed_label l)
  update_label_cache labels e = labels

  unfoldable pub labels_after : TextMap Text → List (SessionTreeEntry H) → TextMap Text
  labels_after labels [] = labels
  labels_after labels (e ∷ es) = labels_after (update_label_cache labels e) es

  unfoldable pub build_labels_by_id : List (SessionTreeEntry H) → TextMap Text
  unfolding labels_after
  build_labels_by_id es = labels_after [] es

  validate_under : SessionErrorCode → TextMap (SessionTreeEntry H) → Option Text → Result (Unit {0})
  validate_under code by_id none = ok tt
  validate_under code by_id (some leaf_id) =
      if not (contains_key by_id leaf_id) then err (entry_not_found code leaf_id) else ok tt

  unfoldable pub validate_leaf : TextMap (SessionTreeEntry H) → Option Text → Result (Unit {0})
  unfolding validate_under
  validate_leaf = validate_under not_found

  unfoldable pub validate_existing_leaf :
      TextMap (SessionTreeEntry H) → Option Text → Result (Unit {0})
  unfolding validate_under
  validate_existing_leaf = validate_under invalid_session

pub record InMemorySessionStorage (H : Host) : Type 0 where
  pub metadata : SessionMetadata
  pub entries : List (SessionTreeEntry H)
  pub by_id : TextMap (SessionTreeEntry H)
  pub labels_by_id : TextMap Text
  pub leaf_id : Option Text

module _ {H : Host} where
  -- `entries.iter().map(|entry| (entry.id(), entry)).collect()`: a later entry wins.
  unfoldable pub collect_by_id :
      TextMap (SessionTreeEntry H) → List (SessionTreeEntry H) → TextMap (SessionTreeEntry H)
  collect_by_id by_id [] = by_id
  collect_by_id by_id (e ∷ es) = collect_by_id (insert by_id (id e) e) es

  unfoldable pub leaf_id_after : Option Text → List (SessionTreeEntry H) → Option Text
  leaf_id_after leaf_id [] = leaf_id
  leaf_id_after leaf_id (e ∷ es) = leaf_id_after (leaf_id_after_entry e) es

  abbrev pub or_empty : Option (List (SessionTreeEntry H)) → List (SessionTreeEntry H)
  or_empty none = []
  or_empty (some es) = es

  unfoldable pub with_options :
      Env
      → Option (List (SessionTreeEntry H))
      → Option SessionMetadata
      → Result (InMemorySessionStorage H)
  unfolding collect_by_id leaf_id_after
  with_options env given metadata =
      let entries = or_empty given in
      let by_id = collect_by_id [] entries in
      let leaf_id = leaf_id_after none entries in
      validate_existing_leaf by_id leaf_id
      >> ok (record {
        metadata = or_new env metadata;
        entries = entries;
        by_id = by_id;
        labels_by_id = build_labels_by_id entries;
        leaf_id = leaf_id;
      })

  -- The method `leaf_id`, which checks the field.
  unfoldable pub current_leaf : InMemorySessionStorage H → Result (Option Text)
  current_leaf s = validate_existing_leaf s.by_id s.leaf_id >> ok s.leaf_id

  unfoldable pub create_entry_id : Env → InMemorySessionStorage H → Text
  create_entry_id env s = generate_entry_id env.uuid s.by_id

  unfoldable pub leaf_entry : Env → InMemorySessionStorage H → Option Text → SessionTreeEntry H
  leaf_entry env s target =
      leaf
        (record {
          id = generate_entry_id env.uuid s.by_id;
          parent_id = s.leaf_id;
          timestamp = env.now;
        })
        target

  unfoldable pub set_leaf_id :
      Env → InMemorySessionStorage H → Option Text → Result (InMemorySessionStorage H)
  unfolding leaf_entry
  set_leaf_id env s target =
      let entry = leaf_entry env s target in
      validate_leaf s.by_id target
      >> ok (record s {
        entries = s.entries ++ entry ∷ [];
        by_id = insert s.by_id (id entry) entry;
        leaf_id = target;
      })

  unfoldable pub append_entry :
      InMemorySessionStorage H → SessionTreeEntry H → InMemorySessionStorage H
  append_entry s entry = record s {
    entries = s.entries ++ entry ∷ [];
    by_id = insert s.by_id (id entry) entry;
    labels_by_id = update_label_cache s.labels_by_id entry;
    leaf_id = leaf_id_after_entry entry;
  }

  unfoldable pub get_entry : InMemorySessionStorage H → Text → Option (SessionTreeEntry H)
  get_entry s k = get s.by_id k

  unfoldable pub find_entries : InMemorySessionStorage H → Text → List (SessionTreeEntry H)
  find_entries s wanted = retain (λ e. text_eq (entry_type e) wanted) s.entries

  unfoldable pub label_of : InMemorySessionStorage H → Text → Option Text
  label_of s k = get s.labels_by_id k
