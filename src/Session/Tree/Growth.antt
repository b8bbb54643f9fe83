-- ===== src/Session/Tree/Growth.antt =====
-- What each method of `Session` in session.rs does to the tree and to its active branch: an append
-- puts one entry at the end, a move changes the branch, and a missing target is refused.
use ri.Base.{
  ℕ, suc, ◌≤◌, ◌≡◌, refl, sym, ap, ◌⊎◌, inl, inr, Bool, true, false, Option, none, some, List, [],
  ◌∷◌, ◌++◌, Text, length, Bool-cases, subst,
}
use ri.Base.Maps.{get}
use ri.Message.{Host}
use ri.Session.Entry.{
  SessionTreeEntry, EntryHead, SessionEntryMessage, ok, err, entry_not_found, not_found, head, id,
  is_leaf, leaf,
}
use ri.Session.Storage.{Env, InMemorySessionStorage, append_entry, get_entry, leaf_entry}
use ri.Session.Storage.Freshness.{HasFreeId}
use ri.Session.Storage.Invariant.{IsValid, fresh_id}
use ri.Session.Path.{get_path_to_root_or_compaction}
use ri.Session.Tree.{
  append_message, append_bash_execution, append_thinking_level_change, append_model_change,
  append_compaction_entry, append_custom_entry, append_custom_message_entry, append_label,
  append_session_name, append_active_tools_change, normalize_session_name, is_missing, summarise,
  branch, or_root,
}
use ri.Session.Tree.Steps.{
  Call, message, bash, thinking_level, model, compaction, custom, custom_message, label, name,
  active_tools, move, perform, storage_of, new_head, Supplies, append_with_ok, move_to_ok,
  move_to_missing, IsKnown-of_found, perform-IsValid,
}
use ri.Session.Tree.Branch.{append_entry-branch, is_compaction, moved_walk}

module _ {H : Host} where
  -- The entry that a call adds; the leaf marker for a move.
  abbrev pub entry_of : Call H → EntryHead → SessionTreeEntry H
  entry_of (message m) d = SessionTreeEntry.message d (SessionEntryMessage.llm m)
  entry_of (bash m) d = SessionTreeEntry.message d (SessionEntryMessage.bash_execution m)
  entry_of (thinking_level l) d = SessionTreeEntry.thinking_level_change d l
  entry_of (model p m) d = SessionTreeEntry.model_change d p m
  entry_of (compaction c) d = SessionTreeEntry.compaction d c
  entry_of (custom t x) d = SessionTreeEntry.custom d t x
  entry_of (custom_message t c b x) d = SessionTreeEntry.custom_message d t c b x
  entry_of (label t l) d = SessionTreeEntry.label d t l
  entry_of (name n) d = SessionTreeEntry.session_info d (some (normalize_session_name n))
  entry_of (active_tools n) d = SessionTreeEntry.active_tools_change d n
  entry_of (move k summary) d = leaf d k

  -- The entry that a call points to.
  abbrev pub points_to : Call H → Option Text
  points_to (label t l) = some t
  points_to (move k summary) = k
  points_to _ = none

  abbrev pub is_move : Call H → Bool
  is_move (move k summary) = true
  is_move _ = false

  -- The call points to an entry that is not there.
  abbrev pub misses : InMemorySessionStorage H → Call H → Bool
  misses s c = is_missing s (points_to c)

  label_ok :
      (env : Env) (s : InMemorySessionStorage H) (t : Text) (l : Option Text)
      → IsValid s
      → is_missing s (some t) ≡ false
      → storage_of (append_label env s t l)
        ≡ ok (append_entry s (SessionTreeEntry.label (new_head env s) t l))
  unfolding append_label is_missing
  label_ok env s t l v found =
      rw (found, append_with_ok env s (λ (d : EntryHead). SessionTreeEntry.label d t l) v)

  pub perform_append :
      (env env' : Env) (s : InMemorySessionStorage H) (c : Call H)
      → IsValid s
      → is_move c ≡ false
      → misses s c ≡ false
      → perform env env' s c ≡ ok (append_entry s (entry_of c (new_head env s)))
  unfolding perform append_message append_bash_execution append_thinking_level_change
      append_model_change append_compaction_entry append_custom_entry append_custom_message_entry
      append_session_name append_active_tools_change
  perform_append env env' s (label t l) v n found = label_ok env s t l v found
  perform_append env env' s (move k summary) v n found = cc
  perform_append env env' s (message m) v n found =
      ap storage_of (append_with_ok env s (entry_of (message m)) v)
  perform_append env env' s (bash m) v n found =
      ap storage_of (append_with_ok env s (entry_of (bash m)) v)
  perform_append env env' s (thinking_level l) v n found =
      ap storage_of (append_with_ok env s (entry_of (thinking_level l)) v)
  perform_append env env' s (model p m) v n found =
      ap storage_of (append_with_ok env s (entry_of (model p m)) v)
  perform_append env env' s (compaction c) v n found =
      ap storage_of (append_with_ok env s (entry_of (compaction c)) v)
  perform_append env env' s (custom t x) v n found =
      ap storage_of (append_with_ok env s (entry_of (custom t x)) v)
  perform_append env env' s (custom_message t c b x) v n found =
      ap storage_of (append_with_ok env s (entry_of (custom_message t c b x)) v)
  perform_append env env' s (name x) v n found =
      ap storage_of (append_with_ok env s (entry_of (name x)) v)
  perform_append env env' s (active_tools x) v n found =
      ap storage_of (append_with_ok env s (entry_of (active_tools x)) v)

  perform-misses :
      (env env' : Env) (s : InMemorySessionStorage H) (c : Call H)
      → misses s c ≡ true
      → perform env env' s c ≡ err (entry_not_found not_found (or_root (points_to c)))
  unfolding perform append_label is_missing
  perform-misses env env' s (label t l) h = rw h
  perform-misses env env' s (move k summary) h =
      ap storage_of (move_to_missing env env' s k summary h)
  perform-misses env env' s c h = cc

  perform_found :
      (env env' : Env) (s : InMemorySessionStorage H) (c : Call H)
      → IsValid s
      → misses s c ≡ false
      → (s' : InMemorySessionStorage H) × (perform env env' s c ≡ ok s')
  unfolding perform
  perform_found env env' s (move k summary) v found = (
    (summarise env' (append_entry s (leaf_entry env s k)) k summary).0,
    ap storage_of (move_to_ok env env' s k summary found),
  )
  perform_found env env' s c v found =
      (append_entry s (entry_of c (new_head env s)), perform_append env env' s c v refl found)

  -- On a valid storage a call is refused, with "not found", exactly when it points to an entry that
  -- is not there; otherwise it succeeds, and the storage that it gives is valid.
  pub perform_outcome :
      (env env' : Env) (s : InMemorySessionStorage H) (c : Call H)
      → IsValid s
      → Supplies env env' s c
      → ((misses s c ≡ true)
          × (perform env env' s c ≡ err (entry_not_found not_found (or_root (points_to c)))))
        ⊎ ((misses s c ≡ false)
            × ((s' : InMemorySessionStorage H) × (perform env env' s c ≡ ok s') × IsValid s'))
  perform_outcome env env' s c v free = elim (Bool-cases (misses s c)) [
    | inl h ↦ inl (h, perform-misses env env' s c h)
    | inr h ↦
        let (s', e) = perform_found env env' s c v h in
        inr (h, (s', e, perform-IsValid env env' s c s' v free e))
  ]

  entry_head : (c : Call H) (d : EntryHead) → head (entry_of c d) ≡ d
  entry_head (move k summary) d = refl
  entry_head (message m) d = refl
  entry_head (bash m) d = refl
  entry_head (thinking_level l) d = refl
  entry_head (model p m) d = refl
  entry_head (compaction c) d = refl
  entry_head (custom t x) d = refl
  entry_head (custom_message t c b x) d = refl
  entry_head (label t l) d = refl
  entry_head (name x) d = refl
  entry_head (active_tools x) d = refl

  entry_not_leaf : (c : Call H) (d : EntryHead) → is_move c ≡ false → is_leaf (entry_of c d) ≡ false
  entry_not_leaf (move k summary) d n = cc
  entry_not_leaf c d n = refl

  -- An append other than a compaction, to a valid storage and with its target there, makes its
  -- entry the new end of the active branch, and leaves the branch before it as it was.
  pub perform-branch :
      (env env' : Env) (s : InMemorySessionStorage H) (c : Call H) (fuel : ℕ)
      → IsValid s
      → HasFreeId 100 0 env.uuid s.by_id
      → is_move c ≡ false
      → is_compaction (entry_of c (new_head env s)) ≡ false
      → misses s c ≡ false
      → length s.entries ≤ fuel
      → (path : List (SessionTreeEntry H)) × (s' : InMemorySessionStorage H) × (branch fuel s none
          ≡ some (ok path))
        × (perform env env' s c ≡ ok s')
        × (branch (suc fuel) s' none ≡ some (ok (path ++ entry_of c (new_head env s) ∷ [])))
  perform-branch env env' s c fuel v free n plain found h =
      let new = entry_of c (new_head env s) in
      let own = entry_head c (new_head env s) in
      let fresh : get s.by_id (id new) ≡ none =
        subst (λ (d : EntryHead). get s.by_id d.id ≡ none) (sym own) (fresh_id env s free) in
      let (path, old, grown) =
        append_entry-branch s new fuel v fresh (ap (λ (d : EntryHead). d.parent_id) own) plain
          (entry_not_leaf c (new_head env s) n) h in
      (path, append_entry s new, old, perform_append env env' s c v n found, grown)

  -- A move of the leaf, without a summary, to an entry or before all entries, makes the active
  -- branch the branch of that entry: it is read in the new storage as it was read there in the old.
  pub move-branch :
      (env env' : Env) (s : InMemorySessionStorage H) (k : Option Text) (fuel : ℕ)
      → IsValid s
      → HasFreeId 100 0 env.uuid s.by_id
      → is_missing s k ≡ false
      → length s.entries ≤ fuel
      → (s' : InMemorySessionStorage H) × (perform env env' s (move k none) ≡ ok s')
        × (branch fuel s' none ≡ get_path_to_root_or_compaction fuel (get_entry s) k)
  move-branch env env' s k fuel v free found h = (
    append_entry s (leaf_entry env s k),
    unfold perform summarise in ap storage_of (move_to_ok env env' s k none found),
    moved_walk env s fuel k v free (IsKnown-of_found s k found) h,
  )
