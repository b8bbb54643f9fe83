-- ===== src/Session/Tree/Steps.antt =====
-- The methods of `Session` in session.rs as the steps of one machine, and what every step keeps.
use ri.Base.{
  ◌≡◌, refl, sym, ap, ◌∙◌, inl, inr, Bool, true, false, Option, none, some, List, Text, codes,
  Option-cases, Bool-cases, is_some, text_eq, subst,
}
use ri.Base.Maps.{get}
use ri.Message.{Host, Message}
use ri.Session.Entry.{
  SessionTreeEntry, EntryHead, CompactionFields, BashExecutionMessage, SessionEntryMessage,
  CustomMessageContent, Result, ok, err, entry_not_found, not_found, head, id, parent_id,
}
use ri.Session.Storage.{
  Env, InMemorySessionStorage, create_entry_id, append_entry, get_entry, leaf_entry,
}
use ri.Session.Storage.Freshness.{HasFreeId}
use ri.Session.Storage.Invariant.{
  IsValid, TargetIsKnown, append_entry-IsValid, current_leaf_ok, fresh_id, set_leaf_id-append,
  set_leaf_id-IsValid, IsKnown-insert,
}
use ri.Session.Path.Rank.{IsKnown}
use ri.Session.Tree.{
  BranchMoveSummary, append_with, append_message, append_bash_execution,
  append_thinking_level_change, append_model_change, append_compaction_entry, append_custom_entry,
  append_custom_message_entry, append_label, append_session_name, append_active_tools_change,
  normalize_session_name, move_to, is_missing, summarise, summary_entry, or_root,
}

-- The calls that change a session.
pub data Call (H : Host) : Type 0 where
  message : Message H → Call H
  bash : BashExecutionMessage → Call H
  thinking_level : Text → Call H
  model : Text → Text → Call H
  compaction : CompactionFields H → Call H
  custom : Text → Option H.Value → Call H
  custom_message : Text → CustomMessageContent → Bool → Option H.Value → Call H
  label : Text → Option Text → Call H
  name : Text → Call H
  active_tools : List Text → Call H
  move : Option Text → Option (BranchMoveSummary H) → Call H

pub ok-injective {ℓ} : {A : Type ℓ} {a b : A} → ok a ≡ ok b → a ≡ b
ok-injective e = cc

module _ {H : Host} where
  abbrev pub storage_of :
      {A : Type 0} → Result (InMemorySessionStorage H × A) → Result (InMemorySessionStorage H)
  storage_of (ok (s, a)) = ok s
  storage_of (err e) = err e

  unfoldable pub perform :
      Env → Env → InMemorySessionStorage H → Call H → Result (InMemorySessionStorage H)
  perform env env' s (message m) = storage_of (append_message env s m)
  perform env env' s (bash m) = storage_of (append_bash_execution env s m)
  perform env env' s (thinking_level l) = storage_of (append_thinking_level_change env s l)
  perform env env' s (model p m) = storage_of (append_model_change env s p m)
  perform env env' s (compaction c) = storage_of (append_compaction_entry env s c)
  perform env env' s (custom t d) = storage_of (append_custom_entry env s t d)
  perform env env' s (custom_message t c b d) =
      storage_of (append_custom_message_entry env s t c b d)
  perform env env' s (label t l) = storage_of (append_label env s t l)
  perform env env' s (name n) = storage_of (append_session_name env s n)
  perform env env' s (active_tools n) = storage_of (append_active_tools_change env s n)
  perform env env' s (move k summary) = storage_of (move_to env env' s k summary)

  abbrev pub new_head : Env → InMemorySessionStorage H → EntryHead
  new_head env s = record { id = create_entry_id env s; parent_id = s.leaf_id; timestamp = env.now }

  -- An append to a valid storage adds the entry under the leaf.
  pub append_with_ok :
      (env : Env) (s : InMemorySessionStorage H) (make : EntryHead → SessionTreeEntry H)
      → IsValid s
      → append_with env s make
        ≡ ok (append_entry s (make (new_head env s)), id (make (new_head env s)))
  unfolding append_with
  append_with_ok env s make v = rw (current_leaf_ok s v)

  appended-IsValid :
      (env : Env) (s : InMemorySessionStorage H) (new : SessionTreeEntry H)
      → IsValid s
      → HasFreeId 100 0 env.uuid s.by_id
      → head new ≡ new_head env s
      → TargetIsKnown s.by_id new
      → IsValid (append_entry s new)
  appended-IsValid env s new v free e known =
      append_entry-IsValid s new v (rw (ap (λ (h : EntryHead). h.id) e) (fresh_id env s free))
        (rw (ap (λ (h : EntryHead). h.parent_id) e) v.leaf_known) known

  -- What the supply of new ids has to do for a call: a free id for each entry that it adds.
  abbrev pub Supplies : Env → Env → InMemorySessionStorage H → Call H → Type 0
  Supplies env env' s (move k (some summary)) =
      HasFreeId 100 0 env.uuid s.by_id
      × HasFreeId 100 0 env'.uuid (append_entry s (leaf_entry env s k)).by_id
  Supplies env env' s c = HasFreeId 100 0 env.uuid s.by_id

  after_append :
      (env : Env) (s : InMemorySessionStorage H) (make : EntryHead → SessionTreeEntry H)
      → IsValid s
      → HasFreeId 100 0 env.uuid s.by_id
      → head (make (new_head env s)) ≡ new_head env s
      → TargetIsKnown s.by_id (make (new_head env s))
      → (s' : InMemorySessionStorage H) → storage_of (append_with env s make) ≡ ok s'
      → IsValid s'
  after_append env s make v free e known s' h =
      subst IsValid (ok-injective (ap storage_of (sym (append_with_ok env s make v)) ∙ h))
        (appended-IsValid env s (make (new_head env s)) v free e known)

  pub IsKnown-of_found :
      (s : InMemorySessionStorage H) (k : Option Text) → is_missing s k ≡ false → IsKnown s.by_id k
  unfolding is_missing get_entry
  IsKnown-of_found s none h = tt
  IsKnown-of_found s (some k) h = elim (Option-cases (get s.by_id k)) [
    | inl e ↦ cc (rw e at h)
    | inr found ↦ found
  ]

  summary_parent :
      (env : Env) (s : InMemorySessionStorage H) (k : Option Text) (summary : BranchMoveSummary H)
      → IsKnown s.by_id k
      → IsKnown s.by_id (parent_id (summary_entry env s k summary))
  unfolding summary_entry text_eq
  summary_parent env s none summary known = tt
  summary_parent env s (some k) summary known = elim (Bool-cases (text_eq k (codes "root"))) [
    | inl same ↦ rw same tt
    | inr other ↦ rw other known
  ]

  pub move_to_missing :
      (env env' : Env) (s : InMemorySessionStorage H) (k : Option Text)
      (summary : Option (BranchMoveSummary H))
      → is_missing s k ≡ true
      → move_to env env' s k summary ≡ err (entry_not_found not_found (or_root k))
  unfolding move_to
  move_to_missing env env' s k summary missing = rw missing

  pub move_to_ok :
      (env env' : Env) (s : InMemorySessionStorage H) (k : Option Text)
      (summary : Option (BranchMoveSummary H))
      → is_missing s k ≡ false
      → move_to env env' s k summary
        ≡ ok (summarise env' (append_entry s (leaf_entry env s k)) k summary)
  unfolding move_to
  move_to_ok env env' s k summary found =
      rw (found, set_leaf_id-append env s k (IsKnown-of_found s k found))

  moved-IsKnown :
      (env : Env) (s : InMemorySessionStorage H) (k : Option Text)
      → HasFreeId 100 0 env.uuid s.by_id
      → IsKnown s.by_id k
      → IsKnown (append_entry s (leaf_entry env s k)).by_id k
  unfolding append_entry leaf_entry create_entry_id
  moved-IsKnown env s k free known =
      IsKnown-insert s.by_id (leaf_entry env s k) (fresh_id env s free) k known

  moved-IsValid :
      (env env' : Env) (s : InMemorySessionStorage H) (k : Option Text)
      (summary : Option (BranchMoveSummary H))
      → IsValid s
      → Supplies env env' s (move k summary)
      → is_missing s k ≡ false
      → IsValid (summarise env' (append_entry s (leaf_entry env s k)) k summary).0
  unfolding summarise
  moved-IsValid env env' s k none v free found =
      set_leaf_id-IsValid env s k v free (IsKnown-of_found s k found)
  moved-IsValid env env' s k (some summary) v free found =
      let known = IsKnown-of_found s k found in
      let s₁ = append_entry s (leaf_entry env s k) in
      append_entry-IsValid s₁ (summary_entry env' s₁ k summary)
        (set_leaf_id-IsValid env s k v free.0 known)
        (unfold summary_entry in fresh_id env' s₁ free.1)
        (summary_parent env' s₁ k summary (moved-IsKnown env s k free.0 known)) tt

  after_label :
      (env : Env) (s : InMemorySessionStorage H) (target : Text) (l : Option Text)
      → IsValid s
      → HasFreeId 100 0 env.uuid s.by_id
      → (s' : InMemorySessionStorage H) → storage_of (append_label env s target l) ≡ ok s'
      → IsValid s'
  unfolding append_label
  after_label env s target l v free s' h = elim (Bool-cases (is_some (get_entry s target))) [
    | inl found ↦
        after_append env s (λ (d : EntryHead). SessionTreeEntry.label d target l) v free refl tt s'
          (rw found at h)
    | inr missing ↦ cc (rw missing at h)
  ]

  after_move :
      (env env' : Env) (s : InMemorySessionStorage H) (k : Option Text)
      (summary : Option (BranchMoveSummary H))
      → IsValid s
      → Supplies env env' s (move k summary)
      → (s' : InMemorySessionStorage H) → storage_of (move_to env env' s k summary) ≡ ok s'
      → IsValid s'
  after_move env env' s k summary v free s' h = elim (Bool-cases (is_missing s k)) [
    | inl missing ↦ cc (ap storage_of (move_to_missing env env' s k summary missing))
    | inr found ↦
        subst IsValid
          (ok-injective (ap storage_of (sym (move_to_ok env env' s k summary found)) ∙ h))
          (moved-IsValid env env' s k summary v free found)
  ]

  -- Every call that changes a session, when it succeeds, leaves a valid storage valid.
  pub perform-IsValid :
      (env env' : Env) (s : InMemorySessionStorage H) (c : Call H) (s' : InMemorySessionStorage H)
      → IsValid s
      → Supplies env env' s c
      → perform env env' s c ≡ ok s'
      → IsValid s'
  unfolding perform append_message append_bash_execution append_thinking_level_change
      append_model_change append_compaction_entry append_custom_entry append_custom_message_entry
      append_session_name append_active_tools_change
  perform-IsValid env env' s (message m) s' v free h =
      after_append env s (λ (d : EntryHead). SessionTreeEntry.message d (SessionEntryMessage.llm m))
        v free refl tt s' h
  perform-IsValid env env' s (bash m) s' v free h =
      after_append env s
        (λ (d : EntryHead). SessionTreeEntry.message d (SessionEntryMessage.bash_execution m)) v
        free refl tt s' h
  perform-IsValid env env' s (thinking_level l) s' v free h =
      after_append env s (λ (d : EntryHead). SessionTreeEntry.thinking_level_change d l) v free refl
        tt s' h
  perform-IsValid env env' s (model p m) s' v free h =
      after_append env s (λ (d : EntryHead). SessionTreeEntry.model_change d p m) v free refl tt s'
        h
  perform-IsValid env env' s (compaction c) s' v free h =
      after_append env s (λ (d : EntryHead). SessionTreeEntry.compaction d c) v free refl tt s' h
  perform-IsValid env env' s (custom t x) s' v free h =
      after_append env s (λ (d : EntryHead). SessionTreeEntry.custom d t x) v free refl tt s' h
  perform-IsValid env env' s (custom_message t c b x) s' v free h =
      after_append env s (λ (d : EntryHead). SessionTreeEntry.custom_message d t c b x) v free refl
        tt s' h
  perform-IsValid env env' s (label t l) s' v free h = after_label env s t l v free s' h
  perform-IsValid env env' s (name n) s' v free h =
      after_append env s
        (λ (d : EntryHead). SessionTreeEntry.session_info d (some (normalize_session_name n))) v
        free refl tt s' h
  perform-IsValid env env' s (active_tools n) s' v free h =
      after_append env s (λ (d : EntryHead). SessionTreeEntry.active_tools_change d n) v free refl
        tt s' h
  perform-IsValid env env' s (move k summary) s' v free h =
      after_move env env' s k summary v free s' h
