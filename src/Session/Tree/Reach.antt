-- ===== src/Session/Tree/Reach.antt =====
-- The sessions that a program can reach by the methods of session.rs, from a new one.
use ri.Base.{◌≡◌, refl, sym, ◌∙◌, Option, none, [], arith, subst}
use ri.Base.Maps.{get}
use ri.Message.{Host}
use ri.Session.Entry.{SessionMetadata, ok}
use ri.Session.Storage.{
  Env, InMemorySessionStorage, with_options, validate_existing_leaf, or_new, collect_by_id,
  leaf_id_after, build_labels_by_id,
}
use ri.Session.Storage.Invariant.{IsValid}
use ri.Session.Tree.Steps.{Call, perform, Supplies, perform-IsValid, ok-injective}

module _ {H : Host} where
  -- A new session, and any calls after it, each with the ids that it needs.
  pub data Reachable : InMemorySessionStorage H → Type 0 where
    new :
        {s : InMemorySessionStorage H} (env : Env) (metadata : Option SessionMetadata)
        → with_options env none metadata ≡ ok s
        → Reachable s
    call :
        {s s' : InMemorySessionStorage H} (env env' : Env) (c : Call H)
        → Reachable s
        → Supplies env env' s c
        → perform env env' s c ≡ ok s'
        → Reachable s'

  abbrev pub empty : SessionMetadata → InMemorySessionStorage H
  empty m = record { metadata = m; entries = []; by_id = []; labels_by_id = []; leaf_id = none }

  pub empty-IsValid : (m : SessionMetadata) → IsValid (empty m)
  unfolding get collect_by_id leaf_id_after build_labels_by_id
  empty-IsValid m = record {
    ages = (λ k. 0, λ k e found. absurd (ground arith));
    leaf_known = tt;
    indexed = tt;
    listed = λ k e found. absurd (ground arith);
    labelled = refl;
    collected = refl;
    leaf_last = refl;
  }

  new-empty :
      (env : Env) (metadata : Option SessionMetadata)
      → with_options env none metadata ≡ ok (empty (or_new env metadata))
  unfolding with_options validate_existing_leaf build_labels_by_id
  new-empty env metadata = refl

  -- Every session that calls have made from a new one, with a free id for each call, is valid:
  -- parents are older entries, so that no walk runs in a circle; the leaf is an entry or none; and
  -- the index, the labels and the leaf are those that the list of entries gives.
  pub Reachable-IsValid : {s : InMemorySessionStorage H} → Reachable s → IsValid s
  Reachable-IsValid (new env metadata e) =
      subst IsValid (ok-injective (sym (new-empty env metadata) ∙ e))
        (empty-IsValid (or_new env metadata))
  Reachable-IsValid (call {s = s} {s' = s'} env env' c r free e) =
      perform-IsValid env env' s c s' (Reachable-IsValid r) free e
