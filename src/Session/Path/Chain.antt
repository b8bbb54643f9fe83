-- ===== src/Session/Path/Chain.antt =====
-- The chain of an entry's ancestors, as a relation, and the walk of session.rs against it.
use mathlib.Core.List.{append_assoc}
use ri.Base.{
  ℕ, zero, suc, ◌≤◌, ◌≡◌, ap, ◌∙◌, Option, none, some, List, [], ◌∷◌, ◌++◌, reverse, Text, arith,
  length,
}
use ri.Message.{Host}
use ri.Session.Entry.{SessionTreeEntry, ok, parent_id}
use ri.Session.Path.{climb}

-- The entries from `e` up to a root, `e` first.
pub data Climbs {H : Host} (lookup : Text → Option (SessionTreeEntry H))
    : SessionTreeEntry H → List (SessionTreeEntry H) → Type 0 where
  root : {e : SessionTreeEntry H} → parent_id e ≡ none → Climbs lookup e (e ∷ [])
  up :
      {e q : SessionTreeEntry H} {es : List (SessionTreeEntry H)} {p : Text}
      → parent_id e ≡ some p
      → lookup p ≡ some q
      → Climbs lookup q es
      → Climbs lookup e (e ∷ es)

module _ {H : Host} (lookup : Text → Option (SessionTreeEntry H)) where
  -- The walk follows the chain, given as much fuel as the chain is long.
  pub climb-Climbs :
      (fuel : ℕ) (path : List (SessionTreeEntry H)) {e : SessionTreeEntry H}
      {es : List (SessionTreeEntry H)}
      → Climbs lookup e es
      → length es ≤ fuel
      → climb fuel lookup path e ≡ some (ok (reverse (path ++ es)))
  unfolding climb
  climb-Climbs zero path (root r) h = absurd (omega arith)
  climb-Climbs zero path (up r q c) h = absurd (omega arith)
  climb-Climbs (suc fuel) path (root r) h = rw (r, climb)
  climb-Climbs (suc fuel) path (up {e = e} {es = es} r q c) h =
      rw (r, q, climb)
        (climb-Climbs fuel (path ++ e ∷ []) c (omega arith)
          ∙ ap (λ t. some (ok (reverse t))) (append_assoc path (e ∷ []) es))
