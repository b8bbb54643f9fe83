-- ===== src/Session/Path/Stops.antt =====
-- The walk of session.rs that stops at a compaction, as a relation, and how it lies in the chain.
use mathlib.Core.List.{append_assoc}
use ri.Base.{
  ℕ, zero, suc, ◌≤◌, ◌≡◌, ap, ◌∙◌, inl, inr, true, false, Option, none, some, List, [], ◌∷◌, ◌++◌,
  Text, arith, length, take, Bool-cases, text_eq_iff,
}
use ri.Base.Maps.{TextMap, get, insert, get-insert}
use ri.Message.{Host}
use ri.Session.Entry.{SessionTreeEntry, ok, parent_id}
use ri.Session.Path.{climb_or_stop, finish_path, is_stop, has_retained_tail, stop_after}
use ri.Session.Path.Chain.{Climbs, root, up}

-- The entries from `e` up to the stop, `e` first. The walk includes the entry at which it stops.
pub data StopsAt {H : Host} (lookup : Text → Option (SessionTreeEntry H))
    : Option Text → SessionTreeEntry H → List (SessionTreeEntry H) → Type 0 where
  kept :
      {stop : Option Text} {e : SessionTreeEntry H}
      → is_stop stop e ≡ true
      → StopsAt lookup stop e (e ∷ [])
  tail :
      {stop : Option Text} {e : SessionTreeEntry H}
      → is_stop stop e ≡ false
      → has_retained_tail e ≡ true
      → StopsAt lookup stop e (e ∷ [])
  top :
      {stop : Option Text} {e : SessionTreeEntry H}
      → is_stop stop e ≡ false
      → has_retained_tail e ≡ false
      → parent_id e ≡ none
      → StopsAt lookup stop e (e ∷ [])
  on :
      {stop : Option Text} {e q : SessionTreeEntry H} {es : List (SessionTreeEntry H)} {p : Text}
      → is_stop stop e ≡ false
      → has_retained_tail e ≡ false
      → parent_id e ≡ some p
      → lookup p ≡ some q
      → StopsAt lookup (stop_after stop e) q es
      → StopsAt lookup stop e (e ∷ es)

module _ {H : Host} (lookup : Text → Option (SessionTreeEntry H)) where
  pub climb_or_stop-StopsAt :
      (fuel : ℕ) (path : List (SessionTreeEntry H)) {stop : Option Text} {e : SessionTreeEntry H}
      {es : List (SessionTreeEntry H)}
      → StopsAt lookup stop e es
      → length es ≤ fuel
      → climb_or_stop fuel lookup path stop e ≡ some (ok (finish_path (path ++ es)))
  unfolding climb_or_stop
  climb_or_stop-StopsAt zero path (kept s) h = absurd (omega arith)
  climb_or_stop-StopsAt zero path (tail s t) h = absurd (omega arith)
  climb_or_stop-StopsAt zero path (top s t r) h = absurd (omega arith)
  climb_or_stop-StopsAt zero path (on s t r q w) h = absurd (omega arith)
  climb_or_stop-StopsAt (suc fuel) path (kept s) h = rw (s, climb_or_stop)
  climb_or_stop-StopsAt (suc fuel) path (tail s t) h = rw (s, t, climb_or_stop)
  climb_or_stop-StopsAt (suc fuel) path (top s t r) h = rw (s, t, r, climb_or_stop)
  climb_or_stop-StopsAt (suc fuel) path (on {e = e} {es = es} s t r q w) h =
      rw (s, t, r, q, climb_or_stop)
        (climb_or_stop-StopsAt fuel (path ++ e ∷ []) w (omega arith)
          ∙ ap (λ p. some (ok (finish_path p))) (append_assoc path (e ∷ []) es))

  -- Below a chain the walk stops somewhere, after a part of the chain.
  pub Climbs-StopsAt :
      (stop : Option Text) {e : SessionTreeEntry H} {es : List (SessionTreeEntry H)}
      → Climbs lookup e es
      → (k : ℕ) × StopsAt lookup stop e (take k es)
  Climbs-StopsAt stop (root {e = e} r) = elim (Bool-cases (is_stop stop e)) [
    | inl s ↦ (1, kept s)
    | inr s ↦ elim (Bool-cases (has_retained_tail e)) [
      | inl t ↦ (1, tail s t)
      | inr t ↦ (1, top s t r)
    ]
  ]
  Climbs-StopsAt stop (up {e = e} r q c) =
      let (k, w) = Climbs-StopsAt (stop_after stop e) c in
      elim (Bool-cases (is_stop stop e)) [
        | inl s ↦ (1, kept s)
        | inr s ↦ elim (Bool-cases (has_retained_tail e)) [
          | inl t ↦ (1, tail s t)
          | inr t ↦ (suc k, on s t r q w)
        ]
      ]

module _ {H : Host} (m : TextMap (SessionTreeEntry H)) (k : Text) (new : SessionTreeEntry H)
    (fresh : get m k ≡ none) where
  pub found-insert :
      (p : Text) (q : SessionTreeEntry H) → get m p ≡ some q → get (insert m k new) p ≡ some q
  found-insert p q found = ground (arith, get-insert m k new p, text_eq_iff k p)

  -- A fresh entry changes no walk from an old one.
  pub StopsAt-insert :
      {stop : Option Text} {e : SessionTreeEntry H} {es : List (SessionTreeEntry H)}
      → StopsAt (get m) stop e es
      → StopsAt (get (insert m k new)) stop e es
  StopsAt-insert (kept s) = kept s
  StopsAt-insert (tail s t) = tail s t
  StopsAt-insert (top s t r) = top s t r
  StopsAt-insert (on {q = q} {p = p} s t r f w) = on s t r (found-insert p q f) (StopsAt-insert w)

  pub Climbs-insert :
      {e : SessionTreeEntry H} {es : List (SessionTreeEntry H)}
      → Climbs (get m) e es
      → Climbs (get (insert m k new)) e es
  Climbs-insert (root r) = root r
  Climbs-insert (up {q = q} {p = p} r f c) = up r (found-insert p q f) (Climbs-insert c)
