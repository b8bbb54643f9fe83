-- ===== src/Session/Path/Ends.antt =====
-- Where the walk of session.rs that stops at a compaction ends, said of the path that it walks.
use mathlib.Core.List.{append_assoc, reverse-cons}
use ri.Base.{
  ℕ, suc, ◌≡◌, refl, ap, ◌∙◌, ◌⊎◌, inl, inr, Bool, true, false, ◌||◌, Option, none, some, List, [],
  ◌∷◌, ◌++◌, reverse, Text, arith, take, drop, Bool-cases, text_eq, is_some,
}
use ri.Message.{Host}
use ri.Session.Entry.{SessionTreeEntry, id, compaction}
use ri.Session.Path.{is_stop, has_retained_tail, stop_after}
use ri.Session.Path.Chain.{Climbs, root, up}
use ri.Session.Path.Stops.{StopsAt, kept, tail, top, on}

module _ {H : Host} where
  -- The entry that the first compaction of a path from the root keeps first, where it names one.
  abbrev pub first_kept : List (SessionTreeEntry H) → Option Text
  first_kept [] = none
  first_kept (compaction h c ∷ later) = c.first_kept_entry_id
  first_kept (_ ∷ later) = first_kept later

  abbrev names : Option Text → SessionTreeEntry H → Bool
  names none e = false
  names (some k) e = text_eq k (id e)

  abbrev retains : SessionTreeEntry H → Bool
  retains (compaction h c) = is_some c.retained_tail
  retains _ = false

  -- Whether a walk ends at an entry that `later` follows on the path.
  abbrev pub ends_at : List (SessionTreeEntry H) → SessionTreeEntry H → Bool
  ends_at later e = retains e || names (first_kept later) e

  -- No entry of the path ends the walk.
  abbrev pub IsPassed : List (SessionTreeEntry H) → Type 0
  IsPassed [] = Unit
  IsPassed (e ∷ later) = (ends_at later e ≡ false) × IsPassed later

  names-is_stop : (o : Option Text) (e : SessionTreeEntry H) → is_stop o e ≡ names o e
  names-is_stop none e = refl
  names-is_stop (some k) e = refl

  retains-has_retained_tail : (e : SessionTreeEntry H) → has_retained_tail e ≡ retains e
  retains-has_retained_tail e = ground arith

  stop_after-first_kept :
      (stop : Option Text) (e : SessionTreeEntry H) (later : List (SessionTreeEntry H))
      → stop ≡ first_kept later
      → stop_after stop e ≡ first_kept (e ∷ later)
  stop_after-first_kept stop e later h = ground (arith, h)

  -- The entries of a walk, from the leaf, are the end `e` of the walk and those that it passed; and
  -- nothing is left of the chain where no entry ends the walk.
  abbrev pub IsEnded :
      List (SessionTreeEntry H) → List (SessionTreeEntry H) → List (SessionTreeEntry H) → Type 0
  IsEnded walked left later =
      (e : SessionTreeEntry H) × (after : List (SessionTreeEntry H)) × (reverse walked ++ later
        ≡ e ∷ after)
      × IsPassed after
      × ((left ≡ []) ⊎ (ends_at after e ≡ true))

  ends-stop :
      (stop : Option Text) (e : SessionTreeEntry H) (later : List (SessionTreeEntry H))
      → stop ≡ first_kept later
      → is_stop stop e ≡ true
      → ends_at later e ≡ true
  ends-stop stop e later g s = ground (arith, names-is_stop stop e, ap (λ o. names o e) g, s)

  ends-tail :
      (e : SessionTreeEntry H) (later : List (SessionTreeEntry H))
      → has_retained_tail e ≡ true
      → ends_at later e ≡ true
  ends-tail e later t = ground (arith, retains-has_retained_tail e, t)

  passes :
      (stop : Option Text) (e : SessionTreeEntry H) (later : List (SessionTreeEntry H))
      → stop ≡ first_kept later
      → is_stop stop e ≡ false
      → has_retained_tail e ≡ false
      → ends_at later e ≡ false
  passes stop e later g s t =
      ground (arith, names-is_stop stop e, ap (λ o. names o e) g, retains-has_retained_tail e, s, t)

module _ {H : Host} (lookup : Text → Option (SessionTreeEntry H)) where
  -- Along a chain a walk stops where `IsEnded` says.
  pub Climbs-IsEnded :
      (stop : Option Text) (later : List (SessionTreeEntry H)) {e : SessionTreeEntry H}
      {es : List (SessionTreeEntry H)}
      → stop ≡ first_kept later
      → IsPassed later
      → Climbs lookup e es
      → (n : ℕ) × StopsAt lookup stop e (take n es) × IsEnded (take n es) (drop n es) later
  Climbs-IsEnded stop later g p (root {e = e} r) = elim (Bool-cases (is_stop stop e)) [
    | inl s ↦ (1, kept s, (e, later, refl, p, inl refl))
    | inr s ↦ elim (Bool-cases (has_retained_tail e)) [
      | inl t ↦ (1, tail s t, (e, later, refl, p, inl refl))
      | inr t ↦ (1, top s t r, (e, later, refl, p, inl refl))
    ]
  ]
  Climbs-IsEnded stop later g p (up {e = e} r q c) = elim (Bool-cases (is_stop stop e)) [
    | inl s ↦ (1, kept s, (e, later, refl, p, inr (ends-stop stop e later g s)))
    | inr s ↦ elim (Bool-cases (has_retained_tail e)) [
      | inl t ↦ (1, tail s t, (e, later, refl, p, inr (ends-tail e later t)))
      | inr t ↦
          let (n, w, (d, after, split, passed, why)) =
            Climbs-IsEnded (stop_after stop e) (e ∷ later) (stop_after-first_kept stop e later g)
              (passes stop e later g s t, p) c in
          (suc n, on s t r q w, (d, after, shift e later (take n _) ∙ split, passed, why))
    ]
  ]
    where
      shift :
          (e : SessionTreeEntry H) (later xs : List (SessionTreeEntry H))
          → reverse (e ∷ xs) ++ later ≡ reverse xs ++ e ∷ later
      shift e later xs =
          ap (λ l. l ++ later) (reverse-cons e xs) ∙ append_assoc (reverse xs) (e ∷ []) later
