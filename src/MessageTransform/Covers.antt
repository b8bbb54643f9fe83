-- ===== src/MessageTransform/Covers.antt =====
-- The calls that wait, against the pending calls and the ids of the results that are there, in
-- `insert_synthetic_tool_results` of crates/ri-llm-provider/src/message_transform.rs.
use ri.Base.{
  ◌≡◌, refl, Bool, true, false, not, ◌&&◌, List, [], ◌∷◌, Text, text_eq, text_eq_iff, text_eq_refl,
  map, retain, any, All, arith, if◌then◌else◌,
}
use ri.Base.Sets.{contains, set_insert, contains-set_insert}
use ri.Message.{Host, ToolCall}

module _ {H : Host} where
  abbrev pub ids_of : List (ToolCall H) → List Text
  ids_of calls = map (λ (c : ToolCall H). c.id) calls

  -- An id belongs to a call that has no result yet.
  abbrev missing : List (ToolCall H) → List Text → Text → Bool
  missing calls existing id =
      any (λ (c : ToolCall H). text_eq c.id id && not (contains existing c.id)) calls

  -- What waits is missing.
  abbrev pub Covers : List (ToolCall H) → List Text → List Text → Type 0
  Covers calls existing waiting = All (λ id. missing calls existing id ≡ true) waiting

  pub Covers-skip :
      (call : ToolCall H) (calls : List (ToolCall H)) (existing waiting : List Text)
      → contains existing call.id ≡ true
      → Covers (call ∷ calls) existing waiting
      → Covers calls existing waiting
  Covers-skip call calls existing [] e h = tt
  Covers-skip call calls existing (id ∷ waiting) e (h, hs) =
      (ground (arith, h, e), Covers-skip call calls existing waiting e hs)

  pub Covers-answer :
      (call : ToolCall H) (calls : List (ToolCall H)) (existing waiting : List Text)
      → Covers (call ∷ calls) existing waiting
      → Covers calls existing (retain (λ id. not (text_eq call.id id)) waiting)
  Covers-answer call calls existing [] h = tt
  Covers-answer call calls existing (id ∷ waiting) (h, hs) =
      let rest = Covers-answer call calls existing waiting hs in
      by_eq (text_eq call.id id) refl rest
    where
      left : List Text
      left = retain (λ i. not (text_eq call.id i)) waiting

      by_eq :
          (b : Bool)
          → text_eq call.id id ≡ b
          → Covers calls existing left
          → Covers calls existing (if not b then id ∷ left else left)
      by_eq true e rest = rest
      by_eq false e rest = (ground (arith, h, e), rest)

  missing-insert :
      (calls : List (ToolCall H)) (existing : List Text) (new id : Text)
      → text_eq new id ≡ false
      → missing calls existing id ≡ true
      → missing calls (set_insert existing new) id ≡ true
  missing-insert (c ∷ calls) existing new id e h = ground (
    arith,
    missing-insert calls existing new id e,
    contains-set_insert existing new c.id,
    text_eq_iff c.id id,
    text_eq_iff new c.id,
    text_eq_iff new id,
  )
  missing-insert [] existing new id e h = h

  pub Covers-insert :
      (calls : List (ToolCall H)) (existing : List Text) (new : Text) (waiting : List Text)
      → Covers calls existing waiting
      → Covers calls (set_insert existing new) (retain (λ id. not (text_eq new id)) waiting)
  Covers-insert calls existing new [] h = tt
  Covers-insert calls existing new (id ∷ waiting) (h, hs) =
      by_eq (text_eq new id) refl (Covers-insert calls existing new waiting hs)
    where
      left : List Text
      left = retain (λ i. not (text_eq new i)) waiting

      by_eq :
          (b : Bool)
          → text_eq new id ≡ b
          → Covers calls (set_insert existing new) left
          → Covers calls (set_insert existing new) (if not b then id ∷ left else left)
      by_eq true e rest = rest
      by_eq false e rest = (missing-insert calls existing new id e h, rest)

  missing-more :
      (call : ToolCall H) (calls : List (ToolCall H)) (waiting : List Text)
      → Covers calls [] waiting
      → Covers (call ∷ calls) [] waiting
  missing-more call calls [] h = tt
  missing-more call calls (id ∷ waiting) (h, hs) =
      (ground (arith, h), missing-more call calls waiting hs)

  pub Covers-all : (calls : List (ToolCall H)) → Covers calls [] (ids_of calls)
  unfolding contains
  Covers-all [] = tt
  Covers-all (call ∷ calls) = (
    ground (arith, text_eq_refl call.id),
    missing-more call calls (ids_of calls) (Covers-all calls),
  )

pub Covers-none :
    (H : Host) (existing waiting : List Text) → Covers {H = H} [] existing waiting → waiting ≡ []
Covers-none H existing [] h = refl
Covers-none H existing (id ∷ waiting) (h, hs) = cc h
