-- ===== src/AgentLoop/Order/Slots.antt =====
-- The slots of `execute_tool_calls_in_source_order` of crates/ri-agent-core/src/agent_loop.rs.
use ri.Base.{
  ℕ, zero, suc, ◌+◌, ◌≤◌, ◌<◌, ◌≡◌, refl, Bool, true, false, ◌||◌, Option, none, some, List, [],
  ◌∷◌, Text, map, filter_map, length, get_elem?, set, replicate, arith, ◌==◌, All, any, is_some,
}
use ri.Message.{Host}
use ri.AgentLoop.Types.{ToolExecutionOutcome}
use ri.AgentLoop.Execute.{slots, place, execute_tool_calls_in_source_order}

-- The place of a tool call among those of its message, with its id and name.
abbrev pub Key : Type 0
Key = ℕ × (Text × Text)

abbrev pub has : ℕ → List Key → Bool
has j ks = any (λ (k : Key). k.0 == j) ks

-- The key names the call at its place.
abbrev pub Fits : List (Text × Text) → Key → Type 0
Fits names k = get_elem? names k.0 ≡ some k.1

get_elem?-lt {ℓ} :
    {A : Type ℓ} (xs : List A) (i : ℕ) (x : A) → get_elem? xs i ≡ some x → i < length xs
get_elem?-lt [] i x h = absurd (ground (arith, h))
get_elem?-lt (y ∷ ys) zero x h = omega arith
get_elem?-lt (y ∷ ys) (suc i) x h = omega (arith, get_elem?-lt ys i x h)

module _ {H : Host} where
  abbrev pub outcome_key : ToolExecutionOutcome H → Key
  outcome_key o = (o.index, (o.tool_call_id, o.tool_name))

  abbrev pub outcome_name : ToolExecutionOutcome H → Text × Text
  outcome_name o = (o.tool_call_id, o.tool_name)

  -- Every slot is free, or holds the outcome of the call at its place.
  abbrev SlotsFit : List (Text × Text) → List (Option (ToolExecutionOutcome H)) → Type 0
  SlotsFit [] [] = Unit
  SlotsFit (n ∷ names) (none ∷ ordered) = SlotsFit names ordered
  SlotsFit (n ∷ names) (some o ∷ ordered) = (outcome_name o ≡ n) × SlotsFit names ordered
  SlotsFit _ _ = ⊥

SlotsFit-free :
    (H : Host) (names : List (Text × Text)) → SlotsFit {H = H} names (replicate (length names) none)
SlotsFit-free H [] = tt
SlotsFit-free H (n ∷ names) = SlotsFit-free H names

module _ {H : Host} where
  abbrev filled : ℕ → List (Option (ToolExecutionOutcome H)) → Bool
  filled j [] = false
  filled zero (o ∷ ordered) = is_some o
  filled (suc j) (o ∷ ordered) = filled j ordered

  SlotsFit-set :
      (names : List (Text × Text)) (ordered : List (Option (ToolExecutionOutcome H))) (i : ℕ)
      (o : ToolExecutionOutcome H)
      → SlotsFit names ordered
      → get_elem? names i ≡ some (outcome_name o)
      → SlotsFit names (set ordered i (some o))
  SlotsFit-set [] [] i o f h = absurd (ground (arith, h))
  SlotsFit-set [] (_ ∷ ordered) i o f h = elim f [ ]
  SlotsFit-set (n ∷ names) [] i o f h = elim f [ ]
  SlotsFit-set (n ∷ names) (none ∷ ordered) zero o f h = (ground (arith, h), f)
  SlotsFit-set (n ∷ names) (some p ∷ ordered) zero o f h = (ground (arith, h), f.1)
  SlotsFit-set (n ∷ names) (none ∷ ordered) (suc i) o f h = SlotsFit-set names ordered i o f h
  SlotsFit-set (n ∷ names) (some p ∷ ordered) (suc i) o f h =
      (f.0, SlotsFit-set names ordered i o f.1 h)

  filled-set :
      (names : List (Text × Text)) (ordered : List (Option (ToolExecutionOutcome H))) (i j : ℕ)
      (o : ToolExecutionOutcome H)
      → SlotsFit names ordered
      → i < length names
      → filled j (set ordered i (some o)) ≡ (i == j || filled j ordered)
  filled-set [] [] i j o f h = absurd (omega arith)
  filled-set [] (_ ∷ ordered) i j o f h = elim f [ ]
  filled-set (n ∷ names) [] i j o f h = elim f [ ]
  filled-set (n ∷ names) (none ∷ ordered) zero zero o f h = refl
  filled-set (n ∷ names) (none ∷ ordered) zero (suc j) o f h = ground arith
  filled-set (n ∷ names) (none ∷ ordered) (suc i) zero o f h = ground arith
  filled-set (n ∷ names) (none ∷ ordered) (suc i) (suc j) o f h =
      ground (arith, filled-set names ordered i j o f (omega arith))
  filled-set (n ∷ names) (some p ∷ ordered) zero zero o f h = refl
  filled-set (n ∷ names) (some p ∷ ordered) zero (suc j) o f h = ground arith
  filled-set (n ∷ names) (some p ∷ ordered) (suc i) zero o f h = ground arith
  filled-set (n ∷ names) (some p ∷ ordered) (suc i) (suc j) o f h =
      ground (arith, filled-set names ordered i j o f.1 (omega arith))

  place_lem :
      (names : List (Text × Text)) (os : List (ToolExecutionOutcome H))
      (ordered : List (Option (ToolExecutionOutcome H)))
      → SlotsFit names ordered
      → All (Fits names) (map outcome_key os)
      → SlotsFit names (place os ordered)
        × ((j : ℕ) → filled j (place os ordered) ≡ (has j (map outcome_key os) || filled j ordered))
  unfolding place
  place_lem names [] ordered f a = (f, λ j. refl)
  place_lem names (o ∷ os) ordered f (h, a) =
      let (g, fill) =
        place_lem names os (set ordered o.index (some o)) (SlotsFit-set names ordered o.index o f h)
          a in
      (
        g,
        λ j. ground (
          arith,
          fill j,
          filled-set names ordered o.index j o f (get_elem?-lt names o.index (outcome_name o) h),
        ),
      )

  all_filled :
      (names : List (Text × Text)) (ordered : List (Option (ToolExecutionOutcome H)))
      → SlotsFit names ordered
      → ((j : ℕ) → j < length names → filled j ordered ≡ true)
      → map outcome_name (filter_map (λ o. o) ordered) ≡ names
  all_filled [] [] f h = refl
  all_filled [] (_ ∷ ordered) f h = elim f [ ]
  all_filled (n ∷ names) [] f h = elim f [ ]
  all_filled (n ∷ names) (none ∷ ordered) f h = absurd (ground (arith, h 0 (omega arith)))
  all_filled (n ∷ names) (some o ∷ ordered) (e, f) h =
      let rest : map outcome_name (filter_map (λ o. o) ordered) ≡ names =
        all_filled names ordered f (λ j lt. h (suc j) (omega arith)) in
      ground (arith, e, rest)

  slots-le :
      (names : List (Text × Text)) (os : List (ToolExecutionOutcome H))
      → All (Fits names) (map outcome_key os)
      → slots os ≤ length names
  unfolding slots
  slots-le names [] a = omega arith
  slots-le names (o ∷ os) (h, a) =
      ground (arith, slots-le names os a, get_elem?-lt names o.index (outcome_name o) h)

  has-slots :
      (j : ℕ) (os : List (ToolExecutionOutcome H))
      → has j (map outcome_key os) ≡ true
      → j + 1 ≤ slots os
  unfolding slots
  has-slots j [] h = cc
  has-slots j (o ∷ os) h = ground (arith, has-slots j os)

  slots-eq :
      (names : List (Text × Text)) (os : List (ToolExecutionOutcome H))
      → All (Fits names) (map outcome_key os)
      → ((j : ℕ) → j < length names → has j (map outcome_key os) ≡ true)
      → slots os ≡ length names
  slots-eq [] os a h = omega (arith, slots-le [] os a)
  slots-eq (n ∷ names) os a h = omega (
    arith,
    slots-le (n ∷ names) os a,
    has-slots (length names) os (h (length names) (omega arith)),
  )

  -- In whatever order they come, outcomes that name the calls at their places, with one for each
  -- call, are put into the order of the calls, and none is missing.
  pub execute_tool_calls_in_source_order_lem :
      (names : List (Text × Text)) (os : List (ToolExecutionOutcome H))
      → All (Fits names) (map outcome_key os)
      → ((j : ℕ) → j < length names → has j (map outcome_key os) ≡ true)
      → map outcome_name (filter_map (λ o. o) (execute_tool_calls_in_source_order os)) ≡ names
  unfolding execute_tool_calls_in_source_order
  execute_tool_calls_in_source_order_lem names os a h =
      let free = replicate {A = Option (ToolExecutionOutcome H)} (length names) none in
      let (f, fill) = place_lem names os free (SlotsFit-free H names) a in
      rw (slots-eq names os a h)
        (all_filled names (place os free) f (λ j lt. ground (arith, fill j, h j lt)))
