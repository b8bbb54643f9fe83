-- ===== src/AgentLoop/Order/Keys.antt =====
-- The keys of tool calls through their preparation and execution, in
-- crates/ri-agent-core/src/agent_loop.rs: none is lost and none is made up, in whatever order the
-- tools end.
use mathlib.Core.List.{map-append}
use ri.Base.{
  ℕ, zero, suc, ◌+◌, ◌≤◌, ◌<◌, ◌≡◌, refl, sym, ap, ◌∙◌, Bool, true, ◌||◌, ◌&&◌, List, [], ◌∷◌, ◌++◌,
  Text, map, length, get_elem?, arith, ◌==◌, All, All-append, any, Bool-cases, inl, inr, subst,
}
use ri.Base.Lists.{any-append}
use ri.Message.{Host, AssistantMessage, ToolCall}
use ri.Agent.Run.{Outcome, ok, err}
use ri.AgentLoop.Types.{
  AgentLoopConfig, LoopState, LoopContext, AgentTool, Outside, PreparedToolCall,
  ToolExecutionOutcome, ToolCallPreparation, prepared, immediate,
}
use ri.AgentLoop.Prepare.{prepare_tool_call, settle_call, error_tool_execution_outcome}
use ri.AgentLoop.Execute.{
  execute_prepared_tool_call, execute_in_order, execute_as_ready, take_out, execute_tool_calls,
  is_parallel, all_parallel,
}
use ri.AgentLoop.Turn.{prepare_all, sort_prepared}
use ri.AgentLoop.Order.Slots.{Key, has, Fits, outcome_key}

module _ {H : Host} where
  abbrev pub asked : ToolCall H → Text × Text
  asked call = (call.id, call.name)

module _ {H : Host} {W : Type 0} where
  abbrev pub call_key : PreparedToolCall H W → Key
  call_key call = (call.index, (call.tool_call_id, call.tool_name))

  abbrev pub preparation_key : ToolCallPreparation H W → Key
  preparation_key (prepared call) = call_key call
  preparation_key (immediate o) = outcome_key o

  take_out-any :
      (p : Key → Bool) (call : PreparedToolCall H W) (calls : List (PreparedToolCall H W)) (n : ℕ)
      → let (next, rest) = take_out call calls n in
        any p (call_key next ∷ map call_key rest) ≡ any p (call_key call ∷ map call_key calls)
  unfolding take_out
  take_out-any p call calls zero = refl
  take_out-any p call [] (suc n) = refl
  take_out-any p call (next ∷ rest) (suc n) = ground (arith, take_out-any p next rest n)

  take_out-All :
      (names : List (Text × Text)) (call : PreparedToolCall H W)
      (calls : List (PreparedToolCall H W)) (n : ℕ)
      → let (next, rest) = take_out call calls n in
        All (Fits names) (call_key call ∷ map call_key calls)
        → All (Fits names) (call_key next ∷ map call_key rest)
  unfolding take_out
  take_out-All names call calls zero a = a
  take_out-All names call [] (suc n) a = a
  take_out-All names call (next ∷ rest) (suc n) (h, a) =
      let (g, b) = take_out-All names next rest n a in (g, (h, b))

  take_out-length :
      (call : PreparedToolCall H W) (calls : List (PreparedToolCall H W)) (n : ℕ)
      → length (take_out call calls n).1 ≡ length calls
  unfolding take_out
  take_out-length call calls zero = refl
  take_out-length call [] (suc n) = refl
  take_out-length call (next ∷ rest) (suc n) = omega (arith, take_out-length next rest n)

module _ {H : Host} {W S : Type 0} (outside : Outside H W S) (config : AgentLoopConfig H W S) where
  settle_call-key :
      (index : ℕ) (call : ToolCall H) (assistant : AssistantMessage H) (context : LoopContext H W)
      (checked : Outcome (AgentTool H W × H.Value))
      → preparation_key (settle_call outside index call assistant context checked)
        ≡ (index, asked call)
  unfolding settle_call error_tool_execution_outcome
  settle_call-key index call assistant context (err e) = refl
  settle_call-key index call assistant context (ok (tool, args)) = refl

  pub prepare_tool_call-key :
      (assistant : AssistantMessage H) (index : ℕ) (call : ToolCall H) (s : LoopState H W)
      → preparation_key (prepare_tool_call outside config assistant index call s).0
        ≡ (index, asked call)
  unfolding prepare_tool_call
  prepare_tool_call-key assistant index call s = settle_call-key index call assistant _ _

  pub execute_prepared-key :
      (call : PreparedToolCall H W) (s : LoopState H W)
      → outcome_key (execute_prepared_tool_call outside config call s).0 ≡ call_key call
  unfolding execute_prepared_tool_call
  execute_prepared-key call s = refl

  execute_in_order-keys :
      (calls : List (PreparedToolCall H W)) (s : LoopState H W)
      → map outcome_key (execute_in_order outside config calls s).0 ≡ map call_key calls
  unfolding execute_in_order
  execute_in_order-keys [] s = refl
  execute_in_order-keys (call ∷ calls) s = ground (
    arith,
    execute_prepared-key call s,
    execute_in_order-keys calls (execute_prepared_tool_call outside config call s).1,
  )

  -- Outcomes have the keys of the calls, if in another order.
  abbrev pub SameKeys : List (PreparedToolCall H W) → List (ToolExecutionOutcome H) → Type 0
  SameKeys calls os =
      ((p : Key → Bool) → any p (map outcome_key os) ≡ any p (map call_key calls))
      × ((names : List (Text × Text))
          → All (Fits names) (map call_key calls)
          → All (Fits names) (map outcome_key os))

  execute_as_ready-keys :
      (n : ℕ) (calls : List (PreparedToolCall H W)) (s : LoopState H W)
      → length calls ≡ n
      → SameKeys calls (execute_as_ready outside n config calls s).0
  unfolding execute_as_ready
  execute_as_ready-keys zero [] s h = (λ p. refl, λ names a. a)
  execute_as_ready-keys zero (call ∷ calls) s h = absurd (omega arith)
  execute_as_ready-keys (suc n) [] s h = absurd (omega arith)
  execute_as_ready-keys (suc n) (call ∷ calls) s h =
      let (ready, w) = outside.next_ready (call ∷ calls) s.world in
      let (next, rest) = take_out call calls ready in
      let s1 = record s { world = w } in
      let (same, fits) =
        execute_as_ready-keys n rest (execute_prepared_tool_call outside config next s1).1
          (omega (arith, take_out-length call calls ready)) in
      (
        λ p.
            ground
              (arith, same p, take_out-any p call calls ready, ap p (execute_prepared-key next s1)),
        λ names a.
            let (g, b) = take_out-All names call calls ready a in
            (subst (Fits names) (sym (execute_prepared-key next s1)) g, fits names b),
      )

  pub execute_tool_calls-keys :
      (calls : List (PreparedToolCall H W)) (s : LoopState H W)
      → SameKeys calls (execute_tool_calls outside config calls s).0
  unfolding execute_tool_calls
  execute_tool_calls-keys calls s =
      elim (Bool-cases (is_parallel config.tool_execution && all_parallel calls)) [
        | inl e ↦ rw e (execute_as_ready-keys (length calls) calls s refl)
        | inr e ↦ rw e (
          λ p. ap (any p) (execute_in_order-keys calls s),
          λ names a. subst (All (Fits names)) (sym (execute_in_order-keys calls s)) a,
        )
      ]

module _ {H : Host} {W : Type 0} where
  -- The calls that are ready and the outcomes that the preparation gives.
  abbrev pub has_either : ℕ → List (PreparedToolCall H W) × List (ToolExecutionOutcome H) → Bool
  has_either j (ready, done) = has j (map call_key ready) || has j (map outcome_key done)

  abbrev pub FitBoth :
      List (Text × Text) → List (PreparedToolCall H W) × List (ToolExecutionOutcome H) → Type 0
  FitBoth names (ready, done) =
      All (Fits names) (map call_key ready) × All (Fits names) (map outcome_key done)

module _ {ℓ} {A : Type ℓ} (key : A → Key) where
  pub has-map-append :
      (j : ℕ) (xs ys : List A)
      → has j (map key (xs ++ ys)) ≡ (has j (map key xs) || has j (map key ys))
  has-map-append j xs ys =
      ap (has j) (map-append key xs ys)
      ∙ any-append (λ (k : Key). k.0 == j) (map key xs) (map key ys)

  pub All-map-append :
      (names : List (Text × Text)) (xs ys : List A)
      → All (Fits names) (map key xs)
      → All (Fits names) (map key ys)
      → All (Fits names) (map key (xs ++ ys))
  All-map-append names xs ys a b =
      subst (All (Fits names)) (sym (map-append key xs ys))
        (All-append (Fits names) (map key xs) (map key ys) a b)

module _ {H : Host} {W S : Type 0} (outside : Outside H W S) (config : AgentLoopConfig H W S) where
  sort_prepared-has :
      (j : ℕ) (r : ToolCallPreparation H W × LoopState H W)
      → has_either j (sort_prepared config r).0 ≡ ((preparation_key r.0).0 == j)
  unfolding sort_prepared
  sort_prepared-has j (prepared call, s) = ground arith
  sort_prepared-has j (immediate o, s) = ground arith

  sort_prepared-FitBoth :
      (names : List (Text × Text)) (r : ToolCallPreparation H W × LoopState H W)
      → Fits names (preparation_key r.0)
      → FitBoth names (sort_prepared config r).0
  unfolding sort_prepared
  sort_prepared-FitBoth names (prepared call, s) h = ((h, tt), tt)
  sort_prepared-FitBoth names (immediate o, s) h = (tt, (h, tt))

  -- Every call is ready or has its outcome, under its place among the calls.
  pub prepare_all-keys :
      (names : List (Text × Text)) (assistant : AssistantMessage H) (index : ℕ)
      (calls : List (ToolCall H)) (s : LoopState H W)
      → ((i : ℕ) → get_elem? (map asked calls) i ≡ get_elem? names (index + i))
      → let (both, t) = prepare_all outside config assistant index calls s in
        FitBoth names both
        × ((j : ℕ) → index ≤ j → j < index + length calls → has_either j both ≡ true)
  unfolding prepare_all
  prepare_all-keys names assistant index [] s h = ((tt, tt), λ j ge lt. absurd (omega arith))
  prepare_all-keys names assistant index (call ∷ calls) s h =
      let r = prepare_tool_call outside config assistant index call s in
      let key : preparation_key r.0 ≡ (index, asked call) =
        prepare_tool_call-key outside config assistant index call s in
      let ((ready, done), t) = sort_prepared config r in
      let ((more_ready, more_done), u) = prepare_all outside config assistant (index + 1) calls t in
      let index0 : index + 0 ≡ index = omega arith in
      let here : Fits names (preparation_key r.0) =
        subst (Fits names) (sym key) (ap (get_elem? names) (sym index0) ∙ sym (h 0)) in
      let (f, g) = sort_prepared-FitBoth names r here in
      let ((mf, mg), covers) =
        prepare_all-keys names assistant (index + 1) calls t
          (λ i. h (suc i) ∙ ap (get_elem? names) (omega arith)) in
      (
        (
          All-map-append call_key names ready more_ready f mf,
          All-map-append outcome_key names done more_done g mg,
        ),
        λ j ge lt.
            let first : has_either j (ready, done) ≡ (index == j) =
              sort_prepared-has j r ∙ ap (λ (k : Key). k.0 == j) key in
            ground (
              arith,
              first,
              has-map-append call_key j ready more_ready,
              has-map-append outcome_key j done more_done,
              covers j,
            ),
      )
