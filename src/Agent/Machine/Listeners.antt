-- ===== src/Agent/Machine/Listeners.antt =====
-- The listeners of an agent in agent.rs: they are called in the order in which they subscribed.
use mathlib.Core.List.{map-append}
use ri.Base.{
  u64_mod, ℕ, suc, ◌+◌, ◌<◌, ◌≡◌, refl, sym, ap, ◌∙◌, ◌%◌, subst, List, [], ◌∷◌, ◌++◌, map, arith,
}
use ri.Message.{Host}
use ri.Agent.Types.{AgentEvent}
use ri.Agent.Machine.{Agent, insert_listener, remove_listener, subscribe, unsubscribe, on_event}

-- Every number in use is below the next one.
abbrev pub Below {ℓ} : {L : Type ℓ} → ℕ → List (ℕ × L) → Type 0
Below n [] = Unit
Below n ((j, l) ∷ ls) = (j < n) × Below n ls

insert_listener_last :
    {L : Type 0} (ls : List (ℕ × L)) (n : ℕ) (l : L)
    → Below n ls
    → insert_listener ls n l ≡ ls ++ (n, l) ∷ []
unfolding insert_listener
insert_listener_last [] n l b = refl
insert_listener_last ((j, m) ∷ ls) n l b = ground (arith, insert_listener_last ls n l)

remove_listener_last :
    {L : Type 0} (ls : List (ℕ × L)) (n : ℕ) (l : L)
    → Below n ls
    → remove_listener (ls ++ (n, l) ∷ []) n ≡ ls
unfolding remove_listener
remove_listener_last [] n l b = ground arith
remove_listener_last ((j, m) ∷ ls) n l b = ground (arith, remove_listener_last ls n l)

Below-snoc :
    {L : Type 0} (ls : List (ℕ × L)) (n : ℕ) (l : L)
    → Below n ls
    → Below (suc n) (ls ++ (n, l) ∷ [])
Below-snoc [] n l b = (omega arith, tt)
Below-snoc ((j, m) ∷ ls) n l b = (omega arith, Below-snoc ls n l b.1)

module _ {H : Host} {Tool Listener : Type 0} where
  -- Where the numbers in use are below the next one, and that one does not wrap round 64 bits, a
  -- new listener is called after all others with each event, the numbers stay below the next, and
  -- unsubscribing by the number that was returned takes out that listener alone.
  pub subscribe_lem :
      (a : Agent H Tool Listener) (l : Listener) (e : AgentEvent H)
      → Below a.next_listener_id a.listeners
      → a.next_listener_id + 1 < u64_mod
      → let (id, b) = subscribe a l in
        ((on_event b e).1 ≡ (on_event a e).1 ++ l ∷ [])
        × Below b.next_listener_id b.listeners
        × ((unsubscribe b id).listeners ≡ a.listeners)
  unfolding subscribe unsubscribe on_event
  subscribe_lem a l e b h =
      let n = a.next_listener_id in
      let p = insert_listener_last a.listeners n l b in
      (
        ap (map (λ (x : ℕ × Listener). x.1)) p
            ∙ map-append (λ (x : ℕ × Listener). x.1) a.listeners ((n, l) ∷ []),
        subst (Below ((n + 1) % u64_mod)) (sym p) (
            subst (λ k. Below k (a.listeners ++ (n, l) ∷ [])) (omega arith)
              (Below-snoc a.listeners n l b)),
        ap (λ ls. remove_listener ls n) p ∙ remove_listener_last a.listeners n l b,
      )
