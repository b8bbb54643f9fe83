-- ===== src/Compaction/Branch/Budget.antt =====
-- What `prepare_branch_entries` of compaction.rs takes within its budget.
use mathlib.Core.List.{append_assoc, reverse-cons, reverse-reverse, reverse-append, append-nil}
use ri.Base.{
  ℕ, ◌+◌, ◌≤◌, ◌<◌, ◌≡◌, refl, sym, ap, ◌∙◌, subst, Bool, true, false, ◌&&◌, Option, none, some,
  List, [], ◌∷◌, ◌++◌, Text, ltb, if◌then◌else◌, reverse, filter_map, filter_map-append, ◌⊎◌, inl,
  inr, arith, Bool-cases, cons_some,
}
use ri.Base.Maps.{TextMap}
use ri.Message.{Host}
use ri.Session.Entry.{SessionTreeEntry, SessionMessage}
use ri.Session.Context.{Clock}
use ri.Compaction.Estimate.{estimate_session_message_tokens, estimate_session_context_tokens, sum}
use ri.Compaction.Files.{Json, extract_file_ops_from_message, create_file_ops}
use ri.Compaction.Branch.{
  BranchPreparation, saturating_mul, get_message_from_entry_for_branch_summary, is_summary,
  insert_front, gather_one, gather, prepare_branch_entries, note_summaries,
}

module _ {H : Host} (to_string : TextMap H.Value → Option Text) (json : Json H)
    (clock : Clock) where
  -- The tokens are those of the messages.
  IsCounted : BranchPreparation H → Type 0
  IsCounted p = p.total_tokens ≡ estimate_session_context_tokens to_string p.messages

  -- Within the budget, but for the message of a summary in front, where the others have less than
  -- nine tenths of it.
  pub IsWithin : ℕ → BranchPreparation H → Type 0
  IsWithin budget p =
      (budget ≡ 0)
      ⊎ (p.total_tokens ≤ budget)
      ⊎ ((e : SessionTreeEntry H) × (m : SessionMessage H) × (ms : List (SessionMessage H))
          × (p.messages ≡ m ∷ ms)
          × (get_message_from_entry_for_branch_summary clock e ≡ some m)
          × (is_summary e ≡ true)
          × (saturating_mul (estimate_session_context_tokens to_string ms) 10
              < saturating_mul budget 9))

  -- Why nothing of `rest` was taken, which is before the part that was, the last first: a budget of
  -- zero is none.
  pub IsStopped : ℕ → BranchPreparation H → List (SessionTreeEntry H) → Type 0
  IsStopped budget p rest =
      (rest ≡ [])
      ⊎ ((0 < budget) × (budget < p.total_tokens))
      ⊎ ((e : SessionTreeEntry H) × (more : List (SessionTreeEntry H)) × (m : SessionMessage H)
          × (rest ≡ e ∷ more)
          × (0 < budget)
          × (get_message_from_entry_for_branch_summary clock e ≡ some m)
          × (budget < p.total_tokens + estimate_session_message_tokens to_string m))

  Gathered : ℕ → List (SessionTreeEntry H) → BranchPreparation H → BranchPreparation H → Type 0
  Gathered budget back p r =
      (taken rest : List (SessionTreeEntry H)) × (taken ++ rest ≡ back)
      × (r.messages
          ≡ filter_map (get_message_from_entry_for_branch_summary clock) (reverse taken)
            ++ p.messages)
      × IsCounted r
      × IsWithin budget r
      × IsStopped budget r rest

  insert_front-IsCounted :
      (m : SessionMessage H) (p : BranchPreparation H)
      → IsCounted p
      → IsCounted (insert_front to_string json clock m p)
  unfolding IsCounted insert_front estimate_session_context_tokens sum
  insert_front-IsCounted m p h = omega arith

  Gathered-more :
      (budget : ℕ) (e : SessionTreeEntry H) (o : Option (SessionMessage H))
      (back : List (SessionTreeEntry H)) (p p' r : BranchPreparation H)
      → get_message_from_entry_for_branch_summary clock e ≡ o
      → p'.messages ≡ cons_some o p.messages
      → Gathered budget back p' r
      → Gathered budget (e ∷ back) p r
  unfolding Gathered
  Gathered-more budget e o back p p' r q front (taken, rest, split, ms, c, w, s) =
      let f = get_message_from_entry_for_branch_summary clock in
      (
        e ∷ taken,
        rest,
        ap (◌∷◌ e) split,
        ms
            ∙ ap (◌++◌ (filter_map f (reverse taken))) (front ∙ one_more o p.messages)
            ∙ sym (append_assoc (filter_map f (reverse taken)) (cons_some o []) p.messages)
            ∙ ap (λ xs. (filter_map f (reverse taken) ++ cons_some xs []) ++ p.messages) (sym q)
            ∙ ap (λ xs. xs ++ p.messages) (sym (filter_map-append f (reverse taken) (e ∷ [])))
            ∙ ap (λ xs. filter_map f xs ++ p.messages) (sym (reverse-cons e taken)),
        c,
        w,
        s,
      )
    where
      one_more :
          (o : Option (SessionMessage H)) (xs : List (SessionMessage H))
          → cons_some o xs ≡ cons_some o [] ++ xs
      one_more none xs = refl
      one_more (some m) xs = refl

  gather_one-Gathered :
      (budget : ℕ) (e : SessionTreeEntry H) (o : Option (SessionMessage H))
      (back : List (SessionTreeEntry H)) (later : BranchPreparation H → BranchPreparation H)
      (p : BranchPreparation H)
      → get_message_from_entry_for_branch_summary clock e ≡ o
      → IsCounted p
      → (budget ≡ 0) ⊎ (p.total_tokens ≤ budget)
      → ((p' : BranchPreparation H)
          → IsCounted p'
          → (budget ≡ 0) ⊎ (p'.total_tokens ≤ budget)
          → Gathered budget back p' (later p'))
      → Gathered budget (e ∷ back) p (gather_one to_string json clock budget e o later p)
  unfolding gather_one Gathered IsCounted IsWithin IsStopped insert_front
  gather_one-Gathered budget e none back later p q c b ih =
      Gathered-more budget e none back p p (later p) q refl (ih p c b)
  gather_one-Gathered budget e (some m) back later p q c b ih = choose _ _ refl refl
    where
      tokens : ℕ
      tokens = estimate_session_message_tokens to_string m

      noted : BranchPreparation H
      noted = record p { file_ops = extract_file_ops_from_message json m p.file_ops }

      front_small :
          (is_summary e && ltb (saturating_mul p.total_tokens 10) (saturating_mul budget 9)) ≡ true
          → saturating_mul (estimate_session_context_tokens to_string p.messages) 10
            < saturating_mul budget 9
      front_small y =
          subst (λ n. saturating_mul n 10 < saturating_mul budget 9) c (ground (arith, y))

      choose :
          (big small : Bool)
          → (ltb 0 budget && ltb budget (p.total_tokens + tokens)) ≡ big
          → (is_summary e && ltb (saturating_mul p.total_tokens 10) (saturating_mul budget 9))
            ≡ small
          → Gathered budget (e ∷ back) p (
              if big
              then (if small then insert_front to_string json clock m noted else noted)
              else later (insert_front to_string json clock m noted))
      choose true true x y = (
        e ∷ [],
        back,
        refl,
        ap (λ o. cons_some o [] ++ p.messages) (sym q),
        insert_front-IsCounted m noted c,
        inr (inr (e, m, p.messages, refl, q, ground (arith, y), front_small y)),
        inr (inl (ground (arith, x), ground (arith, x))),
      )
      choose true false x y = (
        [],
        e ∷ back,
        refl,
        refl,
        c,
        elim b [ inl z ↦ inl z | inr w ↦ inr (inl w) ],
        inr (inr (e, back, m, refl, ground (arith, x), q, ground (arith, x))),
      )
      choose false small x y =
          Gathered-more budget e (some m) back p (insert_front to_string json clock m noted)
            (later (insert_front to_string json clock m noted)) q refl
            (ih (insert_front to_string json clock m noted) (insert_front-IsCounted m noted c)
              (elim (Bool-cases (ltb 0 budget)) [
                | inl some_budget ↦ inr (ground (arith, x))
                | inr zero_budget ↦ inl (ground (arith))
              ]))

  gather-Gathered :
      (budget : ℕ) (back : List (SessionTreeEntry H)) (p : BranchPreparation H)
      → IsCounted p
      → (budget ≡ 0) ⊎ (p.total_tokens ≤ budget)
      → Gathered budget back p (gather to_string json clock budget back p)
  unfolding gather Gathered IsStopped IsWithin
  gather-Gathered budget [] p c b =
      ([], [], refl, refl, c, elim b [ inl z ↦ inl z | inr w ↦ inr (inl w) ], inl refl)
  gather-Gathered budget (e ∷ back) p c b =
      gather_one-Gathered budget e (get_message_from_entry_for_branch_summary clock e) back
        (gather to_string json clock budget back) p refl c b
        (λ p' c' b'. gather-Gathered budget back p' c' b')

  -- The part of a branch that `prepare_branch_entries` takes is the messages of its last entries
  -- (`after`), all of them in order, and their tokens are the total. That is within the budget, where
  -- there is one; or the first message is that of a compaction or a branch summary, and the others
  -- have less than nine tenths of it. An entry is left out only where there is a budget, which a
  -- budget of zero is not, and that is used up or too small for the last message that is left out.
  pub prepare_branch_entries-budget :
      (entries : List (SessionTreeEntry H)) (budget : ℕ)
      → let r = prepare_branch_entries to_string json clock entries budget in
        (before after : List (SessionTreeEntry H)) × (before ++ after ≡ entries)
        × (r.messages ≡ filter_map (get_message_from_entry_for_branch_summary clock) after)
        × (r.total_tokens ≡ estimate_session_context_tokens to_string r.messages)
        × IsWithin budget r
        × IsStopped budget r (reverse before)
  unfolding prepare_branch_entries Gathered IsCounted estimate_session_context_tokens sum
  prepare_branch_entries-budget entries budget =
      let p : BranchPreparation H = record {
        messages = [];
        file_ops = note_summaries json entries create_file_ops;
        total_tokens = 0;
      } in
      let (taken, rest, split, ms, c, w, s) =
        gather-Gathered budget (reverse entries) p refl (inr (omega arith)) in
      (
        reverse rest,
        reverse taken,
        sym (reverse-append taken rest) ∙ ap reverse split ∙ reverse-reverse entries,
        ms ∙ append-nil _,
        c,
        w,
        subst (IsStopped budget _) (sym (reverse-reverse rest)) s,
      )
