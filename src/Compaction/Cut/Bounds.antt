-- ===== src/Compaction/Cut/Bounds.antt =====
-- What `find_cut_point` of compaction.rs gives.
use mathlib.Core.Option
use ri.Base.{
  ℕ, zero, suc, ◌+◌, ◌-◌, ◌≤◌, ◌<◌, ◌≡◌, refl, ap, ◌∙◌, Bool, true, false, not, ◌&&◌, Option, none,
  some, List, [], ◌∷◌, Text, length, get_elem?, leb, if◌then◌else◌, is_some, All, arith, inl, inr,
  ◌⊎◌,
}
use ri.Base.Maps.{TextMap}
use ri.Message.{Host}
use ri.Session.Entry.{SessionTreeEntry}
use ri.Compaction.Estimate.{estimate_entry_message_tokens}
use ri.Compaction.Cut.{
  CutPointResult, indexed, min, is_user_message, weigh, find_valid_cut_points, turn_start_from,
  find_entry_turn_start_index, next_cut, cut_by_tokens, cut_result, cut_among, find_cut_point,
}
use ri.Compaction.Cut.Points.{
  StartsAt, IsPoint, TurnAt, cut_points_from-IsPoint, next_cut-All, step_back-StartsAt,
  turn_start_from-TurnAt, get_elem?-lt, get_elem?-some,
}

module _ {H : Host} where
  -- What a result says of the entries, where there is a cut point in the range.
  unfoldable pub IsCut : List (SessionTreeEntry H) → ℕ → ℕ → CutPointResult → Type 0
  IsCut entries low high r =
      (low ≤ r.first_kept_entry_index)
      × (r.first_kept_entry_index < high)
      × StartsAt entries r.first_kept_entry_index
      × TurnAt entries low r.first_kept_entry_index r.turn_start_index
      × (r.is_split_turn ≡ is_some r.turn_start_index)

  cut_result-IsCut :
      (entries : List (SessionTreeEntry H)) (low high cut : ℕ)
      → low ≤ cut
      → cut < high
      → StartsAt entries cut
      → (r : CutPointResult) × (cut_result entries low cut ≡ some r) × IsCut entries low high r
  unfolding IsCut cut_result TurnAt StartsAt find_entry_turn_start_index
  cut_result-IsCut entries low high cut l h s =
      let (e, g, c) = s in
      let inside = get_elem?-some entries cut e g in
      finish (is_user_message (get_elem? entries cut)) (find_entry_turn_start_index entries cut low)
        (found_at entries inside)
    where
      found_at :
          (es : List (SessionTreeEntry H))
          → cut < length es
          → (turn : Option ℕ) × (find_entry_turn_start_index es cut low ≡ some turn)
            × TurnAt es low cut turn
      found_at [] i = absurd (omega arith)
      found_at (x ∷ es) i =
          let same : min cut (length (x ∷ es) - 1) ≡ cut = ground arith in
          let (turn, q, w) = turn_start_from-TurnAt (x ∷ es) low cut l i in
          (turn, ap (turn_start_from (x ∷ es) low) same ∙ q, w)

      finish :
          (user : Bool) (found : Option (Option ℕ))
          → ((turn : Option ℕ) × (found ≡ some turn) × TurnAt entries low cut turn)
          → (r : CutPointResult) × (Option.map
                (λ (turn : Option ℕ). record {
                  first_kept_entry_index = cut;
                  turn_start_index = turn;
                  is_split_turn = not user && is_some turn;
                })
                (if user then some none else found)
              ≡ some r)
            × IsCut entries low high r
      finish true found w = (_, refl, (l, h, s, tt, refl))
      finish false found (turn, q, w) = rw (q) (_, refl, (l, h, s, w, refl))

module _ {H : Host} (to_string : TextMap H.Value → Option Text) where
  weigh-All :
      (P : ℕ → Type 0) (keep : ℕ) (points : List ℕ) (cut index accumulated : ℕ)
      (later : ℕ → Option ℕ) (e : SessionTreeEntry H)
      → ((n : ℕ) → (i : ℕ) × (later n ≡ some i) × P i)
      → P (next_cut points index cut)
      → (i : ℕ) × (weigh to_string keep points cut index accumulated later e ≡ some i) × P i
  unfolding weigh
  weigh-All P keep points cut index accumulated later (SessionTreeEntry.message h m) l p =
      let total = accumulated + estimate_entry_message_tokens to_string m in
      either (leb keep total) total
    where
      either :
          (enough : Bool) (total : ℕ)
          → (i : ℕ) × ((if enough then some (next_cut points index cut) else later total) ≡ some i)
            × P i
      either true total = (_, refl, p)
      either false total = l total
  weigh-All P keep points cut index accumulated later e l p = l accumulated

  cut_by_tokens-All :
      (P : ℕ → Type 0) (entries : List (SessionTreeEntry H)) (start keep : ℕ) (points : List ℕ)
      (cut count accumulated : ℕ)
      → start + count ≤ length entries
      → All P points
      → P cut
      → (i : ℕ) × (cut_by_tokens to_string entries start keep points cut count accumulated ≡ some i)
        × P i
  unfolding cut_by_tokens
  cut_by_tokens-All P entries start keep points cut zero accumulated h a p = (cut, refl, p)
  cut_by_tokens-All P entries start keep points cut (suc count) accumulated h a p =
      let (e, q) = get_elem?-lt entries (start + count) (omega arith) in
      rw (q) (
        weigh-All P keep points cut (start + count) accumulated
          (cut_by_tokens to_string entries start keep points cut count) e
          (λ n. cut_by_tokens-All P entries start keep points cut count n (omega arith) a p)
          (next_cut-All P points (start + count) cut a p))

  cut_among-IsCut :
      (entries : List (SessionTreeEntry H)) (low high keep first : ℕ) (points : List ℕ)
      → low + (high - low) ≤ length entries
      → All (IsPoint entries low (low + (high - low))) (first ∷ points)
      → (r : CutPointResult) × (cut_among to_string entries low high keep (first ∷ points) ≡ some r)
        × IsCut entries low high r
  unfolding cut_among IsPoint StartsAt
  cut_among-IsCut entries low high keep first points h (p, a) =
      let P = IsPoint entries low (low + (high - low)) in
      let (cut, q, (l, u, (e, g, c))) =
        cut_by_tokens-All P entries low keep (first ∷ points) first (high - low) 0 h (p, a) p in
      let (i, b, l2, u2, s) = step_back-StartsAt entries low cut l (e, g, inl c) in
      let (r, t, k) = cut_result-IsCut entries low high i l2 (omega arith) s in rw (q, b) (r, t, k)

  cut_among-any :
      (entries : List (SessionTreeEntry H)) (low high keep : ℕ) (points : List ℕ)
      → low + (high - low) ≤ length entries
      → All (IsPoint entries low (low + (high - low))) points
      → (r : CutPointResult) × (cut_among to_string entries low high keep points ≡ some r)
        × (((points ≡ [])
              × (r ≡ record {
                first_kept_entry_index = low;
                turn_start_index = none;
                is_split_turn = false;
              }))
            ⊎ IsCut entries low high r)
  unfolding cut_among
  cut_among-any entries low high keep [] h a = (_, refl, inl (refl, refl))
  cut_among-any entries low high keep (first ∷ points) h a =
      let (r, q, c) = cut_among-IsCut entries low high keep first points h a in (r, q, inr c)

  -- `find_cut_point` never panics. With no cut point in the range, it keeps all from the start, with
  -- no turn split. Otherwise the first entry that is kept is in the range and is no compaction and
  -- no result of a tool; a turn start that is given is in the range, not after it, and is the start
  -- of a turn; and a turn is split just when its start is given.
  pub find_cut_point_lem :
      (entries : List (SessionTreeEntry H)) (start_index end_index keep : ℕ)
      → let low = min start_index (length entries) in
        let high = min end_index (length entries) in
        (r : CutPointResult) × (find_cut_point to_string entries start_index end_index keep
          ≡ some r)
        × (((find_valid_cut_points entries low high ≡ some [])
              × (r ≡ record {
                first_kept_entry_index = low;
                turn_start_index = none;
                is_split_turn = false;
              }))
            ⊎ IsCut entries low high r)
  unfolding find_cut_point find_valid_cut_points cut_among
  find_cut_point_lem entries start_index end_index keep =
      let low = min start_index (length entries) in
      let high = min end_index (length entries) in
      let room : low + (high - low) ≤ length entries = ground arith in
      let (points, q, a) = cut_points_from-IsPoint entries low (high - low) room in
      let (r, t, c) = cut_among-any entries low high keep points room a in
      (
        r,
        ap (λ found. indexed found (cut_among to_string entries low high keep)) q ∙ t,
        elim c [ inl (e, w) ↦ inl (q ∙ ap some e, w) | inr cut ↦ inr cut ],
      )
