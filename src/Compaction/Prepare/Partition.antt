-- ===== src/Compaction/Prepare/Partition.antt =====
-- What a preparation of compaction.rs summarises: all that comes before the part that is kept.
use mathlib.Core.List.{append-nil}
use ri.Base.{
  ℕ, suc, ◌+◌, ◌-◌, ◌≤◌, ◌<◌, ◌≡◌, refl, sym, ap, ◌∙◌, subst, Bool, true, false, ◌||◌, Option, none,
  some, List, [], ◌∷◌, ◌++◌, Text, length, take, drop, get_elem?, if◌then◌else◌, is_empty, last,
  filter_map, or_else, arith, inl, inr, ◌⊎◌, is_some, text_eq, filter_map-append,
}
use ri.Base.Maps.{TextMap}
use ri.Message.{Host}
use ri.Session.Entry.{SessionTreeEntry, SessionMessage, CompactionFields, id}
use ri.Session.Context.{Clock, position, one_further}
use ri.Compaction.Usage.{CompactionThresholdSettings, rfind_map}
use ri.Compaction.Cut.{CutPointResult, find_cut_point, indexed, min}
use ri.Compaction.Cut.Points.{TurnAt, get_elem?-lt}
use ri.Compaction.Cut.Bounds.{IsCut, find_cut_point_lem}
use ri.Compaction.Files.{Json}
use ri.Compaction.Prepare.Slices.{slice_ok, slices_meet, rfind_map-before_last}
use ri.Compaction.Prepare.{
  done, CompactionPreparation, get_message_from_entry_for_compaction, compaction_of, ends_compacted,
  place, boundary, history_end, prefix_slice, prepared, with_history, with_kept, prepare_compaction,
}

module _ {H : Host} where
  position-lt :
      (k : Text) (es : List (SessionTreeEntry H)) (i : ℕ) → position k es ≡ some i → i < length es
  unfolding position
  position-lt k [] i h = absurd (ground (arith, h))
  position-lt k (e ∷ es) i h = by_place (position k es) (text_eq (id e) k) (position-lt k es) h
    where
      by_place :
          (o : Option ℕ) (same : Bool)
          → ((j : ℕ) → o ≡ some j → j < length es)
          → (if same then some 0 else one_further o) ≡ some i
          → i < suc (length es)
      by_place o true f h = ground (arith, h)
      by_place none false f h = absurd (cc)
      by_place (some j) false f h = ground (arith, h, f j refl)

  last-lt :
      (es : List (SessionTreeEntry H)) (z : SessionTreeEntry H) → last es ≡ some z → 0 < length es
  last-lt [] z l = absurd (cc)
  last-lt (e ∷ es) z l = omega arith

  boundary-lt :
      (es : List (SessionTreeEntry H)) (z : SessionTreeEntry H)
      → last es ≡ some z
      → compaction_of z ≡ none
      → boundary (rfind_map compaction_of 0 es) es < length es
  unfolding boundary place
  boundary-lt es z l n =
      by_previous (rfind_map compaction_of 0 es)
        (λ i c h. rfind_map-before_last compaction_of 0 es i c z l n h)
    where
      placed :
          (o : Option Text) (i : ℕ)
          → i + 1 < 0 + length es
          → or_else (i + 1) (place o es) < length es
      placed none i h = omega arith
      placed (some k) i h = found (position k es) (position-lt k es)
        where
          found :
              (o : Option ℕ)
              → ((j : ℕ) → o ≡ some j → j < length es)
              → or_else (i + 1) o < length es
          found none f = omega arith
          found (some j) f = f j refl

      by_previous :
          (o : Option (ℕ × CompactionFields H))
          → ((i : ℕ) (c : CompactionFields H) → o ≡ some (i, c) → i + 1 < 0 + length es)
          → boundary o es < length es
      by_previous none f = last-lt es z l
      by_previous (some (i, c)) f = placed c.first_kept_entry_id i (f i c refl)

  ends_compacted-false :
      (z : SessionTreeEntry H) → compaction_of z ≡ none → ends_compacted (some z) ≡ false
  unfolding compaction_of ends_compacted
  ends_compacted-false (SessionTreeEntry.compaction d c) n = absurd (cc)
  ends_compacted-false z n = refl

  prepares :
      (es : List (SessionTreeEntry H)) (z : SessionTreeEntry H)
      → last es ≡ some z
      → compaction_of z ≡ none
      → (is_empty es || ends_compacted (last es)) ≡ false
  prepares [] z l n = absurd (cc)
  prepares (e ∷ es) z l n = ap ends_compacted l ∙ ends_compacted-false z n

-- The messages that a list of entries holds, for a summary.
abbrev pub messages_of : {H : Host} → Clock → List (SessionTreeEntry H) → List (SessionMessage H)
messages_of clock es = filter_map (get_message_from_entry_for_compaction clock) es

or_cut : {A B C : Type 0} → (A × B) ⊎ C → B ⊎ C
or_cut (inl (a, b)) = inl b
or_cut (inr c) = inr c

module _ {H : Host} (to_string : TextMap H.Value → Option Text) (json : Json H) (clock : Clock)
    (settings : CompactionThresholdSettings) where
  -- A result that keeps all from `low`, or is a cut, in the same terms.
  CutFacts : List (SessionTreeEntry H) → ℕ → CutPointResult → Type 0
  CutFacts es low r =
      (low ≤ r.first_kept_entry_index)
      × (r.first_kept_entry_index < length es)
      × TurnAt es low r.first_kept_entry_index r.turn_start_index
      × (r.is_split_turn ≡ is_some r.turn_start_index)

  cut_facts :
      (es : List (SessionTreeEntry H)) (low : ℕ) (r : CutPointResult)
      → low < length es
      → ((r ≡ record {
        first_kept_entry_index = min low (length es);
        turn_start_index = none;
        is_split_turn = false;
      })
          ⊎ IsCut es (min low (length es)) (min (length es) (length es)) r)
      → CutFacts es low r
  unfolding CutFacts IsCut TurnAt
  cut_facts es low r h (inl e) =
      subst (CutFacts es low) (sym e) (ground arith, ground arith, tt, refl)
  cut_facts es low r h (inr (a, b, s, t, p)) =
      let same : min low (length es) ≡ low = ground arith in
      (
        ground (arith, a),
        ground (arith, b),
        subst (λ k. TurnAt es k r.first_kept_entry_index r.turn_start_index) same t,
        p,
      )

  with_kept-partition :
      (es : List (SessionTreeEntry H)) (previous : Option (ℕ × CompactionFields H)) (cut : ℕ)
      (turn : Option ℕ) (split : Bool) (kept : SessionTreeEntry H)
      → boundary previous es ≤ cut
      → cut < length es
      → TurnAt es (boundary previous es) cut turn
      → split ≡ is_some turn
      → (p : CompactionPreparation H) × (with_kept to_string json clock settings es previous
            (record {
              first_kept_entry_index = cut;
              turn_start_index = turn;
              is_split_turn = split;
            })
            (some kept)
          ≡ some (done (some p)))
        × (p.first_kept_entry_id ≡ id kept)
        × (p.messages_to_summarize ++ p.turn_prefix_messages
            ≡ messages_of clock
                (take (cut - boundary previous es) (drop (boundary previous es) es)))
  unfolding with_kept with_history history_end prefix_slice prepared TurnAt
  with_kept-partition es previous cut none true kept l h t s = absurd (cc)
  with_kept-partition es previous cut (some i) false kept l h t s = absurd (cc)
  with_kept-partition es previous cut none false kept l h t s =
      rw (slice_ok (boundary previous es) cut es l (omega arith)) (_, refl, refl, append-nil _)
  with_kept-partition es previous cut (some i) true kept l h (low, high, e) s =
      rw
        (
          slice_ok (boundary previous es) i es low (omega arith),
          slice_ok i cut es high (omega arith),
        )
        (
          _,
          refl,
          refl,
          sym (filter_map-append (get_message_from_entry_for_compaction clock) _ _)
              ∙ ap (messages_of clock) (slices_meet (boundary previous es) i cut es low high),
        )

  -- Where the path is not empty and does not end with a compaction, `prepare_compaction` succeeds,
  -- with no panic: it keeps the path from an entry whose id it gives, and the messages that it
  -- summarises and then those of the turn that is split are all messages from the boundary, which
  -- the last compaction sets, to that entry, in order.
  pub prepare_compaction-partition :
      (es : List (SessionTreeEntry H)) (z : SessionTreeEntry H)
      → last es ≡ some z
      → compaction_of z ≡ none
      → let low = boundary (rfind_map compaction_of 0 es) es in
        (p : CompactionPreparation H) × (cut : ℕ) × (kept : SessionTreeEntry H)
        × (prepare_compaction to_string json clock settings es ≡ some (done (some p)))
        × (low ≤ cut)
        × (get_elem? es cut ≡ some kept)
        × (p.first_kept_entry_id ≡ id kept)
        × (p.messages_to_summarize ++ p.turn_prefix_messages
            ≡ messages_of clock (take (cut - low) (drop low es)))
  unfolding prepare_compaction CutFacts
  prepare_compaction-partition es z l n =
      let previous = rfind_map compaction_of 0 es in
      let low = boundary previous es in
      let (r, q, c) = find_cut_point_lem to_string es low (length es) settings.keep_recent_tokens in
      let (lo, hi, turn, split) = cut_facts es low r (boundary-lt es z l n) (or_cut c) in
      let (kept, g) = get_elem?-lt es r.first_kept_entry_index hi in
      let (p, w, k, m) =
        with_kept-partition es previous r.first_kept_entry_index r.turn_start_index r.is_split_turn
          kept lo hi turn split in
      (
        p,
        r.first_kept_entry_index,
        kept,
        ap
              (λ (b : Bool).
                if b
                then some (done none)
                else indexed
                    (find_cut_point to_string es low (length es) settings.keep_recent_tokens)
                    (λ r.
                      with_kept to_string json clock settings es previous r
                        (get_elem? es r.first_kept_entry_index)))
              (prepares es z l n)
            ∙ ap
                (λ o. indexed o (λ r.
                  with_kept to_string json clock settings es previous r
                    (get_elem? es r.first_kept_entry_index)))
                q
            ∙ ap (with_kept to_string json clock settings es previous r) g
            ∙ w,
        lo,
        g,
        k,
        m,
      )
