-- ===== src/Compaction/Cut.antt =====
-- Where compaction.rs cuts a branch: the valid cut points, the start of a turn, and
-- `find_cut_point`. The result `none` is a panic: an index out of range, or a `usize` below 0.
pub mod Points
pub mod Bounds
use mathlib.Core.Option
use ri.Base.{
  ℕ, zero, suc, ◌+◌, ◌-◌, Bool, true, false, not, ◌&&◌, Option, none, some, List, [], ◌∷◌, Text,
  length, get_elem?, leb, ltb, ◌==◌, if◌then◌else◌, is_some, is_empty,
}
use ri.Base.Maps.{TextMap}
use ri.Message.{Host, Message}
use ri.Session.Entry.{SessionTreeEntry, SessionEntryMessage}
use ri.Compaction.Estimate.{estimate_entry_message_tokens}

pub record CutPointResult : Type 0 where
  pub first_kept_entry_index : ℕ
  pub turn_start_index : Option ℕ
  pub is_split_turn : Bool

abbrev pub min : ℕ → ℕ → ℕ
min a b = if leb a b then a else b

-- `if let`, on an index that panics out of range.
abbrev pub indexed {ℓ κ} : {A : Type ℓ} {B : Type κ} → Option A → (A → Option B) → Option B
indexed none f = none
indexed (some a) f = f a

-- `cut_points.iter().find(|cut| **cut >= index)`, or the old cut.
unfoldable pub next_cut : List ℕ → ℕ → ℕ → ℕ
next_cut [] index old = old
next_cut (cut ∷ cuts) index old =
    let further = next_cut cuts index old in if leb index cut then cut else further

module _ {H : Host} where
  -- The entries that `find_valid_cut_points` takes.
  unfoldable pub is_cut_point : SessionTreeEntry H → Bool
  is_cut_point (SessionTreeEntry.message h (SessionEntryMessage.llm (Message.user m))) = true
  is_cut_point (SessionTreeEntry.message h (SessionEntryMessage.llm (Message.assistant m))) = true
  is_cut_point (SessionTreeEntry.message h (SessionEntryMessage.llm (Message.tool_result m))) =
      false
  is_cut_point (SessionTreeEntry.message h (SessionEntryMessage.bash_execution m)) = true
  is_cut_point (SessionTreeEntry.branch_summary h f s d u k) = true
  is_cut_point (SessionTreeEntry.custom_message h t c s d) = true
  is_cut_point _ = false

  -- The entries that `find_entry_turn_start_index` stops at.
  unfoldable pub is_turn_start : SessionTreeEntry H → Bool
  is_turn_start (SessionTreeEntry.branch_summary h f s d u k) = true
  is_turn_start (SessionTreeEntry.custom_message h t c s d) = true
  is_turn_start (SessionTreeEntry.message h (SessionEntryMessage.llm (Message.user m))) = true
  is_turn_start (SessionTreeEntry.message h (SessionEntryMessage.bash_execution m)) = true
  is_turn_start _ = false

  -- The entries that the last loop of `find_cut_point` stops after.
  unfoldable pub is_message_or_compaction : SessionTreeEntry H → Bool
  is_message_or_compaction (SessionTreeEntry.compaction h c) = true
  is_message_or_compaction (SessionTreeEntry.message h m) = true
  is_message_or_compaction _ = false

  unfoldable pub is_user_message : Option (SessionTreeEntry H) → Bool
  is_user_message (some (SessionTreeEntry.message h (SessionEntryMessage.llm (Message.user m)))) =
      true
  is_user_message _ = false

  -- The loop over `count` indices from `index`.
  unfoldable pub cut_points_from : List (SessionTreeEntry H) → ℕ → ℕ → Option (List ℕ)
  cut_points_from entries index zero = some []
  cut_points_from entries index (suc count) =
      let later = cut_points_from entries (index + 1) count in
      indexed (get_elem? entries index)
        (λ e. Option.map (λ points. if is_cut_point e then index ∷ points else points) later)

  unfoldable pub find_valid_cut_points : List (SessionTreeEntry H) → ℕ → ℕ → Option (List ℕ)
  find_valid_cut_points entries start_index end_index =
      cut_points_from entries start_index (end_index - start_index)

  -- The loop from `index` down to `start_index`.
  unfoldable pub turn_start_from : List (SessionTreeEntry H) → ℕ → ℕ → Option (Option ℕ)
  turn_start_from entries start_index zero =
      indexed (get_elem? entries 0) (λ e.
        if is_turn_start e then some (some 0) else if 0 == start_index then some none else none)
  turn_start_from entries start_index (suc index) =
      let earlier = turn_start_from entries start_index index in
      indexed (get_elem? entries (suc index)) (λ e.
        if is_turn_start e
        then some (some (suc index))
        else if suc index == start_index
        then some none
        else earlier)

  unfoldable pub find_entry_turn_start_index : List (SessionTreeEntry H) → ℕ → ℕ → Option (Option ℕ)
  find_entry_turn_start_index entries entry_index start_index =
      if is_empty entries
      then some none
      else turn_start_from entries start_index (min entry_index (length entries - 1))

  -- The while loop: over entries that are neither messages nor compactions.
  unfoldable pub step_back : List (SessionTreeEntry H) → ℕ → ℕ → Option ℕ
  step_back entries start zero = some zero
  step_back entries start (suc index) =
      let earlier = step_back entries start index in
      if ltb start (suc index)
      then indexed (get_elem? entries index)
          (λ e. if is_message_or_compaction e then some (suc index) else earlier)
      else some (suc index)

  -- The end of `find_cut_point`, at the cut.
  unfoldable pub cut_result : List (SessionTreeEntry H) → ℕ → ℕ → Option CutPointResult
  cut_result entries bounded_start cut =
      let user = is_user_message (get_elem? entries cut) in
      Option.map
        (λ (turn : Option ℕ). record {
          first_kept_entry_index = cut;
          turn_start_index = turn;
          is_split_turn = not user && is_some turn;
        })
        (if user then some none else find_entry_turn_start_index entries cut bounded_start)

module _ {H : Host} (to_string : TextMap H.Value → Option Text) where
  -- One pass of the loop over the tokens, at `index`; `later` is what the passes after it give.
  unfoldable pub weigh : ℕ → List ℕ → ℕ → ℕ → ℕ → (ℕ → Option ℕ) → SessionTreeEntry H → Option ℕ
  weigh keep points cut index accumulated later (SessionTreeEntry.message h m) =
      let total = accumulated + estimate_entry_message_tokens to_string m in
      if leb keep total then some (next_cut points index cut) else later total
  weigh keep points cut index accumulated later _ = later accumulated

  -- The loop over `count` indices from `start`, the last first.
  unfoldable pub cut_by_tokens : List (SessionTreeEntry H) → ℕ → ℕ → List ℕ → ℕ → ℕ → ℕ → Option ℕ
  cut_by_tokens entries start keep points cut zero accumulated = some cut
  cut_by_tokens entries start keep points cut (suc count) accumulated =
      let later = cut_by_tokens entries start keep points cut count in
      indexed (get_elem? entries (start + count))
        (weigh keep points cut (start + count) accumulated later)

  unfoldable pub cut_among : List (SessionTreeEntry H) → ℕ → ℕ → ℕ → List ℕ → Option CutPointResult
  unfolding cut_result
  cut_among entries bounded_start bounded_end keep [] = some (record {
    first_kept_entry_index = bounded_start;
    turn_start_index = none;
    is_split_turn = false;
  })
  cut_among entries bounded_start bounded_end keep (first ∷ points) =
      indexed
        (cut_by_tokens entries bounded_start keep (first ∷ points) first
          (bounded_end - bounded_start) 0)
        (λ cut. indexed (step_back entries bounded_start cut) (cut_result entries bounded_start))

  unfoldable pub find_cut_point : List (SessionTreeEntry H) → ℕ → ℕ → ℕ → Option CutPointResult
  unfolding cut_among
  find_cut_point entries start_index end_index keep_recent_tokens =
      let bounded_start = min start_index (length entries) in
      let bounded_end = min end_index (length entries) in
      indexed (find_valid_cut_points entries bounded_start bounded_end)
        (cut_among entries bounded_start bounded_end keep_recent_tokens)
