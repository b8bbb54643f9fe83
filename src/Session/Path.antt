-- ===== src/Session/Path.antt =====
-- The two walks from an entry up to the root in crates/ri-agent-core/src/harness/session.rs.
-- A walk is a `loop` over the parents, here with fuel: `none` means that the fuel ran out, that
-- is, that the loop of the source is still running.
pub mod Chain
pub mod Rank
pub mod Stops
pub mod Ends
pub mod Cycle
use ri.Base.{
  ℕ, zero, suc, Bool, true, false, not, Option, none, some, List, [], ◌∷◌, ◌++◌, reverse, Text,
  if◌then◌else◌, retain, is_some, text_eq,
}
use ri.Base.Maps.{TextMap, get}
use ri.Message.{Host}
use ri.Session.Entry.{
  SessionTreeEntry, CompactionFields, Result, ok, err, entry_not_found, not_found, invalid_session,
  id, parent_id, is_leaf, message, compaction,
}

module _ {H : Host} where
  -- The loop of `get_path_to_root`.
  unfoldable pub climb :
      ℕ
      → (Text → Option (SessionTreeEntry H))
      → List (SessionTreeEntry H)
      → SessionTreeEntry H
      → Option (Result (List (SessionTreeEntry H)))
  climb zero lookup path current = none
  climb (suc fuel) lookup path current = elim (parent_id current) [
    | none ↦ some (ok (reverse (path ++ current ∷ [])))
    | some p ↦ elim (lookup p) [
      | none ↦ some (err (entry_not_found invalid_session p))
      | some next ↦ climb fuel lookup (path ++ current ∷ []) next
    ]
  ]

  unfoldable pub get_path_to_root :
      ℕ → TextMap (SessionTreeEntry H) → Option Text → Option (Result (List (SessionTreeEntry H)))
  unfolding climb
  get_path_to_root fuel by_id none = some (ok [])
  get_path_to_root fuel by_id (some leaf_id) = elim (get by_id leaf_id) [
    | none ↦ some (err (entry_not_found not_found leaf_id))
    | some current ↦ climb fuel (get by_id) [] current
  ]

  abbrev pub is_stop : Option Text → SessionTreeEntry H → Bool
  is_stop none e = false
  is_stop (some k) e = text_eq k (id e)

  -- Whether the walk ends at a compaction, since its summary carries the tail.
  abbrev pub has_retained_tail : SessionTreeEntry H → Bool
  has_retained_tail (compaction h c) = is_some c.retained_tail
  has_retained_tail _ = false

  -- A compaction sets the stop of the walk anew, also to `none`.
  abbrev pub stop_after : Option Text → SessionTreeEntry H → Option Text
  stop_after stop (compaction h c) = c.first_kept_entry_id
  stop_after stop _ = stop

  -- The end of the walk: the path from the root, without the leaf markers.
  unfoldable pub finish_path : List (SessionTreeEntry H) → List (SessionTreeEntry H)
  finish_path path = retain (λ e. not (is_leaf e)) (reverse path)

  -- The loop of `get_path_to_root_or_compaction`.
  unfoldable pub climb_or_stop :
      ℕ
      → (Text → Option (SessionTreeEntry H))
      → List (SessionTreeEntry H)
      → Option Text
      → SessionTreeEntry H
      → Option (Result (List (SessionTreeEntry H)))
  climb_or_stop zero lookup path stop current = none
  climb_or_stop (suc fuel) lookup path stop current = elim (is_stop stop current) [
    | true ↦ some (ok (finish_path (path ++ current ∷ [])))
    | false ↦ elim (has_retained_tail current) [
      | true ↦ some (ok (finish_path (path ++ current ∷ [])))
      | false ↦ elim (parent_id current) [
        | none ↦ some (ok (finish_path (path ++ current ∷ [])))
        | some p ↦ elim (lookup p) [
          | none ↦ some (err (entry_not_found invalid_session p))
          | some next ↦
              climb_or_stop fuel lookup (path ++ current ∷ []) (stop_after stop current) next
        ]
      ]
    ]
  ]

  unfoldable pub get_path_to_root_or_compaction :
      ℕ
      → (Text → Option (SessionTreeEntry H))
      → Option Text
      → Option (Result (List (SessionTreeEntry H)))
  unfolding climb_or_stop
  get_path_to_root_or_compaction fuel lookup none = some (ok [])
  get_path_to_root_or_compaction fuel lookup (some leaf_id) = elim (lookup leaf_id) [
    | none ↦ some (err (entry_not_found not_found leaf_id))
    | some current ↦ climb_or_stop fuel lookup [] none current
  ]
