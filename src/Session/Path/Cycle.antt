-- ===== src/Session/Path/Cycle.antt =====
-- Where the walks of session.rs do not end: entries whose parents lead round and round. Appending
-- makes no such entry, but a session file may hold one.
use ri.Base.{ℕ, zero, suc, ◌≡◌, refl, none, some, List, [], ◌∷◌, ◌++◌, Text}
use ri.Base.Maps.{TextMap, get}
use ri.Message.{Host}
use ri.Session.Entry.{SessionTreeEntry, parent_id}
use ri.Session.Path.{climb, get_path_to_root}

module _ {H : Host} (by_id : TextMap (SessionTreeEntry H)) (Within : SessionTreeEntry H → Type 0)
    (closed : (e : SessionTreeEntry H)
      → Within e
      → (p : Text) × (q : SessionTreeEntry H) × (parent_id e ≡ some p)
        × (get by_id p ≡ some q)
        × Within q) where
  climb_cycle :
      (fuel : ℕ) (path : List (SessionTreeEntry H)) (e : SessionTreeEntry H)
      → Within e
      → climb fuel (get by_id) path e ≡ none
  unfolding climb
  climb_cycle zero path e w = refl
  climb_cycle (suc fuel) path e w =
      let (p, q, r, found, w') = closed e w in
      rw (r, found, climb) (climb_cycle fuel (path ++ e ∷ []) q w')

  -- If every entry of some class has a parent in the class, the walk from such an entry never ends:
  -- no amount of fuel is enough.
  pub get_path_to_root_cycle :
      (fuel : ℕ) (k : Text) (e : SessionTreeEntry H)
      → get by_id k ≡ some e
      → Within e
      → get_path_to_root fuel by_id (some k) ≡ none
  unfolding get_path_to_root
  get_path_to_root_cycle fuel k e found w = rw (found, get_path_to_root) (climb_cycle fuel [] e w)
