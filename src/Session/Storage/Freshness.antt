-- ===== src/Session/Storage/Freshness.antt =====
-- `generate_entry_id` of session.rs: when the new id is free.
use ri.Base.{ℕ, zero, suc, ◌≡◌, ◌⊎◌, inl, inr, false, arith, Text}
use ri.Base.Maps.{TextMap, contains_key}
use ri.Session.Storage.{short_id, try_ids, generate_entry_id}

-- The calls of `uuidv7` are good for a map: one of the next `n` short ids is free, or else the
-- full id of the call after them is.
abbrev pub HasFreeId : {V : Type 0} → ℕ → ℕ → (ℕ → Text) → TextMap V → Type 0
HasFreeId zero i uuid by_id = contains_key by_id (uuid i) ≡ false
HasFreeId (suc n) i uuid by_id =
    (contains_key by_id (short_id (uuid i)) ≡ false) ⊎ HasFreeId n (suc i) uuid by_id

try_ids_fresh :
    {V : Type 0} (n i : ℕ) (uuid : ℕ → Text) (by_id : TextMap V)
    → HasFreeId n i uuid by_id
    → contains_key by_id (try_ids n i uuid by_id) ≡ false
unfolding try_ids
try_ids_fresh zero i uuid by_id h = h
try_ids_fresh (suc n) i uuid by_id (inl h) = ground arith
try_ids_fresh (suc n) i uuid by_id (inr h) = ground (arith, try_ids_fresh n (suc i) uuid by_id h)

-- The loop gives a free id if any of its hundred short ids is free, or else the last full id.
pub generate_entry_id_fresh :
    {V : Type 0} (uuid : ℕ → Text) (by_id : TextMap V)
    → HasFreeId 100 0 uuid by_id
    → contains_key by_id (generate_entry_id uuid by_id) ≡ false
unfolding generate_entry_id
generate_entry_id_fresh uuid by_id h = try_ids_fresh 100 0 uuid by_id h
