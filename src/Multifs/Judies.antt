-- ===== src/Multifs/Judies.antt =====
-- What libotfs relies on of libjudy: an object is a map in some order of its keys, with a place in
-- it.
use libotfs.Prelude.{ℕ, ◌≡◌, ◌≢◌, Option, none, some, List, [], ◌∷◌, ◌==◌, if◌then◌else◌}
use libotfs.Multifs.{Judy, keys_per_uid}

-- Pairs of a key and the value of its cell.
abbrev pub Pairs : Type 0
Pairs = List (ℕ × ℕ)

abbrev pub find : ℕ → Pairs → Option ℕ
find k [] = none
find k ((j, v) ∷ ps) = if j == k then some v else find k ps

abbrev pub get_or_zero : Option ℕ → ℕ
get_or_zero none = 0
get_or_zero (some v) = v

module _ {W : Type 0} (lib : Judy W) (obj : ℕ) (pairs rest : W → Pairs) where
  -- A walk is at `ps`: a cell for its first pair, and the place before the others.
  abbrev pub Walks : Pairs → Pairs → ℕ × W → Type 0
  Walks all [] (c, w) = (c ≡ 0) × (pairs w ≡ all)
  Walks all ((k, v) ∷ ps) (c, w) =
      (c ≢ 0)
      × (lib.load_cell c w ≡ v)
      × ((old : ℕ) → lib.judy_key obj old (keys_per_uid lib) w ≡ k)
      × (rest w ≡ ps)
      × (pairs w ≡ all)

  -- The documented behaviour of the calls on one object with keys of eight octets.
  pub record IsJudy (place : W → Option ℕ) : Type 0 where
    pub slot_missing :
        (k : ℕ) (w : W)
        → find k (pairs w) ≡ none
        → let (c, w') = lib.judy_slot obj k 8 w in
          (c ≡ 0) × ((j : ℕ) → find j (pairs w') ≡ find j (pairs w))
    pub slot_found :
        (k v : ℕ) (w : W)
        → find k (pairs w) ≡ some v
        → let (c, w') = lib.judy_slot obj k 8 w in
          (c ≢ 0)
          × (lib.load_cell c w' ≡ v)
          × (place w' ≡ some k)
          × ((j : ℕ) → find j (pairs w') ≡ find j (pairs w))
    pub cell_full :
        (k : ℕ) (w : W)
        → let (c, w') = lib.judy_cell obj k 8 w in
          c ≡ 0 → (j : ℕ) → find j (pairs w') ≡ find j (pairs w)
    pub cell_made :
        (k : ℕ) (w : W)
        → let (c, w') = lib.judy_cell obj k 8 w in
          c ≢ 0
          → (lib.load_cell c w' ≡ get_or_zero (find k (pairs w)))
            × ((j : ℕ)
                → find j (pairs w')
                  ≡ (if j == k then some (lib.load_cell c w') else find j (pairs w)))
            × ((j v : ℕ)
                → find j (pairs (lib.store_cell c v w'))
                  ≡ (if j == k then some v else find j (pairs w)))
    pub deleted :
        (j k : ℕ) (w : W)
        → place w ≡ some k
        → find j (pairs (lib.judy_del obj w)) ≡ (if j == k then none else find j (pairs w))
    pub started : (w : W) → Walks (pairs w) (pairs w) (lib.judy_strt obj 0 0 w)
    pub moved : (w : W) → Walks (pairs w) (rest w) (lib.judy_nxt obj w)
