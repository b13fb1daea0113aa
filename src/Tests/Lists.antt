-- ===== src/Tests/Lists.antt =====
-- A list of pairs in place of libjudy, for the runs of otlib/veelite_multifs.c and main/otfs.c.
use libotfs.Prelude.{
  ℕ, ◌+◌, ◌-◌, ◌≡◌, refl, Option, none, some, [], ◌∷◌, ◌==◌, if◌then◌else◌, arith, Bool-cases, inl,
  inr, Option-cases,
}
use libotfs.Multifs.{Judy}
use libotfs.Multifs.Judies.{Pairs, find, get_or_zero, IsJudy, Walks}

pub record Store : Type 0 where
  pub pairs : Pairs
  pub rest : Pairs
  pub place : Option ℕ
  pub value : ℕ

abbrev set : ℕ → ℕ → Pairs → Pairs
set k v [] = []
set k v ((j, u) ∷ ps) = if j == k then (j, v) ∷ ps else (j, u) ∷ set k v ps

abbrev remove : ℕ → Pairs → Pairs
remove k [] = []
remove k ((j, u) ∷ ps) = let rest = remove k ps in if j == k then rest else (j, u) ∷ rest

abbrev slot : ℕ → ℕ → ℕ → Store → ℕ × Store
slot obj k length w = elim (find k w.pairs) [
  | none ↦ (0, w)
  | some v ↦ (k + 2, record w { place = some k })
]

abbrev cell : ℕ → ℕ → ℕ → Store → ℕ × Store
cell obj k length w =
    (k + 2, elim (find k w.pairs) [ none ↦ record w { pairs = (k, 0) ∷ w.pairs } | some v ↦ w ])

abbrev walk : Pairs → Store → ℕ × Store
walk [] w = (0, w)
walk ((k, v) ∷ ps) w = (1, record w { rest = ps; place = some k; value = v })

abbrev cut : Option ℕ → Store → Store
cut none w = w
cut (some k) w = record w { pairs = remove k w.pairs }

-- The cell 1 is that of a walk.
abbrev pub lists : Judy Store
lists = record {
  judy_open = λ max depth w. (1, w);
  judy_close = λ obj w. record w { pairs = []; rest = []; place = none };
  judy_cell = cell;
  judy_slot = slot;
  judy_del = λ obj w. cut w.place w;
  judy_key = λ obj old max w. get_or_zero w.place;
  judy_strt = λ obj k length w. walk w.pairs w;
  judy_nxt = λ obj w. walk w.rest w;
  load_cell = λ c w. if c == 1 then w.value else get_or_zero (find (c - 2) w.pairs);
  store_cell = λ c v w. record w { pairs = set (c - 2) v w.pairs };
  key_size = 8;
}

find-set :
    (k v j : ℕ) (ps : Pairs) (u : ℕ)
    → find k ps ≡ some u
    → find j (set k v ps) ≡ (if j == k then some v else find j ps)
find-set k v j [] u e = absurd (cc)
find-set k v j ((i, x) ∷ ps) u e = elim (Bool-cases (i == k)) [
  | inl same ↦ rw same (ground (arith, same))
  | inr other ↦ rw other (ground (arith, other, find-set k v j ps u))
]

find-remove : (k j : ℕ) (ps : Pairs) → find j (remove k ps) ≡ (if j == k then none else find j ps)
find-remove k j [] = ground arith
find-remove k j ((i, x) ∷ ps) = elim (Bool-cases (i == k)) [
  | inl same ↦ rw same (ground (arith, same, find-remove k j ps))
  | inr other ↦ rw other (ground (arith, other, find-remove k j ps))
]

walk-Walks :
    (ps : Pairs) (w : Store) → Walks lists 1 (λ w. w.pairs) (λ w. w.rest) w.pairs ps (walk ps w)
walk-Walks [] w = (refl, refl)
walk-Walks ((k, v) ∷ ps) w = (omega arith, refl, λ old. refl, refl, refl)

cell_made :
    (k : ℕ) (w : Store)
    → let (c, w') = cell 1 k 8 w in
      (lists.load_cell c w' ≡ get_or_zero (find k w.pairs))
      × ((j : ℕ)
          → find j w'.pairs ≡ (if j == k then some (lists.load_cell c w') else find j w.pairs))
      × ((j v : ℕ)
          → find j (lists.store_cell c v w').pairs ≡ (if j == k then some v else find j w.pairs))
cell_made k w = elim (Option-cases (find k w.pairs)) [
  | inl e ↦ (ground (arith, e), λ j. ground (arith, e), λ j v. ground (arith, e))
  | inr (u, e) ↦ (
    ground (arith, e),
    λ j. ground (arith, e),
    λ j v. ground (arith, e, find-set k v j w.pairs u),
  )
]

pub lists-IsJudy : IsJudy lists 1 (λ w. w.pairs) (λ w. w.rest) (λ w. w.place)
lists-IsJudy = record {
  slot_missing = λ k w e. (rw (e, slot) refl, λ j. rw (e, slot) refl);
  slot_found =
      λ k v w e. (ground (arith, e), ground (arith, e), ground (arith, e), λ j. ground (arith, e));
  cell_full = λ k w full. absurd (omega (arith, full));
  cell_made = λ k w some_cell. cell_made k w;
  deleted = λ j k w e. ground (arith, e, find-remove k j w.pairs);
  started = λ w. walk-Walks w.pairs w;
  moved = λ w. walk-Walks w.rest w;
}
