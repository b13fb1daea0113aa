-- ===== src/Auth/Keys.antt =====
-- The search of the key table of otlib/auth.c: what `sub_search_user` finds and what it changes.
use libotfs.Prelude.{
  ℕ, zero, suc, ◌+◌, ◌-◌, ◌≤◌, ◌<◌, ◌≡◌, ◌∙◌, refl, Bool, true, false, Option, none, some, arith,
  inl, inr, Bool-cases,
}
use native.Mathlib.Decide.{dec_lt}
use libotfs.Auth.{Table, AuthInfo, Eax, matches, expired, wipe, search_from, search_table}

module _ {Ctx : Type 0} (eax : Eax Ctx) (now id64 reqmod : ℕ) where
  abbrev Result : Type 0
  Result = Option ℕ × Table Ctx

  abbrev hit : AuthInfo → Bool
  hit e = matches eax now e id64 reqmod

  abbrev late : AuthInfo → Bool
  late e = expired eax now e

  -- The three ways of one step.
  search_miss :
      (n i : ℕ) (t : Table Ctx)
      → hit (t.info i) ≡ false
      → search_from eax now (suc n) i id64 reqmod t ≡ search_from eax now n (i + 1) id64 reqmod t
  unfolding search_from
  search_miss n i t h = rw h

  search_late :
      (n i : ℕ) (t : Table Ctx)
      → hit (t.info i) ≡ true
      → late (t.info i) ≡ true
      → search_from eax now (suc n) i id64 reqmod t
        ≡ search_from eax now n (i + 1) id64 reqmod (wipe eax now i t)
  unfolding search_from
  search_late n i t h l = rw (h, l)

  search_hit :
      (n i : ℕ) (t : Table Ctx)
      → hit (t.info i) ≡ true
      → late (t.info i) ≡ false
      → search_from eax now (suc n) i id64 reqmod t ≡ (some i, t)
  unfolding search_from
  search_hit n i t h l = rw (h, l)

  -- Which of the three it is.
  data Step (n i : ℕ) (t : Table Ctx) : Type 0 where
    miss :
        hit (t.info i) ≡ false
        → search_from eax now (suc n) i id64 reqmod t ≡ search_from eax now n (i + 1) id64 reqmod t
        → Step n i t
    over :
        hit (t.info i) ≡ true
        → late (t.info i) ≡ true
        → search_from eax now (suc n) i id64 reqmod t
          ≡ search_from eax now n (i + 1) id64 reqmod (wipe eax now i t)
        → Step n i t
    found :
        hit (t.info i) ≡ true
        → late (t.info i) ≡ false
        → search_from eax now (suc n) i id64 reqmod t ≡ (some i, t)
        → Step n i t

  step : (n i : ℕ) (t : Table Ctx) → Step n i t
  step n i t = elim (Bool-cases (hit (t.info i))) [
    | inr h ↦ miss h (search_miss n i t h)
    | inl h ↦ elim (Bool-cases (late (t.info i))) [
      | inl l ↦ over h l (search_late n i t h l)
      | inr l ↦ found h l (search_hit n i t h l)
    ]
  ]

  -- The search leaves the entries before its start alone.
  pub search_from-below :
      (n i k : ℕ) (t : Table Ctx)
      → k < i
      → ((search_from eax now n i id64 reqmod t).1.info k ≡ t.info k)
        × ((search_from eax now n i id64 reqmod t).1.size ≡ t.size)
  search_from-below zero i k t h = unfold search_from in (refl, refl)
  search_from-below (suc n) i k t h = elim (step n i t) [
    | miss _ e ↦ rw e (search_from-below n (i + 1) k t (omega arith))
    | over _ _ e ↦
        rw e (ground (arith, search_from-below n (i + 1) k (wipe eax now i t) (omega arith)))
    | found _ _ e ↦ rw e (refl, refl)
  ]

  info-wipe : (i k : ℕ) (t : Table Ctx) → i < k → (wipe eax now i t).info k ≡ t.info k
  info-wipe i k t h = ground arith

  -- What is found is in range, fits and is not expired, and its entry is as it was.
  pub search_from-some :
      (n i k : ℕ) (t : Table Ctx)
      → (search_from eax now n i id64 reqmod t).0 ≡ some k
      → (i ≤ k)
        × (k < i + n)
        × (hit (t.info k) ≡ true)
        × (late (t.info k) ≡ false)
        × ((search_from eax now n i id64 reqmod t).1.info k ≡ t.info k)
  search_from-some zero i k t h = absurd (unfold search_from in cc)
  search_from-some (suc n) i k t h = elim (step n i t) [
    | miss _ e ↦
        let ih = search_from-some n (i + 1) k t (rw e at h) in
        rw e (omega (arith, ih.0), omega (arith, ih.1), ih.2, ih.3, ih.4)
    | over _ _ e ↦
        let ih = search_from-some n (i + 1) k (wipe eax now i t) (rw e at h) in
        let same = info-wipe i k t (omega (arith, ih.0)) in
        rw e
          (omega (arith, ih.0), omega (arith, ih.1), rw same at ih.2, rw same at ih.3, ih.4 ∙ same)
    | found y l e ↦
        let here : some i ≡ some k = rw e at h in
        let at_k : i ≡ k = ground (arith, here) in
        rw e (omega arith, omega arith, rw at_k at y, rw at_k at l, refl)
  ]

  -- Where nothing is found, no entry in range fits any more.
  pub search_from-none :
      (n i k : ℕ) (t : Table Ctx)
      → 0 < reqmod
      → (search_from eax now n i id64 reqmod t).0 ≡ none
      → i ≤ k
      → k < i + n
      → hit ((search_from eax now n i id64 reqmod t).1.info k) ≡ false
  search_from-none zero i k t pos h le lt = absurd (omega arith)
  search_from-none (suc n) i k t pos h le lt = elim (step n i t) [
    | miss m e ↦ rw e (elim (dec_lt i k) [
      | yes p ↦ search_from-none n (i + 1) k t pos (rw e at h) (omega arith) (omega arith)
      | no p ↦
          let same = (search_from-below n (i + 1) k t (omega arith)).0 in
          let at_k : i ≡ k = omega arith in rw same (rw at_k at m)
    ])
    | over _ _ e ↦ rw e (elim (dec_lt i k) [
      | yes p ↦
          search_from-none n (i + 1) k (wipe eax now i t) pos (rw e at h) (omega arith)
            (omega arith)
      | no p ↦
          let same = (search_from-below n (i + 1) k (wipe eax now i t) (omega arith)).0 in
          let at_k : i ≡ k = omega arith in rw same (ground arith)
    ])
    | found _ _ e ↦ absurd (let bad : some i ≡ none = rw e at h in cc)
  ]

  -- Where an entry in range fits and is not expired, something is found.
  pub search_from_complete :
      (n i k : ℕ) (t : Table Ctx)
      → i ≤ k
      → k < i + n
      → hit (t.info k) ≡ true
      → late (t.info k) ≡ false
      → (j : ℕ) × ((search_from eax now n i id64 reqmod t).0 ≡ some j)
  search_from_complete zero i k t le lt y l = absurd (omega arith)
  search_from_complete (suc n) i k t le lt y l = elim (step n i t) [
    | found _ _ e ↦ (i, rw e refl)
    | miss m e ↦ elim (dec_lt i k) [
      | yes p ↦ rw e (search_from_complete n (i + 1) k t (omega arith) (omega arith) y l)
      | no p ↦ let at_k : i ≡ k = omega arith in absurd (ground (arith, rw at_k at m))
    ]
    | over _ o e ↦ elim (dec_lt i k) [
      | yes p ↦
          let same = info-wipe i k t p in
          rw e (
            search_from_complete n (i + 1) k (wipe eax now i t) (omega arith) (omega arith)
              (rw (← same) at y) (rw (← same) at l))
      | no p ↦ let at_k : i ≡ k = omega arith in absurd (ground (arith, rw at_k at o))
    ]
  ]

  -- What `sub_search_user` finds is an entry behind the local ones that holds the id with enough
  -- rights and is not expired, and the entry is left as it was.
  pub search_table_sound :
      (t : Table Ctx) (j : ℕ)
      → (search_table eax now id64 reqmod t).0 ≡ some j
      → (2 ≤ j)
        × (j < t.size)
        × (matches eax now (t.info j) id64 reqmod ≡ true)
        × (expired eax now (t.info j) ≡ false)
        × ((search_table eax now id64 reqmod t).1.info j ≡ t.info j)
  unfolding search_table
  search_table_sound t j e =
      let s = search_from-some (t.size - 2) 2 j t e in (s.0, omega (arith, s.0, s.1), s.2, s.3, s.4)

  -- Where an entry behind the local ones holds the id with enough rights and is not expired,
  -- `sub_search_user` finds an entry.
  pub search_table_complete :
      (t : Table Ctx) (k : ℕ)
      → 2 ≤ k
      → k < t.size
      → matches eax now (t.info k) id64 reqmod ≡ true
      → expired eax now (t.info k) ≡ false
      → (j : ℕ) × ((search_table eax now id64 reqmod t).0 ≡ some j)
  unfolding search_table
  search_table_complete t k le lt y l = search_from_complete (t.size - 2) 2 k t le (omega arith) y l

  -- Where `sub_search_user` finds none, no entry behind the local ones fits any more: those that did
  -- were expired and lost their rights. The size and the local entries stay.
  pub search_table-none :
      (t : Table Ctx) (k : ℕ)
      → 0 < reqmod
      → (search_table eax now id64 reqmod t).0 ≡ none
      → 2 ≤ k
      → k < t.size
      → matches eax now ((search_table eax now id64 reqmod t).1.info k) id64 reqmod ≡ false
  unfolding search_table
  search_table-none t k pos e le lt = search_from-none (t.size - 2) 2 k t pos e le (omega arith)

  pub search_table-below :
      (t : Table Ctx) (k : ℕ)
      → k < 2
      → ((search_table eax now id64 reqmod t).1.info k ≡ t.info k)
        × ((search_table eax now id64 reqmod t).1.size ≡ t.size)
  unfolding search_table
  search_table-below t k h = search_from-below (t.size - 2) 2 k t h
