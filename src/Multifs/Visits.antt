-- ===== src/Multifs/Visits.antt =====
-- A client of main/otfs.c that works in several filesystems in turn.
use libotfs.Prelude.{
  ℕ, zero, ◌≡◌, ◌≢◌, ◌∙◌, inl, inr, refl, sym, ap, Option, none, some, List, [], ◌∷◌, arith,
  Option-cases,
}
use mathlib.Core.Path.{fun_ext}
use libotfs.Prelude.Int.{ℤ, pos}
use libotfs.Vworm.{Fsram}
use libotfs.Veelite.{Veelite, put}
use libotfs.Multifs.{Judy, Multi, block, switch_context}
use libotfs.Multifs.Judies.{Pairs, find, IsJudy}
use libotfs.Multifs.Front.{Otfs, otfs_setfs}
use libotfs.Multifs.Switch.{
  fresh, switch_block, switch_base, switch_judy, switch_veelite, setfs_missing, setfs_found,
  after_slot,
}

-- What a client does in a filesystem that he has selected, by any calls on its files.
abbrev pub Work : Type 0 → Type 0
Work A = Veelite A → Veelite A

-- The client does his work where the selection has returned 0.
abbrev pub visited : {A W : Type 0} → Work A → ℤ × Option Otfs × Multi A W → Multi A W
visited f (pos zero, fs, s) = record s { veelite = f s.veelite }
visited f (_, fs, s) = s

abbrev pub run : {A W : Type 0} → Judy W → ℕ → List (ℕ × Work A) → Multi A W → Multi A W
run lib handle [] s = s
run lib handle ((uid, f) ∷ vs) s = run lib handle vs (visited f (otfs_setfs lib handle none uid s))

-- The same client on disks that are told apart by their addresses, each on its own. The keys are
-- shared.
pub record Disks (A : Type 0) : Type 0 where
  pub blocks : ℕ → Fsram
  pub auth : A

abbrev pub work_on : {A : Type 0} → Work A → Option ℕ → Disks A → Disks A
work_on f none d = d
work_on f (some b) d =
    let v = f (fresh (d.blocks b) d.auth) in
    record { blocks = put d.blocks b v.fsram; auth = v.auth }

abbrev pub replay : {A : Type 0} → (ℕ → Option ℕ) → List (ℕ × Work A) → Disks A → Disks A
replay table [] d = d
replay table ((uid, f) ∷ vs) d = replay table vs (work_on f (table uid) d)

abbrev pub disks : {A W : Type 0} → Multi A W → Disks A
disks s = record { blocks = block s; auth = s.veelite.auth }

module _ {A W : Type 0} where
  worked :
      (f : Work A) (b : ℕ) (s : Multi A W)
      → b ≢ 0
      → let s1 = switch_context b s in
        disks (record s1 { veelite = f s1.veelite }) ≡ work_on f (some b) (disks s)
  worked f b s some_base = λ i. record { blocks = each i; auth = (files i).auth }
    where
      s1 : Multi A W
      s1 = switch_context b s

      files : f s1.veelite ≡ f (fresh (block s b) s.veelite.auth)
      files = ap f (switch_veelite b s some_base)

      each :
          block (record s1 { veelite = f s1.veelite })
          ≡ put (block s) b (f (fresh (block s b) s.veelite.auth)).fsram
      each = fun_ext λ c. ground (
        arith,
        switch_base b s some_base,
        switch_block b c s,
        ap (λ (v : Veelite A). v.fsram) files,
      )

module _ {A W : Type 0} {lib : Judy W} {handle : ℕ} {pairs rest : W → Pairs} {place : W → Option ℕ}
    (laws : IsJudy lib handle pairs rest place) (some_handle : handle ≢ 0) where
  visit-disks :
      (uid : ℕ) (f : Work A) (s : Multi A W)
      → ((k : ℕ) → find k (pairs s.judy) ≢ some 0)
      → let s' = visited f (otfs_setfs lib handle none uid s) in
        (disks s' ≡ work_on f (find uid (pairs s.judy)) (disks s))
        × ((j : ℕ) → find j (pairs s'.judy) ≡ find j (pairs s.judy))
  visit-disks uid f s no_null = elim (Option-cases (find uid (pairs s.judy))) [
    | inl e ↦ (
      ap (λ r. disks (visited f r)) (setfs_missing laws some_handle none uid s e)
          ∙ ap (λ o. work_on f o (disks s)) (sym e),
      λ j.
          ap (λ r. find j (pairs (visited f r).judy)) (setfs_missing laws some_handle none uid s e)
          ∙ (laws.slot_missing uid s.judy e).1 j,
    )
    | inr (b, e) ↦ (
      ap (λ r. disks (visited f r)) (setfs_found laws some_handle none uid b s e)
          ∙ worked f b (after_slot lib handle uid s) (λ z. no_null uid (e ∙ ap some z))
          ∙ ap (λ o. work_on f o (disks s)) (sym e),
      λ j.
          ap (λ r. find j (pairs (visited f r).judy)) (setfs_found laws some_handle none uid b s e)
          ∙ ap (λ w. find j (pairs w)) (switch_judy b (after_slot lib handle uid s))
          ∙ (laws.slot_found uid b s.judy e).3 j,
    )
  ]

  -- Whatever a client does in the filesystems that he selects by `otfs_setfs`, one after another,
  -- in calls on their files: the memories of all of them, and the keys, end as if each filesystem
  -- were a disk of its own, on which he found no open file when he selected it. An ID that is not
  -- in the table changes nothing. No filesystem of the table has its base at `NULL`.
  pub run-replay :
      (vs : List (ℕ × Work A)) (table : ℕ → Option ℕ) (s : Multi A W)
      → ((k : ℕ) → find k (pairs s.judy) ≡ table k)
      → ((k : ℕ) → table k ≢ some 0)
      → disks (run lib handle vs s) ≡ replay table vs (disks s)
  run-replay [] table s same no_null = refl
  run-replay ((uid, f) ∷ vs) table s same no_null =
      let t = visit-disks uid f s (λ k null. no_null k (sym (same k) ∙ null)) in
      run-replay vs table (visited f (otfs_setfs lib handle none uid s)) (λ j. t.1 j ∙ same j)
        no_null
      ∙ ap (replay table vs) (t.0 ∙ ap (λ o. work_on f o (disks s)) (same uid))
