-- ===== src/Veelite/Paired.antt =====
-- otlib/veelite.c: what the calls that open, write and store leave of the drivers of the files.
use libotfs.Prelude.{
  ℕ, suc, ◌-◌, ◌≡◌, ◌∙◌, ◌↔◌, ◌⊎◌, inl, inr, ap, refl, sym, Bool, true, false, Option, none, some,
  arith, Option-cases, Bool-cases, ◌==◌, leb, u16, ◌+◌,
}
use libotfs.Auth.{User}
use libotfs.Memory.{Memory}
use mathlib.Core.Path.{subst}
use libotfs.Vworm.{Fsram, call_write}
use libotfs.Veelite.{Veelite, VlFile, Guard, put, vl_open, vl_getheader_vaddr, file_at, null_vaddr}
use libotfs.Veelite.Data.{vl_write, vl_store, store_loop}
use libotfs.Veelite.Words.{written}
use libotfs.Veelite.Transfer.{store_flags, after_store}
use libotfs.Veelite.Loops.{capped}
use libotfs.Veelite.Open.{vl_open_lem, vl_getheader_vaddr_lem, file_at-open}

-- A file can be read if and only if it can be written.
abbrev pub IsPaired : VlFile → Type 0
IsPaired f = (f.read ≡ none) ↔ (f.write ≡ none)

open_file-IsPaired : (header : ℕ) (m : Fsram) → IsPaired (file_at header m)
open_file-IsPaired header m = ground (arith, file_at-open header m)

-- A file whose drivers stay.
same_drivers : (f f' : VlFile) → f'.read ≡ f.read → f'.write ≡ f.write → IsPaired f → IsPaired f'
same_drivers f f' er ew p = rw (er, ew) p

module _ {A : Type 0} where
  unfoldable pub ArePaired : Veelite A → Type 0
  ArePaired v = (k : ℕ) → IsPaired (v.vlfile k)

  pub set-ArePaired :
      (i : ℕ) (f : VlFile) (v v' : Veelite A)
      → ArePaired v
      → IsPaired f
      → ((k : ℕ) → v'.vlfile k ≡ put v.vlfile i f k)
      → ArePaired v'
  unfolding ArePaired
  set-ArePaired i f v v' h p e k = elim (Bool-cases (k == i)) [
    | inl here ↦ subst IsPaired (sym (set here)) p
    | inr there ↦ subst IsPaired (sym (kept there)) (h k)
  ]
    where
      set : (k == i) ≡ true → v'.vlfile k ≡ f
      set here = e k ∙ rw here refl

      kept : (k == i) ≡ false → v'.vlfile k ≡ v.vlfile k
      kept there = e k ∙ rw there refl

  pub keep-ArePaired : (v v' : Veelite A) → ArePaired v → v' ≡ v → ArePaired v'
  keep-ArePaired v v' h e = subst ArePaired (sym e) h

  -- A call that refuses, does not return, or stores.
  abbrev pub outcome :
      Bool → Option (ℕ × Fsram) → Veelite A → (Fsram → Veelite A) → Option (ℕ × Veelite A)
  outcome true o v set = some (255, v)
  outcome false none v set = none
  outcome false (some (r, s)) v set = some (r, set s)

  outcome_cases :
      (refuse : Bool) (o : Option (ℕ × Fsram)) (v : Veelite A) (set : Fsram → Veelite A) (r : ℕ)
      (v' : Veelite A)
      → outcome refuse o v set ≡ some (r, v')
      → (v' ≡ v) ⊎ (s : Fsram) × (v' ≡ set s)
  outcome_cases true o v set r v' e = inl (cc)
  outcome_cases false none v set r v' e = absurd (cc)
  outcome_cases false (some (q, s)) v set r v' e = inr (s, cc)

  pub write_outcome :
      (fp offset word : ℕ) (v : Veelite A)
      → vl_write fp offset word v
        ≡ outcome
            (leb (v.vlfile fp).alloc offset)
            (call_write (v.vlfile fp).write (u16 (offset + (v.vlfile fp).start)) word v.fsram)
            v
            (λ s. record v { vlfile = put v.vlfile fp (written (v.vlfile fp) offset); fsram = s })
  unfolding vl_write
  write_outcome fp offset word v = elim (Bool-cases (leb (v.vlfile fp).alloc offset)) [
    | inl over ↦ rw (vl_write, over) refl
    | inr fits ↦
        elim (Option-cases
          (call_write (v.vlfile fp).write (u16 (offset + (v.vlfile fp).start)) word v.fsram)) [
            | inl e ↦ rw (vl_write, fits, e) refl
            | inr (o, e) ↦ rw (vl_write, fits, e) refl
          ]
  ]

  pub write-ArePaired :
      (fp offset word r : ℕ) (v v' : Veelite A)
      → vl_write fp offset word v ≡ some (r, v')
      → ArePaired v
      → ArePaired v'
  write-ArePaired fp offset word r v v' e h =
      elim (outcome_cases (leb (v.vlfile fp).alloc offset)
        (call_write (v.vlfile fp).write (u16 (offset + (v.vlfile fp).start)) word v.fsram) v
        (λ s. record v { vlfile = put v.vlfile fp (written (v.vlfile fp) offset); fsram = s }) r v'
        (sym (write_outcome fp offset word v) ∙ e)) [
          | inl same ↦ keep-ArePaired v v' h same
          | inr (s, set) ↦
              set-ArePaired fp (written (v.vlfile fp) offset) v v' h
                (same_drivers (v.vlfile fp) (written (v.vlfile fp) offset) (ground arith)
                  (ground arith) (at_fp h))
                (λ k. ap (λ x. x.vlfile k) set)
        ]
    where
      at_fp : ArePaired v → IsPaired (v.vlfile fp)
      at_fp p = unfold ArePaired in p fp

  pub open-ArePaired :
      (g : Guard A) (block_id data_id mode : ℕ) (user : User) (v : Veelite A)
      → ArePaired v
      → ArePaired (vl_open g block_id data_id mode user v).1
  open-ArePaired g block_id data_id mode user v h =
      let l = vl_getheader_vaddr g null_vaddr block_id data_id mode user v in
      let looked =
        subst ArePaired (sym (vl_getheader_vaddr_lem g null_vaddr block_id data_id mode user v).0)
          (again l.2.auth) in
      elim (vl_open_lem g block_id data_id mode user v) [
        | inl (why, e) ↦
            keep-ArePaired l.2 (vl_open g block_id data_id mode user v).1 looked (ap (λ x. x.1) e)
        | inr (i, r, free, e) ↦
            set-ArePaired i (file_at l.1 l.2.fsram) l.2 (vl_open g block_id data_id mode user v).1
              looked (open_file-IsPaired l.1 l.2.fsram) (λ k. ap (λ x. x.1.vlfile k) e)
      ]
    where
      again : (a : A) → ArePaired (record v { auth = a })
      again a = unfold ArePaired in h

  pub at-ArePaired : (v : Veelite A) (fp : ℕ) → ArePaired v → IsPaired (v.vlfile fp)
  unfolding ArePaired
  at-ArePaired v fp h = h fp

  pub store-ArePaired :
      (fp len p r : ℕ) (m : Memory) (v v' : Veelite A)
      → vl_store fp len p m v ≡ some (r, v')
      → ArePaired v
      → ArePaired v'
  unfolding vl_store
  store-ArePaired fp len p r m v v' e h =
      elim (outcome_cases false loop v set r v' (sym the_outcome ∙ e)) [
        | inl same ↦ keep-ArePaired v v' h same
        | inr (s, done) ↦
            set-ArePaired fp new v v' h
              (same_drivers (v.vlfile fp) new refl refl (at-ArePaired v fp h))
              (λ k. ap (λ x. x.vlfile k) done)
      ]
    where
      f : VlFile
      f = v.vlfile fp

      new : VlFile
      new = record f { flags = store_flags f (capped f.alloc len); length = capped f.alloc len }

      loop : Option (ℕ × Fsram)
      loop =
          store_loop (suc (u16 (f.start + capped f.alloc len) - f.start)) f.write f.start
            (u16 (f.start + capped f.alloc len)) m p 0 v.fsram

      set : Fsram → Veelite A
      set s = after_store fp (capped f.alloc len) s v

      the_outcome : vl_store fp len p m v ≡ outcome false loop v set
      the_outcome = elim (Option-cases loop) [
        | inl x ↦ rw (vl_store, x) refl
        | inr (o, x) ↦ rw (vl_store, x) refl
      ]
