-- ===== src/Multifs/Deinit.antt =====
-- The loop of `otfs_deinit` in main/otfs.c over all filesystems of the table.
use libotfs.Prelude.{
  ℕ, zero, suc, ◌<◌, ◌≡◌, ◌≢◌, ◌∙◌, refl, ap, Option, some, List, [], ◌∷◌, true, length, arith,
}
use libotfs.Prelude.Int.{ℤ, pos}
use libotfs.Multifs.{Judy, Multi, sub_pullfs, switch_context, vl_multifs_start, vl_multifs_next}
use libotfs.Multifs.Judies.{Pairs, IsJudy, Walks}
use libotfs.Multifs.Front.{
  Otfs, iterated, sub_loadfs, otfs_iterator_start, otfs_iterator_next, free_loop, otfs_deinit,
}
use libotfs.Multifs.Switch.{switch_judy}

abbrev pub bases : Pairs → List ℕ
bases [] = []
bases ((k, v) ∷ ps) = v ∷ bases ps

abbrev pub NoNullKey : Pairs → Type 0
NoNullKey [] = Unit {0}
NoNullKey ((k, v) ∷ ps) = (k ≢ 0) × NoNullKey ps

module _ {W : Type 0} {lib : Judy W} {handle : ℕ} {pairs rest : W → Pairs} {place : W → Option ℕ}
    (laws : IsJudy lib handle pairs rest place) where
  next_walk :
      (ps all : Pairs) (w w' : W)
      → w' ≡ w
      → rest w ≡ ps
      → pairs w ≡ all
      → Walks lib handle pairs rest all ps (lib.judy_nxt handle w')
  next_walk ps all w w' same behind whole = rw (same, ← behind, ← whole) (laws.moved w)

module _ {A W : Type 0} {lib : Judy W} {handle : ℕ} {pairs rest : W → Pairs} {place : W → Option ℕ}
    (laws : IsJudy lib handle pairs rest place) (some_handle : handle ≢ 0) where
  abbrev pulled : Otfs → ℕ → ℕ × W → Multi A W → ℤ × Option Otfs × ℕ × Multi A W
  pulled fs uid (c, w) s =
      iterated (some fs)
        (sub_pullfs lib handle c 0 (record { length = 0; value = uid }) (record s { judy = w }))

  next_pulled :
      (fs : Otfs) (uid : ℕ) (s : Multi A W)
      → otfs_iterator_next lib handle (some fs) uid s ≡ pulled fs uid (lib.judy_nxt handle s.judy) s
  unfolding otfs_iterator_next vl_multifs_next
  next_pulled fs uid s = ground (arith, some_handle)

  start_pulled :
      (fs : Otfs) (uid : ℕ) (s : Multi A W)
      → otfs_iterator_start lib handle (some fs) uid s
        ≡ pulled fs uid (lib.judy_strt handle 0 0 s.judy) s
  unfolding otfs_iterator_start vl_multifs_start
  start_pulled fs uid s = ground (arith, some_handle)

  pulled_end :
      (fs : Otfs) (uid c : ℕ) (w : W) (s : Multi A W)
      → c ≡ 0
      → pulled fs uid (c, w) s ≡ (pos 1, some fs, uid, record s { judy = w })
  unfolding sub_pullfs
  pulled_end fs uid c w s e = ground (arith, e)

  pulled_pair :
      (fs : Otfs) (uid c k v : ℕ) (w : W) (ps all : Pairs) (s : Multi A W)
      → Walks lib handle pairs rest all ((k, v) ∷ ps) (c, w)
      → k ≢ 0
      → let s' = switch_context v (record s { judy = w }) in
        pulled fs uid (c, w) s
        ≡ (pos 0, sub_loadfs (some fs) v (record { length = 8; value = k }) s', k, s')
  unfolding sub_pullfs
  pulled_pair fs uid c k v w ps all s at some_key = ground (arith, at.0, at.1, at.2 uid, some_key)

  loaded :
      (fs : Otfs) (v k : ℕ) (s : Multi A W)
      → (fs' : Otfs) × (sub_loadfs (some fs) v (record { length = 8; value = k }) s ≡ some fs')
        × (fs'.base ≡ v)
  unfolding sub_loadfs
  loaded fs v k s = (_, refl, refl)

  loop_step :
      (n : ℕ) (fs : Otfs) (uid : ℕ) (s s' : Multi A W) (l : List ℕ)
      → free_loop lib n handle (otfs_iterator_next lib handle (some fs) uid s) ≡ some (l, s')
      → free_loop lib (suc n) handle (pos 0, some fs, uid, s) ≡ some (fs.base ∷ l, s')
  unfolding free_loop
  loop_step n fs uid s s' l e = rw e refl

  loop_frees :
      (n : ℕ) (ps all : Pairs) (at : ℕ × W) (fs : Otfs) (uid : ℕ) (s : Multi A W)
      → Walks lib handle pairs rest all ps at
      → NoNullKey ps
      → length ps < n
      → (s' : Multi A W) × (free_loop lib n handle (pulled fs uid at s) ≡ some (bases ps, s'))
        × (pairs s'.judy ≡ all)
  loop_frees zero ps all at fs uid s walk keys enough = absurd (omega arith)
  loop_frees (suc n) [] all (c, w) fs uid s walk keys enough = (
    record s { judy = w },
    ap (free_loop lib (suc n) handle) (pulled_end fs uid c w s walk.0) ∙ unfold free_loop in refl,
    walk.1,
  )
  loop_frees (suc n) ((k, v) ∷ ps) all (c, w) fs uid s walk keys enough =
      let s1 = switch_context v (record s { judy = w }) in
      let (fs', load, based) = loaded fs v k s1 in
      let (s', looped, kept) =
        loop_frees n ps all (lib.judy_nxt handle s1.judy) fs' k s1
          (next_walk laws ps all w s1.judy (switch_judy v (record s { judy = w })) walk.3 walk.4)
          keys.1 (omega arith) in
      (
        s',
        ap (free_loop lib (suc n) handle) (
              pulled_pair fs uid c k v w ps all s walk keys.0
              ∙ ap (λ (o : Option Otfs). (pos 0, o, k, s1)) load)
            ∙ loop_step n fs' k s1 s' (bases ps)
                (ap (free_loop lib n handle) (next_pulled fs' k s1) ∙ looped)
            ∙ ap (λ b. some (b ∷ bases ps, s')) based,
        kept,
      )

  -- `otfs_deinit` with a function to free: its loop ends within one turn more than the table has
  -- filesystems, and the function gets the base of each of them once, in the order of the table;
  -- then the table is closed. No ID is 0.
  pub otfs_deinit-bases :
      (fuel : ℕ) (stack : Otfs) (s : Multi A W)
      → NoNullKey (pairs s.judy)
      → length (pairs s.judy) < fuel
      → (s' : Multi A W) × (otfs_deinit lib fuel stack handle true s
          ≡ some (pos 0, bases (pairs s.judy), record s' { judy = lib.judy_close handle s'.judy }))
        × (pairs s'.judy ≡ pairs s.judy)
  unfolding otfs_deinit
  otfs_deinit-bases fuel stack s keys enough =
      let (s', looped, kept) =
        loop_frees fuel (pairs s.judy) (pairs s.judy) (lib.judy_strt handle 0 0 s.judy) stack 0 s
          (laws.started s.judy) keys enough in
      (
        s',
        ground
            (arith, ap (free_loop lib fuel handle) (start_pulled stack 0 s) ∙ looped, some_handle),
        kept,
      )
