-- ===== src/Veelite/Persist.antt =====
-- otlib/veelite.c: what is left of a file's data when it is closed and opened again.
mod Closed
use libotfs.Prelude.{
  ℕ, ◌+◌, ◌*◌, ◌/◌, ◌%◌, ◌^◌, ◌≤◌, ◌<◌, ◌≡◌, ◌≢◌, ◌∙◌, sym, ap, none, some, bit_and, u8, byte,
  arith,
}
use libotfs.Prelude.Bits.{zero-bit_and}
use libotfs.Auth.{User}
use libotfs.Memory.{Memory, bytes, bytes_ext}
use libotfs.Vworm.{Fsram, vworm_read, vworm}
use libotfs.Veelite.{Veelite, VlFile, Guard, put, null_vaddr, header_size, file_at, vl_open}
use libotfs.Veelite.Data.{vl_load, vl_store, vl_close, close_header}
use libotfs.Veelite.Loops.{capped, stored, loaded_byte}
use libotfs.Veelite.Transfer.{vl_store-stored, load_whole, stored_byte, after_store, store_flags}
use libotfs.Veelite.Close.{vl_close_plain}
use libotfs.Veelite.Open.{file_at-open}
use libotfs.Veelite.Reopen.{opened_cases, open_su}
use libotfs.Veelite.Layout.{headers, search, SameHeaders, search-SameHeaders, search_place}
use libotfs.Veelite.Persist.Closed.{
  after-word, closed_outside, closed-SameHeaders, file_at-closed, file_facts,
}

-- The headers lie below 2^16 and before the file's data, which begins at an even address and ends
-- below 2^16 too; the file's header names no mirror and no condition for an action.
pub record IsLaid (m : Fsram) (f : VlFile) : Type 0 where
  pub before : 32 + headers m * header_size ≤ f.start
  pub even : f.start % 2 ≡ 0
  pub fits : f.start + f.alloc + 1 < 2 ^ 16
  pub no_mirror : vworm_read (f.header + 8) m ≡ null_vaddr
  pub no_action : byte 0 (vworm_read (f.header + 10) m) ≡ 0

-- The file `f` that is stored, closed and opened again, with its header at a place of the table.
module _ {A : Type 0} (epoch_s h fp len p j : ℕ) (m : Memory) (v1 : Veelite A)
    (file : v1.vlfile fp ≡ file_at h v1.fsram) (at : h ≡ 32 + j * header_size)
    (few : j < headers v1.fsram) (laid : IsLaid v1.fsram (v1.vlfile fp))
    (room : len ≤ (v1.vlfile fp).alloc) where
  abbrev f : VlFile
  f = v1.vlfile fp

  abbrev written : Fsram
  written = stored v1.fsram (f.start / 2) ((len + 1) / 2) m p

  abbrev v2 : Veelite A
  v2 = after_store fp len written v1

  abbrev f2 : VlFile
  f2 = record f { flags = store_flags f len; length = len }

  v2-file : v2.vlfile fp ≡ f2
  v2-file = ground arith

  header : f.header ≡ h
  header = ap (λ (x : VlFile). x.header) file ∙ (file_at-open h v1.fsram).2

  no_mirror : vworm_read (h + 8) v1.fsram ≡ null_vaddr
  no_mirror = ap (λ a. vworm_read (a + 8) v1.fsram) (sym header) ∙ laid.no_mirror

  below : f.start < 2 ^ 16
  below = omega (arith, laid.fits)

  store_here : vl_store fp len p m v1 ≡ some (0, v2)
  store_here =
      vl_store-stored fp len p m v1 vworm
        (ap (λ (x : VlFile). x.write) file ∙ (file_facts h v1.fsram no_mirror).2) laid.even
        (omega (arith, laid.fits, room))
      ∙ ap (λ n. some (0, after_store fp n (stored v1.fsram (f.start / 2) ((n + 1) / 2) m p) v1))
          whole
    where
      whole : capped f.alloc len ≡ len
      whole = ground (arith, room)

  close_here :
      (invoke : ℕ → ℕ → Veelite A → ℕ × Veelite A)
      → (v3 : Veelite A) × (vl_close invoke epoch_s (some fp) v2 ≡ some (0, v3))
        × (v3.fsram ≡ close_header epoch_s f2 written)
        × ((v3.vlfile fp).read ≡ none)
  close_here invoke =
      let c =
        vl_close_plain invoke epoch_s fp fp v2 (omega (arith, place))
          (omega (arith, place, laid.before, laid.fits)) quiet in
      (c.0, c.1, c.2 ∙ ap (λ x. close_header epoch_s x written) v2-file, c.3)
    where
      place : (v2.vlfile fp).header ≡ 32 + j * header_size
      place = ap (λ (x : VlFile). x.header) v2-file ∙ header ∙ at

      silent : byte 0 (vworm_read ((v2.vlfile fp).header + 10) written) ≡ 0
      silent =
          ap (λ (x : VlFile). byte 0 (vworm_read (x.header + 10) written)) v2-file
          ∙ ap (byte 0) (
              after-word v1.fsram f.start len p m below f.header 10
                (omega (arith, header, at, laid.before)))
          ∙ laid.no_action

      quiet :
          bit_and
            (byte 0 (vworm_read ((v2.vlfile fp).header + 10) written))
            (u8 (v2.vlfile fp).flags)
          ≡ 0
      quiet =
          ap (λ b. bit_and b (u8 (v2.vlfile fp).flags)) silent
          ∙ zero-bit_and (u8 (v2.vlfile fp).flags)

  reopened :
      file_at h (close_header epoch_s f2 written) ≡ record (file_at h v1.fsram) { length = len }
  reopened =
      ap (λ a. file_at a (close_header epoch_s f2 written)) (sym header)
      ∙ file_at-closed v1.fsram f.start len p m below epoch_s j f2 (header ∙ at) few laid.before
          laid.no_mirror
      ∙ ap (λ a. record (file_at a v1.fsram) { length = len }) header

  headers_here : SameHeaders v1.fsram (close_header epoch_s f2 written)
  headers_here =
      closed-SameHeaders v1.fsram f.start len p m below epoch_s j f2 (header ∙ at) few laid.before

  load_here :
      (scratch q : ℕ) (m1 : Memory) (v4 : Veelite A) (i : ℕ)
      → v4.vlfile i ≡ record f { length = len }
      → v4.fsram ≡ close_header epoch_s f2 written
      → ((k : ℕ) → k < len → m (p + k) < 256)
      → (m' : Memory) × (vl_load scratch i len q m1 v4 ≡ some (len, m'))
        × (bytes m' q len ≡ bytes m p len)
  load_here scratch q m1 v4 i same held small =
      let l =
        load_whole scratch i len f.start q m1 v4 vworm
          (ap (λ (x : VlFile). x.read) same
            ∙ ap (λ (x : VlFile). x.read) file
            ∙ (file_facts h v1.fsram no_mirror).1)
          (ap (λ (x : VlFile). x.start) same) (ap (λ (x : VlFile). x.length) same) laid.even
          (omega (arith, laid.fits, room)) in
      (
        l.0,
        l.1,
        bytes_ext l.0 m q p len (λ k lt.
            l.2 k lt
            ∙ ap (λ c. loaded_byte c (f.start + k)) held
            ∙ ap (byte ((f.start + k) % 2)) (kept k)
            ∙ stored_byte v1.fsram f.start len m p k laid.even lt small),
      )
    where
      kept :
          (k : ℕ)
          → close_header epoch_s f2 written ((f.start + k) / 2) ≡ written ((f.start + k) / 2)
      kept k =
          closed_outside v1.fsram f.start len p m below epoch_s j f2 (header ∙ at) few laid.before
            ((f.start + k) / 2) (λ e. omega (arith, header, at, laid.before, few, e))
            (apart k 6 (omega arith)) (apart k 7 (omega arith))
        where
          apart : (b c : ℕ) → c < 8 → (f.start + b) / 2 ≢ f.header / 2 + c
          apart b c lt e = omega (arith, header, at, laid.before, few, e, lt)

module _ {A : Type 0} (g : Guard A) (invoke : ℕ → ℕ → Veelite A → ℕ × Veelite A) where
  -- What was stored in a file is there when it is opened again: a file that `vl_open` gave, whose
  -- data lies behind the headers and below 2^16, at an even address and without a mirror or a
  -- condition for an action, takes by `vl_store` bytes within its allocation; `vl_close` returns 0;
  -- `vl_open` for the same file by no user finds it, on one of the file pointers, and `vl_load`
  -- returns the length and gives the bytes back.
  pub vl_load-vl_close :
      (block_id id mode mode' fp len p q scratch epoch_s : ℕ) (user : User) (m m1 : Memory)
      (v v1 : Veelite A)
      → vl_open g block_id id mode user v ≡ (some fp, v1)
      → IsLaid v1.fsram (v1.vlfile fp)
      → len ≤ (v1.vlfile fp).alloc
      → ((k : ℕ) → k < len → m (p + k) < 256)
      → (v2 : Veelite A) × (v3 : Veelite A) × (i : ℕ) × (v4 : Veelite A) × (m' : Memory) × (vl_store
            fp len p m v1
          ≡ some (0, v2))
        × (vl_close invoke epoch_s (some fp) v2 ≡ some (0, v3))
        × (vl_open g block_id id mode' none v3 ≡ (some i, v4))
        × (vl_load scratch i len q m1 v4 ≡ some (len, m'))
        × (bytes m' q len ≡ bytes m p len)
  vl_load-vl_close block_id id mode mode' fp len p q scratch epoch_s user m m1 v v1 e laid room
        small =
      let (block, found, file, lt) = opened_cases g block_id id mode fp user v v1 e in
      let (j, few, at) = search_place block_id id v1.fsram table found in
      let h = search block_id id v1.fsram in
      let (v3, closes, held, free) =
        close_here epoch_s h fp len p j m v1 file at few laid room invoke in
      let found_again =
        ap (search block_id id) held
        ∙ search-SameHeaders block_id id v1.fsram _ table
            (headers_here epoch_s h fp len p j m v1 file at few laid room) in
      let (i, opens) =
        open_su g block_id id mode' fp v3 block (λ z. found (sym found_again ∙ z)) free lt in
      let v4 : Veelite A = record v3 {
        vlfile = put v3.vlfile i (file_at (search block_id id v3.fsram) v3.fsram);
      } in
      let same : v4.vlfile i ≡ record (v1.vlfile fp) { length = len } =
        ground arith
        ∙ ap (λ a. file_at a v3.fsram) found_again
        ∙ ap (file_at h) held
        ∙ reopened epoch_s h fp len p j m v1 file at few laid room
        ∙ ap (λ (x : VlFile). record x { length = len }) (sym file) in
      let (m', loads, gives) =
        load_here epoch_s h fp len p j m v1 file at few laid room scratch q m1 v4 i same held
          small in
      (
        v2 epoch_s h fp len p j m v1 file at few laid room,
        v3,
        i,
        v4,
        m',
        store_here epoch_s h fp len p j m v1 file at few laid room,
        closes,
        opens,
        loads,
        gives,
      )
    where
      table : 32 + headers v1.fsram * header_size < 2 ^ 16
      table = omega (arith, laid.before, laid.fits)
