-- ===== src/Veelite/Data.antt =====
-- otlib/veelite.c: the calls on an open file. A caller's buffer is byte memory apart from `fsram`,
-- and `none` stands for a call that does not return: one through a `NULL` pointer or an endless
-- loop.
use libotfs.Prelude.{
  ℕ, zero, suc, ◌+◌, ◌-◌, ◌*◌, ◌/◌, ◌%◌, ◌^◌, true, false, Option, none, some, [], ◌∷◌, bit_and,
  bit_or, u8, u16, byte, ltb, leb, ◌==◌, if◌then◌else◌,
}
use libotfs.Memory.{Memory, store}
use libotfs.Vworm.{vsram_get, Fsram, vworm_read, vworm_write, Driver, call_read, call_write}
use libotfs.Auth.{User}
use libotfs.Veelite.{
  Veelite, VlFile, Guard, put, vl_open, vl_access_su, vl_access_rw, vlactions, vlfps, vl_chmod,
  sub_write_header,
}

abbrev pub opened : ℕ
opened = 1

abbrev pub modded : ℕ
modded = 2

abbrev pub resized : ℕ
resized = 4

abbrev pub with_file : {A : Type 0} → Veelite A → ℕ → VlFile → Veelite A
with_file v fp f = record v { vlfile = put v.vlfile fp f }

-- `fp - vlfile`, where a pointer before the array is not one of a file.
unfoldable pub vl_get_fd : ℕ → Option ℕ
vl_get_fd fp = if ltb fp vlfps then some fp else none

-- `&vlfile[fd]`
unfoldable pub vl_get_fp : ℕ → Option ℕ
vl_get_fp fd = some fd

-- Without a mirror these two have nothing to do.
unfoldable pub isf_syncmirror : ℕ
isf_syncmirror = 0

unfoldable pub isf_loadmirror : ℕ
isf_loadmirror = 0

module _ {A : Type 0} where
  -- The address of the file's data.
  unfoldable pub vl_memptr : ℕ → Veelite A → ℕ
  unfolding vsram_get
  vl_memptr fp v = vsram_get (v.vlfile fp).start

  unfoldable pub vl_getmodtime : Option ℕ → Veelite A → ℕ
  unfolding vworm_read
  vl_getmodtime none v = 0
  vl_getmodtime (some fp) v =
      vworm_read ((v.vlfile fp).header + 12) v.fsram
      + vworm_read ((v.vlfile fp).header + 14) v.fsram * 2 ^ 16

  unfoldable pub vl_getacctime : Option ℕ → Veelite A → ℕ
  unfolding vl_getmodtime
  vl_getacctime fp v = vl_getmodtime fp v

  unfoldable pub vl_setmodtime : Option ℕ → ℕ → Veelite A → ℕ × Veelite A
  unfolding vworm_write
  vl_setmodtime none newtime v = (u8 newtime, v)
  vl_setmodtime (some fp) newtime v =
      let h = (v.vlfile fp).header in
      let m1 = (vworm_write (h + 12) (newtime % 2 ^ 16) v.fsram).1 in
      (u8 newtime, record v { fsram = (vworm_write (h + 14) (newtime / 2 ^ 16) m1).1 })

  unfoldable pub vl_setacctime : Option ℕ → ℕ → Veelite A → ℕ × Veelite A
  vl_setacctime fp newtime v = (u8 newtime, v)

  unfoldable pub vl_checklength : ℕ → Veelite A → ℕ
  vl_checklength fp v = (v.vlfile fp).length

  unfoldable pub vl_checkalloc : ℕ → Veelite A → ℕ
  vl_checkalloc fp v = (v.vlfile fp).alloc

  unfoldable pub vl_read : ℕ → ℕ → Veelite A → Option ℕ
  unfolding call_read
  vl_read fp offset v = call_read (v.vlfile fp).read (u16 (offset + (v.vlfile fp).start)) v.fsram

  unfoldable pub vl_write : ℕ → ℕ → ℕ → Veelite A → Option (ℕ × Veelite A)
  unfolding call_write
  vl_write fp offset word v =
      let f = v.vlfile fp in
      let longer = record f { length = u16 (offset + 2); flags = bit_or f.flags resized } in
      let f1 = if leb f.length offset then longer else f in
      let f2 = record f1 { flags = bit_or f1.flags modded } in
      if leb f.alloc offset
      then some (255, v)
      else (elim (call_write f.write (u16 (offset + f.start)) word v.fsram) [
        | none ↦ none
        | some (r, m) ↦ some (r, record v { vlfile = put v.vlfile fp f2; fsram = m })
      ])

-- The loop of `vl_load`, over `n` bytes from `cursor` on; `scratch` is what that variable held.
unfoldable pub load_loop : Option Driver → ℕ → ℕ → ℕ → ℕ → Memory → Fsram → Option Memory
unfolding call_read
load_loop read zero cursor scratch p m s = some m
load_loop read (suc n) cursor scratch p m s =
    elim (if cursor % 2 == 0 then call_read read cursor s else some scratch) [
      | none ↦ none
      | some w ↦ load_loop read n (cursor + 1) w (p + 1) (store m p (byte (cursor % 2) w)) s
    ]

-- The loop of `vl_store` and `vl_append`. A cursor that wraps never reaches its end, and one that
-- does not makes fewer steps than the difference: `end - cursor` and one more is fuel enough.
unfoldable pub store_loop : ℕ → Option Driver → ℕ → ℕ → Memory → ℕ → ℕ → Fsram → Option (ℕ × Fsram)
unfolding call_write
store_loop zero write cursor end m p test s = none
store_loop (suc n) write cursor end m p test s = elim (ltb cursor end) [
  | false ↦ some (test, s)
  | true ↦ elim (call_write write cursor (m p + 256 * m (p + 1)) s) [
    | none ↦ none
    | some (r, s') ↦ store_loop n write (u16 (cursor + 2)) end m (p + 2) (bit_or test r) s'
  ]
]

abbrev pub kill : VlFile → VlFile
kill f = record f { start = 0; length = 0; flags = 0; read = none; write = none }

-- The header after `vl_close` has brought the length and the time up to date; `epoch_s` is what
-- `time_get_utc` returns.
unfoldable pub close_header : ℕ → VlFile → Fsram → Fsram
unfolding vworm_read sub_write_header
close_header epoch_s f s =
    let s1 =
      if vworm_read f.header s == f.length
      then s
      else sub_write_header f.header (f.length ∷ []) s in
    if bit_and f.flags modded == 0
    then s1
    else sub_write_header (f.header + 12) ((epoch_s % 2 ^ 16) ∷ (epoch_s / 2 ^ 16) ∷ []) s1

module _ {A : Type 0} where
  -- The buffer is at `p` in the memory `m`.
  unfoldable pub vl_load : ℕ → ℕ → ℕ → ℕ → Memory → Veelite A → Option (ℕ × Memory)
  unfolding load_loop
  vl_load scratch fp len p m v =
      let f = v.vlfile fp in
      let length = if ltb f.length len then f.length else len in
      let end = u16 (f.start + length) in
      elim (load_loop f.read (end - f.start) f.start scratch p m v.fsram) [
        | none ↦ none
        | some m' ↦ some (u16 (end + 2 ^ 16 - f.start), m')
      ]

  unfoldable pub vl_store : ℕ → ℕ → ℕ → Memory → Veelite A → Option (ℕ × Veelite A)
  unfolding store_loop
  vl_store fp len p m v =
      let f = v.vlfile fp in
      let length = if ltb f.alloc len then f.alloc else len in
      let flags =
        if length == f.length
        then bit_or f.flags modded
        else bit_or f.flags (bit_or resized modded) in
      let end = u16 (f.start + length) in
      elim (store_loop (suc (end - f.start)) f.write f.start end m p 0 v.fsram) [
        | none ↦ none
        | some (test, s) ↦ some (
          test,
          record (with_file v fp (record f { flags = flags; length = length })) { fsram = s },
        )
      ]

  -- The end of the loop is the new length past the old end of the data.
  unfoldable pub vl_append : ℕ → ℕ → ℕ → Memory → Veelite A → Option (ℕ × Veelite A)
  unfolding store_loop
  vl_append fp len p m v =
      let f = v.vlfile fp in
      let length = u16 (f.length + len) in
      let cursor = u16 (f.start + f.length) in
      let end = u16 (length + cursor) in
      let flags = bit_or f.flags (bit_or resized modded) in
      if leb length f.alloc
      then (elim (store_loop (suc (end - cursor)) f.write cursor end m p 0 v.fsram) [
        | none ↦ none
        | some (test, s) ↦ some (
          test,
          record (with_file v fp (record f { flags = flags; length = length })) { fsram = s },
        )
      ])
      else some (255, v)

  -- What a call of an action on a file pointer does is the argument `invoke`.
  module _ (invoke : ℕ → ℕ → Veelite A → ℕ × Veelite A) where
    unfoldable pub sub_action : ℕ → Veelite A → Option (ℕ × Veelite A)
    unfolding vworm_read
    sub_action fp v =
        let select = vworm_read ((v.vlfile fp).header + 10) v.fsram / 256 in
        if ltb select vlactions
        then (elim (v.vlaction select) [ none ↦ none | some a ↦ some (invoke a fp v) ])
        else some (0, v)

    unfoldable pub vl_execute : ℕ → ℕ → ℕ → Memory → Veelite A → Option (ℕ × Veelite A)
    unfolding vl_store sub_action
    vl_execute fp input_size p m v = elim (vl_store fp input_size p m v) [
      | none ↦ none
      | some (r, v') ↦ elim (r == 0) [ true ↦ some (r, v') | false ↦ sub_action fp v' ]
    ]

    unfoldable pub vl_close : ℕ → Option ℕ → Veelite A → Option (ℕ × Veelite A)
    unfolding close_header sub_action vworm_read
    vl_close epoch_s none v = some (255, v)
    vl_close epoch_s (some fp) v =
        let f = v.vlfile fp in
        let v1 = record v { fsram = close_header epoch_s f v.fsram } in
        let action = vworm_read (f.header + 10) v1.fsram in
        elim (if bit_and (byte 0 action) (u8 f.flags) == 0
          then some (0, v1)
          else sub_action fp v1) [
            | none ↦ none
            | some (r, v2) ↦ some (r, with_file v2 fp (kill (v2.vlfile fp)))
          ]

    unfoldable pub vl_touch : Guard A → ℕ → ℕ → ℕ → ℕ → User → Veelite A → Option (ℕ × Veelite A)
    unfolding vl_open vl_close
    vl_touch g epoch_s block_id data_id flags user_id v =
        let (fp, v1) = vl_open g block_id data_id vl_access_rw user_id v in
        elim fp [
          | none ↦ some (255, v1)
          | some i ↦
              let f = v1.vlfile i in
              vl_close epoch_s (some i)
                (with_file v1 i (record f { flags = bit_and f.flags (bit_or opened modded) }))
        ]

-- The shortcuts for the two blocks.
module _ {A : Type 0} (g : Guard A) where
  unfoldable pub gfb_open : ℕ → ℕ → User → Veelite A → Option ℕ × Veelite A
  unfolding vl_open
  gfb_open id mode user_id v = vl_open g 1 id mode user_id v

  unfoldable pub isf_open : ℕ → ℕ → User → Veelite A → Option ℕ × Veelite A
  unfolding vl_open
  isf_open id mode user_id v = vl_open g 3 id mode user_id v

  unfoldable pub gfb_open_su : ℕ → Veelite A → Option ℕ × Veelite A
  unfolding vl_open
  gfb_open_su id v = vl_open g 1 id vl_access_su none v

  unfoldable pub isf_open_su : ℕ → Veelite A → Option ℕ × Veelite A
  unfolding vl_open
  isf_open_su id v = vl_open g 3 id vl_access_su none v

  unfoldable pub gfb_chmod_su : ℕ → ℕ → Veelite A → ℕ × Veelite A
  unfolding vl_chmod
  gfb_chmod_su id mode v = vl_chmod g 1 id mode none v

  unfoldable pub isf_chmod_su : ℕ → ℕ → Veelite A → ℕ × Veelite A
  unfolding vl_chmod
  isf_chmod_su id mode v = vl_chmod g 3 id mode none v
