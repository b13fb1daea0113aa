-- ===== src/Alp/Perms.antt =====
-- otlib/alp_filedata.c: the commands on permissions, headers, deletion, creation and restoration.
-- Each is a loop over the file IDs of the record, whose count of bytes is `data_in`; a count that C
-- would take below 0 is 0 here, since it is only tested for being positive. The result is the count
-- of bytes put out.
use libotfs.Prelude.{
  ℕ, zero, suc, ◌+◌, ◌-◌, ◌/◌, ◌%◌, Bool, true, false, ◌&&◌, not, none, bit_and, byte, ltb, ◌==◌,
  if◌then◌else◌,
}
use libotfs.Auth.{User}
use libotfs.Vworm.{vworm_read}
use libotfs.Veelite.{Guard, vl_getheader_vaddr, vl_chmod, null_vaddr}
use libotfs.Alp.State.{
  Alp, in_byte, in_short, out_short, out_short_be, out_pair, sub_qnotfull, access_r, access_w,
}

-- Commands that are not for a server.
unfoldable pub sub_return : {A : Type 0} → Alp A → ℕ × Alp A
sub_return a = (0, a)

-- `vl_new` and `vl_delete` without VLNEW.
unfoldable pub vl_new : ℕ
vl_new = 255

unfoldable pub vl_delete : ℕ
vl_delete = 255

-- `(cmd_in >> 4) & 0x07`
abbrev pub block_of : ℕ → ℕ
block_of cmd_in = cmd_in / 16 % 8

abbrev pub mod_of : ℕ → ℕ
mod_of cmd_in = if bit_and cmd_in 0x02 == 0 then access_r else access_w

module _ {A : Type 0} where
  -- An answer for one file, if the command asks for one.
  abbrev pub answer : Bool → ℕ → ℕ → ℕ × Alp A → ℕ × Alp A
  answer respond b c (data_out, a) =
      if respond then (data_out + 2, out_pair b c a) else (data_out, a)

  unfoldable pub delete_loop : Bool → ℕ → ℕ × Alp A → ℕ × Alp A
  unfolding sub_qnotfull
  delete_loop respond zero (data_out, a) = (data_out, a)
  delete_loop respond (suc data_in) (data_out, a) = elim (sub_qnotfull respond 2 a.outq) [
    | false ↦ (data_out, a)
    | true ↦
        let (file_id, a1) = in_byte a in
        delete_loop respond data_in (answer respond file_id vl_delete (data_out, a1))
  ]

  unfoldable pub sub_filedelete : Bool → ℕ → Alp A → ℕ × Alp A
  unfolding delete_loop
  sub_filedelete respond data_in a = delete_loop respond data_in (0, a)

  -- The file pointer that `vl_close` gets is the `NULL` that `vl_new` left.
  unfoldable pub create_loop : ℕ → Bool → ℕ → ℕ × Alp A → ℕ × Alp A
  unfolding sub_qnotfull
  create_loop zero respond data_in (data_out, a) = (data_out, a)
  create_loop (suc n) respond data_in (data_out, a) =
      elim (ltb 0 data_in && sub_qnotfull respond 2 a.outq) [
        | false ↦ (data_out, a)
        | true ↦
            let (id, a1) = in_byte a in
            let (mode, a2) = in_byte a1 in
            let a3 = record a2 { inq = record a2.inq { getcursor = a2.inq.getcursor + 2 } } in
            let (alloc, a4) = in_short a3 in
            create_loop n respond (data_in - 6) (answer respond id vl_new (data_out, a4))
      ]

  unfoldable pub sub_filecreate : Bool → ℕ → Alp A → ℕ × Alp A
  unfolding create_loop
  sub_filecreate respond data_in a = create_loop data_in respond data_in (0, a)

  unfoldable pub restore_loop : Bool → ℕ → ℕ × Alp A → ℕ × Alp A
  unfolding sub_qnotfull
  restore_loop respond zero (data_out, a) = (data_out, a)
  restore_loop respond (suc data_in) (data_out, a) = elim (sub_qnotfull respond 2 a.outq) [
    | false ↦ (data_out, a)
    | true ↦
        let (file_id, a1) = in_byte a in
        restore_loop respond data_in (answer respond file_id 0x03 (data_out, a1))
  ]

  unfoldable pub sub_filerestore : Bool → ℕ → Alp A → ℕ × Alp A
  unfolding restore_loop
  sub_filerestore respond data_in a = restore_loop respond data_in (0, a)

  -- The six bytes of a header.
  abbrev pub out_header : ℕ → Alp A → Alp A
  out_header header a =
      let s = a.files.fsram in
      out_short (vworm_read (header + 2) s)
        (out_short (vworm_read header s) (out_short_be (vworm_read (header + 4) s) a))

  module _ (g : Guard A) where
    -- One file of a command that reads permissions.
    unfoldable pub read_mod : ℕ → ℕ → ℕ → Bool → Alp A → ℕ × Bool × Alp A
    unfolding vl_getheader_vaddr vworm_read
    read_mod block file_id file_mod respond a =
        let (err, header, v) =
          vl_getheader_vaddr g null_vaddr block file_id access_r none a.files in
        if not respond
        then (file_mod, false, a)
        else if err == 0
        then (byte 1 (vworm_read (header + 4) v.fsram), true, record a { files = v })
        else (file_mod, false, record a { files = v })

    -- One file of a command that writes them: the error code takes the place of `file_mod`.
    unfoldable pub write_mod : ℕ → ℕ → User → Alp A → ℕ × Alp A
    unfolding vl_chmod
    write_mod block file_id user a =
        let (mode, a1) = in_byte a in
        let (err, v) = vl_chmod g block file_id mode user a1.files in (err, record a1 { files = v })

    -- `data_in` is fuel enough: each turn takes at least 1 from it.
    unfoldable pub perms_loop : ℕ → ℕ → User → Bool → ℕ → ℕ → ℕ × Alp A → ℕ × Alp A
    unfolding sub_qnotfull read_mod write_mod
    perms_loop zero block user respond file_mod data_in (data_out, a) = (data_out, a)
    perms_loop (suc n) block user respond file_mod data_in (data_out, a) =
        elim (ltb 0 data_in && sub_qnotfull respond 2 a.outq) [
          | false ↦ (data_out, a)
          | true ↦
              let (file_id, a1) = in_byte a in
              elim (file_mod == access_w) [
                | true ↦
                    let (err, a2) = write_mod block file_id user a1 in
                    perms_loop n block user respond err (data_in - 1 - 1)
                      (answer respond file_id err (data_out, a2))
                | false ↦
                    let (mode, allow_write, a2) = read_mod block file_id file_mod respond a1 in
                    perms_loop n block user respond mode (data_in - 1)
                      (answer allow_write file_id mode (data_out, a2))
              ]
        ]

    unfoldable pub sub_fileperms : User → Bool → ℕ → ℕ → Alp A → ℕ × Alp A
    unfolding perms_loop
    sub_fileperms user respond cmd_in data_in a =
        perms_loop data_in (block_of cmd_in) user respond (mod_of cmd_in) data_in (0, a)

    unfoldable pub headers_loop : ℕ → Bool → ℕ → ℕ × Alp A → ℕ × Alp A
    unfolding sub_qnotfull vl_getheader_vaddr
    headers_loop block respond zero (data_out, a) = (data_out, a)
    headers_loop block respond (suc data_in) (data_out, a) = elim (sub_qnotfull respond 6 a.outq) [
      | false ↦ (data_out, a)
      | true ↦
          let (file_id, a1) = in_byte a in
          let (err, header, v) =
            vl_getheader_vaddr g null_vaddr block file_id access_r none a1.files in
          let a2 = record a1 { files = v } in
          headers_loop block respond data_in
            (if err == 0 then (data_out + 6, out_header header a2) else (data_out, a2))
    ]

    unfoldable pub sub_fileheaders : Bool → ℕ → ℕ → Alp A → ℕ × Alp A
    unfolding headers_loop
    sub_fileheaders respond cmd_in data_in a =
        if respond then headers_loop (block_of cmd_in) respond data_in (0, a) else (0, a)
