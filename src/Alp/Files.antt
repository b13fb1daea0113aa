-- ===== src/Alp/Files.antt =====
-- otlib/alp_filedata.c: the processor of the file protocol, which runs the command of a record and
-- sets the header of its answer.
use libotfs.Prelude.{
  [], ◌∷◌, get_or, ℕ, ◌+◌, ◌-◌, ◌%◌, Bool, true, not, Option, none, some, bit_and, bit_or, u8, ◌==◌,
  if◌then◌else◌,
}
use libotfs.Auth.{User}
use libotfs.Veelite.{Veelite, Guard}
use libotfs.Alp.State.{Alp, inrec_cmd, inrec_plen, set_plength, set_cmd}
use libotfs.Alp.Perms.{
  sub_return, sub_fileperms, sub_fileheaders, sub_filedelete, sub_filecreate, sub_filerestore,
}
use libotfs.Alp.FileData.{sub_filedata}

-- `x ^ 0x80` of a byte.
abbrev pub flip_respond : ℕ → ℕ
flip_respond x = if bit_and x 0x80 == 0 then x + 0x80 else x - 0x80

-- The entries of `cmd_fn`.
pub data FileCommand : Type 0 where
  perms returns filedata headers deletes creates restores : FileCommand

unfoldable pub cmd_fn : ℕ → FileCommand
cmd_fn i =
    get_or
      (perms ∷ returns ∷ perms ∷ perms ∷ filedata ∷ returns ∷ filedata ∷ filedata ∷ headers
        ∷ returns ∷ deletes ∷ creates ∷ filedata ∷ returns ∷ restores ∷ returns ∷ [])
      i returns

module _ {A : Type 0} where
  -- The header of the answer, or the output taken back.
  unfoldable pub set_answer : ℕ → ℕ × Alp A → Alp A
  set_answer cmd_in (data_out, a) =
      let b = set_plength (u8 data_out) a in
      if bit_and cmd_in 0x80 == 0
      then (record b { outq = record b.outq { putcursor = b.outq.putcursor - u8 data_out } })
      else set_cmd
          (bit_or (flip_respond b.outrec.cmd) (if bit_and cmd_in 0x02 == 0 then 0x01 else 0x0F)) b

  abbrev pub then_answer : ℕ → Option (ℕ × Alp A) → Option (Alp A)
  then_answer cmd_in none = none
  then_answer cmd_in (some r) = some (set_answer cmd_in r)

  module _ (g : Guard A) (invoke : ℕ → ℕ → Veelite A → ℕ × Veelite A) (epoch_s fuel : ℕ) where
    unfoldable pub run_command : FileCommand → User → Bool → ℕ → ℕ → Alp A → Option (ℕ × Alp A)
    unfolding sub_fileperms sub_filedata
    run_command perms user respond cmd_in data_in a =
        some (sub_fileperms g user respond cmd_in data_in a)
    run_command returns user respond cmd_in data_in a = some (sub_return a)
    run_command filedata user respond cmd_in data_in a =
        sub_filedata g invoke epoch_s fuel user respond cmd_in data_in a
    run_command headers user respond cmd_in data_in a =
        some (sub_fileheaders g respond cmd_in data_in a)
    run_command deletes user respond cmd_in data_in a = some (sub_filedelete respond data_in a)
    run_command creates user respond cmd_in data_in a = some (sub_filecreate respond data_in a)
    run_command restores user respond cmd_in data_in a = some (sub_filerestore respond data_in a)

    -- The Boolean result is always `True`.
    unfoldable pub alp_proc_filedata : User → Alp A → Option (Bool × Alp A)
    unfolding run_command set_answer inrec_cmd inrec_plen
    alp_proc_filedata user a =
        let cmd_in = inrec_cmd a in
        elim (then_answer cmd_in (
          run_command (cmd_fn (cmd_in % 16)) user (not (bit_and cmd_in 0x80 == 0)) cmd_in
            (inrec_plen a) a)) [ none ↦ none | some b ↦ some (true, b) ]
