-- ===== src/Alp/Sensor.antt =====
-- otlib/alp_sensor.c and otlib/alp_logger.c: the actuators, and the record that is echoed.
use libotfs.Prelude.{
  ℕ, zero, suc, ◌+◌, ◌-◌, ◌%◌, Bool, true, false, ◌&&◌, not, Option, none, some, bit_and, ltb, u8,
  ◌==◌, if◌then◌else◌,
}
use libotfs.Prelude.Int.{pos, ltb_ℤ}
use libotfs.Auth.{User}
use libotfs.Memory.{Memory}
use libotfs.Queue.{writespace, movedata}
use libotfs.Veelite.{Veelite, Guard, vl_open}
use libotfs.Veelite.Data.{vl_execute, vl_close}
use libotfs.Alp.State.{
  Alp, in_byte, out_pair, access_x, inrec_cmd, inrec_plen, set_plength, set_cmd, set_flags,
}
use libotfs.Alp.Files.{flip_respond}

-- The file of an actuator: the list holds one.
unfoldable pub actuator_file : ℕ → ℕ
actuator_file actuator_id = if actuator_id == 0 then 24 else 0

-- `actuator_val` at the address 0, and the byte behind it on the stack.
abbrev pub local_byte : ℕ → ℕ → Memory
local_byte val beside x = if x == 0 then val else beside

module _ {A : Type 0} (g : Guard A) (invoke : ℕ → ℕ → Veelite A → ℕ × Veelite A)
    (epoch_s beside : ℕ) where
  abbrev closed : ℕ → Option (ℕ × Veelite A) → Option (ℕ × Veelite A)
  closed err none = none
  closed err (some (r, v)) = some (err, v)

  -- The error code of one actuator, and the files after it.
  unfoldable pub actuate : ℕ → ℕ → Veelite A → Option (ℕ × Veelite A)
  unfolding vl_open vl_execute vl_close
  actuate actuator_id val v =
      let (fp, w) = vl_open g 3 (actuator_file actuator_id) access_x none v in
      if actuator_file actuator_id == 0 then some (255, v) else (elim fp [
        | none ↦ some (255, w)
        | some i ↦ elim (vl_execute invoke i 1 0 (local_byte val beside) w) [
          | none ↦ none
          | some (err, u) ↦ closed err (vl_close invoke epoch_s (some i) u)
        ]
      ])

  -- A count that C would take to -1 is 0.
  unfoldable pub actuator_loop : ℕ → Bool → ℕ → ℕ → Alp A → Option (ℕ × Alp A)
  unfolding actuate writespace
  actuator_loop zero respond data_in data_out a = some (data_out, a)
  actuator_loop (suc n) respond data_in data_out a = elim (ltb 0 data_in) [
    | false ↦ some (data_out, a)
    | true ↦
        let (id, a1) = in_byte a in
        let (val, a2) = in_byte a1 in
        elim (actuate id val a2.files) [
          | none ↦ none
          | some (err, v) ↦
              let a3 = record a2 { files = v } in
              elim (respond && not (ltb_ℤ (writespace a3.outq) (pos 2))) [
                | true ↦ actuator_loop n respond (data_in - 2) (data_out + 2) (out_pair id err a3)
                | false ↦ actuator_loop n respond (data_in - 2) data_out a3
              ]
        ]
  ]

  unfoldable pub sub_actuator : Bool → ℕ → Alp A → Option (ℕ × Alp A)
  unfolding actuator_loop
  sub_actuator respond data_in a = actuator_loop data_in respond data_in 0 a

  abbrev sensor_answer : ℕ → Option (ℕ × Alp A) → Option (Bool × Alp A)
  sensor_answer cmd_in none = none
  sensor_answer cmd_in (some (data_out, a)) =
      let b = set_plength (u8 data_out) a in
      some (
        true,
        if bit_and cmd_in 0x80 == 0
            then (record b { outq = record b.outq { putcursor = b.outq.putcursor - u8 data_out } })
            else set_cmd (flip_respond b.outrec.cmd) b,
      )

  unfoldable pub alp_proc_sensor : Alp A → Option (Bool × Alp A)
  unfolding sub_actuator inrec_cmd inrec_plen
  alp_proc_sensor a =
      let cmd_in = inrec_cmd a in
      sensor_answer cmd_in (
        if cmd_in % 2 == 0
        then sub_actuator (not (bit_and cmd_in 0x80 == 0)) (inrec_plen a) a
        else some (0, a))

-- The argument is `auth_isroot`. Its record is read where the cursor stands, behind its header.
unfoldable pub alp_proc_logger :
    {A : Type 0} → (User → A → Bool × A) → User → Alp A → Option (Bool × Alp A)
unfolding movedata
alp_proc_logger isroot user a =
    let (allowed, auth) = isroot user a.files.auth in
    let a1 = record a { files = record a.files { auth = auth } } in
    let (flags, a2) = in_byte a1 in
    let (plength, a3) = in_byte a2 in
    let src = record a3.inq { getcursor = a3.inq.getcursor + 2 } in
    let (moved, outq, inq, ram) = movedata a3.outq src a3.ram (pos plength) in
    if not allowed
    then some (true, a1)
    else some (
      true,
      set_plength plength (set_flags flags (record a3 { outq = outq; inq = inq; ram = ram })),
    )
