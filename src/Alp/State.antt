-- ===== src/Alp/State.antt =====
-- `alp_tmpl` of include/otlib/alp.h with what its pointers lead to: the two queues, the memory that
-- holds their bytes, and the files that the processors work on. The queues are two objects.
use libotfs.Prelude.{ℕ, ◌+◌, ◌-◌, ◌^◌, Bool, ◌&&◌, ◌||◌, not, bit_and, u16, ltb}
use libotfs.Prelude.Int.{pos, negsuc, ltb_ℤ}
use libotfs.Memory.{Memory}
use libotfs.Queue.{
  Queue, readbyte, readshort, readshort_be, writebyte, writeshort, writeshort_be, writespace,
  getcursor_val,
}
use libotfs.Veelite.{Veelite}

-- `alp_record`
pub record AlpRecord : Type 0 where
  pub flags : ℕ
  pub plength : ℕ
  pub id : ℕ
  pub cmd : ℕ

pub record Alp (A : Type 0) : Type 0 where
  pub purge_id : ℕ
  pub outrec : AlpRecord
  pub inq : Queue
  pub outq : Queue
  pub ram : Memory
  pub files : Veelite A

-- The flags of a record.
abbrev pub flag_mb : ℕ
flag_mb = 0x80

abbrev pub flag_me : ℕ
flag_me = 0x40

abbrev pub flag_cf : ℕ
flag_cf = 0x20

abbrev pub flag_sr : ℕ
flag_sr = 0x10

-- VL_ACCESS_R, VL_ACCESS_W and VL_ACCESS_X
abbrev pub access_r : ℕ
access_r = 0x24

abbrev pub access_w : ℕ
access_w = 0x12

abbrev pub access_x : ℕ
access_x = 0x89

-- `x & ~bits`, for bits that are one flag.
abbrev pub clear : ℕ → ℕ → ℕ
clear bits x = x - bit_and x bits

abbrev pub set_cmd : {A : Type 0} → ℕ → Alp A → Alp A
set_cmd c a = record a { outrec = record a.outrec { cmd = c } }

abbrev pub set_plength : {A : Type 0} → ℕ → Alp A → Alp A
set_plength n a = record a { outrec = record a.outrec { plength = n } }

abbrev pub set_flags : {A : Type 0} → ℕ → Alp A → Alp A
set_flags f a = record a { outrec = record a.outrec { flags = f } }

module _ {A : Type 0} where
  -- The calls on `alp->inq` and `alp->outq`.
  abbrev pub in_byte : Alp A → ℕ × Alp A
  in_byte a = let (b, q) = readbyte a.inq a.ram in (b, record a { inq = q })

  abbrev pub in_short : Alp A → ℕ × Alp A
  in_short a = let (w, q) = readshort a.inq a.ram in (w, record a { inq = q })

  abbrev pub in_short_be : Alp A → ℕ × Alp A
  in_short_be a = let (w, q) = readshort_be a.inq a.ram in (w, record a { inq = q })

  abbrev pub out_byte : ℕ → Alp A → Alp A
  out_byte b a = let (q, m) = writebyte (a.outq, a.ram) b in record a { outq = q; ram = m }

  abbrev pub out_short : ℕ → Alp A → Alp A
  out_short w a = let (q, m) = writeshort (a.outq, a.ram) w in record a { outq = q; ram = m }

  abbrev pub out_short_be : ℕ → Alp A → Alp A
  out_short_be w a = let (q, m) = writeshort_be (a.outq, a.ram) w in record a { outq = q; ram = m }

  -- Two bytes of an answer: most answers are an ID with a mode or an error code.
  abbrev pub out_pair : ℕ → ℕ → Alp A → Alp A
  out_pair b c a = out_byte c (out_byte b a)

  -- INREC: the header of the record stands right before the read cursor.
  unfoldable pub inrec_cmd : Alp A → ℕ
  unfolding getcursor_val
  inrec_cmd a = getcursor_val a.inq a.ram (negsuc 0)

  unfoldable pub inrec_id : Alp A → ℕ
  unfolding getcursor_val
  inrec_id a = getcursor_val a.inq a.ram (negsuc 1)

  unfoldable pub inrec_plen : Alp A → ℕ
  unfolding getcursor_val
  inrec_plen a = getcursor_val a.inq a.ram (negsuc 2)

  unfoldable pub inrec_flags : Alp A → ℕ
  unfolding getcursor_val
  inrec_flags a = getcursor_val a.inq a.ram (negsuc 3)

-- `size >= q_writespace(q)`
abbrev pub is_full : ℕ → Queue → Bool
is_full size q = not (ltb_ℤ (pos size) (writespace q))

unfoldable pub sub_qnotfull : Bool → ℕ → Queue → Bool
unfolding writespace
sub_qnotfull write write_size q = not (ltb_ℤ (writespace q) (pos write_size)) || not write

-- Arithmetic on a 16-bit pattern, which stands for an `ot_u16`, or for an `ot_int` that is tested for
-- being positive.
abbrev pub minus16 : ℕ → ℕ → ℕ
minus16 x k = u16 (x + 2 ^ 16 - k)

abbrev pub is_positive16 : ℕ → Bool
is_positive16 x = ltb 0 x && ltb x (2 ^ 15)
