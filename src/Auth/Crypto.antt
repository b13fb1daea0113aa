-- ===== src/Auth/Crypto.antt =====
-- The nonces and the encryption of otlib/auth.c. The functions of OTEAX that `EAXdrv_encrypt` and
-- `EAXdrv_decrypt` call are parameters: given nonce, data, length and context they change the
-- memory, and tell if they return 0.
use libotfs.Prelude.{
  ℕ, ◌+◌, ◌-◌, ◌^◌, Bool, true, false, ◌&&◌, byte, ltb, leb, if◌then◌else◌, u16, u32, u16_of,
}
use libotfs.Prelude.Int.{ℤ, pos, negsuc}
use libotfs.Memory.{Memory}
use libotfs.Queue.{Queue, markbyte, span, writelong_be}
use libotfs.Auth.{Table}

abbrev pub EaxCall : Type 0 → Type 0
EaxCall Ctx = ℕ → ℕ → ℕ → Ctx → Memory → Bool × Memory

pub record EaxDrv (Ctx : Type 0) : Type 0 where
  pub encrypt : EaxCall Ctx
  pub decrypt : EaxCall Ctx

-- For a `total_size` below 2 ^ 15.
unfoldable pub auth_putnonce : {Ctx : Type 0} → ℕ → ℕ → Table Ctx → Memory → Table Ctx × Memory
auth_putnonce dst total_size t m =
    let write_bytes = if ltb 4 total_size then 4 else total_size in
    let d = dst + (total_size - 4) in
    (
      record t { nonce = u32 (t.nonce + 1) },
      λ x. if leb d x && ltb x (d + write_bytes) then byte (x - d) t.nonce else m x,
    )

unfoldable pub auth_putnonce_q :
    {Ctx : Type 0} → Queue → ℕ → Table Ctx → Memory → Queue × Table Ctx × Memory
unfolding writelong_be
auth_putnonce_q q total_size t m =
    let padded = record q { putcursor = q.putcursor + (total_size - 4) } in
    let (q', m') = writelong_be (padded, m) t.nonce in
    (q', record t { nonce = u32 (t.nonce + 1) }, m')

module _ {Ctx : Type 0} where
  -- `sub_do_crypto`: 4, the octets of the tag, or a negative error.
  unfoldable pub do_crypto : ℕ → ℕ → ℕ → ℕ → EaxCall Ctx → Table Ctx → Memory → ℤ × Memory
  do_crypto nonce block datalen key_index driver t m =
      let (ok, m') = driver nonce block datalen (t.ctx key_index) m in
      if leb t.size key_index then (negsuc 0, m) else ((if ok then pos 4 else negsuc 1), m')

module _ {Ctx : Type 0} (eax : EaxDrv Ctx) where
  unfoldable pub auth_encrypt : ℕ → ℕ → ℕ → ℕ → Table Ctx → Memory → ℤ × Memory
  unfolding do_crypto
  auth_encrypt nonce block datalen key_index t m =
      do_crypto nonce block datalen key_index eax.encrypt t m

  unfoldable pub auth_decrypt : ℕ → ℕ → ℕ → ℕ → Table Ctx → Memory → ℤ × Memory
  unfolding do_crypto
  auth_decrypt nonce block datalen key_index t m =
      do_crypto nonce block (u16 (datalen + 2 ^ 16 - 4)) key_index eax.decrypt t m

  -- `sub_crypt_q`
  unfoldable pub crypt_q : Queue → ℕ → Bool → Table Ctx → Memory → ℤ × Queue × Memory
  unfolding do_crypto markbyte span
  crypt_q q key_index enc t m =
      let (nonce, q1) = markbyte q (pos 7) in
      let length = u16_of (span q1) in
      let (r, m') =
        if enc
        then do_crypto nonce q1.getcursor length key_index eax.encrypt t m
        else do_crypto nonce q1.getcursor (u16 (length + 2 ^ 16 - 4)) key_index eax.decrypt t m in
      (r, q1, m')

  abbrev pub tag_octets : ℤ → ℕ
  tag_octets (pos n) = n
  tag_octets (negsuc n) = 0

  unfoldable pub auth_encrypt_q : Queue → ℕ → Table Ctx → Memory → ℤ × Queue × Memory
  unfolding crypt_q
  auth_encrypt_q q key_index t m =
      let (tag_size, q1, m') = crypt_q q key_index true t m in
      (
        tag_size,
        record q1 { getcursor = q.getcursor; putcursor = q1.putcursor + tag_octets tag_size },
        m',
      )

  unfoldable pub auth_decrypt_q : Queue → ℕ → Table Ctx → Memory → ℤ × Queue × Memory
  unfolding crypt_q
  auth_decrypt_q q key_index t m =
      let (tag_size, q1, m') = crypt_q q key_index false t m in
      (
        tag_size,
        record q1 {
          putcursor = q1.putcursor - tag_octets tag_size;
          back = q1.back - tag_octets tag_size;
        },
        m',
      )

module _ {Ctx : Type 0} (eax : EaxDrv Ctx) where
  -- What is encrypted: the octets behind the nonce.
  abbrev block_length : Queue → ℕ
  block_length q = q.putcursor - (q.getcursor + 7)
