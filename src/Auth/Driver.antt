-- ===== src/Auth/Driver.antt =====
-- otlib/crypto.c: encryption with a key that is given. The functions of OTEAX that the driver calls
-- are parameters.
use libotfs.Prelude.{
  ℕ, zero, ◌+◌, ◌≤◌, ◌<◌, ◌≡◌, ◌≢◌, ◌∙◌, ◌⊎◌, refl, ap, Bool, true, not, ◌&&◌, ◌==◌, if◌then◌else◌,
  arith,
}
use libotfs.Prelude.Int.{ℤ, pos, negsuc}
use libotfs.Memory.{Memory, bytes, bytes_ext, ot_memcpy, bytes-ot_memcpy}
use libotfs.Auth.Crypto.{EaxCall}

-- `eax_init_and_key`, `eax_encrypt_message` and `eax_decrypt_message`.
pub record Oteax (Ctx : Type 0) : Type 0 where
  pub init_and_key : ℕ → Memory → ℤ × Ctx
  pub encrypt_message : EaxCall Ctx
  pub decrypt_message : EaxCall Ctx

-- A context depends on the 16 octets of the key, an encryption changes nothing but the data and the
-- tag of four octets behind it, and decryption undoes it.
pub record IsOteax {Ctx : Type 0} (o : Oteax Ctx) : Type 0 where
  pub key_alone :
      (key : ℕ) (m m' : Memory)
      → bytes m key 16 ≡ bytes m' key 16
      → o.init_and_key key m ≡ o.init_and_key key m'
  pub outside :
      (nonce block n x : ℕ) (c : Ctx) (m : Memory)
      → (x < block) ⊎ (block + n + 4 ≤ x)
      → (o.encrypt_message nonce block n c m).1 x ≡ m x
  pub inverse :
      (nonce block n : ℕ) (c : Ctx) (m : Memory)
      → (o.encrypt_message nonce block n c m).0 ≡ true
      → let m' = (o.encrypt_message nonce block n c m).1 in
        ((o.decrypt_message nonce block n c m').0 ≡ true)
        × (bytes (o.decrypt_message nonce block n c m').1 block n ≡ bytes m block n)

module _ {Ctx : Type 0} (o : Oteax Ctx) where
  abbrev copied : ℕ → ℕ → ℕ → Memory → Memory
  copied dst src srclen m =
      if not (dst == src) && not (dst == 0) && not (srclen == 0)
      then ot_memcpy m dst src srclen
      else m

  -- `__EAX_crypt`
  unfoldable pub eax_crypt : ℕ → ℕ → ℕ → ℕ → ℕ → EaxCall Ctx → Memory → ℤ × Memory
  eax_crypt dst src srclen nonce key crypt m =
      let (retval, context) = o.init_and_key key m in
      let (ok, m') = crypt nonce dst srclen context (copied dst src srclen m) in
      elim retval [ pos zero ↦ ((if ok then pos 4 else negsuc 0), m') | failed ↦ (failed, m) ]

  unfoldable pub eax_encrypt : ℕ → ℕ → ℕ → ℕ → ℕ → Memory → ℤ × Memory
  unfolding eax_crypt
  eax_encrypt dst src srclen nonce key m = eax_crypt dst src srclen nonce key o.encrypt_message m

  unfoldable pub eax_decrypt : ℕ → ℕ → ℕ → ℕ → ℕ → Memory → ℤ × Memory
  unfolding eax_crypt
  eax_decrypt dst src srclen nonce key m = eax_crypt dst src srclen nonce key o.decrypt_message m

  crypt-ok :
      (dst src n nonce key : ℕ) (crypt : EaxCall Ctx) (m : Memory)
      → (o.init_and_key key m).0 ≡ pos 0
      → let r = crypt nonce dst n (o.init_and_key key m).1 (copied dst src n m) in
        r.0 ≡ true → eax_crypt dst src n nonce key crypt m ≡ (pos 4, r.1)
  unfolding eax_crypt
  crypt-ok dst src n nonce key crypt m e ok = rw (eax_crypt, e, ok) refl

  -- `EAX_encrypt` into another place than that of its data, away from the key, where the driver takes
  -- the key and encrypts: `EAX_decrypt` there, in place and with the same nonce, gives the data
  -- back; both return 4.
  pub eax_decrypt-eax_encrypt :
      (dst src n nonce key : ℕ) (m : Memory)
      → IsOteax o
      → (key + 16 ≤ dst) ⊎ (dst + n + 4 ≤ key)
      → (o.init_and_key key m).0 ≡ pos 0
      → (o.encrypt_message nonce dst n (o.init_and_key key m).1 (ot_memcpy m dst src n)).0 ≡ true
      → dst ≢ src
      → 0 < dst
      → 0 < n
      → let (r1, m1) = eax_encrypt dst src n nonce key m in
        let (r2, m2) = eax_decrypt dst dst n nonce key m1 in
        (r1 ≡ pos 4) × (r2 ≡ pos 4) × (bytes m2 dst n ≡ bytes m src n)
  unfolding eax_encrypt eax_decrypt
  eax_decrypt-eax_encrypt dst src n nonce key m laws apart taken ok moved some_dst some_bytes =
      (ap (λ r. r.0) first, ap (λ r. r.0) second, ap (λ r. bytes r.1 dst n) second ∙ back.1 ∙ plain)
    where
      ctx : Ctx
      ctx = (o.init_and_key key m).1

      e : Bool × Memory
      e = o.encrypt_message nonce dst n ctx (copied dst src n m)

      a_copy : copied dst src n m ≡ ot_memcpy m dst src n
      a_copy = ground (arith, moved, some_dst, some_bytes)

      in_place : copied dst dst n e.1 ≡ e.1
      in_place = ground arith

      encrypts : e.0 ≡ true
      encrypts = ap (λ x. (o.encrypt_message nonce dst n ctx x).0) a_copy ∙ ok

      back :
          ((o.decrypt_message nonce dst n ctx e.1).0 ≡ true)
          × (bytes (o.decrypt_message nonce dst n ctx e.1).1 dst n
              ≡ bytes (copied dst src n m) dst n)
      back = laws.inverse nonce dst n ctx (copied dst src n m) encrypts

      plain : bytes (copied dst src n m) dst n ≡ bytes m src n
      plain = ap (λ x. bytes x dst n) a_copy ∙ bytes-ot_memcpy m dst src n

      same_key : o.init_and_key key e.1 ≡ o.init_and_key key m
      same_key = laws.key_alone key e.1 m (
          bytes_ext e.1 m key key 16 (λ k lt.
            laws.outside nonce dst n (key + k) ctx (copied dst src n m) (omega (arith, apart))
            ∙ ground (arith, apart)))

      same_call :
          o.decrypt_message nonce dst n (o.init_and_key key e.1).1 (copied dst dst n e.1)
          ≡ o.decrypt_message nonce dst n ctx e.1
      same_call =
          ap (λ (r : ℤ × Ctx). o.decrypt_message nonce dst n r.1 (copied dst dst n e.1)) same_key
          ∙ ap (o.decrypt_message nonce dst n ctx) in_place

      first : eax_encrypt dst src n nonce key m ≡ (pos 4, e.1)
      first = crypt-ok dst src n nonce key o.encrypt_message m taken encrypts

      second :
          eax_decrypt dst dst n nonce key (eax_encrypt dst src n nonce key m).1
          ≡ (pos 4, (o.decrypt_message nonce dst n ctx e.1).1)
      second =
          ap (λ r. eax_decrypt dst dst n nonce key r.1) first
          ∙ crypt-ok dst dst n nonce key o.decrypt_message e.1 (ap (λ r. r.0) same_key ∙ taken)
              (ap (λ r. r.0) same_call ∙ back.0)
          ∙ ap (λ (r : Bool × Memory). (pos 4, r.1)) same_call
