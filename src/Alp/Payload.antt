-- ===== src/Alp/Payload.antt =====
-- otlib/alp_filedata.c: the octets of a record and the octets of a file, in the two loops of
-- `sub_filedata`.
pub mod Read
mod Write
use libotfs.Prelude.{ℕ, ◌+◌, ◌-◌, ◌*◌, ◌/◌, ◌%◌, ◌^◌, ◌≤◌, ◌<◌, ◌≡◌, ◌∙◌, ap, false, some, arith}
use mathlib.Core.Path.{ap₂}
use libotfs.Memory.{bytes, bytes_ext}
use libotfs.Vworm.{Driver}
use libotfs.Veelite.Loops.{stored, loaded_byte}
use libotfs.Veelite.Transfer.{stored_byte}
use libotfs.Alp.State.{Alp}
use libotfs.Alp.FileData.{Written, write_loop, read_loop}
use libotfs.Alp.Payload.Write.{write_loop-Stored}
use libotfs.Alp.Payload.Read.{less_words, read_loop-Loaded}

module _ {A : Type 0} where
  -- Words that the write loop of `sub_filedata` takes from a queue that has all their octets, and
  -- puts in an open file that may be read and written, within its allocation, from an even address
  -- on and below 2^16, come out of the read loop as the same octets. That loop reads at the same
  -- offset through the same file pointer, which is still open, to an output with room for more than
  -- those octets. Both loops return, the first without an overrun and the second with all octets.
  pub read_loop-write_loop :
      (n fuel fp offset span span' data_in d : ℕ) (a c : Alp A) (dw dr : Driver)
      → n < fuel
      → (a.files.vlfile fp).write ≡ some dw
      → (a.files.vlfile fp).read ≡ some dr
      → (offset + (a.files.vlfile fp).start) % 2 ≡ 0
      → offset + 2 * n ≤ (a.files.vlfile fp).alloc
      → (a.files.vlfile fp).start + offset + 2 * n < 2 ^ 16
      → a.inq.getcursor + 2 * n ≤ a.inq.back
      → ((k : ℕ) → k < 2 * n → a.ram (a.inq.getcursor + k) < 256)
      → c.outq.putcursor + 2 * n < c.outq.back
      → c.outq.back - c.outq.putcursor < 2 ^ 15
      → (w : Written A) × (b : Alp A) × (write_loop fuel fp offset (offset + 2 * n) span data_in 0 a
          ≡ some w)
        × (w.overrun ≡ false)
        × (read_loop fuel fp offset (offset + 2 * n) span' d (record c { files = w.alp.files })
            ≡ some (false, less_words n span', d + 2 * n, b))
        × (bytes b.ram c.outq.putcursor (2 * n) ≡ bytes a.ram a.inq.getcursor (2 * n))
  read_loop-write_loop n fuel fp offset span span' data_in d a c dw dr lt wr rd even fits small
        inside octets room free =
      let st =
        write_loop-Stored n fuel fp offset span data_in 0 a dw lt wr even fits small inside in
      let same = st.2.4 in
      let ld =
        read_loop-Loaded n fuel fp offset span' d (record c { files = st.0.alp.files }) dr lt
          (same.read ∙ rd) (rw same.start even) (rw same.start (omega arith)) room free in
      (
        st.0,
        ld.0,
        st.1,
        st.2.0,
        ld.1,
        bytes_ext ld.0.ram a.ram c.outq.putcursor a.inq.getcursor (2 * n)
            (λ k h. ld.2.3 k h ∙ octet st.0 same.start st.2.3 k h),
      )
    where
      octet :
          (w : Written A)
          → (w.alp.files.vlfile fp).start ≡ (a.files.vlfile fp).start
          → w.alp.files.fsram
            ≡ stored a.files.fsram
                ((offset + (a.files.vlfile fp).start) / 2)
                n
                a.ram
                a.inq.getcursor
          → (k : ℕ) → k < 2 * n
          → loaded_byte w.alp.files.fsram (offset + (w.alp.files.vlfile fp).start + k)
            ≡ a.ram (a.inq.getcursor + k)
      octet w st ws k h =
          ap₂ (λ (x : ℕ) f. loaded_byte f (offset + x + k)) st ws
          ∙ ap
              (λ j.
                loaded_byte (stored a.files.fsram (base / 2) j a.ram a.inq.getcursor) (base + k))
              words
          ∙ stored_byte a.files.fsram base (2 * n) a.ram a.inq.getcursor k even h octets
        where
          base : ℕ
          base = offset + (a.files.vlfile fp).start

          words : n ≡ (2 * n + 1) / 2
          words = omega arith
