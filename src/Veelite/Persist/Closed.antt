-- ===== src/Veelite/Persist/Closed.antt =====
-- otlib/veelite.c: the memory after a store and a close, and the file that its header then gives.
use libotfs.Prelude.{ℕ, ◌+◌, ◌*◌, ◌/◌, ◌^◌, ◌≤◌, ◌<◌, ◌≡◌, ◌≢◌, ◌∙◌, inl, inr, ap, some, u16, arith}
use libotfs.Memory.{Memory}
use libotfs.Vworm.{Fsram, vworm_read, vworm}
use libotfs.Veelite.{VlFile, null_vaddr, header_size, file_at}
use libotfs.Veelite.Data.{close_header}
use libotfs.Veelite.Loops.{stored, stored_outside}
use libotfs.Veelite.Close.{close_header_lem, file_at-close_header}
use libotfs.Veelite.Layout.{headers, SameHeaders}

-- A store that begins behind the header at `h`.
module _ (s : Fsram) (start len p : ℕ) (m : Memory) (below : start < 2 ^ 16) where
  abbrev after : Fsram
  after = stored s (start / 2) ((len + 1) / 2) m p

  pub after-word : (h o : ℕ) → h + o + 2 ≤ start → vworm_read (h + o) after ≡ vworm_read (h + o) s
  unfolding vworm_read
  after-word h o le =
      stored_outside s (start / 2) ((len + 1) / 2) m p (u16 (h + o) / 2) (inl (omega arith))

  file_at-after :
      (h : ℕ) → h + 16 ≤ start → vworm_read (h + 8) s ≡ null_vaddr → file_at h after ≡ file_at h s
  unfolding file_at vworm_read
  file_at-after h le no_mirror = ground (
    arith,
    after-word h 0 (omega arith),
    after-word h 2 (omega arith),
    after-word h 4 (omega arith),
    after-word h 6 (omega arith),
    after-word h 8 (omega arith),
    no_mirror,
  )

  module _ (epoch_s j : ℕ) (f : VlFile) (header : f.header ≡ 32 + j * header_size)
      (few : j < headers s) (before : 32 + headers s * header_size ≤ start) where
    abbrev closed : Fsram
    closed = close_header epoch_s f after

    pub closed_outside :
        (x : ℕ)
        → x ≢ f.header / 2
        → x ≢ f.header / 2 + 6
        → x ≢ f.header / 2 + 7
        → closed x ≡ after x
    closed_outside x a b c =
        elim ((close_header_lem epoch_s x f after (omega arith) (omega arith)).2) [
          | inl same ↦ same
          | inr (inl at) ↦ absurd (a at)
          | inr (inr (inl at)) ↦ absurd (b at)
          | inr (inr (inr at)) ↦ absurd (c at)
        ]

    closed_before :
        (x : ℕ)
        → x < start / 2
        → x ≢ f.header / 2
        → x ≢ f.header / 2 + 6
        → x ≢ f.header / 2 + 7
        → closed x ≡ s x
    closed_before x lt a b c =
        closed_outside x a b c ∙ stored_outside s (start / 2) ((len + 1) / 2) m p x (inl lt)

    pub closed-SameHeaders : SameHeaders s closed
    closed-SameHeaders = record {
      gfb = closed_before 5 (omega arith) (omega arith) (omega arith) (omega arith);
      iss = closed_before 8 (omega arith) (omega arith) (omega arith) (omega arith);
      isf = closed_before 11 (omega arith) (omega arith) (omega arith) (omega arith);
      id = λ k lt.
          closed_before (18 + 8 * k) (omega arith) (omega arith) (omega arith) (omega arith);
      base = λ k lt.
          closed_before (19 + 8 * k) (omega arith) (omega arith) (omega arith) (omega arith);
    }

    pub file_at-closed :
        vworm_read (f.header + 8) s ≡ null_vaddr
        → file_at f.header closed ≡ record (file_at f.header s) { length = f.length }
    file_at-closed no_mirror =
        file_at-close_header epoch_s f after (omega arith) (omega arith)
          (after-word f.header 8 (omega arith) ∙ no_mirror)
        ∙ ap (λ (g : VlFile). record g { length = f.length })
            (file_at-after f.header (omega arith) no_mirror)

-- The file of a header that names no mirror.
pub file_facts :
    (h : ℕ) (m : Fsram)
    → vworm_read (h + 8) m ≡ null_vaddr
    → ((file_at h m).header ≡ h)
      × ((file_at h m).read ≡ some vworm)
      × ((file_at h m).write ≡ some vworm)
unfolding file_at
file_facts h m no_mirror =
    (ground (arith, no_mirror), ground (arith, no_mirror), ground (arith, no_mirror))
