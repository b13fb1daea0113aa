-- ===== src/Veelite/Loops.antt =====
-- The loops of `vl_load` and `vl_store` in otlib/veelite.c, on the half-words of a file's heap.
use libotfs.Prelude.{
  ℕ, zero, suc, ◌+◌, ◌-◌, ◌*◌, ◌/◌, ◌%◌, ◌^◌, ◌≤◌, ◌<◌, ◌≡◌, ◌∙◌, ◌⊎◌, inl, refl, ap, some, u16,
  byte, ltb, ◌==◌, if◌then◌else◌, arith, lt→ltb,
}
use libotfs.Memory.{Memory, store}
use libotfs.Vworm.{Fsram, Driver, call_read, call_write, vworm, vsram}
use libotfs.Veelite.Data.{load_loop, store_loop}

-- A pointer of an open file: both drivers work on the same half-words.
pub call_read-some :
    (d : Driver) (addr : ℕ) (s : Fsram) → call_read (some d) addr s ≡ some (s (u16 addr / 2))
unfolding call_read
call_read-some vworm addr s = refl
call_read-some vsram addr s = refl

pub call_write-some :
    (d : Driver) (addr value : ℕ) (s : Fsram)
    → call_write (some d) addr value s ≡ some (0, λ x. if x == u16 addr / 2 then value else s x)
unfolding call_write
call_write-some vworm addr value s = refl
call_write-some vsram addr value s = refl

-- `n` half-words of a buffer at `p`, put at the half-word `h` and behind it.
unfoldable pub stored : Fsram → ℕ → ℕ → Memory → ℕ → Fsram
stored s h zero m p = s
stored s h (suc n) m p =
    stored (λ x. if x == h then m p + 256 * m (p + 1) else s x) (h + 1) n m (p + 2)

pub stored_outside :
    (s : Fsram) (h n : ℕ) (m : Memory) (p x : ℕ) → (x < h) ⊎ (h + n ≤ x) → stored s h n m p x ≡ s x
unfolding stored
stored_outside s h zero m p x out = refl
stored_outside s h (suc n) m p x out =
    stored_outside (λ y. if y == h then m p + 256 * m (p + 1) else s y) (h + 1) n m (p + 2) x
      (ground arith)
    ∙ ground arith

pub stored_inside :
    (s : Fsram) (h n : ℕ) (m : Memory) (p k : ℕ)
    → k < n
    → stored s h n m p (h + k) ≡ m (p + 2 * k) + 256 * m (p + 2 * k + 1)
unfolding stored
stored_inside s h zero m p k lt = absurd (omega arith)
stored_inside s h (suc n) m p zero lt = ground (
  arith,
  stored_outside (λ y. if y == h then m p + 256 * m (p + 1) else s y) (h + 1) n m (p + 2) h
      (inl (omega arith)),
)
stored_inside s h (suc n) m p (suc k) lt = ground (
  arith,
  stored_inside (λ y. if y == h then m p + 256 * m (p + 1) else s y) (h + 1) n m (p + 2) k
      (omega arith),
  a1,
  a2,
  a3,
)
  where
    a1 : h + suc k ≡ h + 1 + k
    a1 = omega arith

    a2 : p + 2 * suc k ≡ p + 2 + 2 * k
    a2 = omega arith

    a3 : p + 2 * suc k + 1 ≡ p + 2 + 2 * k + 1
    a3 = omega arith

-- One step of each loop.
pub store_loop-step :
    (fuel cursor end : ℕ) (d : Driver) (m : Memory) (p : ℕ) (s : Fsram)
    → cursor < end
    → store_loop (suc fuel) (some d) cursor end m p 0 s
      ≡ store_loop fuel
          (some d)
          (u16 (cursor + 2))
          end
          m
          (p + 2)
          0
          (λ x. if x == u16 cursor / 2 then m p + 256 * m (p + 1) else s x)
unfolding store_loop
store_loop-step fuel cursor end d m p s lt =
    ground (arith, lt→ltb cursor end lt, call_write-some d cursor (m p + 256 * m (p + 1)) s)

load_loop-step :
    (n cursor scratch : ℕ) (d : Driver) (p : ℕ) (m : Memory) (s : Fsram)
    → cursor < 2 ^ 16
    → (cursor % 2 ≡ 0) ⊎ (scratch ≡ s (cursor / 2))
    → load_loop (some d) (suc n) cursor scratch p m s
      ≡ load_loop
          (some d)
          n
          (cursor + 1)
          (s (cursor / 2))
          (p + 1)
          (store m p (byte (cursor % 2) (s (cursor / 2))))
          s
unfolding load_loop
load_loop-step n cursor scratch d p m s lt known =
    ground (arith, call_read-some d cursor s, the_place)
  where
    the_place : u16 cursor / 2 ≡ cursor / 2
    the_place = omega arith

-- The loop from an even cursor over an end that does not wrap writes every half-word below the end.
store_loop-stored :
    (fuel n h end : ℕ) (d : Driver) (m : Memory) (p : ℕ) (s : Fsram)
    → n < fuel
    → end ≤ 2 * h + 2 * n
    → 2 * h + 2 * n ≤ end + 1
    → 2 * h + 2 * n < 2 ^ 16
    → store_loop fuel (some d) (2 * h) end m p 0 s ≡ some (0, stored s h n m p)
unfolding store_loop stored
store_loop-stored zero n h end d m p s lt a b c = absurd (omega arith)
store_loop-stored (suc fuel) zero h end d m p s lt a b c = ground arith
store_loop-stored (suc fuel) (suc n) h end d m p s lt a b c =
    store_loop-step fuel (2 * h) end d m p s (omega arith)
    ∙ rw (the_place, the_cursor)
        (store_loop-stored fuel n (h + 1) end d m (p + 2)
          (λ x. if x == h then m p + 256 * m (p + 1) else s x) (omega arith) (omega arith)
          (omega arith) (omega arith))
  where
    the_place : u16 (2 * h) / 2 ≡ h
    the_place = omega arith

    the_cursor : u16 (2 * h + 2) ≡ 2 * (h + 1)
    the_cursor = omega arith

-- What is loaded: a memory with the bytes of the half-words at `p`.
abbrev pub loaded_byte : Fsram → ℕ → ℕ
loaded_byte s c = byte (c % 2) (s (c / 2))

pub load_loop-loaded :
    (n cursor scratch : ℕ) (d : Driver) (p : ℕ) (m : Memory) (s : Fsram)
    → cursor + n < 2 ^ 16
    → (cursor % 2 ≡ 0) ⊎ (scratch ≡ s (cursor / 2))
    → (m' : Memory) × (load_loop (some d) n cursor scratch p m s ≡ some m')
      × ((x : ℕ) → x < p → m' x ≡ m x)
      × ((k : ℕ) → k < n → m' (p + k) ≡ loaded_byte s (cursor + k))
unfolding load_loop
load_loop-loaded zero cursor scratch d p m s fits known =
    (m, refl, λ x lt. refl, λ k lt. absurd (omega arith))
load_loop-loaded (suc n) cursor scratch d p m s fits known =
    let r = load_loop-loaded n (cursor + 1) (s (cursor / 2)) d (p + 1) m1 s (omega arith) half in
    (
      r.0,
      load_loop-step n cursor scratch d p m s (omega arith) known ∙ r.1,
      λ x lt. r.2 x (omega arith) ∙ ground arith,
      later r.0 r.2 r.3,
    )
  where
    m1 : Memory
    m1 = store m p (loaded_byte s cursor)

    half : ((cursor + 1) % 2 ≡ 0) ⊎ (s (cursor / 2) ≡ s ((cursor + 1) / 2))
    half = ground arith

    later :
        (m' : Memory)
        → ((x : ℕ) → x < p + 1 → m' x ≡ m1 x)
        → ((k : ℕ) → k < n → m' (p + 1 + k) ≡ loaded_byte s (cursor + 1 + k))
        → (k : ℕ) → k < suc n
        → m' (p + k) ≡ loaded_byte s (cursor + k)
    later m' below above zero lt = ground (arith, below p)
    later m' below above (suc k) lt =
        ap m' move_p ∙ above k (omega arith) ∙ ap (loaded_byte s) move_c
      where
        move_p : p + suc k ≡ p + 1 + k
        move_p = omega arith

        move_c : cursor + 1 + k ≡ cursor + suc k
        move_c = omega arith

pub store_at :
    (n c end : ℕ) (d : Driver) (m : Memory) (p : ℕ) (s : Fsram)
    → c % 2 ≡ 0
    → c ≤ end
    → end ≤ c + 2 * n
    → c + 2 * n ≤ end + 1
    → c + 2 * n < 2 ^ 16
    → store_loop (suc (end - c)) (some d) c end m p 0 s ≡ some (0, stored s (c / 2) n m p)
store_at n c end d m p s even le a b small =
    ap (λ x. store_loop (suc (end - c)) (some d) x end m p 0 s) halved
    ∙ store_loop-stored (suc (end - c)) n (c / 2) end d m p s (omega arith) (omega arith)
        (omega arith) (omega arith)
  where
    halved : c ≡ 2 * (c / 2)
    halved = omega arith

-- The octets that a request of `len` comes to.
abbrev pub capped : ℕ → ℕ → ℕ
capped limit len = if ltb limit len then limit else len

pub capped_le : (limit len : ℕ) → (capped limit len ≤ limit) × (capped limit len ≤ len)
capped_le limit len = ground arith
