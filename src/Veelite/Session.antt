-- ===== src/Veelite/Session.antt =====
-- otlib/veelite.c: sequences of calls on files, each from the state that the one before left.
use libotfs.Prelude.{
  ℕ, ◌/◌, ◌≡◌, ◌≢◌, ◌∙◌, ◌⊎◌, inl, inr, ap, refl, sym, Bool, true, false, Option, none, some,
  Option-cases, Bool-cases, ◌==◌, leb, u16, ltb, u8, byte, bit_and, ◌+◌,
}
use libotfs.Auth.{User}
use libotfs.Memory.{Memory}
use mathlib.Core.Path.{subst}
use libotfs.Vworm.{Fsram, Driver, vworm, vsram, call_write, vworm_read}
use libotfs.Veelite.{Veelite, Guard, put, vl_init, vl_open, vlactions}
use libotfs.Veelite.Data.{vl_write, vl_store, vl_close, kill, sub_action, close_header, with_file}
use libotfs.Veelite.Words.{written}
use libotfs.Veelite.Paired.{
  IsPaired, ArePaired, set-ArePaired, keep-ArePaired, at-ArePaired, open-ArePaired, write-ArePaired,
  store-ArePaired, outcome, write_outcome,
}

module _ {A : Type 0} where
  -- The end of a close: what the action or the absence of one left is freed.
  abbrev freed : ℕ → Option (ℕ × Veelite A) → Option (ℕ × Veelite A)
  freed fp none = none
  freed fp (some (r, v)) = some (r, with_file v fp (kill (v.vlfile fp)))

  freed_cases :
      (fp : ℕ) (o : Option (ℕ × Veelite A)) (r : ℕ) (v' : Veelite A)
      → freed fp o ≡ some (r, v')
      → (q : ℕ) × (v : Veelite A) × (o ≡ some (q, v)) × (v' ≡ with_file v fp (kill (v.vlfile fp)))
  freed_cases fp none r v' e = absurd (cc)
  freed_cases fp (some (q, v)) r v' e = (q, v, refl, cc)

  -- What is freed: the state with its new header, or what an action made of it.
  abbrev acted : Bool → Bool → Option (ℕ × Veelite A) → Veelite A → Option (ℕ × Veelite A)
  acted true c o v = some (0, v)
  acted false true o v = o
  acted false false o v = some (0, v)

  acted_cases :
      (b c : Bool) (o : Option (ℕ × Veelite A)) (v : Veelite A) (r : ℕ) (v' : Veelite A)
      → acted b c o v ≡ some (r, v')
      → (v' ≡ v) ⊎ (o ≡ some (r, v'))
  acted_cases true c o v r v' e = inl (cc)
  acted_cases false true o v r v' e = inr e
  acted_cases false false o v r v' e = inl (cc)

  abbrev call_action :
      (ℕ → ℕ → Veelite A → ℕ × Veelite A) → Option ℕ → ℕ → Veelite A → Option (ℕ × Veelite A)
  call_action invoke none fp v = none
  call_action invoke (some a) fp v = some (invoke a fp v)

  call_action_cases :
      (invoke : ℕ → ℕ → Veelite A → ℕ × Veelite A) (o : Option ℕ) (fp : ℕ) (v : Veelite A) (r : ℕ)
      (v' : Veelite A)
      → call_action invoke o fp v ≡ some (r, v')
      → (a : ℕ) × (v' ≡ (invoke a fp v).1)
  call_action_cases invoke none fp v r v' e = absurd (cc)
  call_action_cases invoke (some a) fp v r v' e = (a, cc)

module _ {A : Type 0} (invoke : ℕ → ℕ → Veelite A → ℕ × Veelite A) where
  abbrev headed : ℕ → ℕ → Veelite A → Veelite A
  headed epoch_s fp v = record v { fsram = close_header epoch_s (v.vlfile fp) v.fsram }

  close_outcome :
      (epoch_s fp : ℕ) (v : Veelite A) (action : ℕ)
      → vworm_read ((v.vlfile fp).header + 10) (close_header epoch_s (v.vlfile fp) v.fsram) ≡ action
      → vl_close invoke epoch_s (some fp) v
        ≡ freed fp (
            acted
              (bit_and (byte 0 action) (u8 (v.vlfile fp).flags) == 0)
              (ltb (action / 256) vlactions)
              (call_action invoke (v.vlaction (action / 256)) fp (headed epoch_s fp v))
              (headed epoch_s fp v))
  unfolding vl_close sub_action
  close_outcome epoch_s fp v action ea =
      elim (Bool-cases (bit_and (byte 0 action) (u8 (v.vlfile fp).flags) == 0)) [
        | inl idle ↦ rw (vl_close, ea, idle) refl
        | inr met ↦ elim (Bool-cases (ltb (action / 256) vlactions)) [
          | inr out ↦ rw (vl_close, ea, met, sub_action, out) refl
          | inl inside ↦ elim (Option-cases (v.vlaction (action / 256))) [
            | inl no_action ↦ rw (vl_close, ea, met, sub_action, inside, no_action) refl
            | inr (a, act) ↦ rw (vl_close, ea, met, sub_action, inside, act) refl
          ]
        ]
      ]

  close-ArePaired :
      (epoch_s : ℕ) (fp : Option ℕ) (r : ℕ) (v v' : Veelite A)
      → ((a i : ℕ) (u : Veelite A) → ArePaired u → ArePaired (invoke a i u).1)
      → vl_close invoke epoch_s fp v ≡ some (r, v')
      → ArePaired v
      → ArePaired v'
  unfolding vl_close
  close-ArePaired epoch_s none r v v' safe e h = keep-ArePaired v v' h (cc)
  close-ArePaired epoch_s (some fp) r v v' safe e h =
      let action =
        vworm_read ((v.vlfile fp).header + 10) (close_header epoch_s (v.vlfile fp) v.fsram) in
      let w = headed epoch_s fp v in
      let o = call_action invoke (v.vlaction (action / 256)) fp w in
      let b = bit_and (byte 0 action) (u8 (v.vlfile fp).flags) == 0 in
      let f =
        freed_cases fp (acted b (ltb (action / 256) vlactions) o w) r v'
          (sym (close_outcome epoch_s fp v action refl) ∙ e) in
      set-ArePaired fp (kill (f.1.vlfile fp)) f.1 v'
        (elim (acted_cases b (ltb (action / 256) vlactions) o w f.0 f.1 f.2) [
          | inl idle ↦ keep-ArePaired w f.1 (headed-ArePaired w refl) idle
          | inr ran ↦
              let c = call_action_cases invoke (v.vlaction (action / 256)) fp w f.0 f.1 ran in
              keep-ArePaired (invoke c.0 fp w).1 f.1 (safe c.0 fp w (headed-ArePaired w refl)) c.1
        ])
        (λ x. refl, λ x. refl) (λ k. ap (λ x. x.vlfile k) f.3)
    where
      headed-ArePaired : (u : Veelite A) → u.vlfile ≡ v.vlfile → ArePaired u
      headed-ArePaired u same =
          unfold ArePaired in (λ k. subst (λ t. IsPaired (t k)) (sym same) (h k))

-- The calls of a program: it opens files, writes, stores and closes them; the action of a close is
-- `invoke`.
module _ {A : Type 0} (g : Guard A) (invoke : ℕ → ℕ → Veelite A → ℕ × Veelite A) where
  pub data Call : Veelite A → Veelite A → Type 0 where
    opens :
        (block_id data_id mode : ℕ) (user : User) (v : Veelite A)
        → Call v (vl_open g block_id data_id mode user v).1
    writes :
        (fp offset word r : ℕ) (v v' : Veelite A)
        → vl_write fp offset word v ≡ some (r, v')
        → Call v v'
    stores :
        (fp len p r : ℕ) (m : Memory) (v v' : Veelite A)
        → vl_store fp len p m v ≡ some (r, v')
        → Call v v'
    closes :
        (epoch_s : ℕ) (fp : Option ℕ) (r : ℕ) (v v' : Veelite A)
        → vl_close invoke epoch_s fp v ≡ some (r, v')
        → Call v v'

  pub data Session : Veelite A → Veelite A → Type 0 where
    begin : (v : Veelite A) → Session v v
    next : (u v w : Veelite A) → Session u v → Call v w → Session u w

module _ {A : Type 0} (g : Guard A) (invoke : ℕ → ℕ → Veelite A → ℕ × Veelite A) where
  Call-ArePaired :
      (v w : Veelite A)
      → ((a i : ℕ) (u : Veelite A) → ArePaired u → ArePaired (invoke a i u).1)
      → Call g invoke v w
      → ArePaired v
      → ArePaired w
  Call-ArePaired v w safe (opens block_id data_id mode user _) h =
      open-ArePaired g block_id data_id mode user v h
  Call-ArePaired v w safe (writes fp offset word r _ _ e) h =
      write-ArePaired fp offset word r v w e h
  Call-ArePaired v w safe (stores fp len p r m _ _ e) h = store-ArePaired fp len p r m v w e h
  Call-ArePaired v w safe (closes epoch_s fp r _ _ e) h =
      close-ArePaired invoke epoch_s fp r v w safe e h

  -- Calls of opening, writing, storing and closing, in any order, keep the files paired, if the
  -- actions do: a file can be read exactly if it can be written.
  pub Session-ArePaired :
      (v w : Veelite A)
      → ((a i : ℕ) (u : Veelite A) → ArePaired u → ArePaired (invoke a i u).1)
      → ArePaired v
      → Session g invoke v w
      → ArePaired w
  Session-ArePaired v w safe h (begin _) = h
  Session-ArePaired v w safe h (next _ u _ before call) =
      Call-ArePaired u w safe call (Session-ArePaired v u safe h before)

  init-ArePaired : (v : Veelite A) → ArePaired (vl_init v).1
  unfolding ArePaired vl_init
  init-ArePaired v k = (λ x. refl, λ x. refl)

  driver_there :
      (o : Option Driver) (addr word : ℕ) (s : Fsram) → o ≢ none → call_write o addr word s ≢ none
  unfolding call_write
  driver_there none addr word s some_driver e = absurd (some_driver refl)
  driver_there (some vworm) addr word s some_driver e = absurd (cc)
  driver_there (some vsram) addr word s some_driver e = absurd (cc)

  outcome-none :
      (refuse : Bool) (o : Option (ℕ × Fsram)) (v : Veelite A) (set : Fsram → Veelite A)
      → outcome refuse o v set ≡ none
      → o ≡ none
  outcome-none true o v set e = absurd (cc)
  outcome-none false none v set e = refl
  outcome-none false (some x) v set e = absurd (cc)

  -- After `vl_init` and any sequence of calls that open, write, store and close, with actions that
  -- keep the files paired, `vl_write` on a file that is open for reading returns: it never calls a
  -- `NULL` pointer.
  pub vl_write-Session :
      (v w : Veelite A) (fp offset word : ℕ)
      → ((a i : ℕ) (u : Veelite A) → ArePaired u → ArePaired (invoke a i u).1)
      → Session g invoke (vl_init v).1 w
      → (w.vlfile fp).read ≢ none
      → vl_write fp offset word w ≢ none
  vl_write-Session v w fp offset word safe s is_open stuck =
      let paired = Session-ArePaired (vl_init v).1 w safe (init-ArePaired v) s in
      let f = w.vlfile fp in
      driver_there f.write (u16 (offset + f.start)) word w.fsram
        (λ no_writer. is_open ((at-ArePaired w fp paired).1 no_writer))
        (outcome-none (leb f.alloc offset)
          (call_write f.write (u16 (offset + f.start)) word w.fsram) w
          (λ x. record w { vlfile = put w.vlfile fp (written f offset); fsram = x })
          (sym (write_outcome fp offset word w) ∙ stuck))
