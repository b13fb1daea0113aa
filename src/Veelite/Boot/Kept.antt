-- ===== src/Veelite/Boot/Kept.antt =====
-- `auth_init` of otlib/auth.c: what it leaves in the table of keys.
use libotfs.Prelude.{
  ℕ, ◌+◌, ◌/◌, ◌≤◌, ◌≡◌, ◌≢◌, ◌∙◌, ◌⊎◌, inl, inr, refl, sym, ap, Bool, true, false, Option, none,
  some, u8, byte, bit_and, ltb, ◌==◌, if◌then◌else◌, arith, Option-cases, Bool-cases,
}
use mathlib.Core.Path.{subst}
use mathlib.Core.Option.{some-injective}
use libotfs.Memory.{Memory}
use libotfs.Vworm.{vworm_read}
use libotfs.Auth.{Table, mod_root, mod_user}
use libotfs.Veelite.{
  Veelite, Guard, vl_open, vl_getheader_vaddr, vl_open_file, vl_access_su, null_vaddr, vlactions,
}
use libotfs.Veelite.Data.{vl_load, vl_close, isf_open_su, sub_action, close_header, kill, with_file}
use libotfs.Veelite.Open.{open_file_cases}
use libotfs.Veelite.Boot.{
  Boot, kfile_bytes, set_key, after_close, after_load, second_key, with_two, use_file, load_key,
  auth_init,
}

same_auth :
    {A X : Type 0} (x x' : X) (v v' : Veelite A)
    → ◌≡◌ {A = Option (X × Veelite A)} (some (x, v)) (some (x', v'))
    → v.auth ≡ v'.auth
same_auth x x' v v' e = ap (λ r. r.1.auth) (some-injective (x, v) (x', v') e)

module _ {A : Type 0} (g : Guard A) where
  open_file_auth : (h : ℕ) (v : Veelite A) → (vl_open_file h v).1.auth ≡ v.auth
  open_file_auth h v = elim (open_file_cases g h v) [
    | inl (e, r) ↦ ap (λ x. x.1.auth) r
    | inr (i, e, r) ↦ ap (λ x. x.1.auth) r
  ]

  getheader_auth :
      (header block_id id mode : ℕ) (v : Veelite A)
      → (vl_getheader_vaddr g header block_id id mode none v).2.auth ≡ v.auth
  unfolding vl_getheader_vaddr
  getheader_auth header block_id id mode v = ground arith

  open_auth : (id : ℕ) (v : Veelite A) → (isf_open_su g id v).1.auth ≡ v.auth
  unfolding isf_open_su vl_open
  open_auth id v =
      let r = vl_getheader_vaddr g null_vaddr 3 id vl_access_su none v in
      ground (arith, getheader_auth null_vaddr 3 id vl_access_su v, open_file_auth r.1 r.2)

module _ {A : Type 0} (invoke : ℕ → ℕ → Veelite A → ℕ × Veelite A)
    (kept : (a fp : ℕ) (v : Veelite A) → (invoke a fp v).1.auth ≡ v.auth) where
  picked :
      (t : Bool) (o : Option ℕ) (fp r : ℕ) (v v' : Veelite A)
      → (if t then elim o [ none ↦ none | some a ↦ some (invoke a fp v) ] else some (0, v))
        ≡ some (r, v')
      → v'.auth ≡ v.auth
  picked false o fp r v v' e = sym (same_auth 0 r v v' e)
  picked true none fp r v v' e = absurd (cc)
  picked true (some a) fp r v v' e =
      sym (same_auth (invoke a fp v).0 r (invoke a fp v).1 v' e) ∙ kept a fp v

  action_auth :
      (fp r : ℕ) (v v' : Veelite A) → sub_action invoke fp v ≡ some (r, v') → v'.auth ≡ v.auth
  unfolding sub_action
  action_auth fp r v v' e =
      let select = vworm_read ((v.vlfile fp).header + 10) v.fsram / 256 in
      picked (ltb select vlactions) (v.vlaction select) fp r v v' e

  -- The end of `vl_close`, behind what the action gave.
  closed :
      (o : Option (ℕ × Veelite A)) (fp r : ℕ) (v v' : Veelite A)
      → ((r2 : ℕ) (v2 : Veelite A) → o ≡ some (r2, v2) → v2.auth ≡ v.auth)
      → ◌≡◌ {A = Option (ℕ × Veelite A)}
          (elim o [
            | none ↦ none
            | some (r2, v2) ↦ some (r2, with_file v2 fp (kill (v2.vlfile fp)))
          ])
          (some (r, v'))
      → v'.auth ≡ v.auth
  closed none fp r v v' same e = absurd (cc)
  closed (some (r2, v2)) fp r v v' same e =
      sym (same_auth r2 r (with_file v2 fp (kill (v2.vlfile fp))) v' e) ∙ same r2 v2 refl

  acted :
      (t : Bool) (fp r : ℕ) (v v' : Veelite A)
      → (if t then some (0, v) else sub_action invoke fp v) ≡ some (r, v')
      → v'.auth ≡ v.auth
  acted true fp r v v' e = sym (same_auth 0 r v v' e)
  acted false fp r v v' e = action_auth fp r v v' e

  close_auth :
      (epoch_s fp r : ℕ) (v v' : Veelite A)
      → vl_close invoke epoch_s (some fp) v ≡ some (r, v')
      → v'.auth ≡ v.auth
  unfolding vl_close
  close_auth epoch_s fp r v v' e =
      let f = v.vlfile fp in
      let v1 : Veelite A = record v { fsram = close_header epoch_s f v.fsram } in
      let t = bit_and (byte 0 (vworm_read (f.header + 10) v1.fsram)) (u8 f.flags) == 0 in
      closed (if t then some (0, v1) else sub_action invoke fp v1) fp r v v'
        (λ r2 v2 e2. acted t fp r2 v1 v2 e2) e

module _ {Ctx : Type 0} (b : Boot Ctx)
    (kept : (a fp : ℕ) (v : Veelite (Table Ctx)) → (b.invoke a fp v).1.auth ≡ v.auth) where
  -- The table after the turn for the place `i`: that place is as before, or it has the key of its
  -- file.
  abbrev Loaded : ℕ → Table Ctx → Table Ctx → Type 0
  Loaded i t t' = (t' ≡ t) ⊎ (m : Memory) × (t' ≡ set_key b i m t)

  after_close-Loaded :
      (i fp : ℕ) (m m' : Memory) (v v' : Veelite (Table Ctx)) (o : Option (ℕ × Veelite (Table Ctx)))
      → vl_close b.invoke b.epoch_s (some fp) (record v { auth = set_key b i m v.auth }) ≡ o
      → after_close b m o ≡ some (m', v')
      → Loaded i v.auth v'.auth
  after_close-Loaded i fp m m' v v' none same e = absurd (cc)
  after_close-Loaded i fp m m' v v' (some (r, w)) same e = inr (
    m,
    sym (same_auth m m' w v' e)
        ∙ close_auth b.invoke kept b.epoch_s fp r (record v { auth = set_key b i m v.auth }) w same,
  )

  after_load-Loaded :
      (i fp : ℕ) (m' : Memory) (v v' : Veelite (Table Ctx)) (o : Option (ℕ × Memory))
      → after_load b i fp v o ≡ some (m', v')
      → Loaded i v.auth v'.auth
  after_load-Loaded i fp m' v v' none e = absurd (cc)
  after_load-Loaded i fp m' v v' (some (n, m)) e = after_close-Loaded i fp m m' v v' _ refl e

  use_file-Loaded :
      (i : ℕ) (m m' : Memory) (fp : Option ℕ) (v v' : Veelite (Table Ctx))
      → use_file b i m (fp, v) ≡ some (m', v')
      → Loaded i v.auth v'.auth
  unfolding use_file
  use_file-Loaded i m m' none v v' e = inl (sym (same_auth m m' v v' e))
  use_file-Loaded i m m' (some fp) v v' e =
      after_load-Loaded i fp m' v v' (vl_load b.scratch fp kfile_bytes b.kfile m v) e

  load_key-Loaded :
      (i : ℕ) (m m' : Memory) (v v' : Veelite (Table Ctx))
      → load_key b i m v ≡ some (m', v')
      → Loaded i v.auth v'.auth
  unfolding load_key
  load_key-Loaded i m m' v v' e =
      let (fp, v1) = isf_open_su b.guard (u8 (i + b.root_key_id)) v in
      subst (λ t. Loaded i t v'.auth) (open_auth b.guard (u8 (i + b.root_key_id)) v)
        (use_file-Loaded i m m' fp v1 v' e)

  both-Loaded :
      (v v' : Veelite (Table Ctx)) (o : Option (Memory × Veelite (Table Ctx)))
      → ((m1 : Memory) (v1 : Veelite (Table Ctx)) → o ≡ some (m1, v1) → Loaded 0 v.auth v1.auth)
      → second_key b o ≡ some v'
      → (t : Table Ctx) × Loaded 0 v.auth t × Loaded 1 t v'.auth
  both-Loaded v v' none first e = absurd (cc)
  both-Loaded v v' (some (m1, v1)) first e = elim (Option-cases (load_key b 1 m1 v1)) [
    | inl stuck ↦ absurd (ground (arith, stuck, e))
    | inr ((m2, v2), done) ↦ (
      v1.auth,
      first m1 v1 refl,
      subst (λ (w : Veelite (Table Ctx)). Loaded 1 v1.auth w.auth) (last m1 v1 m2 v2 done e)
          (load_key-Loaded 1 m1 m2 v1 v2 done),
    )
  ]
    where
      last :
          (m1 : Memory) (v1 : Veelite (Table Ctx)) (m2 : Memory) (v2 : Veelite (Table Ctx))
          → load_key b 1 m1 v1 ≡ some (m2, v2)
          → second_key b (some (m1, v1)) ≡ some v'
          → v2 ≡ v'
      last m1 v1 m2 v2 done e = ground (arith, done, e)

  Loaded-size : (i : ℕ) (t t' : Table Ctx) → Loaded i t t' → t'.size ≡ t.size
  Loaded-size i t t' (inl e) = ap (λ x. x.size) e
  Loaded-size i t t' (inr (m, e)) = ap (λ x. x.size) e

  Loaded-other :
      (i j : ℕ) (t t' : Table Ctx)
      → Loaded i t t'
      → j ≢ i
      → (t'.info j ≡ t.info j) × (t'.ctx j ≡ t.ctx j)
  Loaded-other i j t t' (inl e) other = (ap (λ x. x.info j) e, ap (λ x. x.ctx j) e)
  Loaded-other i j t t' (inr (m, e)) other =
      (ap (λ x. x.info j) e ∙ ground (arith, other), ap (λ x. x.ctx j) e ∙ ground (arith, other))

  Loaded-here :
      (i : ℕ) (t t' : Table Ctx)
      → Loaded i t t'
      → (t'.info i ≡ t.info i)
        ⊎ ((t'.info i).id ≡ i) × ((t'.info i).mflags ≡ (if i == 0 then mod_root else mod_user))
  Loaded-here i t t' (inl e) = inl (ap (λ x. x.info i) e)
  Loaded-here i t t' (inr (m, e)) =
      inr (ap (λ x. (x.info i).id) e ∙ ground arith, ap (λ x. (x.info i).mflags) e ∙ ground arith)

  with_two_lem :
      (v : Veelite (Table Ctx))
      → ((with_two b v).auth.info ≡ v.auth.info)
        × ((with_two b v).auth.ctx ≡ v.auth.ctx)
        × ((with_two b v).auth.size ≡ (if ltb v.auth.size 2 then 2 else v.auth.size))
  with_two_lem v = elim (Bool-cases (ltb v.auth.size 2)) [
    | inl e ↦ (rw e refl, rw e refl, rw e refl)
    | inr e ↦ (rw e refl, rw e refl, rw e refl)
  ]

  -- `auth_init` that returns, where the actions of files leave the keys alone: the table has two
  -- places or those that it had, every key behind the first two is as before, and at each of the
  -- first two is what was there or a key of the local root, of the local user.
  pub auth_init_keeps :
      (i : ℕ) (m : Memory) (v v' : Veelite (Table Ctx))
      → 2 ≤ i
      → auth_init b m v ≡ some v'
      → (v'.auth.size ≡ (if ltb v.auth.size 2 then 2 else v.auth.size))
        × (v'.auth.info i ≡ v.auth.info i)
        × (v'.auth.ctx i ≡ v.auth.ctx i)
        × ((v'.auth.info 0 ≡ v.auth.info 0)
            ⊎ ((v'.auth.info 0).id ≡ 0) × ((v'.auth.info 0).mflags ≡ mod_root))
        × ((v'.auth.info 1 ≡ v.auth.info 1)
            ⊎ ((v'.auth.info 1).id ≡ 1) × ((v'.auth.info 1).mflags ≡ mod_user))
  unfolding auth_init
  auth_init_keeps i m v v' behind e =
      let (t, first, second) =
        both-Loaded (with_two b v) v' (load_key b 0 m (with_two b v))
          (λ m1 v1 done. load_key-Loaded 0 m m1 (with_two b v) v1 done) e in
      let (info, ctx, size) = with_two_lem v in
      let t0 = (with_two b v).auth in
      let far = Loaded-other 1 i t v'.auth second (omega arith) in
      let near = Loaded-other 0 i t0 t first (omega arith) in
      let root = Loaded-other 1 0 t v'.auth second (omega arith) in
      let user = Loaded-other 0 1 t0 t first (omega arith) in
      (
        Loaded-size 1 t v'.auth second ∙ Loaded-size 0 t0 t first ∙ size,
        far.0 ∙ near.0 ∙ ap (λ f. f i) info,
        far.1 ∙ near.1 ∙ ap (λ f. f i) ctx,
        elim (Loaded-here 0 t0 t first) [
          | inl e ↦ inl (root.0 ∙ e ∙ ap (λ f. f 0) info)
          | inr (e, f) ↦ inr (ap (λ x. x.id) root.0 ∙ e, ap (λ x. x.mflags) root.0 ∙ f)
        ],
        elim (Loaded-here 1 t v'.auth second) [
          | inl e ↦ inl (e ∙ user.0 ∙ ap (λ f. f 1) info)
          | inr e ↦ inr e
        ],
      )
