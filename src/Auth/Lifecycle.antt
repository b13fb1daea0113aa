-- ===== src/Auth/Lifecycle.antt =====
-- Keys of otlib/auth.c over their life: made, found, refreshed, deleted.
use libotfs.Prelude.{
  ℕ, zero, suc, ◌+◌, ◌-◌, ◌^◌, ◌≤◌, ◌<◌, ◌≡◌, ◌∙◌, ◌⊎◌, false, none, some, arith, if◌then◌else◌,
  u32, List, ltb, leb, ap, ◌&&◌,
}
use native.Mathlib.Decide.{dec_lt}
use libotfs.Auth.{
  User, Table, Eax, put, mod_user, make_id64, normal, search_table, matches, min_lifetime,
  num_elements,
}
use libotfs.Auth.Manage.{aes128, auth_create_key, auth_delete_key, shift_down}
use libotfs.Auth.Keys.{
  search_table_sound, search_table_complete, search_table-none, search_table-below,
}

module _ {Ctx : Type 0} (eax : Eax Ctx) where
  -- The table with one more key.
  abbrev with_key : ℕ → ℕ → List ℕ → Table Ctx → Table Ctx
  with_key id64 eol keydata t = record t {
    info = put t.info t.size (record { id = id64; mflags = mod_user; eol = eol });
    ctx = put t.ctx t.size (eax.expand keydata);
    size = t.size + 1;
  }

  create-eq :
      (now out lifetime id64 : ℕ) (keydata : List ℕ) (user : User) (t : Table Ctx)
      → make_id64 user ≡ normal id64
      → min_lifetime ≤ lifetime
      → t.size < num_elements
      → (search_table eax now id64 mod_user t).0 ≡ none
      → auth_create_key eax now (some out) aes128 lifetime (some keydata) user t ≡ (
        0,
        some t.size,
        with_key id64 (u32 (now + lifetime)) keydata (search_table eax now id64 mod_user t).1,
      )
  unfolding auth_create_key
  create-eq now out lifetime id64 keydata user t who long room e =
      let size = (search_table-below eax now id64 mod_user t 0 (omega arith)).1 in
      ground (arith, size, who, e)

  -- A key that was just made is the one that is found for its id until its time is over.
  find-with_key :
      (now later id64 eol : ℕ) (keydata : List ℕ) (t : Table Ctx)
      → 2 ≤ t.size
      → later < eol
      → ((k : ℕ) → 2 ≤ k → k < t.size → matches eax now (t.info k) id64 mod_user ≡ false)
      → (search_table eax later id64 mod_user (with_key id64 eol keydata t)).0 ≡ some t.size
  find-with_key now later id64 eol keydata t two time gone =
      let t1 = with_key id64 eol keydata t in
      let f =
        search_table_complete eax later id64 mod_user t1 t.size two (omega arith) (ground arith)
          (ground arith) in
      let s = search_table_sound eax later id64 mod_user t1 f.0 f.1 in
      elim (dec_lt f.0 t.size) [
        | yes p ↦ absurd (ground (arith, gone f.0 s.0 p, s.2))
        | no p ↦ f.1 ∙ ap some (omega (arith, s.1))
      ]

  created-found :
      (now later lifetime id64 : ℕ) (keydata : List ℕ) (t : Table Ctx)
      → 2 ≤ t.size
      → (search_table eax now id64 mod_user t).0 ≡ none
      → now + lifetime < 2 ^ 32
      → later < now + lifetime
      → let t1 = (search_table eax now id64 mod_user t).1 in
        (search_table eax later id64 mod_user (with_key id64 (u32 (now + lifetime)) keydata t1)).0
        ≡ some t1.size
  created-found now later lifetime id64 keydata t two e fits time =
      let t1 = (search_table eax now id64 mod_user t).1 in
      let size = (search_table-below eax now id64 mod_user t 0 (omega arith)).1 in
      let gone = λ (k : ℕ) (le : 2 ≤ k) (lt : k < t1.size).
        search_table-none eax now id64 mod_user t k (omega arith) e le (omega (arith, size)) in
      find-with_key now later id64 (u32 (now + lifetime)) keydata t1 (omega (arith, size))
        (omega arith) gone

  create_duplicate :
      (later o lifetime id64 j : ℕ) (keydata : List ℕ) (user : User) (t : Table Ctx)
      → make_id64 user ≡ normal id64
      → min_lifetime ≤ lifetime
      → (search_table eax later id64 mod_user t).0 ≡ some j
      → (auth_create_key eax later (some o) aes128 lifetime (some keydata) user t).0 ≡ 254
  unfolding auth_create_key
  create_duplicate later o lifetime id64 j keydata user t who long e = ground (arith, who, e)

  -- A second key for an id is refused while the first one lives.
  pub auth_create_key-twice :
      (now later out o lifetime id64 : ℕ) (keydata : List ℕ) (user : User) (t : Table Ctx)
      → make_id64 user ≡ normal id64
      → min_lifetime ≤ lifetime
      → 2 ≤ t.size
      → t.size < num_elements
      → (search_table eax now id64 mod_user t).0 ≡ none
      → now + lifetime < 2 ^ 32
      → later < now + lifetime
      → let t1 = (auth_create_key eax now (some out) aes128 lifetime (some keydata) user t).2 in
        (auth_create_key eax later (some o) aes128 lifetime (some keydata) user t1).0 ≡ 254
  auth_create_key-twice now later out o lifetime id64 keydata user t who long two room e fits time =
      let t1 = (search_table eax now id64 mod_user t).1 in
      let found = created-found now later lifetime id64 keydata t two e fits time in
      rw (create-eq now out lifetime id64 keydata user t who long room e) (
        create_duplicate later o lifetime id64 t1.size keydata user
          (with_key id64 (u32 (now + lifetime)) keydata t1) who long found)

  -- The shift moves the entries from `i` on one place down, and no others.
  shift_down-lem :
      (now n i k : ℕ) (t : Table Ctx)
      → ((shift_down eax now n i t).size ≡ t.size)
        × ((shift_down eax now n i t).info k
            ≡ (if leb i k && ltb k (i + n) then t.info (k + 1) else t.info k))
        × ((shift_down eax now n i t).ctx k
            ≡ (if leb i k && ltb k (i + n) then t.ctx (k + 1) else t.ctx k))
  unfolding shift_down
  shift_down-lem now zero i k t = ground arith
  shift_down-lem now (suc n) i k t = ground (
    arith,
    shift_down-lem now n (i + 1) k
        (record t { info = put t.info i (t.info (i + 1)); ctx = put t.ctx i (t.ctx (i + 1)) }),
  )

  -- The table as the shift finds it.
  abbrev cleared : ℕ → Table Ctx → Table Ctx
  cleared index t = record t {
    ctx = put t.ctx index eax.wiped;
    info = put t.info index (record (t.info index) { mflags = 128 });
    size = t.size - 1;
  }

  -- `auth_delete_key` of an index behind the local keys takes that entry out: those after it move one
  -- place down, those before it stay, and the table has one key less. Any other index is refused.
  pub auth_delete_key_lem :
      (now index k : ℕ) (t : Table Ctx)
      → k < t.size - 1
      → let (status, t') = auth_delete_key eax now index t in
        ((2 ≤ index)
          × (index < t.size)
          × (status ≡ 0)
          × (t'.size ≡ t.size - 1)
          × (t'.info k ≡ (if ltb k index then t.info k else t.info (k + 1)))
          × (t'.ctx k ≡ (if ltb k index then t.ctx k else t.ctx (k + 1))))
        ⊎ ((index < 2) ⊎ (t.size ≤ index)) × (status ≡ 1) × (t' ≡ t)
  unfolding auth_delete_key
  auth_delete_key_lem now index k t h =
      ground (arith, shift_down-lem now (t.size - 1 - index) index k (cleared index t))
