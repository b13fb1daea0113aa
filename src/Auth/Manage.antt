-- ===== src/Auth/Manage.antt =====
-- The key management of otlib/auth.c, and its nonce. A pointer argument that may be `NULL` is an
-- option. `*key_index` is given back beside the status; where the code does not write it, it is
-- what it was.
use libotfs.Prelude.{
  ℕ, zero, suc, ◌+◌, ◌-◌, Bool, true, false, ◌||◌, ◌&&◌, Option, none, some, List, u32, ltb, leb,
  ◌==◌, if◌then◌else◌,
}
use libotfs.Auth.{
  UserId, User, auth_root, auth_user, auth_guest, mod_user, num_elements, min_lifetime, Table, Eax,
  put, make_id64, normal, search_table, auth_search_user,
}

-- `keytype_t`
pub data KeyType : Type 0 where
  none_key aes128 : KeyType

module _ {Ctx : Type 0} (eax : Eax Ctx) (now : ℕ) where
  -- `sub_add_key`
  unfoldable pub add_key : ℕ → KeyType → ℕ → List ℕ → ℕ → Table Ctx → ℕ × ℕ × Table Ctx
  add_key key_index type lifetime keydata id64 t =
      if ltb t.size num_elements
      then (
        0,
        t.size,
        record t {
          info =
              put t.info t.size
                (record { id = id64; mflags = mod_user; eol = u32 (now + lifetime) });
          ctx = put t.ctx t.size (eax.expand keydata);
          size = t.size + 1;
        },
      )
      else (255, key_index, t)

  unfoldable pub auth_find_keyindex : Option ℕ → User → Table Ctx → ℕ × Option ℕ × Table Ctx
  auth_find_keyindex none user t = (1, none, t)
  auth_find_keyindex (some key_index) user t =
      let (found, t') = auth_search_user eax now user 0x38 t in
      elim found [ none ↦ (255, some key_index, t') | some index ↦ (0, some index, t') ]

  abbrev pub set_eol : ℕ → ℕ → Table Ctx → Table Ctx
  set_eol i eol t = record t { info = put t.info i (record (t.info i) { eol = eol }) }

  unfoldable pub auth_refresh_key : Option ℕ → ℕ → User → Table Ctx → ℕ × Option ℕ × Table Ctx
  unfolding auth_find_keyindex
  auth_refresh_key key_index new_lifetime user t =
      if ltb new_lifetime min_lifetime
      then (3, key_index, t)
      else (let (status, out, t') = auth_find_keyindex key_index user t in
          elim out [
            | none ↦ (status, none, t')
            | some i ↦
                (if status == 0
                  then (status, some i, set_eol i (u32 (now + new_lifetime)) t')
                  else (status, some i, t'))
          ])

  -- The steps 2 and 3 of `auth_create_key`, with the pointers in hand.
  unfoldable pub create_checked : ℕ → KeyType → ℕ → List ℕ → User → Table Ctx → ℕ × ℕ × Table Ctx
  unfolding add_key
  create_checked key_index type lifetime keydata user t = elim (make_id64 user) [
    | normal id64 ↦
        (let (found, t') = search_table eax now id64 mod_user t in
          elim found [
            | none ↦ add_key key_index type lifetime keydata id64 t'
            | some index ↦ (254, key_index, t')
          ])
    | _ ↦ (5, key_index, t)
  ]

  unfoldable pub auth_create_key :
      Option ℕ → KeyType → ℕ → Option (List ℕ) → User → Table Ctx → ℕ × Option ℕ × Table Ctx
  unfolding create_checked
  auth_create_key none type lifetime keydata user t = (1, none, t)
  auth_create_key (some key_index) none_key lifetime keydata user t = (2, some key_index, t)
  auth_create_key (some key_index) aes128 lifetime none user t =
      if ltb lifetime min_lifetime then (3, some key_index, t) else (4, some key_index, t)
  auth_create_key (some key_index) aes128 lifetime (some keydata) user t =
      if ltb lifetime min_lifetime
      then (3, some key_index, t)
      else (let (status, out, t') = create_checked key_index aes128 lifetime keydata user t in
          (status, some out, t'))

  -- The loop that shifts the entries down from `i` on, with `n` of them left.
  unfoldable pub shift_down : ℕ → ℕ → Table Ctx → Table Ctx
  shift_down zero i t = t
  shift_down (suc n) i t =
      shift_down n (i + 1)
        (record t { info = put t.info i (t.info (i + 1)); ctx = put t.ctx i (t.ctx (i + 1)) })

  unfoldable pub auth_delete_key : ℕ → Table Ctx → ℕ × Table Ctx
  unfolding shift_down
  auth_delete_key key_index t = if ltb key_index 2 || leb t.size key_index then (1, t) else (
    0,
    shift_down (t.size - 1 - key_index) key_index (record t {
      ctx = put t.ctx key_index eax.wiped;
      info = put t.info key_index (record (t.info key_index) { mflags = 128 });
      size = t.size - 1;
    }),
  )

-- A key is given by the index of its context, `none` for `NULL`; the first argument tells if there
-- is a place for the answer.
unfoldable pub auth_get_key : {Ctx : Type 0} → Bool → ℕ → Table Ctx → KeyType × Option ℕ
auth_get_key false key_index t = (none_key, none)
auth_get_key true key_index t =
    if ltb key_index t.size && ltb (t.info key_index).mflags 128
    then (aes128, some key_index)
    else (none_key, none)

-- The test as written: an index is refused where it is not above the size.
unfoldable pub auth_get_user : {Ctx : Type 0} → Bool → ℕ → Table Ctx → ℕ × Option (ℕ × ℕ)
auth_get_user false key_index t = (1, none)
auth_get_user true key_index t =
    if leb key_index t.size
    then (2, none)
    else (0, some (if ltb (t.info key_index).id 65536 then 2 else 8, (t.info key_index).id))

unfoldable pub auth_intrinsic_user : ℕ → UserId
auth_intrinsic_user index =
    if index == 0 then auth_root else if index == 1 then auth_user else auth_guest

module _ {Ctx : Type 0} (eax : Eax Ctx) where
  -- `memset` of both tables; the size stays.
  unfoldable pub auth_deinit : Table Ctx → Table Ctx
  auth_deinit t = record t {
    info = λ i. record { id = 0; mflags = 0; eol = 0 };
    ctx = λ i. eax.wiped;
  }

unfoldable pub auth_getnonce : {Ctx : Type 0} → Table Ctx → ℕ × Table Ctx
auth_getnonce t = (u32 (t.nonce + 1), record t { nonce = u32 (t.nonce + 1) })
