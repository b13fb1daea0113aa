-- ===== src/Auth.antt =====
-- otlib/auth.c in the static configuration: the table of keys `dlls_info` and `dlls_ctx` with
-- AUTH_NUM_ELEMENTS = 3 places (0 and 1 are the local root and user), the check of a request
-- against it and the calls that change it. What `time_get_utc` returns is the argument `now`. An
-- index is an option: `none` is a negative `ot_int`. Contexts and their expansion belong to OTEAX,
-- and are parameters.
pub mod Access
pub mod Keys
pub mod Lifecycle
pub mod Manage
pub mod Crypto
pub mod Driver
use libotfs.Prelude.{
  ℕ, zero, suc, ◌+◌, ◌-◌, ◌*◌, ◌/◌, ◌%◌, ◌^◌, Bool, true, false, ◌&&◌, not, Option, none, some,
  List, [], ◌∷◌, bit_and, bit_or, ltb, leb, ◌==◌, if◌then◌else◌,
}

-- A `const id_tmpl*` that is not `NULL`: one of the three aliases, or a length with its bytes.
pub data UserId : Type 0 where
  auth_root auth_user auth_guest : UserId
  template : ℕ → List ℕ → UserId

abbrev pub User : Type 0
User = Option UserId

-- `authmod_t`
abbrev pub mod_guest : ℕ
mod_guest = 0

abbrev pub mod_user : ℕ
mod_user = 7

abbrev pub mod_root : ℕ
mod_root = 56

-- `authinfo_t`
pub record AuthInfo : Type 0 where
  pub id : ℕ
  pub mflags : ℕ
  pub eol : ℕ

-- AUTH_NUM_ELEMENTS and AUTH_MIN_LIFETIME
abbrev pub num_elements : ℕ
num_elements = 3

abbrev pub min_lifetime : ℕ
min_lifetime = 3600

-- `dlls_info`, `dlls_ctx`, `dlls_size` and `dlls_nonce`
pub record Table (Ctx : Type 0) : Type 0 where
  pub info : ℕ → AuthInfo
  pub ctx : ℕ → Ctx
  pub size : ℕ
  pub nonce : ℕ

-- What the table takes from OTEAX: a wiped context, and `EAXdrv_init`.
pub record Eax (Ctx : Type 0) : Type 0 where
  pub wiped : Ctx
  pub expand : List ℕ → Ctx

abbrev pub put {ℓ} : {A : Type ℓ} → (ℕ → A) → ℕ → A → ℕ → A
put f i v j = if i == j then v else f j

-- `idclass_t` with the 64-bit id of a normal user.
pub data IdClass : Type 0 where
  local_guest local_root local_user : IdClass
  normal : ℕ → IdClass

-- The cases of the switch, which fall through: byte after byte goes below those before it.
unfoldable pub or_bytes : ℕ → List ℕ → ℕ → ℕ
or_bytes zero bs acc = acc
or_bytes (suc n) [] acc = acc
or_bytes (suc n) (b ∷ bs) acc = or_bytes n bs (bit_or acc (b * 256 ^ n))

unfoldable pub id64_of : ℕ → List ℕ → ℕ
unfolding or_bytes
id64_of length value = if ltb 8 length then 0 else or_bytes length value 0

unfoldable pub make_id64 : User → IdClass
unfolding id64_of
make_id64 none = local_root
make_id64 (some auth_root) = local_root
make_id64 (some auth_user) = local_user
make_id64 (some auth_guest) = local_guest
make_id64 (some (template length value)) = normal (id64_of length value)

module _ {Ctx : Type 0} (eax : Eax Ctx) (now : ℕ) where
  -- The key at `i` is the one that is looked for, and its time is over.
  abbrev pub matches : AuthInfo → ℕ → ℕ → Bool
  matches e id64 reqmod = id64 == e.id && leb reqmod (bit_and e.mflags 0x3F)

  abbrev pub expired : AuthInfo → Bool
  expired e = not (e.eol == 0) && leb e.eol now

  abbrev pub wipe : ℕ → Table Ctx → Table Ctx
  wipe i t = record t {
    ctx = put t.ctx i eax.wiped;
    info = put t.info i (record (t.info i) { mflags = mod_guest });
  }

  -- The linear search from `i` on, with `n` places left.
  unfoldable pub search_from : ℕ → ℕ → ℕ → ℕ → Table Ctx → Option ℕ × Table Ctx
  search_from zero i id64 reqmod t = (none, t)
  search_from (suc n) i id64 reqmod t =
      let later = search_from n (i + 1) id64 reqmod t in
      let wiped = search_from n (i + 1) id64 reqmod (wipe i t) in
      if matches (t.info i) id64 reqmod
      then (if expired (t.info i) then wiped else (some i, t))
      else later

  -- `sub_search_user`
  unfoldable pub search_table : ℕ → ℕ → Table Ctx → Option ℕ × Table Ctx
  unfolding search_from
  search_table id64 reqmod t = search_from (t.size - 2) 2 id64 reqmod t

  -- `req_mod` in the table's terms.
  abbrev pub auth_mod : ℕ → ℕ
  auth_mod req_mod = if req_mod == 0 then mod_root else req_mod / 8 % 8

  unfoldable pub auth_search_user : User → ℕ → Table Ctx → Option ℕ × Table Ctx
  unfolding make_id64 search_table
  auth_search_user user req_mod t =
      let m = auth_mod req_mod in
      if m == mod_guest then (none, t) else (elim (make_id64 user) [
        | local_guest ↦ (none, t)
        | local_root ↦ (if m == mod_user then (none, t) else (some 0, t))
        | local_user ↦ (if m == mod_root then (none, t) else (some 1, t))
        | normal id64 ↦ search_table id64 m t
      ])

  -- `sub_ismask`, `auth_isroot` and `auth_isuser`
  unfoldable pub ismask : User → ℕ → Table Ctx → Bool × Table Ctx
  unfolding auth_search_user
  ismask none authmask t = (true, t)
  ismask (some user) authmask t =
      let (found, t') = auth_search_user (some user) authmask t in
      (elim found [ none ↦ false | some i ↦ true ], t')

  unfoldable pub auth_isroot : User → Table Ctx → Bool × Table Ctx
  unfolding ismask
  auth_isroot user t = ismask user 0x00 t

  unfoldable pub auth_isuser : User → Table Ctx → Bool × Table Ctx
  unfolding ismask
  auth_isuser user t = ismask user 0x38 t

  -- What a user at index `i` gets from the bits that passed the mask.
  abbrev pub grant : ℕ → ℕ → ℕ → Table Ctx → ℕ
  grant i test rw_mod t = if ltb i t.size && (t.info i).mflags == mod_root then rw_mod else test

  unfoldable pub auth_check : ℕ → ℕ → User → Table Ctx → ℕ × Table Ctx
  auth_check req_mod rw_mod user t =
      let test = bit_and req_mod rw_mod in
      let guest_test = bit_and test 0x07 in
      if not (guest_test == 0)
      then (guest_test, t)
      else (let (found, t') = auth_search_user user req_mod t in
          (elim found [ none ↦ 0 | some i ↦ grant i test rw_mod t' ], t'))
