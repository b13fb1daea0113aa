-- ===== src/Auth/Access.antt =====
-- `auth_check` of otlib/auth.c: what a request of each kind of user comes to.
use libotfs.Prelude.{
  ℕ, ◌/◌, ◌%◌, ◌<◌, ◌≡◌, ◌≢◌, ◌⊎◌, ◌↔◌, refl, true, false, none, some, arith, inl, inr, Bool-cases,
  Option-cases, ◌==◌, bit_and,
}
use libotfs.Auth.{
  User, auth_root, auth_user, auth_guest, Table, Eax, mod_root, make_id64, auth_search_user,
  auth_check, auth_isuser, auth_isroot, matches, auth_mod, search_table, normal,
}
use libotfs.Auth.Keys.{search_table_sound}

module _ {Ctx : Type 0} (eax : Eax Ctx) (now : ℕ) where
  -- A local guest gets exactly the guest bits that the file and the request share.
  pub auth_check_guest :
      (req_mod rw_mod : ℕ) (t : Table Ctx)
      → auth_check eax now req_mod rw_mod (some auth_guest) t
        ≡ (bit_and (bit_and req_mod rw_mod) 7, t)
  unfolding auth_check auth_search_user
  auth_check_guest req_mod rw_mod t = ground arith

  -- Where the table holds a root key at its first place, a request of the root, by `NULL` or its
  -- alias, for some access is refused exactly if the guest bits do not grant it and the file has a
  -- mode, not 0, whose user bits are all clear or all set.
  pub auth_check_root :
      (req_mod rw_mod : ℕ) (user : User) (t : Table Ctx)
      → (user ≡ none) ⊎ (user ≡ some auth_root)
      → 0 < t.size
      → (t.info 0).mflags ≡ mod_root
      → rw_mod ≢ 0
      → ((auth_check eax now req_mod rw_mod user t).0 ≡ 0) ↔ (
          (bit_and (bit_and req_mod rw_mod) 7 ≡ 0)
          × (req_mod ≢ 0)
          × ((req_mod / 8 % 8 ≡ 0) ⊎ (req_mod / 8 % 8 ≡ 7)))
  unfolding auth_check auth_search_user
  auth_check_root req_mod rw_mod user t who one root some_bits = ground arith

  -- A request of the local user is refused exactly if the guest bits do not grant it and the file is
  -- the root's, has no user bits, or shares none with the request; else it gets shared bits.
  pub auth_check_user :
      (req_mod rw_mod : ℕ) (t : Table Ctx)
      → (t.info 1).mflags ≢ mod_root
      → let r = (auth_check eax now req_mod rw_mod (some auth_user) t).0 in
        let test = bit_and req_mod rw_mod in
        ((r ≡ 0) ↔ ((bit_and test 7 ≡ 0) × ((req_mod ≡ 0) ⊎ (req_mod / 8 % 8 ≡ 0) ⊎ (test ≡ 0))))
        × ((r ≡ 0) ⊎ (r ≡ test) ⊎ (r ≡ bit_and test 7))
  unfolding auth_check auth_search_user
  auth_check_user req_mod rw_mod t plain = ground arith

  search_user_none :
      (req_mod id64 : ℕ) (user : User) (t : Table Ctx)
      → make_id64 user ≡ normal id64
      → (search_table eax now id64 (auth_mod eax now req_mod) t).0 ≡ none
      → (auth_search_user eax now user req_mod t).0 ≡ none
  unfolding auth_search_user
  search_user_none req_mod id64 user t who e = elim (Bool-cases (auth_mod eax now req_mod == 0)) [
    | inl guest ↦ rw guest
    | inr other ↦ rw (other, who) e
  ]

  auth_check-none :
      (req_mod rw_mod : ℕ) (user : User) (t : Table Ctx)
      → (auth_search_user eax now user req_mod t).0 ≡ none
      → (auth_check eax now req_mod rw_mod user t).0 ≡ bit_and (bit_and req_mod rw_mod) 7
  unfolding auth_check
  auth_check-none req_mod rw_mod user t e =
      elim (Bool-cases (bit_and (bit_and req_mod rw_mod) 7 == 0)) [
        | inl z ↦ rw (z, e) (ground arith)
        | inr nz ↦ rw nz
      ]

  -- An id for which no entry of the table fits the mode gets the guest bits only.
  auth_check_stranger :
      (req_mod rw_mod id64 : ℕ) (user : User) (t : Table Ctx)
      → make_id64 user ≡ normal id64
      → ((k : ℕ) → matches eax now (t.info k) id64 (auth_mod eax now req_mod) ≡ false)
      → (auth_check eax now req_mod rw_mod user t).0 ≡ bit_and (bit_and req_mod rw_mod) 7
  unfolding auth_check auth_search_user
  auth_check_stranger req_mod rw_mod id64 user t who none_fits =
      elim (Option-cases (search_table eax now id64 (auth_mod eax now req_mod) t).0) [
        | inl e ↦ auth_check-none req_mod rw_mod user t (search_user_none req_mod id64 user t who e)
        | inr (j, e) ↦
            let s = search_table_sound eax now id64 (auth_mod eax now req_mod) t j e in
            absurd (ground (arith, s.2, none_fits j))
      ]

  -- The local root is not taken for a user by `auth_isuser`, but `NULL` is.
  auth_isuser_root :
      (t : Table Ctx)
      → (auth_isuser eax now (some auth_root) t ≡ (false, t))
        × (auth_isuser eax now none t ≡ (true, t))
        × (auth_isroot eax now (some auth_root) t ≡ (true, t))
  unfolding auth_isuser auth_isroot
  auth_isuser_root t = (refl, refl, refl)
