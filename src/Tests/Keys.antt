-- ===== src/Tests/Keys.antt =====
-- Runs of otlib/auth.c.
use libotfs.Prelude.{
  ℕ, ◌+◌, ◌-◌, ◌/◌, ◌%◌, ◌≤◌, ◌<◌, ◌≡◌, ◌≢◌, ◌⊎◌, ◌↔◌, inl, refl, true, false, some, none, arith,
  bit_and, ltb, if◌then◌else◌,
}
use libotfs.Auth.{matches, expired, search_from, search_table, auth_check}
use libotfs.Auth.Manage.{auth_delete_key}
use libotfs.Auth.Keys.{search_table_sound, search_table_complete}
use libotfs.Auth.Access.{auth_check_root}
use libotfs.Auth.Lifecycle.{auth_delete_key_lem}
use libotfs.Tests.Samples.{eax, keys}

search_table_sound_example :
    (2 ≤ 2)
    × (2 < 3)
    × (matches eax 100 ((keys 3).info 2) 0x0201 7 ≡ true)
    × (expired eax 100 ((keys 3).info 2) ≡ false)
    × ((search_table eax 100 0x0201 7 (keys 3)).1.info 2 ≡ (keys 3).info 2)
unfolding search_table search_from
search_table_sound_example = search_table_sound eax 100 0x0201 7 (keys 3) 2 refl

search_table_complete_example : (j : ℕ) × ((search_table eax 100 0x0201 7 (keys 3)).0 ≡ some j)
search_table_complete_example =
    search_table_complete eax 100 0x0201 7 (keys 3) 2 (omega arith) (omega arith) refl refl

abbrev user_bits : ℕ
user_bits = 0x38

abbrev user_read : ℕ
user_read = 0x20

auth_check_root_example : ((auth_check eax 100 user_bits 0x12 none (keys 3)).0 ≡ 0) ↔ (
    (bit_and (bit_and user_bits 0x12) 7 ≡ 0)
    × (user_bits ≢ 0)
    × ((user_bits / 8 % 8 ≡ 0) ⊎ (user_bits / 8 % 8 ≡ 7)))
auth_check_root_example =
    auth_check_root eax 100 user_bits 0x12 none (keys 3) (inl refl) (omega arith) refl
      (ground arith)

auth_delete_key_lem_example :
    let (status, t') = auth_delete_key eax 100 2 (keys 3) in
    ((2 ≤ 2)
      × (2 < 3)
      × (status ≡ 0)
      × (t'.size ≡ 3 - 1)
      × (t'.info 1 ≡ (if ltb 1 2 then (keys 3).info 1 else (keys 3).info (1 + 1)))
      × (t'.ctx 1 ≡ (if ltb 1 2 then (keys 3).ctx 1 else (keys 3).ctx (1 + 1))))
    ⊎ ((2 < 2) ⊎ (3 ≤ 2)) × (status ≡ 1) × (t' ≡ keys 3)
auth_delete_key_lem_example = auth_delete_key_lem eax 100 2 1 (keys 3) (omega arith)
