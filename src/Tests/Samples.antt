-- ===== src/Tests/Samples.antt =====
-- A table of keys and a small filesystem for the runs of otlib/auth.c and otlib/veelite.c.
use libotfs.Prelude.{ℕ, some, none, [], ◌∷◌, ◌==◌, if◌then◌else◌, length}
use libotfs.Auth.{User, template, Table, Eax, AuthInfo, mod_root, mod_user}
use libotfs.Memory.{Memory}
use libotfs.Vworm.{Fsram, vworm}
use libotfs.Veelite.{Veelite, VlFile, no_file, Guard, auth_guard, header_start}

abbrev pub eax : Eax ℕ
eax = record { wiped = 0; expand = length }

-- The user 0x0201, and one that has no key.
abbrev pub alice : User
alice = some (template 2 (2 ∷ 1 ∷ []))

abbrev pub bob : User
bob = some (template 1 (9 ∷ []))

-- The local keys, and with three places the key of `alice` until 5000.
abbrev pub entry : ℕ → AuthInfo
entry i =
    if i == 0
    then (record { id = 0; mflags = mod_root; eol = 0 })
    else if i == 1
    then (record { id = 1; mflags = mod_user; eol = 0 })
    else (record { id = 0x0201; mflags = mod_user; eol = 5000 })

abbrev pub keys : ℕ → Table ℕ
keys size = record { info = entry; ctx = λ i. i; size = size; nonce = 1 }

-- One GFB file with ID 0 at 64, whose header has this action.
abbrev pub disk : ℕ → Fsram
disk action x =
    if x == 5
    then 1
    else if x == 16
    then 4
    else if x == 17
    then 8
    else if x == 18
    then 0x3F00
    else if x == 19
    then 64
    else if x == 20
    then 0xFFFF
    else if x == 21
    then action
    else 0

abbrev pub the_file : VlFile
the_file = record {
  header = header_start;
  start = 64;
  alloc = 8;
  idmod = 0x3F00;
  length = 4;
  flags = 1;
  read = some vworm;
  write = some vworm;
}

-- The file is open as file pointer 0.
abbrev pub volume : ℕ → Veelite (Table ℕ)
volume action = record {
  fsram = disk action;
  vlfile = λ fd. if fd == 0 then the_file else no_file;
  vlaction = λ i. if i == 0 then some 9 else none;
  vlaction_users = λ i. if i == 0 then 1 else 0;
  auth = keys 3;
}

abbrev pub guard : Guard (Table ℕ)
guard = auth_guard eax 100

abbrev pub invoke : ℕ → ℕ → Veelite (Table ℕ) → ℕ × Veelite (Table ℕ)
invoke a fp v = (a, v)

abbrev pub buffer : Memory
buffer x = if x == 500 then 0x11 else if x == 501 then 0x22 else if x == 502 then 0x33 else 0
