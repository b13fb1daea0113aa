-- ===== src/Veelite/Boot.antt =====
-- `auth_init` of otlib/auth.c: the two local keys are read from files of the filesystem.
pub mod Kept
use libotfs.Prelude.{ℕ, ◌+◌, ◌*◌, Option, none, some, u8, ltb, ◌==◌, if◌then◌else◌}
use mathlib.Core.Option
use libotfs.Memory.{Memory, bytes}
use libotfs.Auth.{Table, Eax, mod_root, mod_user}
use libotfs.Auth
use libotfs.Veelite.{Veelite, Guard}
use libotfs.Veelite.Data.{vl_load, vl_close, isf_open_su}

-- What the call depends on: the check, the actions, what `time_get_utc` and `rand_prn32` return,
-- the ID of the first key file, and where the stack has the variable `kfile` and what the variable
-- `scratch` of `vl_load` holds at first.
pub record Boot (Ctx : Type 0) : Type 0 where
  pub eax : Eax Ctx
  pub guard : Guard (Table Ctx)
  pub invoke : ℕ → ℕ → Veelite (Table Ctx) → ℕ × Veelite (Table Ctx)
  pub epoch_s : ℕ
  pub prn : ℕ
  pub root_key_id : ℕ
  pub kfile : ℕ
  pub scratch : ℕ

-- _KFILE_BYTES
abbrev pub kfile_bytes : ℕ
kfile_bytes = 2 + 4 + 16

module _ {Ctx : Type 0} (b : Boot Ctx) where
  -- The key that is in `kfile`, at the place `i`.
  abbrev pub set_key : ℕ → Memory → Table Ctx → Table Ctx
  set_key i m t = record t {
    info = Auth.put t.info i (record {
      id = i;
      mflags = if i == 0 then mod_root else mod_user;
      eol =
          m (b.kfile + 2)
          + 256 * m (b.kfile + 3)
          + 65536 * m (b.kfile + 4)
          + 16777216 * m (b.kfile + 5);
    });
    ctx = Auth.put t.ctx i (b.eax.expand (bytes m (b.kfile + 6) 16));
  }

  abbrev pub after_close :
      Memory → Option (ℕ × Veelite (Table Ctx)) → Option (Memory × Veelite (Table Ctx))
  after_close m none = none
  after_close m (some (r, v)) = some (m, v)

  abbrev pub after_load :
      ℕ → ℕ → Veelite (Table Ctx) → Option (ℕ × Memory) → Option (Memory × Veelite (Table Ctx))
  after_load i fp v none = none
  after_load i fp v (some (n, m)) =
      after_close m (vl_close b.invoke b.epoch_s (some fp) (record v { auth = set_key i m v.auth }))

  -- What is done with the file that was opened, and the stack that it leaves; `none` is a call that
  -- does not return.
  unfoldable pub use_file :
      ℕ → Memory → Option ℕ × Veelite (Table Ctx) → Option (Memory × Veelite (Table Ctx))
  use_file i m (none, v) = some (m, v)
  use_file i m (some fp, v) = after_load i fp v (vl_load b.scratch fp kfile_bytes b.kfile m v)

  -- A turn of the loop.
  unfoldable pub load_key : ℕ → Memory → Veelite (Table Ctx) → Option (Memory × Veelite (Table Ctx))
  load_key i m v = use_file i m (isf_open_su b.guard (u8 (i + b.root_key_id)) v)

  abbrev pub second_key : Option (Memory × Veelite (Table Ctx)) → Option (Veelite (Table Ctx))
  second_key none = none
  second_key (some (m, v)) = Option.map (λ r. r.1) (load_key 1 m v)

  abbrev pub with_two : Veelite (Table Ctx) → Veelite (Table Ctx)
  with_two v =
      if ltb v.auth.size 2 then record v { auth = record v.auth { size = 2; nonce = b.prn } } else v

  unfoldable pub auth_init : Memory → Veelite (Table Ctx) → Option (Veelite (Table Ctx))
  auth_init m v = second_key (load_key 0 m (with_two v))
