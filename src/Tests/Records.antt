-- ===== src/Tests/Records.antt =====
-- Runs of otlib/alp_main.c, otlib/alp_filedata.c and otlib/alp_tmpl.c.
use libotfs.Prelude.{
  ℕ, ◌+◌, ◌-◌, ◌*◌, ◌/◌, ◌%◌, ◌≤◌, ◌<◌, ◌≡◌, ◌⊎◌, inl, refl, Bool, true, false, not, some, none, [],
  ◌∷◌, arith, bit_and, bit_or, ltb, if◌then◌else◌, ◌==◌, min,
}
use libotfs.Prelude.Int.{pos, ltb_ℤ}
use libotfs.Auth.{Table, auth_isroot}
use libotfs.Memory.{Memory, bytes}
use libotfs.Queue.{writespace, readspace, readbyte, readshort, getcursor_val}
use libotfs.Vworm.{vworm, vworm_read}
use libotfs.Veelite.{
  Veelite, no_file, vl_chmod, vl_getheader_vaddr, sub_gfb_search, sub_header_search, header_scan,
}
use libotfs.Veelite.Data.{vl_close}
use libotfs.Veelite.Close.{vl_close_twice}
use libotfs.Alp.State.{Alp, set_flags, inrec_cmd, inrec_plen, access_r}
use libotfs.Alp.Perms.{sub_fileperms, perms_loop, block_of, sub_filedelete}
use libotfs.Alp.FileData.{Written, write_loop, read_loop, begin_turn}
use libotfs.Alp.Files.{alp_proc_filedata, set_answer, run_command, cmd_fn}
use libotfs.Alp.Main.{alp_parse_message, msg_null, alp_new_record}
use libotfs.Alp.Templates.{stream_id_tmpl, breakdown_id_tmpl}
use libotfs.Alp.Parse.{idle, busy, alp_parse_message-waits, alp_new_record_lem}
use libotfs.Alp.Bounds.{alp_proc_filedata-outq}
use libotfs.Alp.Turns.{perms_loop-turns, sub_fileperms-vl_chmod}
use libotfs.Alp.Payload.{read_loop-write_loop}
use libotfs.Alp.Payload.Read.{less_words}
use libotfs.Alp.Later.{begin_turn-later}
use libotfs.Alp.Identity.{breakdown_id_tmpl-stream_id_tmpl}
use libotfs.Tests.Samples.{eax, guard, invoke, volume, alice}

abbrev Message : Type 0
Message = Alp (Table ℕ)

-- A record at 1000 with this command and these octets of payload.
abbrev wire : ℕ → ℕ → ℕ → Memory
wire cmd first fifth x =
    if x == 1000
    then 0xC0
    else if x == 1001
    then 5
    else if x == 1002
    then 1
    else if x == 1003
    then cmd
    else if x == 1004
    then first
    else if x == 1008
    then fifth
    else 0

-- The message with its cursor at `get` and an output of 64 octets; its files are closed, or open as
-- file pointer 0.
abbrev message : ℕ → ℕ → Memory → Bool → Message
message get back ram is_open = record {
  purge_id = 1;
  outrec = record { flags = 0x40; plength = 0; id = 1; cmd = ram 1003 };
  inq = record {
    alloc = 64;
    options = 0;
    getcursor = get;
    putcursor = 1009;
    front = 1000;
    back = back;
  };
  outq = record {
    alloc = 64;
    options = 0;
    getcursor = 2000;
    putcursor = 2000;
    front = 2000;
    back = 2064;
  };
  ram = ram;
  files = if is_open then volume 0 else record (volume 0) { vlfile = λ fd. no_file };
}

vl_close_twice_example :
    (v' v'' : Veelite (Table ℕ)) × (vl_close invoke 7 (some 0) (volume 0) ≡ some (0, v'))
    × (vl_close invoke 8 (some 0) v' ≡ some (0, v''))
    × (vworm_read 32 v'.fsram ≡ 4)
    × (vworm_read 32 v''.fsram ≡ 0)
unfolding vworm_read
vl_close_twice_example = vl_close_twice invoke 7 8 0 (volume 0) refl (omega arith) refl

perms_loop-turns_example :
    let respond : Bool = true in
    let r : ℕ × Message = (0, message 1004 1064 (wire 0x90 0 0) false) in
    (perms_loop guard 5 1 alice respond access_r 5 r
      ≡ perms_loop guard 9 1 alice respond access_r 5 r)
    × ((respond ≡ false)
        ⊎ (ltb_ℤ (writespace r.1.outq) (pos 2) ≡ false)
        ⊎ (perms_loop guard 5 1 alice respond access_r 5 r ≡ r))
perms_loop-turns_example =
    perms_loop-turns guard 5 9 1 alice true access_r 5 (0, message 1004 1064 (wire 0x90 0 0) false)
      (omega arith) (omega arith)

sub_fileperms-vl_chmod_example :
    (sub_fileperms guard none false 0x13 5 (message 1004 1064 (wire 0x13 0 0) false)).1.files
    ≡ (vl_chmod guard (block_of 0x13) 0 0 none (message 1004 1064 (wire 0x13 0 0) false).files).1
sub_fileperms-vl_chmod_example =
    sub_fileperms-vl_chmod guard none 0x13 5 (message 1004 1064 (wire 0x13 0 0) false) (omega arith)
      (omega arith)

begin_turn-later_example :
    let a = message 1004 1064 (wire 0x17 9 0) false in
    (false ≡ false) × (a.files.fsram ≡ a.files.fsram)
unfolding begin_turn vl_getheader_vaddr sub_gfb_search sub_header_search header_scan vworm_read
    readbyte readshort
begin_turn-later_example =
    let a = message 1004 1064 (wire 0x17 9 0) false in
    begin_turn-later guard invoke 7 true none 0x17 (some 0) 5 0 a
      (record {
        overrun = false;
        file_id = 9;
        span = 0;
        file_mod = false;
        err_code = 1;
        fp = some 0;
        data_in = 5;
        data_out = 0;
        alp = record a { inq = record a.inq { getcursor = 1009 } };
      })
      refl

read_loop-write_loop_example :
    let a = message 1004 1064 (wire 0x17 9 0x33) true in
    (w : Written (Table ℕ)) × (b : Message) × (write_loop 9 0 0 (0 + 2 * 2) 4 9 0 a ≡ some w)
    × (w.overrun ≡ false)
    × (read_loop 9 0 0 (0 + 2 * 2) 4 5 (record a { files = w.alp.files })
        ≡ some (false, less_words 2 4, 5 + 2 * 2, b))
    × (bytes b.ram 2000 (2 * 2) ≡ bytes (wire 0x17 9 0x33) 1004 (2 * 2))
read_loop-write_loop_example =
    let a = message 1004 1064 (wire 0x17 9 0x33) true in
    read_loop-write_loop 2 9 0 0 4 4 9 5 a a vworm vworm (omega arith) refl refl refl (omega arith)
      (omega arith) (omega arith) (λ k lt. ground arith) (omega arith) (omega arith)

-- A record that deletes the five files 4, 0, 0, 0 and 0, and its answer.
abbrev deletes : ℕ → Message
deletes get = message get 1064 (wire 0x9A 4 0) false

abbrev deleted : Message → Message
deleted a = set_answer 0x9A (sub_filedelete true 5 a)

alp_proc_filedata-outq_example :
    let a = deletes 1004 in
    let b = deleted a in
    (b.outq.back ≡ a.outq.back)
    × (b.outq.putcursor ≤ a.outq.back)
    × ((not (bit_and (inrec_cmd a) 0x80 == 0)) ≡ false
        → a.outq.back - a.outq.putcursor < 256
        → b.outq.putcursor ≡ a.outq.putcursor)
    × ((x : ℕ) → (x < a.outq.putcursor) ⊎ (a.outq.back ≤ x) → b.ram x ≡ a.ram x)
unfolding alp_proc_filedata run_command cmd_fn inrec_cmd inrec_plen getcursor_val
alp_proc_filedata-outq_example =
    alp_proc_filedata-outq guard invoke 7 9 none (deletes 1004) (true, deleted (deletes 1004))
      (omega arith) (omega arith) refl

-- The record as its processor gets and leaves it.
abbrev entered : Message
entered =
    let a = deletes 1000 in
    record a {
      outrec = record { flags = 0xC0; plength = 0; id = 1; cmd = 0x9A };
      inq = record a.inq { options = 1; getcursor = 1004 };
      outq = record a.outq { options = 1; putcursor = 2004 };
    }

abbrev processed : Message
processed = set_flags 0xC0 (deleted entered)

alp_new_record_lem_example :
    let a = message 1004 1064 (wire 0x94 0 4) false in
    let b = alp_new_record 0x80 100 (pos 300) a in
    let kept = bit_and (bit_or (bit_or 0x40 0x80) 0x10) 0x90 in
    let f = if ltb 100 300 then kept else bit_or kept 0x40 in
    (bytes b.ram 2000 4 ≡ f % 256 ∷ f / 256 % 256 ∷ f / 65536 % 256 ∷ f / 16777216 % 256 ∷ [])
    × (b.outq.putcursor ≡ 2000 + 4)
    × (b.outrec.plength ≡ min 300 100)
    × (b.outrec.flags ≡ f - bit_and f 0x80)
alp_new_record_lem_example =
    alp_new_record_lem 0x80 100 300 (message 1004 1064 (wire 0x94 0 4) false) (omega arith)
      (omega arith)

alp_parse_message-waits_example :
    let a = message 1000 1003 (wire 0x94 0 4) false in
    (b : Message) × (alp_parse_message guard (auth_isroot eax 100) invoke 7 0 9 [] [] none a
      ≡ some (msg_null, b))
    × (b.inq.options ≡ 1)
    × (b.outq.options ≡ 1)
    × (alp_parse_message guard (auth_isroot eax 100) invoke 7 0 9 (1 ∷ 1 ∷ []) [] alice b ≡ none)
unfolding readspace
alp_parse_message-waits_example =
    alp_parse_message-waits guard (auth_isroot eax 100) invoke 7 0 9 [] [] (1 ∷ 1 ∷ []) [] none
      alice (message 1000 1003 (wire 0x94 0 4) false) refl refl refl
      (busy 1 (1 ∷ []) (omega arith) (busy 1 [] (omega arith) idle))

breakdown_id_tmpl-stream_id_tmpl_example :
    let q = (message 1004 1064 (wire 0x94 0 4) false).outq in
    let (q', m') = stream_id_tmpl (q, wire 0x94 0 4) (some (5, 1004)) in
    let (t, in_q') = breakdown_id_tmpl q m' in
    (t.length ≡ 5)
    × (t.value ≡ some (2000 + 1))
    × (bytes m' (2000 + 1) 5 ≡ bytes (wire 0x94 0 4) 1004 5)
    × (in_q'.getcursor ≡ q'.putcursor)
breakdown_id_tmpl-stream_id_tmpl_example =
    let q = (message 1004 1064 (wire 0x94 0 4) false).outq in
    breakdown_id_tmpl-stream_id_tmpl q q (wire 0x94 0 4) 5 1004 (omega arith) (omega arith)
      (omega arith) (inl (omega arith)) refl
