-- ===== src/Lib.antt =====
-- libotfs: the filesystem library's core, as it is built for POSIX with several filesystems
-- (MULTIFS), file actions (VLACTIONS) and modification times (VLMODTIME), without access times
-- (VLACCTIME) and a mirror in SRAM. The creation and deletion of files (VLNEW) are those of the build
-- without MULTIFS, the only one in which the source compiles with them.
--
-- The parts and how they interact. Files are blocks of a byte-addressed memory (vworm), found by a
-- table of headers at its base; a call on a file goes through a file pointer, one of three, which holds
-- what the header said when it was opened and is written back when it is closed. An opening asks the
-- key table (auth) if the user may do what he wants with the mode of the file; closing takes the time
-- from the system clock and may run an action. Queues carry messages and strings; a message of the
-- application layer protocol (ALP) is taken from one queue, works on the files and answers in another.
--
-- - Prelude: shared names, tests, lists, integers of fixed width.
-- - Memory: byte memory, and the copies and fills of platform/posix_c/otlib_memcpy.c.
-- - Queue: otlib/queue.c, `q_f` as `f`. Queue/Fifo and Queue/Refine give the abstract queue, a list of
--   bytes, and the run of a client's calls on it; Queue/Strings the calls that move many bytes. Queue/Words:
--   platform/c2000/otlib_queue.c, the queue on a machine without octets, names as in the source;
--   Queue/Words/Same compares it with the other.
-- - Time: otsys/time.c and platform/posix_c/otsys_time.c, under the names of the source
--   (`time_load_now` of the driver is `posix_load_now`). Time/Clock reads a time as a 64-bit count.
-- - Auth: otlib/auth.c, the table of keys and the check of a request; Auth/Manage: the calls that
--   change the table. `sub_search_user` is `search_table`, other names are the source's without `sub_`.
--   Auth/Crypto: the nonces and the encryption of queues, with the driver `EaxDrv` as a parameter.
--   Auth/Driver: otlib/crypto.c, its functions in lower case.
--   Auth/Keys, Access and Lifecycle hold the proofs.
-- - Vworm: platform/posix_c/otsys_veelite_generic.c, the half-words of the filesystem; Vworm/Defaults:
--   `vworm_fsheader_defload` and `vworm_fsdata_defload`, which fill a filesystem from the stock files;
--   Vworm/Words: platform/c2000/otsys_veelite_generic.c, `vworm_f` as `word_f`.
-- - Veelite: otlib/veelite.c, its state, the search for headers, opening and actions; Veelite/Data: the calls on
--   an open file. Veelite/Search, Open, Loops, Transfer, Words, Append, Close, Paired, Session, Layout,
--   Reopen, Persist and Opened hold the proofs. Names are the source's.
--   Veelite/New: `vl_new` as `create_file` and `vl_delete` as `delete_file` with VLNEW, `sub_gfb_search`
--   and `sub_isf_search` of that build as `gfb_search` and `isf_search`; Veelite/Created, Found and Deleted
--   hold the proofs.
--   The check of a request comes through the record `Guard`, which `auth_guard` fills with `auth_check`.
--   Veelite/Boot: `auth_init` of otlib/auth.c, which reads keys from files; Veelite/Boot/Kept has its proofs.
-- - Multifs: otlib/veelite_multifs.c, the table of filesystems, and `vworm_init`; Multifs/Front: main/otfs.c,
--   the calls of the library. Names are the source's. A filesystem is a block of memory, and switching to it
--   points `fsram` to the block and closes all files. Multifs/Judies states what the proofs need of libjudy;
--   Multifs/Switch, Visits, Table, Deinit and Load hold the proofs.
-- - Alp: otlib/alp_main.c and its processors. Alp/State: include/otlib/alp.h; Alp/Perms, FileData and
--   Files: otlib/alp_filedata.c, its loop `sub_filedata` cut at its labels into the stages of a turn; Alp/Sensor:
--   otlib/alp_sensor.c and otlib/alp_logger.c; Alp/Main: otlib/alp_main.c; Alp/Templates:
--   otlib/alp_tmpl.c, names without `alp_`. Alp/Parse, Room, Bounds, Turns, Payload, ReadTurn, Later and
--   Identity hold the proofs.
-- - Utils: otlib/utils.c (names without `otutils_`) and otlib/buffers.c; the proofs are in
--   Utils/Timeout, Utils/Hex and Utils/Decimal. Utils/Packed: platform/c2000/otlib_utils.c; Utils/Random:
--   platform/posix_c/otlib_rand.c.
-- - Tests: concrete runs.
--
-- Pointers are addresses or indices, a pointer that may be NULL is an option, an `ot_int` is a 16-bit
-- integer with its wrap-around written out. A call that does not return is `none`: one through a NULL
-- function pointer, or the endless loop of a store that ends at the last address. The loop of a store runs
-- on fuel, one more than the octets from its start to its end: the cursor moves by two, so a
-- loop that ends at all has ended by then. The loops of a record on permissions have as many turns as it has octets, those
-- over file data as the input or output has octets; the turns of `sub_filedata` run on fuel that is an argument,
-- since its count of what is left can go up again. `otfs_deinit` runs on fuel too: one more than the
-- filesystems is enough. All other loops are counted.
--
-- What is not in the repository is a parameter: libjudy, `malloc`, the functions of OTEAX and the contexts it
-- makes of keys, `rand`, the time of day, what an action does, the stock files that a build includes, and the
-- stack contents a new header or a key takes its unset octets from. Not modelled: the security protocol of
-- ALP (it does not compile), logging, delays, `q_print`, the mirror of files in SRAM (the source stops
-- the compiler where there is one), and of the C2000 platform its memory copies and its `vworm_init`.
pub mod Prelude
pub mod Memory
pub mod Multifs
pub mod Queue
pub mod Time
pub mod Alp
pub mod Auth
pub mod Vworm
pub mod Veelite
pub mod Utils
pub mod Tests
