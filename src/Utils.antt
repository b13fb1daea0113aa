-- ===== src/Utils.antt =====
-- otlib/utils.c: the compressed timeouts, and the text of binary data, numbers and lists.
-- otlib/buffers.c: the swap of queues.
pub mod Timeout
pub mod Hex
pub mod Decimal
pub mod Random
pub mod Packed
use libotfs.Prelude.{
  signed16, shift_by, List, [], ◌∷◌, ◌||◌, not, ℕ, zero, suc, ◌+◌, ◌-◌, ◌*◌, ◌/◌, ◌%◌, ◌^◌, Bool,
  false, bit_and, ltb, ◌==◌, if◌then◌else◌, u8, s16,
}
use libotfs.Prelude.Int.{ℤ, pos, negsuc, sub_ℕ}
use libotfs.Memory.{Memory, store, ot_memcpy}
use libotfs.Queue.{Queue, copy, init}

unfoldable pub calc_timeout : ℕ → ℕ
calc_timeout timeout_code =
    let shift = bit_and (timeout_code / 8) 0x0E in
    (bit_and timeout_code 0x0F + (if shift == 0 then 0 else 1)) * 2 ^ shift

-- The loop takes four bits off the ticks while they do not fit; a 14-bit number has at most three
-- steps.
unfoldable pub encode_loop : ℕ → ℕ → ℕ → ℕ
encode_loop zero exp ticks = u8 (exp * 16) + u8 (ticks - 1)
encode_loop (suc n) exp ticks =
    let more = encode_loop n (exp + 2) (ticks / 16) in
    if ltb 16 ticks then more else u8 (exp * 16) + u8 (ticks - 1)

unfoldable pub encode_timeout : ℕ → ℕ
unfolding encode_loop
encode_timeout timeout_ticks =
    if ltb timeout_ticks 16 then timeout_ticks else u8 (encode_loop 3 1 (timeout_ticks / 4))

-- `otutils_hexlut`
unfoldable pub hexlut : ℕ → ℕ
hexlut d = if ltb d 10 then 48 + d else 55 + d

-- The two characters in the octets of an `ot_u16`, the first one in the lower octet.
unfoldable pub byte2hex : ℕ → ℕ
unfolding hexlut
byte2hex input = hexlut (input / 16) + 256 * hexlut (input % 16)

-- The loop of `otutils_bin2hex`.
unfoldable pub hex_loop : ℕ → ℕ → ℕ → Memory → Memory
unfolding hexlut
hex_loop zero dst src m = m
hex_loop (suc n) dst src m =
    let m1 = store m dst (hexlut (m src / 16)) in
    let m2 = store m1 (dst + 1) (hexlut (m1 src % 16)) in hex_loop n (dst + 2) (src + 1) m2

unfoldable pub bin2hex : ℕ → ℕ → ℕ → Memory → ℤ × Memory
unfolding hex_loop
bin2hex dst src size m = (s16 (pos (size * 2)), hex_loop size dst src m)

-- The loop of `otutils_int2dec` and `otutils_long2dec`, with `n` turns left and the divider 10 ^ (n
-- - 1). `data` is the absolute value, and `least` tells that the number is negative still, which
-- the least one stays.
unfoldable pub dec_loop : ℕ → Bool → Bool → ℕ → ℕ → Memory → ℕ × Memory
dec_loop zero least force dst value m = (dst, m)
dec_loop (suc n) least force dst value m =
    let digit = value / 10 ^ n in
    let put = force || not (digit == 0) in
    dec_loop n least put (if put then dst + 1 else dst)
      (if put then value - digit * 10 ^ n else value)
      (if put then store m dst (u8 (if least then 48 - digit else 48 + digit)) else m)

-- The text of a number of at most `turns` digits, and where it ends.
abbrev pub dec_text : ℕ → ℕ → ℕ → ℤ → Memory → ℕ × Memory
dec_text turns bound dst (pos n) m = dec_loop turns false false (dst + 1) n (store m dst 32)
dec_text turns bound dst (negsuc k) m =
    dec_loop turns (k + 1 == bound) false (dst + 2) (k + 1) (store (store m dst 32) (dst + 1) 45)

unfoldable pub int2dec : ℕ → ℤ → Memory → ℤ × Memory
int2dec dst value m = let (end, m') = dec_text 5 (2 ^ 15) dst value m in (s16 (sub_ℕ end dst), m')

-- For a number that is not the least: its absolute value is no `ot_long`.
unfoldable pub long2dec : ℕ → ℤ → Memory → ℤ × Memory
long2dec dst value m = let (end, m') = dec_text 10 (2 ^ 31) dst value m in (s16 (sub_ℕ end dst), m')

-- `*dst++ = *scratch++` for the characters of the label.
unfoldable pub put_label : List ℕ → ℕ → Memory → ℕ × Memory
put_label [] dst m = (dst, m)
put_label (c ∷ cs) dst m = put_label cs (dst + 1) (store m dst c)

-- The loop over `number` integers of one octet, or of two with the higher one first.
unfoldable pub list_loop : ℕ → Bool → ℕ → ℕ → Memory → ℕ × Memory
list_loop zero octets dst src m = (dst, m)
list_loop (suc number) octets dst src m =
    let value =
      if octets
      then signed16 (if ltb (m src) 128 then m src else m src + 0xFF00)
      else signed16 (m (src + 1) + 256 * m src) in
    let (n, m') = int2dec dst value m in
    list_loop number octets (shift_by dst n) (if octets then src + 1 else src + 2) m'

-- `label` is the list of its characters, without the zero at its end.
unfoldable pub slistf : ℕ → List ℕ → ℕ → ℕ → ℕ → Memory → ℤ × Memory
slistf dst_start label format number src m =
    let (dst, m1) = put_label label dst_start m in
    let (n, hex) = bin2hex dst src number m1 in
    let (end, m2) = list_loop number (format == b'b') dst src m1 in
    if format == b'x'
    then (s16 (sub_ℕ (shift_by dst n) dst_start), hex)
    else if format == b'b' || format == b's'
    then (s16 (sub_ℕ end dst_start), m2)
    else (
      s16 (sub_ℕ (dst + 1 + number) dst_start),
      ot_memcpy (store m1 dst 32) (dst + 1) src number,
    )

unfoldable pub buffers_swap : Queue → Queue → Queue × Queue
unfolding copy
buffers_swap q1 q2 =
    let scratch = copy q1 q1 in let q1' = copy q1 q2 in let q2' = copy q2 scratch in (q1', q2')

-- `otmpin` and `otmpout`, on the two halves of `otbuf`, with ALP_SIZE octets each.
unfoldable pub buffers_init : ℕ → ℕ → Queue → Queue → Queue × Queue
unfolding init
buffers_init otbuf alp_size otmpin otmpout =
    (init otmpin otbuf alp_size, init otmpout (otbuf + alp_size) alp_size)
