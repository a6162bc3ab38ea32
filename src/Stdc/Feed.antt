-- ===== src/Stdc/Feed.antt =====
-- `stdc_decoder_create`, `process_frame` and `stdc_decoder_feed` of stdc_decode.c.
pub mod Chunks
pub mod Shift
pub mod Acquire
pub mod FrameTest
pub mod FrameRoundTrip
use inmarsat_sniffer.Base.{
  ℕ, suc, zero, ◌+◌, ◌-◌, ◌*◌, ◌/◌, Bool, true, false, Option, none, some, List, [], ◌∷◌, ltb, leb,
  ◌==◌, if◌then◌else◌, at, replicate,
}
use inmarsat_sniffer.Base.Int.{ℤ, pos, negsuc, pos_part, neg_part, sub_ℕ}
use inmarsat_sniffer.Viterbi.{viterbi_decode, viterbi_ber}
use inmarsat_sniffer.Stdc.Interleave.{
  Buffer, encoded_size, data_size, check_sync, depermute, deinterleave, invert, store,
}
use inmarsat_sniffer.Stdc.Scramble.{descramble}
use inmarsat_sniffer.Stdc.Types.{
  Env, Decoder, decoded_frame, frame_bytes, empty_slot, egc_max_reassembly, count_up,
}
use inmarsat_sniffer.Stdc.Parse.{parse_packets}

-- `calloc` and the callback; the allocation is taken to succeed.
unfoldable pub stdc_decoder_create : Bool → Decoder
stdc_decoder_create has_cb = record {
  has_cb = has_cb;
  shift_reg = λ _. pos 0;
  shift_pos = 0;
  synced = false;
  frame_count = 0;
  depermuted = λ _. pos 0;
  deinterleaved = λ _. pos 0;
  decoded = λ _. 0;
  mfp = record { active = false; chunk = λ _. 0; total_len = 0; filled = 0 };
  egc_slots = replicate egc_max_reassembly empty_slot;
  stats = record { frames = 0; crc_ok = 0; crc_fail = 0; ber_sum = 0; ber_count = 0; synced = 0 };
  out = [];
  time_calls = 0;
}

abbrev pub decoded_bits : ℕ
decoded_bits = data_size / 2

-- The first half of `process_frame`: inversion, permutation, de-interleaving, Viterbi decoding.
unfoldable pub recover : Decoder → Bool → Decoder
recover d inverted =
    let buf = if inverted then invert d.shift_reg else d.shift_reg in
    let rows = depermute buf d.depermuted in
    let soft = deinterleave rows d.deinterleaved in
    record d {
      shift_reg = buf;
      depermuted = rows;
      deinterleaved = soft;
      decoded = at (viterbi_decode soft decoded_bits).1;
    }

-- The symbol error rate as a fraction, from the decoded bytes and the de-interleaved symbols.
unfoldable pub frame_ber : Decoder → ℕ × ℕ
frame_ber d =
    viterbi_ber (viterbi_decode d.deinterleaved decoded_bits).1 decoded_bits d.deinterleaved

-- `(unsigned long)(ber * 10000)` and the count of frames measured.
unfoldable pub count_ber : ℕ × ℕ → Decoder → Decoder
count_ber (errors, symbols) d = record d {
  stats = record (d.stats) {
    ber_sum = count_up d.stats.ber_sum (errors * 10000 / symbols);
    ber_count = count_up d.stats.ber_count 1;
  };
}

-- `ber > 0.15f`
abbrev pub too_noisy : ℕ × ℕ → Bool
too_noisy (errors, symbols) = ltb (15 * symbols) (100 * errors)

unfoldable pub descramble_frame : Decoder → Decoder
descramble_frame d = record d {
  decoded = descramble d.decoded;
  stats = record (d.stats) { frames = count_up d.stats.frames 1 };
  frame_count = d.frame_count + 1;
}

-- `depth` bounds the calls of `parse_packets` that are open at once; `none` is a frame on which
-- they do not come back.
unfoldable pub process_frame : ℕ → Env → Decoder → Bool → Option Decoder
process_frame depth env d inverted =
    let d1 = recover d inverted in
    let d2 = count_ber (frame_ber d1) d1 in
    if too_noisy (frame_ber d1)
    then some d2
    else parse_packets depth env (descramble_frame d2) decoded_frame frame_bytes

-- `soft_bits[i] * 127.0f` is given in units of 2^-16: it is held to ±127 and cut towards 0.
abbrev pub soft_unit : ℕ
soft_unit = 65536

unfoldable pub quantize : ℤ → ℤ
quantize (pos n) = if ltb (127 * soft_unit) n then pos 127 else pos (n / soft_unit)
quantize (negsuc n) =
    if ltb (127 * soft_unit) (suc n) then negsuc 126 else sub_ℕ 0 (suc n / soft_unit)

-- `memmove` by one, the new symbol at the end.
unfoldable pub shift_in : Decoder → ℤ → Decoder
shift_in d sb = record d {
  shift_reg = λ i.
      if i == encoded_size - 1
      then sb
      else if ltb i (encoded_size - 1)
      then d.shift_reg (i + 1)
      else d.shift_reg i;
  shift_pos = d.shift_pos + 1;
}

abbrev pub set_synced : Bool → Decoder → Decoder
set_synced b d = record d { synced = b; stats = record (d.stats) { synced = if b then 1 else 0 } }

abbrev pub reset_pos : Option Decoder → Option Decoder
reset_pos none = none
reset_pos (some d) = some (record d { shift_pos = 0 })

-- What follows the shift of one symbol.
unfoldable pub check_frame : ℕ → Env → Decoder → Option Decoder
check_frame depth env d =
    let (score, inv) = check_sync d.shift_reg in
    let locked = process_frame depth env d inv in
    let acquired = process_frame depth env (set_synced true d) inv in
    if ltb d.shift_pos encoded_size
    then some d
    else if d.synced
    then (if leb 100 score then reset_pos locked else some (set_synced false d))
    else if leb 110 score
    then reset_pos acquired
    else some d

unfoldable pub feed_bit : ℕ → Env → Decoder → ℤ → Option Decoder
feed_bit depth env d v = check_frame depth env (shift_in d (quantize v))

unfoldable pub stdc_decoder_feed : ℕ → Env → Decoder → List ℤ → Option Decoder
stdc_decoder_feed depth env d [] = some d
stdc_decoder_feed depth env d (v ∷ vs) = elim (feed_bit depth env d v) [
  | none ↦ none
  | some d' ↦ stdc_decoder_feed depth env d' vs
]
