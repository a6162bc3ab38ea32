-- ===== src/Stdc/Tests.antt =====
-- Runs of stdc_decode.c on small inputs, and the theorems of this folder at concrete inputs.
use inmarsat_sniffer.Base.{
  ◌==◌, ℕ, zero, suc, ◌+◌, ◌-◌, ◌*◌, ◌%◌, ◌^◌, ◌<◌, ◌≡◌, ◌≢◌, ◌↔◌, refl, arith, bit_or, true, false,
  not, ltb, inl, ◌/◌, List, [], ◌∷◌, at, none, some, if◌then◌else◌, take,
}
use inmarsat_sniffer.Base.Int.{ℤ, pos, neg_ℤ}
use inmarsat_sniffer.Base.Text.{codes}
use inmarsat_sniffer.Viterbi.{hard_soft}
use inmarsat_sniffer.Stdc.Crc.{compute_crc}
use inmarsat_sniffer.Stdc.Crc.Sums.{byte_sum, weighted_sum, compute_crc_iff}
use inmarsat_sniffer.Stdc.Interleave.{
  encoded_size, sync_word, Buffer, check_sync, depermute, deinterleave, frame_rows, data_size,
}
use inmarsat_sniffer.Stdc.Interleave.Sync.{matches, row_matches, check_sync-matches, check_sync-neg}
use inmarsat_sniffer.Stdc.Interleave.Inverse.{deinterleave-depermute}
use inmarsat_sniffer.Stdc.Scramble.{descramble}
use inmarsat_sniffer.Stdc.Scramble.Involution.{scramble_byte, descramble-scramble}
use inmarsat_sniffer.Stdc.Text.{is_ia5, extract_ia5_text}
use inmarsat_sniffer.Stdc.Text.Filter.{is_text, keep, before_etx, seven_bit, extract_ia5_text-eq}
use inmarsat_sniffer.Stdc.Types.{Env, Decoder, decoded_frame, frame_bytes}
use inmarsat_sniffer.Stdc.Parse.{parse_packets}
use inmarsat_sniffer.Stdc.Parse.Progress.{parse_packets-returns}
use inmarsat_sniffer.Stdc.Parse.Bomb.{parse_packets-IsTrap}
use inmarsat_sniffer.Stdc.Safe.{IsSafe}
use inmarsat_sniffer.Stdc.Safe.Feed.{stdc_decoder_feed-IsSafe, stdc_decoder_create-IsSafe}
use inmarsat_sniffer.Stdc.Feed.Shift.{soft_run}
use inmarsat_sniffer.Stdc.Feed.Acquire.{stdc_decoder_feed-frame_to_symbols}
use inmarsat_sniffer.Stdc.Feed.{
  quantize, reset_pos, stdc_decoder_feed, stdc_decoder_create, recover, descramble_frame, count_ber,
  process_frame, feed_bit, check_frame, shift_in,
}
use inmarsat_sniffer.Stdc.Feed.FrameTest.{frame_to_symbols}
use inmarsat_sniffer.Stdc.Feed.FrameRoundTrip.{process_frame-frame_to_symbols}

-- A C library that prints every number as `0`.
abbrev sample_env : Env
sample_env = record {
  dec = λ _. codes "0";
  dec_02 = λ _. codes "00";
  fixed_4 = λ _. codes "0.0000";
  clock = λ _. 0;
  stray = 0;
}

abbrev sample_frame : ℕ → ℕ
sample_frame i = i % 256

sample_frame-byte : (i : ℕ) → sample_frame i < 256
sample_frame-byte i = omega arith

-- The sample frame, received with the carrier's polarity turned round.
abbrev sample_decoder : Decoder
sample_decoder = record (stdc_decoder_create true) {
  shift_reg = λ i. neg_ℤ (hard_soft (frame_to_symbols sample_frame (λ _. 0) i));
}

process_frame-frame_to_symbols_example :
    let d' = descramble_frame (count_ber (0, data_size) (recover sample_decoder true)) in
    (check_sync sample_decoder.shift_reg ≡ (128, true))
    × (process_frame 3 sample_env sample_decoder true
        ≡ parse_packets 3 sample_env d' decoded_frame frame_bytes)
    × (d'.decoded 77 ≡ sample_frame 77)
process_frame-frame_to_symbols_example =
    process_frame-frame_to_symbols sample_frame (λ _. 0) sample_frame-byte sample_decoder
      (λ i. unfold stdc_decoder_create in omega arith) true (λ i h. refl) 3 sample_env 77
      (omega arith)

-- The sample frame at full scale, its carrier turned round, in the units of `quantize`.
abbrev full_scale : ℕ → ℤ
full_scale g = if g == 0 then pos 8323072 else neg_ℤ (pos 8323072)

quantize-full_scale : (g : ℕ) → quantize (full_scale g) ≡ neg_ℤ (hard_soft g)
unfolding quantize
quantize-full_scale g = ground arith

abbrev sample_soft_bits : ℕ → ℤ
sample_soft_bits i = full_scale (frame_to_symbols sample_frame (λ _. 0) i)

stdc_decoder_feed-frame_to_symbols_example :
    (d' : Decoder) × (stdc_decoder_feed 3 sample_env
        (stdc_decoder_create true)
        (soft_run sample_soft_bits 0 encoded_size)
      ≡ reset_pos (parse_packets 3 sample_env d' decoded_frame frame_bytes))
    × (d'.synced ≡ true)
    × (d'.frame_count ≡ (stdc_decoder_create true).frame_count + 1)
    × (d'.out ≡ (stdc_decoder_create true).out)
    × ((i : ℕ) → i < frame_bytes → d'.decoded i ≡ sample_frame i)
stdc_decoder_feed-frame_to_symbols_example =
    stdc_decoder_feed-frame_to_symbols sample_frame (λ _. 0) sample_frame-byte
      (stdc_decoder_create true) (λ i. unfold stdc_decoder_create in omega arith) true
      sample_soft_bits (λ i h. quantize-full_scale (frame_to_symbols sample_frame (λ _. 0) i))
      (unfold stdc_decoder_create in refl) 3 sample_env

fed_once :
    stdc_decoder_feed 2 sample_env (stdc_decoder_create true) (pos 65536 ∷ [])
    ≡ some (shift_in (stdc_decoder_create true) (pos 1))
unfolding stdc_decoder_feed feed_bit check_frame shift_in quantize stdc_decoder_create
fed_once = refl

stdc_decoder_feed-IsSafe_example : IsSafe (shift_in (stdc_decoder_create true) (pos 1))
stdc_decoder_feed-IsSafe_example =
    stdc_decoder_feed-IsSafe 2 sample_env (stdc_decoder_create true)
      (shift_in (stdc_decoder_create true) (pos 1)) (pos 65536 ∷ [])
      (stdc_decoder_create-IsSafe true) fed_once

abbrev trap_frame : List ℕ
trap_frame = 0xBD ∷ 5 ∷ 0xBE ∷ 3 ∷ 0 ∷ 0 ∷ 0 ∷ 0xBE ∷ 3 ∷ 0 ∷ 0 ∷ 0 ∷ []

abbrev trap_decoder : Decoder
trap_decoder = record (stdc_decoder_create true) { decoded = at trap_frame }

parse_packets-IsTrap_example : parse_packets 5 sample_env trap_decoder decoded_frame 640 ≡ none
parse_packets-IsTrap_example =
    parse_packets-IsTrap sample_env trap_decoder
      (record {
        start = refl;
        start_len = refl;
        inner = refl;
        inner_len = refl;
        inner_body = refl;
        start_check_1 = refl;
        start_check_2 = refl;
        cont = refl;
        cont_len = refl;
        cont_body = refl;
        cont_check_1 = refl;
        cont_check_2 = refl;
      })
      5

abbrev sample_packet : List ℕ
sample_packet = 0x27 ∷ 1 ∷ 2 ∷ 0xFB ∷ 0xDB ∷ []

-- The packet in a frame of zeros, with a reassembly under way.
abbrev calm_decoder : Decoder
calm_decoder = record trap_decoder { decoded = at sample_packet }

sample_packet-calm : (i : ℕ) → at sample_packet i ≢ 0xBE
sample_packet-calm zero e = absurd (omega (arith, e))
sample_packet-calm (suc zero) e = absurd (omega (arith, e))
sample_packet-calm (suc (suc zero)) e = absurd (omega (arith, e))
sample_packet-calm (suc (suc (suc zero))) e = absurd (omega (arith, e))
sample_packet-calm (suc (suc (suc (suc zero)))) e = absurd (omega (arith, e))
sample_packet-calm (suc (suc (suc (suc (suc i))))) e = absurd (omega (arith, e))

parse_packets-returns_example :
    (d' : Decoder) × (parse_packets 1 sample_env calm_decoder decoded_frame 640 ≡ some d')
    × (d'.decoded ≡ at sample_packet)
parse_packets-returns_example =
    parse_packets-returns 0 sample_env calm_decoder 640 (omega arith)
      (inl (λ i lt. sample_packet-calm i))

sample_packet-byte : (i : ℕ) → at sample_packet i < 256
sample_packet-byte zero = omega arith
sample_packet-byte (suc zero) = omega arith
sample_packet-byte (suc (suc zero)) = omega arith
sample_packet-byte (suc (suc (suc zero))) = omega arith
sample_packet-byte (suc (suc (suc (suc zero)))) = omega arith
sample_packet-byte (suc (suc (suc (suc (suc i))))) = omega arith

compute_crc_iff_example :
    (bit_or (at sample_packet 3 * 2 ^ 8) (at sample_packet 4) ≡ compute_crc (at sample_packet) 0 5)
    ↔ ((byte_sum (at sample_packet) 0 5 % 256 ≡ 0)
        × (weighted_sum (at sample_packet) 0 5 % 256 ≡ 0))
compute_crc_iff_example = compute_crc_iff (at sample_packet) 0 3 sample_packet-byte

deinterleave-depermute_example :
    deinterleave (depermute (λ i. pos i) (λ _. pos 0)) (λ _. pos 0) (7 * frame_rows + (39 * 5) % 64)
    ≡ pos (5 * 162 + 7 + 2)
deinterleave-depermute_example =
    deinterleave-depermute (λ i. pos i) (λ _. pos 0) (λ _. pos 0) 5 7 (omega arith) (omega arith)

-- A stream whose rows start with their sync bits.
abbrev synced : Buffer
synced i = hard_soft (at sync_word (i / 162))

check_sync-matches_example : check_sync synced ≡ (
    if ltb (matches synced 64) 64
    then (128 - matches synced 64, true)
    else (matches synced 64, false))
check_sync-matches_example = check_sync-matches synced

synced_matches : matches synced frame_rows ≢ 64
unfolding matches row_matches
synced_matches = λ e. omega (arith, e)

hard_soft-decided : (b : ℕ) → hard_soft b ≢ pos 0
hard_soft-decided b = ground arith

check_sync-neg_example :
    ((check_sync (λ i. neg_ℤ (synced i))).0 ≡ (check_sync synced).0)
    × ((check_sync (λ i. neg_ℤ (synced i))).1 ≡ not (check_sync synced).1)
check_sync-neg_example =
    check_sync-neg synced
      (λ i h. (
        hard_soft-decided (at sync_word (i * 162 / 162)),
        hard_soft-decided (at sync_word ((i * 162 + 1) / 162)),
      ))
      synced_matches

descramble-scramble_example :
    descramble (λ i. scramble_byte (i / 4) (sample_frame i)) 30 ≡ sample_frame 30
descramble-scramble_example =
    descramble-scramble sample_frame (λ i. scramble_byte (i / 4) (sample_frame i)) sample_frame-byte
      (λ i h. refl) 30 (omega arith)

abbrev payload : List ℕ
payload = 0x48 ∷ 0xC9 ∷ 0x07 ∷ 0x21 ∷ 0x03 ∷ 0x58 ∷ []

extract_ia5_text-eq_example :
    extract_ia5_text (at payload) 0 6 100
    ≡ take 100 (keep is_text (before_etx (seven_bit (at payload) 0 6)))
extract_ia5_text-eq_example = extract_ia5_text-eq (at payload) 0 6 100

extract_payload : extract_ia5_text (at payload) 0 6 100 ≡ codes "HI!"
unfolding extract_ia5_text is_ia5
extract_payload = refl
