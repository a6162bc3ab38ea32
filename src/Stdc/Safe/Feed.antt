-- ===== src/Stdc/Safe/Feed.antt =====
-- Feeding soft bits keeps the bounds.
use inmarsat_sniffer.Base.{
  ℕ, zero, suc, ltb, leb, ◌≡◌, refl, sym, subst, arith, Bool, true, false, List, [], ◌∷◌, Option,
  none, some, replicate, length-replicate, get_or,
}
use inmarsat_sniffer.Base.Int.{ℤ}
use inmarsat_sniffer.Stdc.Types.{
  Env, Decoder, decoded_frame, frame_bytes, empty_slot, egc_max_reassembly,
}
use inmarsat_sniffer.Stdc.Interleave.{encoded_size, check_sync}
use inmarsat_sniffer.Stdc.Feed.{
  stdc_decoder_create, recover, frame_ber, count_ber, too_noisy, descramble_frame, process_frame,
  quantize, shift_in, set_synced, reset_pos, check_frame, feed_bit, stdc_decoder_feed,
}
use inmarsat_sniffer.Stdc.Safe.{IsSlot, IsSafe, AllSafe, some-AllSafe, if-AllSafe, same-IsSafe}
use inmarsat_sniffer.Stdc.Safe.Parse.{parse_packets-AllSafe}

recover-IsSafe : (d : Decoder) (inverted : Bool) → IsSafe d → IsSafe (recover d inverted)
unfolding recover
recover-IsSafe d inverted safe = same-IsSafe d _ safe refl refl

count_ber-IsSafe : (ber : ℕ × ℕ) (d : Decoder) → IsSafe d → IsSafe (count_ber ber d)
unfolding count_ber
count_ber-IsSafe ber d safe = same-IsSafe d _ safe refl refl

descramble_frame-IsSafe : (d : Decoder) → IsSafe d → IsSafe (descramble_frame d)
unfolding descramble_frame
descramble_frame-IsSafe d safe = same-IsSafe d _ safe refl refl

process_frame-AllSafe :
    (depth : ℕ) (env : Env) (d : Decoder) (inverted : Bool)
    → IsSafe d
    → AllSafe (process_frame depth env d inverted)
unfolding process_frame
process_frame-AllSafe depth env d inverted safe =
    let d1 = recover d inverted in
    let d2 = count_ber (frame_ber d1) d1 in
    let d2-IsSafe = count_ber-IsSafe (frame_ber d1) d1 (recover-IsSafe d inverted safe) in
    if-AllSafe (too_noisy (frame_ber d1)) (some d2) _ (some-AllSafe d2 d2-IsSafe) (
      parse_packets-AllSafe depth env (descramble_frame d2) decoded_frame frame_bytes
        (descramble_frame-IsSafe d2 d2-IsSafe))

reset_pos-AllSafe : (r : Option Decoder) → AllSafe r → AllSafe (reset_pos r)
reset_pos-AllSafe none all = λ d e. cc e
reset_pos-AllSafe (some d) all = some-AllSafe _ (same-IsSafe d _ (all d refl) refl refl)

set_synced-IsSafe : (b : Bool) (d : Decoder) → IsSafe d → IsSafe (set_synced b d)
set_synced-IsSafe b d safe = same-IsSafe d _ safe refl refl

check_frame-AllSafe :
    (depth : ℕ) (env : Env) (d : Decoder) → IsSafe d → AllSafe (check_frame depth env d)
unfolding check_frame
check_frame-AllSafe depth env d safe =
    let score = (check_sync d.shift_reg).0 in
    let inv = (check_sync d.shift_reg).1 in
    let acquired =
      process_frame-AllSafe depth env (set_synced true d) inv (set_synced-IsSafe true d safe) in
    if-AllSafe (ltb d.shift_pos encoded_size) (some d) _ (some-AllSafe d safe) (
      if-AllSafe d.synced _ _
        (if-AllSafe (leb 100 score) _ (some (set_synced false d))
          (reset_pos-AllSafe _ (process_frame-AllSafe depth env d inv safe))
          (some-AllSafe _ (set_synced-IsSafe false d safe)))
        (if-AllSafe (leb 110 score) _ (some d) (reset_pos-AllSafe _ acquired)
          (some-AllSafe d safe)))

feed_bit-AllSafe :
    (depth : ℕ) (env : Env) (d : Decoder) (v : ℤ) → IsSafe d → AllSafe (feed_bit depth env d v)
unfolding feed_bit shift_in
feed_bit-AllSafe depth env d v safe =
    check_frame-AllSafe depth env (shift_in d (quantize v)) (same-IsSafe d _ safe refl refl)

feed_more-AllSafe :
    (r : Option Decoder) (next : Decoder → Option Decoder)
    → AllSafe r
    → ((d : Decoder) → IsSafe d → AllSafe (next d))
    → AllSafe (elim r [ none ↦ none | some d ↦ next d ])
feed_more-AllSafe none next all more = λ d e. cc e
feed_more-AllSafe (some d) next all more = more d (all d refl)

feed-AllSafe :
    (depth : ℕ) (env : Env) (d : Decoder) (bits : List ℤ)
    → IsSafe d
    → AllSafe (stdc_decoder_feed depth env d bits)
unfolding stdc_decoder_feed
feed-AllSafe depth env d [] safe = some-AllSafe d safe
feed-AllSafe depth env d (v ∷ bits) safe =
    feed_more-AllSafe (feed_bit depth env d v) (λ d'. stdc_decoder_feed depth env d' bits)
      (feed_bit-AllSafe depth env d v safe) (λ d' h. feed-AllSafe depth env d' bits h)

-- Whatever soft bits are fed and whatever frames and packets they hold, a decoder within its bounds is
-- within them after a feed that returns: the packet reassembled over several frames fills no more than
-- its array, the table has its 16 EGC slots, and each slot has parts of at most 128 bytes, none beyond
-- part 63.
pub stdc_decoder_feed-IsSafe :
    (depth : ℕ) (env : Env) (d d' : Decoder) (bits : List ℤ)
    → IsSafe d
    → stdc_decoder_feed depth env d bits ≡ some d'
    → IsSafe d'
stdc_decoder_feed-IsSafe depth env d d' bits safe e = feed-AllSafe depth env d bits safe d' e

get_or-fresh : (n i : ℕ) → get_or (replicate n empty_slot) i empty_slot ≡ empty_slot
get_or-fresh zero i = refl
get_or-fresh (suc n) zero = refl
get_or-fresh (suc n) (suc i) = get_or-fresh n i

-- A new decoder is within its bounds.
pub stdc_decoder_create-IsSafe : (has_cb : Bool) → IsSafe (stdc_decoder_create has_cb)
unfolding stdc_decoder_create
stdc_decoder_create-IsSafe has_cb = record {
  filled = omega arith;
  slot_count = length-replicate egc_max_reassembly empty_slot;
  slots = λ i.
      subst IsSlot (sym (get_or-fresh egc_max_reassembly i))
        (record { part_lens = λ j. omega arith; max_pkt_no = omega arith });
}
