-- ===== src/Stdc/Safe/Parse.antt =====
-- The parser keeps the bounds, however deep it calls itself.
use inmarsat_sniffer.Base.{
  ℕ, zero, suc, ◌+◌, ◌==◌, ltb, leb, refl, arith, Bool, true, false, ◌||◌, if◌then◌else◌, Option,
  none, some,
}
use inmarsat_sniffer.Stdc.Types.{Env, Decoder, Source, reassembled, frame_at}
use inmarsat_sniffer.Stdc.Packet.{get_packet_length, crc_ok}
use inmarsat_sniffer.Stdc.Parse.{
  decode_multiframe_start, add_chunk, stop_multiframe, decode_multiframe_cont, dispatch, count_crc,
  Round, stop, go_on, stuck, round, parse_loop, parse_packets,
}
use inmarsat_sniffer.Stdc.Safe.Control.{
  decode_ack_request-IsSafe, decode_channel_clear-IsSafe, decode_msg_ack-IsSafe,
  decode_signalling-IsSafe, decode_bulletin_board-IsSafe, decode_announcement-IsSafe,
  decode_chan_assignment-IsSafe, decode_login_ack-IsSafe, decode_individual_poll-IsSafe,
  decode_confirmation-IsSafe, decode_message-IsSafe, decode_les_list-IsSafe,
}
use inmarsat_sniffer.Stdc.Safe.Egc.{decode_egc-IsSafe}
use inmarsat_sniffer.Stdc.Safe.{IsSafe, AllSafe, some-AllSafe, if-IsSafe, if-AllSafe, same-IsSafe}

module _ (env : Env) (d : Decoder) (src : Source) (p pkt_len : ℕ) (safe : IsSafe d) where
  decode_multiframe_start-IsSafe : IsSafe (decode_multiframe_start env d src p pkt_len)
  unfolding decode_multiframe_start
  decode_multiframe_start-IsSafe =
      if-IsSafe (ltb pkt_len 5) d _ safe
        (record { filled = omega arith; slot_count = safe.slot_count; slots = safe.slots })

  add_chunk-IsSafe : IsSafe (add_chunk env d src p pkt_len)
  unfolding add_chunk
  add_chunk-IsSafe = record {
    filled = omega (arith, safe.filled);
    slot_count = safe.slot_count;
    slots = safe.slots;
  }

stop_multiframe-IsSafe : (d : Decoder) → IsSafe d → IsSafe (stop_multiframe d)
stop_multiframe-IsSafe d safe = record {
  filled = safe.filled;
  slot_count = safe.slot_count;
  slots = safe.slots;
}

none-AllSafe : AllSafe none
none-AllSafe d e = cc e

finished-AllSafe :
    (r : Option Decoder)
    → AllSafe r
    → AllSafe (elim r [ none ↦ none | some d ↦ some (stop_multiframe d) ])
finished-AllSafe none all = none-AllSafe
finished-AllSafe (some d) all =
    some-AllSafe (stop_multiframe d) (stop_multiframe-IsSafe d (all d refl))

-- The state of a round that goes on.
abbrev RoundSafe : Round → Type 0
RoundSafe stop = Unit {0}
RoundSafe (go_on d pos) = IsSafe d
RoundSafe stuck = Unit {0}

if-RoundSafe : (b : Bool) (r t : Round) → RoundSafe r → RoundSafe t → RoundSafe (if b then r else t)
if-RoundSafe true r t hr ht = hr
if-RoundSafe false r t hr ht = ht

dispatched-RoundSafe :
    (r : Option Decoder) (pos : ℕ)
    → AllSafe r
    → RoundSafe (elim r [ none ↦ stuck | some d ↦ go_on d pos ])
dispatched-RoundSafe none pos all = tt
dispatched-RoundSafe (some d) pos all = all d refl

elim-AllSafe :
    (b : Bool) (x y : Option Decoder)
    → AllSafe x
    → AllSafe y
    → AllSafe (elim b [ false ↦ x | true ↦ y ])
elim-AllSafe true x y hx hy = hy
elim-AllSafe false x y hx hy = hx

-- What the loop does after a round.
step-AllSafe :
    (d : Decoder) (r : Round) (next : Decoder → ℕ → Option Decoder)
    → IsSafe d
    → RoundSafe r
    → ((d' : Decoder) (pos : ℕ) → IsSafe d' → AllSafe (next d' pos))
    → AllSafe (elim r [ stop ↦ some d | stuck ↦ none | go_on d' pos ↦ next d' pos ])
step-AllSafe d stop next safe after all = some-AllSafe d safe
step-AllSafe d stuck next safe after all = none-AllSafe
step-AllSafe d (go_on d' pos) next safe after all = all d' pos after

module _ (parse : Decoder → Source → ℕ → Option Decoder)
    (parsed : (d : Decoder) (src : Source) (len : ℕ) → IsSafe d → AllSafe (parse d src len))
    (env : Env) (src : Source) where
  decode_multiframe_cont-AllSafe :
      (d : Decoder) (p pkt_len : ℕ)
      → IsSafe d
      → AllSafe (decode_multiframe_cont parse env d src p pkt_len)
  unfolding decode_multiframe_cont
  decode_multiframe_cont-AllSafe d p pkt_len safe =
      let d' = add_chunk env d src p pkt_len in
      let d'-IsSafe = add_chunk-IsSafe env d src p pkt_len safe in
      if-AllSafe d.mfp.active _ _
        (if-AllSafe (leb d'.mfp.total_len (d'.mfp.filled + 2)) _ _
          (finished-AllSafe (parse d' reassembled d'.mfp.total_len)
            (parsed d' reassembled d'.mfp.total_len d'-IsSafe))
          (some-AllSafe d' d'-IsSafe))
        (some-AllSafe d safe)

  dispatch-AllSafe :
      (d : Decoder) (p pkt_len : ℕ) → IsSafe d → AllSafe (dispatch parse env d src p pkt_len)
  unfolding dispatch
  dispatch-AllSafe d p pkt_len safe =
      let f = frame_at env d src in
      if-AllSafe _ _ _ (some-AllSafe _ (decode_ack_request-IsSafe env d f p pkt_len safe)) (
        if-AllSafe _ _ _ (some-AllSafe _ (decode_channel_clear-IsSafe env d f p pkt_len safe)) (
          if-AllSafe _ _ _ (some-AllSafe _ (decode_msg_ack-IsSafe env d f p pkt_len safe)) (
            if-AllSafe _ _ _ (some-AllSafe _ (decode_signalling-IsSafe env d f p pkt_len safe)) (
              if-AllSafe _ _ _
                (some-AllSafe _ (decode_bulletin_board-IsSafe env d f p pkt_len safe))
                (if-AllSafe _ _ _
                  (some-AllSafe _ (decode_announcement-IsSafe env d f p pkt_len safe))
                  (if-AllSafe _ _ _
                    (some-AllSafe _ (decode_chan_assignment-IsSafe env d f p pkt_len safe))
                    (if-AllSafe _ _ _
                      (some-AllSafe _ (decode_login_ack-IsSafe env d f p pkt_len safe))
                      (if-AllSafe _ _ _
                        (some-AllSafe _ (decode_individual_poll-IsSafe env d f p pkt_len safe))
                        (if-AllSafe _ _ _
                          (some-AllSafe _ (decode_confirmation-IsSafe env d f p pkt_len safe))
                          (if-AllSafe _ _ _
                            (some-AllSafe _ (decode_message-IsSafe env d f p pkt_len safe))
                            (if-AllSafe _ _ _
                              (some-AllSafe _ (decode_les_list-IsSafe env d f p pkt_len safe))
                              (if-AllSafe _ _ _
                                (some-AllSafe _ (decode_egc-IsSafe env d f p pkt_len 0 safe))
                                (if-AllSafe _ _ _
                                  (some-AllSafe _ (decode_egc-IsSafe env d f p pkt_len 1 safe))
                                  (if-AllSafe _ _ _
                                    (some-AllSafe _
                                      (decode_multiframe_start-IsSafe env d src p pkt_len safe))
                                    (if-AllSafe _ _ _
                                      (decode_multiframe_cont-AllSafe d p pkt_len safe)
                                      (some-AllSafe d safe))))))))))))))))

  count_crc-IsSafe : (b : Bool) (d : Decoder) → IsSafe d → IsSafe (count_crc b d)
  unfolding count_crc
  count_crc-IsSafe true d safe = same-IsSafe d _ safe refl refl
  count_crc-IsSafe false d safe = same-IsSafe d _ safe refl refl

  round-RoundSafe :
      (frame_len : ℕ) (d : Decoder) (pos : ℕ)
      → IsSafe d
      → RoundSafe (round parse env src frame_len d pos)
  unfolding round
  round-RoundSafe frame_len d pos safe =
      let f = frame_at env d src in
      let pkt_len = get_packet_length f pos frame_len in
      let good = crc_ok env f pos pkt_len in
      let counted = count_crc-IsSafe good d safe in
      if-RoundSafe (f pos == 0x00) stop _ tt (
        if-RoundSafe (f pos == 0xFF) (go_on d (pos + 1)) _ safe (
          if-RoundSafe (pkt_len == 0 || ltb frame_len (pos + pkt_len)) stop _ tt (
            if-RoundSafe good _ (go_on (count_crc good d) (pos + pkt_len))
              (dispatched-RoundSafe (dispatch parse env (count_crc good d) src pos pkt_len)
                (pos + pkt_len) (dispatch-AllSafe (count_crc good d) pos pkt_len counted))
              counted)))

  parse_loop-AllSafe :
      (frame_len fuel : ℕ) (d : Decoder) (pos : ℕ)
      → IsSafe d
      → AllSafe (parse_loop parse env src frame_len fuel d pos)
  unfolding parse_loop
  parse_loop-AllSafe frame_len zero d pos safe = none-AllSafe
  parse_loop-AllSafe frame_len (suc fuel) d pos safe =
      elim-AllSafe (ltb (pos + 2) frame_len) (some d) _ (some-AllSafe d safe) (
        step-AllSafe d (round parse env src frame_len d pos)
          (parse_loop parse env src frame_len fuel) safe (round-RoundSafe frame_len d pos safe)
          (λ d' pos' h. parse_loop-AllSafe frame_len fuel d' pos' h))

-- `parse_packets` keeps the bounds, if it comes back.
pub parse_packets-AllSafe :
    (depth : ℕ) (env : Env) (d : Decoder) (src : Source) (frame_len : ℕ)
    → IsSafe d
    → AllSafe (parse_packets depth env d src frame_len)
unfolding parse_packets
parse_packets-AllSafe zero env d src frame_len safe = none-AllSafe
parse_packets-AllSafe (suc depth) env d src frame_len safe =
    parse_loop-AllSafe (parse_packets depth env)
      (λ d' src' len h. parse_packets-AllSafe depth env d' src' len h) env src frame_len
      (frame_len + 1) d 0 safe
