-- ===== src/Stdc/Parse/Kept.antt =====
-- The packet decoders write neither the frame that is parsed nor, but for the multiframe packets, the
-- state of the reassembly.
use inmarsat_sniffer.Base.{
  ℕ, ◌+◌, ◌≡◌, refl, inl, inr, Bool, true, false, not, if◌then◌else◌, ltb, set, Option-cases,
}
use inmarsat_sniffer.Stdc.Types.{Message, Env, Decoder, emit_message}
use inmarsat_sniffer.Stdc.Control
use inmarsat_sniffer.Stdc.Egc.{
  now, after_time, find_existing, find_free, find_egc_slot, egc_message, slot_at, try_emit_egc,
  store_part, emit_part, decode_egc,
}
use inmarsat_sniffer.Stdc.Control.{be_16}

pub record IsKept (d x : Decoder) : Type 0 where
  pub decoded : x.decoded ≡ d.decoded
  pub mfp : x.mfp ≡ d.mfp

pub self-IsKept : (d : Decoder) → IsKept d d
self-IsKept d = record { decoded = refl; mfp = refl }

if-IsKept :
    {d : Decoder} (b : Bool) {x y : Decoder}
    → IsKept d x
    → IsKept d y
    → IsKept d (if b then x else y)
if-IsKept true hx hy = hx
if-IsKept false hx hy = hy

emit_message-IsKept : {d x : Decoder} (msg : Message) → IsKept d x → IsKept d (emit_message x msg)
unfolding emit_message
emit_message-IsKept {d} {x} msg k =
    if-IsKept x.has_cb (record { decoded = k.decoded; mfp = k.mfp }) k

short_or-IsKept :
    (b : Bool) (d : Decoder) (msg : Message) → IsKept d (if b then d else emit_message d msg)
short_or-IsKept b d msg = if-IsKept b (self-IsKept d) (emit_message-IsKept msg (self-IsKept d))

module _ (env : Env) (d : Decoder) (f : ℕ → ℕ) (p pkt_len : ℕ) where
  pub decode_ack_request-IsKept : IsKept d (Control.decode_ack_request env d f p pkt_len)
  unfolding Control.decode_ack_request
  decode_ack_request-IsKept = short_or-IsKept (ltb pkt_len 6) d _

  pub decode_channel_clear-IsKept : IsKept d (Control.decode_channel_clear env d f p pkt_len)
  unfolding Control.decode_channel_clear
  decode_channel_clear-IsKept = short_or-IsKept (ltb pkt_len 8) d _

  pub decode_msg_ack-IsKept : IsKept d (Control.decode_msg_ack env d f p pkt_len)
  unfolding Control.decode_msg_ack
  decode_msg_ack-IsKept = short_or-IsKept (ltb pkt_len 9) d _

  pub decode_signalling-IsKept : IsKept d (Control.decode_signalling env d f p pkt_len)
  unfolding Control.decode_signalling
  decode_signalling-IsKept = short_or-IsKept (ltb pkt_len 11) d _

  pub decode_bulletin_board-IsKept : IsKept d (Control.decode_bulletin_board env d f p pkt_len)
  unfolding Control.decode_bulletin_board
  decode_bulletin_board-IsKept = short_or-IsKept (ltb pkt_len 14) d _

  pub decode_announcement-IsKept : IsKept d (Control.decode_announcement env d f p pkt_len)
  unfolding Control.decode_announcement
  decode_announcement-IsKept = short_or-IsKept (ltb pkt_len 17) d _

  pub decode_chan_assignment-IsKept : IsKept d (Control.decode_chan_assignment env d f p pkt_len)
  unfolding Control.decode_chan_assignment
  decode_chan_assignment-IsKept = short_or-IsKept (ltb pkt_len 16) d _

  pub decode_login_ack-IsKept : IsKept d (Control.decode_login_ack env d f p pkt_len)
  unfolding Control.decode_login_ack
  decode_login_ack-IsKept = short_or-IsKept (ltb pkt_len 8) d _

  pub decode_les_list-IsKept : IsKept d (Control.decode_les_list env d f p pkt_len)
  unfolding Control.decode_les_list
  decode_les_list-IsKept = short_or-IsKept (ltb pkt_len 6) d _

  pub decode_individual_poll-IsKept : IsKept d (Control.decode_individual_poll env d f p pkt_len)
  unfolding Control.decode_individual_poll
  decode_individual_poll-IsKept =
      if-IsKept (ltb pkt_len 8) (self-IsKept d) (
        if-IsKept _ (emit_message-IsKept _ (self-IsKept d)) (emit_message-IsKept _ (self-IsKept d)))

  pub decode_confirmation-IsKept : IsKept d (Control.decode_confirmation env d f p pkt_len)
  unfolding Control.decode_confirmation
  decode_confirmation-IsKept =
      if-IsKept (ltb pkt_len 9) (self-IsKept d) (
        if-IsKept _ (emit_message-IsKept _ (self-IsKept d)) (emit_message-IsKept _ (self-IsKept d)))

  pub decode_message-IsKept : IsKept d (Control.decode_message env d f p pkt_len)
  unfolding Control.decode_message
  decode_message-IsKept =
      if-IsKept (ltb pkt_len 7) (self-IsKept d)
        (if-IsKept _ (emit_message-IsKept _ (self-IsKept d)) (self-IsKept d))

find_egc_slot-IsKept :
    (env : Env) (d : Decoder) (msg_id : ℕ) → IsKept d (find_egc_slot env d msg_id).1
unfolding find_egc_slot
find_egc_slot-IsKept env d msg_id = elim (Option-cases (find_existing msg_id d.egc_slots 0)) [
  | inr (i, found) ↦ rw (found, find_egc_slot) (record { decoded = refl; mfp = refl })
  | inl new ↦ elim (Option-cases (find_free (now env d) d.egc_slots 0)) [
    | inr (i, free) ↦ rw (new, free, find_egc_slot) (record { decoded = refl; mfp = refl })
    | inl full ↦ rw (new, full, find_egc_slot) (record { decoded = refl; mfp = refl })
  ]
]

try_emit_egc-IsKept : {d x : Decoder} (i : ℕ) → IsKept d x → IsKept d (try_emit_egc x i)
unfolding try_emit_egc
try_emit_egc-IsKept {d} {x} i k =
    let msg = egc_message (slot_at x i) in
    let emitted : IsKept d (if ltb 0 msg.text_len then emit_message x msg else x) =
      if-IsKept (ltb 0 msg.text_len) (emit_message-IsKept msg k) k in
    if-IsKept (not (slot_at x i).complete) k
      (record { decoded = emitted.decoded; mfp = emitted.mfp })

emit_part-IsKept :
    {d x : Decoder} (f : ℕ → ℕ) (p pkt_len is_part2 : ℕ)
    → IsKept d x
    → IsKept d (emit_part x f p pkt_len is_part2)
unfolding emit_part
emit_part-IsKept f p pkt_len is_part2 k = if-IsKept _ (emit_message-IsKept _ k) k

pub decode_egc-IsKept :
    (env : Env) (d : Decoder) (f : ℕ → ℕ) (p pkt_len is_part2 : ℕ)
    → IsKept d (decode_egc env d f p pkt_len is_part2)
unfolding decode_egc
decode_egc-IsKept env d f p pkt_len is_part2 =
    let found = find_egc_slot env d (be_16 f (p + 4)) in
    let k = find_egc_slot-IsKept env d (be_16 f (p + 4)) in
    let slot = store_part f p pkt_len is_part2 (now env found.1) (slot_at found.1 found.0) in
    let d2 : Decoder = record (after_time found.1) {
      egc_slots = set found.1.egc_slots found.0 slot;
    } in
    let d2-IsKept : IsKept d d2 = record { decoded = k.decoded; mfp = k.mfp } in
    let d3-IsKept = emit_part-IsKept f p pkt_len is_part2 d2-IsKept in
    if-IsKept (ltb pkt_len 10) (self-IsKept d)
      (if-IsKept slot.complete (try_emit_egc-IsKept found.0 d3-IsKept) d3-IsKept)
