-- ===== src/Stdc/Parse.antt =====
-- `parse_packets` of stdc_decode.c, and the multiframe decoders, one of which calls it back.
pub mod Rounds
pub mod Kept
pub mod Handled
pub mod Progress
pub mod Bomb
use inmarsat_sniffer.Base.{
  ℕ, zero, suc, ◌+◌, ◌-◌, ◌*◌, ◌/◌, ◌^◌, bit_and, Bool, true, false, ◌||◌, Option, none, some, ltb,
  leb, ◌==◌, if◌then◌else◌, min,
}
use inmarsat_sniffer.Stdc.Interleave.{copy}
use inmarsat_sniffer.Stdc.Types.{
  Env, Decoder, Source, decoded_frame, reassembled, frame_at, multiframe_size, count_up, Stats,
  Multiframe,
}
use inmarsat_sniffer.Stdc.Packet.{get_packet_length, crc_ok}
use inmarsat_sniffer.Stdc.Control
use inmarsat_sniffer.Stdc.Egc.{decode_egc}

-- The length of the packet inside, from its first bytes at `i`.
unfoldable pub inner_length : (ℕ → ℕ) → ℕ → ℕ
inner_length f i =
    if f i / 2 ^ 7 == 0
    then bit_and (f i) 0x0F + 1
    else if f i / 2 ^ 6 == 0x02
    then f (i + 1) + 2
    else 256

-- The state is reset before the first chunk is copied from the frame, which may be the very buffer
-- that the reset clears.
unfoldable pub decode_multiframe_start : Env → Decoder → Source → ℕ → ℕ → Decoder
decode_multiframe_start env d src p pkt_len =
    let f = frame_at env d src in
    let cleared = record d {
      mfp = record {
        active = true;
        chunk = λ _. 0;
        total_len = inner_length f (p + 2);
        filled = 0;
      };
    } in
    let first_chunk = min (pkt_len - 2 - 2) multiframe_size in
    if ltb pkt_len 5 then d else record cleared {
      mfp = record {
        active = true;
        chunk = copy (λ _. 0) 0 (frame_at env cleared src) (p + 2) first_chunk;
        total_len = inner_length f (p + 2);
        filled = first_chunk;
      };
    }

-- The chunk of a continuation packet added to the buffer.
unfoldable pub add_chunk : Env → Decoder → Source → ℕ → ℕ → Decoder
add_chunk env d src p pkt_len =
    let n = min (pkt_len - 2 - 2) (multiframe_size - d.mfp.filled) in
    record d {
      mfp = record {
        active = d.mfp.active;
        chunk = copy d.mfp.chunk d.mfp.filled (frame_at env d src) (p + 2) n;
        total_len = d.mfp.total_len;
        filled = d.mfp.filled + n;
      };
    }

abbrev pub stop_multiframe : Decoder → Decoder
stop_multiframe d = record d {
  mfp = record {
    active = false;
    chunk = d.mfp.chunk;
    total_len = d.mfp.total_len;
    filled = d.mfp.filled;
  };
}

-- `parse` is `parse_packets` one call deeper; `none` is a call that does not come back.
unfoldable pub decode_multiframe_cont :
    (Decoder → Source → ℕ → Option Decoder) → Env → Decoder → Source → ℕ → ℕ → Option Decoder
decode_multiframe_cont parse env d src p pkt_len =
    let d' = add_chunk env d src p pkt_len in
    if d.mfp.active
    then (if leb d'.mfp.total_len (d'.mfp.filled + 2)
        then elim (parse d' reassembled d'.mfp.total_len) [
          | none ↦ none
          | some d'' ↦ some (stop_multiframe d'')
        ]
        else some d')
    else some d

-- The `switch` on the descriptor.
unfoldable pub dispatch :
    (Decoder → Source → ℕ → Option Decoder) → Env → Decoder → Source → ℕ → ℕ → Option Decoder
dispatch parse env d src p pkt_len =
    let f = frame_at env d src in
    let desc = f p in
    if desc == 0x08
    then some (Control.decode_ack_request env d f p pkt_len)
    else if desc == 0x27
    then some (Control.decode_channel_clear env d f p pkt_len)
    else if desc == 0x2A
    then some (Control.decode_msg_ack env d f p pkt_len)
    else if desc == 0x6C
    then some (Control.decode_signalling env d f p pkt_len)
    else if desc == 0x7D
    then some (Control.decode_bulletin_board env d f p pkt_len)
    else if desc == 0x81
    then some (Control.decode_announcement env d f p pkt_len)
    else if desc == 0x83
    then some (Control.decode_chan_assignment env d f p pkt_len)
    else if desc == 0x92
    then some (Control.decode_login_ack env d f p pkt_len)
    else if desc == 0xA3
    then some (Control.decode_individual_poll env d f p pkt_len)
    else if desc == 0xA8
    then some (Control.decode_confirmation env d f p pkt_len)
    else if desc == 0xAA
    then some (Control.decode_message env d f p pkt_len)
    else if desc == 0xAB
    then some (Control.decode_les_list env d f p pkt_len)
    else if desc == 0xB1
    then some (decode_egc env d f p pkt_len 0)
    else if desc == 0xB2
    then some (decode_egc env d f p pkt_len 1)
    else if desc == 0xBD
    then some (decode_multiframe_start env d src p pkt_len)
    else if desc == 0xBE
    then decode_multiframe_cont parse env d src p pkt_len
    else some d

unfoldable pub count_crc : Bool → Decoder → Decoder
count_crc true d = record d { stats = record (d.stats) { crc_ok = count_up d.stats.crc_ok 1 } }
count_crc false d = record d { stats = record (d.stats) { crc_fail = count_up d.stats.crc_fail 1 } }

-- What a round of the loop does at `pos < frame_len - 2`: leave the loop, or go on from a later
-- position.
pub data Round : Type 0 where
  stop : Round
  go_on : Decoder → ℕ → Round
  stuck : Round

unfoldable pub round :
    (Decoder → Source → ℕ → Option Decoder) → Env → Source → ℕ → Decoder → ℕ → Round
round parse env src frame_len d pos =
    let f = frame_at env d src in
    let pkt_len = get_packet_length f pos frame_len in
    let good = crc_ok env f pos pkt_len in
    let d' = count_crc good d in
    if f pos == 0x00
    then stop
    else if f pos == 0xFF
    then go_on d (pos + 1)
    else if pkt_len == 0 || ltb frame_len (pos + pkt_len)
    then stop
    else if good
    then elim (dispatch parse env d' src pos pkt_len) [
      | none ↦ stuck
      | some d'' ↦ go_on d'' (pos + pkt_len)
    ]
    else go_on d' (pos + pkt_len)

-- The loop, with fuel; `frame_len` rounds are enough.
unfoldable pub parse_loop :
    (Decoder → Source → ℕ → Option Decoder) → Env → Source → ℕ → ℕ → Decoder → ℕ → Option Decoder
parse_loop parse env src frame_len zero d pos = none
parse_loop parse env src frame_len (suc fuel) d pos = elim (ltb (pos + 2) frame_len) [
  | false ↦ some d
  | true ↦ elim (round parse env src frame_len d pos) [
    | stop ↦ some d
    | stuck ↦ none
    | go_on d' pos' ↦ parse_loop parse env src frame_len fuel d' pos'
  ]
]

-- `parse_packets`, where at most `depth` calls may be open at once.
unfoldable pub parse_packets : ℕ → Env → Decoder → Source → ℕ → Option Decoder
parse_packets zero env d src frame_len = none
parse_packets (suc depth) env d src frame_len =
    parse_loop (parse_packets depth env) env src frame_len (frame_len + 1) d 0
