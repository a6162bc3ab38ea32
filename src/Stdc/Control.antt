-- ===== src/Stdc/Control.antt =====
-- The packet decoders of stdc_decode.c that keep no state: each returns early on a short packet, and
-- else fills in a message and emits it. `f` is the frame as it reads now.
use inmarsat_sniffer.Base.{
  ℕ, zero, suc, ◌+◌, ◌-◌, ◌*◌, ◌/◌, ◌%◌, ◌^◌, bit_and, bit_or, ◌&&◌, some, List, ◌++◌, ltb, leb,
  if◌then◌else◌, take, length,
}
use inmarsat_sniffer.Base.Text.{codes}
use inmarsat_sniffer.Stdc.Lookup.{get_sat_name, get_les_name, get_descriptor_name}
use inmarsat_sniffer.Stdc.Text.{extract_ia5_text, extract_short_text}
use inmarsat_sniffer.Stdc.Types.{
  MsgType, Message, new_message, text_size, Env, Decoder, emit_message,
}

-- `(f[i] << 8) | f[i + 1]`
unfoldable pub be_16 : (ℕ → ℕ) → ℕ → ℕ
be_16 f i = bit_or (f i * 2 ^ 8) (f (i + 1))

-- `(f[i] << 16) | (f[i + 1] << 8) | f[i + 2]`
unfoldable pub be_24 : (ℕ → ℕ) → ℕ → ℕ
be_24 f i = bit_or (bit_or (f i * 2 ^ 16) (f (i + 1) * 2 ^ 8)) (f (i + 2))

-- `(n - 6000) * 0.0025 + 1626.5` MHz, in units of 100 Hz.
unfoldable pub uplink : ℕ → ℕ
uplink n = n * 25 + 16265000 - 6000 * 25

-- `(n - 8000) * 0.0025 + 1530.5` MHz, in units of 100 Hz.
unfoldable pub downlink : ℕ → ℕ
downlink n = n * 25 + 15305000 - 8000 * 25

-- The satellite and the land earth station that byte `i` names.
unfoldable pub set_station : (ℕ → ℕ) → ℕ → Message → Message
set_station f i msg =
    let sat = bit_and (f i / 2 ^ 6) 0x03 in
    let les = bit_and (f i) 0x3F in
    record msg {
      sat_id = sat;
      les_id = les;
      sat_name = some (get_sat_name sat);
      les_name = some (get_les_name sat les);
    }

-- The station's name as `snprintf` reads it back from the message.
unfoldable pub les_text : (ℕ → ℕ) → ℕ → List ℕ
les_text f i = get_les_name (bit_and (f i / 2 ^ 6) 0x03) (bit_and (f i) 0x3F)

unfoldable pub sat_text : (ℕ → ℕ) → ℕ → List ℕ
sat_text f i = get_sat_name (bit_and (f i / 2 ^ 6) 0x03)

-- `snprintf(msg.text, sizeof(msg.text), ...)` of `s`, then `strlen`.
unfoldable pub set_text : List ℕ → Message → Message
set_text s msg = let t = take (text_size - 1) s in record msg { text = t; text_len = length t }

module _ (env : Env) (d : Decoder) (f : ℕ → ℕ) (p pkt_len : ℕ) where
  open env use {dec, dec_02, fixed_4}

  unfoldable pub decode_channel_clear : Decoder
  decode_channel_clear =
      if ltb pkt_len 8
      then d
      else emit_message d (
          set_text
            (codes "Channel Clear: MES="
              ++ dec (be_24 f (p + 1))
              ++ codes " LES="
              ++ les_text f (p + 4)
              ++ codes " ch="
              ++ dec (f (p + 5)))
            (record (set_station f (p + 4) (new_message MsgType.channel_clear 0x27)) {
              mes_id = be_24 f (p + 1);
              logical_channel = f (p + 5);
            }))

  unfoldable pub decode_msg_ack : Decoder
  decode_msg_ack =
      if ltb pkt_len 9
      then d
      else emit_message d (
          set_text
            (codes "Message Ack: MES="
              ++ dec (be_24 f (p + 1))
              ++ codes " LES="
              ++ les_text f (p + 4)
              ++ codes " ch="
              ++ dec (f (p + 5)))
            (record (set_station f (p + 4) (new_message MsgType.msg_ack 0x2A)) {
              mes_id = be_24 f (p + 1);
              logical_channel = f (p + 5);
            }))

  unfoldable pub decode_ack_request : Decoder
  decode_ack_request =
      let up = uplink (be_16 f (p + 3)) in
      if ltb pkt_len 6
      then d
      else emit_message d (
          set_text
            (codes "Ack Request: LES="
              ++ les_text f (p + 1)
              ++ codes " ch="
              ++ dec (f (p + 2))
              ++ codes " uplink="
              ++ fixed_4 up
              ++ codes " MHz")
            (record (set_station f (p + 1) (new_message MsgType.ack_request 0x08)) {
              logical_channel = f (p + 2);
              uplink_mhz = up;
            }))

  unfoldable pub decode_signalling : Decoder
  decode_signalling =
      let up = uplink (be_16 f (p + 2)) in
      if ltb pkt_len 11
      then d
      else emit_message d (
          set_text (codes "Signalling Channel: uplink=" ++ fixed_4 up ++ codes " MHz")
            (record (new_message MsgType.net_update 0x6C) { uplink_mhz = up }))

  -- `ts_sec` is `frame_number * 8.64`, here in hundredths of a second.
  unfoldable pub decode_bulletin_board : Decoder
  decode_bulletin_board =
      let nv = f (p + 1) in
      let number = be_16 f (p + 2) in
      let ts_sec = number * 864 / 100 in
      let ts_h = number * 864 / 360000 in
      let ts_m = ts_sec % 3600 / 60 in
      let ts_s = ts_sec % 60 in
      if ltb pkt_len 14
      then d
      else emit_message d (
          set_text
            (codes "Bulletin Board: LES="
              ++ les_text f (p + 7)
              ++ codes " sat="
              ++ sat_text f (p + 7)
              ++ codes " frame="
              ++ dec number
              ++ codes " time="
              ++ dec_02 ts_h
              ++ codes ":"
              ++ dec_02 ts_m
              ++ codes ":"
              ++ dec_02 ts_s
              ++ codes " ver="
              ++ dec nv
              ++ codes " ["
              ++ get_descriptor_name 0x7D
              ++ codes "]")
            (record (set_station f (p + 7) (new_message MsgType.bulletin 0x7D)) {
              frame_number = number;
            }))

  unfoldable pub decode_announcement : Decoder
  decode_announcement =
      let down = downlink (be_16 f (p + 6)) in
      if ltb pkt_len 17
      then d
      else emit_message d (
          set_text
            (codes "Announcement: MES="
              ++ dec (be_24 f (p + 2))
              ++ codes " LES="
              ++ les_text f (p + 5)
              ++ codes " ch="
              ++ dec (f (p + 9))
              ++ codes " downlink="
              ++ fixed_4 down
              ++ codes " MHz pres="
              ++ dec (f (p + 14)))
            (record (set_station f (p + 5) (new_message MsgType.announcement 0x81)) {
              mes_id = be_24 f (p + 2);
              logical_channel = f (p + 9);
              downlink_mhz = down;
              presentation = f (p + 14);
            }))

  unfoldable pub decode_chan_assignment : Decoder
  decode_chan_assignment =
      let down = downlink (be_16 f (p + 10)) in
      let up = uplink (be_16 f (p + 12)) in
      if ltb pkt_len 16
      then d
      else emit_message d (
          set_text
            (codes "Channel Assignment: MES="
              ++ dec (be_24 f (p + 2))
              ++ codes " LES="
              ++ les_text f (p + 5)
              ++ codes " ch="
              ++ dec (f (p + 7))
              ++ codes " down="
              ++ fixed_4 down
              ++ codes " up="
              ++ fixed_4 up
              ++ codes " MHz")
            (record (set_station f (p + 5) (new_message MsgType.chan_assignment 0x83)) {
              mes_id = be_24 f (p + 2);
              logical_channel = f (p + 7);
              downlink_mhz = down;
              uplink_mhz = up;
            }))

  unfoldable pub decode_login_ack : Decoder
  decode_login_ack =
      let down = downlink (be_16 f (p + 5)) in
      if ltb pkt_len 8
      then d
      else emit_message d (
          set_text (codes "Login Ack: downlink=" ++ fixed_4 down ++ codes " MHz")
            (record (new_message MsgType.login_ack 0x92) { downlink_mhz = down }))

  -- The text of the payload bytes from `from` up to the two check bytes.
  unfoldable pub short_message : ℕ → Message → Message
  short_message from msg =
      let t = extract_short_text f (p + from) (pkt_len - 2 - from) (text_size - 1) in
      record msg { text = t; text_len = length t }

  unfoldable pub decode_individual_poll : Decoder
  decode_individual_poll =
      let msg = record (set_station f (p + 5) (new_message MsgType.individual_poll 0xA3)) {
        mes_id = be_24 f (p + 2);
      } in
      if ltb pkt_len 8
      then d
      else if leb 38 pkt_len
      then emit_message d (short_message 13 msg)
      else emit_message d (
          set_text
            (codes "Individual Poll: MES="
              ++ dec (be_24 f (p + 2))
              ++ codes " LES="
              ++ les_text f (p + 5))
            msg)

  unfoldable pub decode_confirmation : Decoder
  decode_confirmation =
      let msg = record (set_station f (p + 5) (new_message MsgType.confirmation 0xA8)) {
        mes_id = be_24 f (p + 2);
      } in
      let sm_len = f (p + 9) in
      if ltb pkt_len 9
      then d
      else if ltb 2 sm_len && ltb (p + 11) (p + pkt_len - 2)
      then emit_message d (short_message 11 msg)
      else emit_message d (
          set_text
            (codes "Confirmation: MES="
              ++ dec (be_24 f (p + 2))
              ++ codes " LES="
              ++ les_text f (p + 5))
            msg)

  unfoldable pub decode_message : Decoder
  decode_message =
      let t = extract_ia5_text f (p + 5) (pkt_len - 5 - 2) (text_size - 1) in
      if ltb pkt_len 7
      then d
      else if ltb 0 (length t)
      then emit_message d (record (set_station f (p + 2) (new_message MsgType.message_data 0xAA)) {
        logical_channel = f (p + 3);
        packet_no = f (p + 4);
        text = t;
        text_len = length t;
      })
      else d

  -- `snprintf(msg.text + tlen, sizeof(msg.text) - tlen, ...)`, which cuts off what does not fit, and
  -- `tlen +=` its result, which is the whole length.
  unfoldable pub append_text : List ℕ → List ℕ × ℕ → List ℕ × ℕ
  append_text s (text, tlen) = (text ++ take (text_size - tlen - 1) s, tlen + length s)

  -- The entry at byte `j`.
  unfoldable pub les_entry : ℕ → List ℕ
  les_entry j =
      codes " "
      ++ sat_text f j
      ++ codes "/"
      ++ les_text f j
      ++ codes "@"
      ++ fixed_4 (downlink (be_16 f (j + 4)))

  -- The loop over the stations, with the number of rounds left.
  unfoldable pub les_entries : ℕ → ℕ → List ℕ × ℕ → List ℕ × ℕ
  les_entries zero j acc = acc
  les_entries (suc left) j acc =
      let rest = les_entries left (j + 6) (append_text (les_entry j) acc) in
      if ltb (j + 5) (p + pkt_len - 2) then rest else acc

  unfoldable pub les_list_text : List ℕ × ℕ
  les_list_text =
      let station_count = f (p + 3) in
      les_entries station_count (p + 4)
        (append_text (codes "LES List (" ++ dec station_count ++ codes " stations):") (codes "", 0))

  unfoldable pub decode_les_list : Decoder
  decode_les_list =
      let (t, tlen) = les_list_text in
      if ltb pkt_len 6
      then d
      else emit_message d (record (new_message MsgType.les_list 0xAB) { text = t; text_len = tlen })
