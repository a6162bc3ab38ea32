-- ===== src/Feed.antt =====
-- feed.c: the JSON of an STD-C message. The sockets, the queue of the writer thread and the Aero messages
-- are left out.
pub mod Escape
mod Tests
use inmarsat_sniffer.Base.{
  ℕ, zero, suc, ◌+◌, ◌-◌, ◌==◌, ltb, leb, if◌then◌else◌, Bool, true, false, not, ◌&&◌, ◌||◌, List,
  [], ◌∷◌, ◌++◌, Option, none, some, length, take,
}
use mathlib.Core.Option
use inmarsat_sniffer.Base.Int.{ℤ}
use inmarsat_sniffer.Base.Text.{codes}
use inmarsat_sniffer.Stdc.Types.{MsgType, Message}

-- The cases of the `switch`. A `char` is signed, so a byte from 0x80 on is below 0x20.
unfoldable pub escape_byte : ℕ → List ℕ
escape_byte c =
    if c == b'"'
    then b'\\' ∷ b'"' ∷ []
    else if c == b'\\'
    then b'\\' ∷ b'\\' ∷ []
    else if c == 10
    then b'\\' ∷ b'n' ∷ []
    else if c == 13
    then b'\\' ∷ b'r' ∷ []
    else if c == 9
    then b'\\' ∷ b't' ∷ []
    else if leb 0x20 c && ltb c 0x80
    then c ∷ []
    else []

-- The loop, from position `pos` of the output on.
unfoldable pub escape_from : ℕ → ℕ → List ℕ → List ℕ
escape_from maxlen pos [] = []
escape_from maxlen pos (c ∷ s) =
    let rest = escape_from maxlen (pos + length (escape_byte c)) s in
    if ltb pos (maxlen - 6) then escape_byte c ++ rest else []

unfoldable pub json_escape : ℕ → List ℕ → List ℕ
json_escape maxlen s = escape_from maxlen 0 s

unfoldable pub type_str : MsgType → List ℕ
type_str MsgType.egc_single = codes "egc"
type_str MsgType.egc_double_1 = codes "egc"
type_str MsgType.egc_double_2 = codes "egc"
type_str MsgType.bulletin = codes "bulletin"
type_str MsgType.announcement = codes "announcement"
type_str MsgType.channel_clear = codes "signalling"
type_str MsgType.ack_request = codes "signalling"
type_str MsgType.msg_ack = codes "signalling"
type_str MsgType.chan_assignment = codes "signalling"
type_str MsgType.login_ack = codes "login_ack"
type_str MsgType.message_data = codes "message"
type_str MsgType.net_update = codes "net_update"
type_str MsgType.les_list = codes "les_list"
type_str MsgType.individual_poll = codes "poll"
type_str MsgType.confirmation = codes "confirmation"
type_str MsgType.unset = codes "stdc"
type_str MsgType.distress_ack = codes "stdc"
type_str MsgType.multiframe_start = codes "stdc"
type_str MsgType.multiframe_cont = codes "stdc"

abbrev pub or_nothing : Option (List ℕ) → List ℕ
or_nothing none = []
or_nothing (some s) = s

-- What `snprintf` prints: `%d`, `%02X`, a frequency in units of 100 Hz by `%.4f`, a coordinate by `%.6f`,
-- and the time by `%.3f`.
pub record Numbers : Type 0 where
  pub dec : ℕ → List ℕ
  pub hex_02 : ℕ → List ℕ
  pub fixed_4 : ℕ → List ℕ
  pub fixed_6 : ℤ → List ℕ
  pub now : List ℕ

module _ (n : Numbers) (satellite_name : Option (List ℕ)) (msg : Message) where
  open n use {dec, hex_02, fixed_4, fixed_6, now}

  abbrev pub when : Bool → List ℕ → List ℕ
  when true s = s
  when false s = []

  abbrev pub position_text : Option ℤ → Option ℤ → List ℕ
  position_text (some lat) (some lon) =
      codes ",\"lat\":" ++ fixed_6 lat ++ codes ",\"lon\":" ++ fixed_6 lon
  position_text (some lat) none = []
  position_text none lon = []

  -- What is printed before the text and after it.
  unfoldable pub before_text : List ℕ
  before_text =
      codes "{\"source\":\"inmarsat-sniffer\",\"type\":\""
      ++ type_str msg.type
      ++ codes "\",\"satellite\":\""
      ++ or_nothing satellite_name
      ++ codes "\",\"descriptor\":\"0x"
      ++ hex_02 msg.descriptor
      ++ codes "\""
      ++ when (ltb 0 msg.les_id) (
          codes ",\"sat_id\":"
          ++ dec msg.sat_id
          ++ codes ",\"sat_name\":\""
          ++ or_nothing msg.sat_name
          ++ codes "\",\"les_id\":"
          ++ dec msg.les_id
          ++ codes ",\"les_name\":\""
          ++ or_nothing msg.les_name
          ++ codes "\"")
      ++ when (ltb 0 msg.service_code || ltb 0 msg.priority) (
          codes ",\"service\":"
          ++ dec msg.service_code
          ++ codes ",\"priority\":"
          ++ dec msg.priority)
      ++ when (ltb 0 msg.mes_id) (codes ",\"mes_id\":" ++ dec msg.mes_id)
      ++ when (ltb 0 msg.logical_channel) (codes ",\"channel\":" ++ dec msg.logical_channel)
      ++ when (ltb 0 msg.uplink_mhz) (codes ",\"uplink_mhz\":" ++ fixed_4 msg.uplink_mhz)
      ++ when (ltb 0 msg.downlink_mhz) (codes ",\"downlink_mhz\":" ++ fixed_4 msg.downlink_mhz)

  unfoldable pub after_text : List ℕ
  after_text =
      when msg.has_position (position_text msg.lat msg.lon)
      ++ codes ",\"timestamp\":"
      ++ now
      ++ codes "}"

  -- The line that is sent, if it fits the buffer. What stands behind the NUL of the text is NUL, which is
  -- not printed.
  unfoldable pub feed_stdc_message : Option (List ℕ)
  feed_stdc_message =
      let escaped = json_escape 4096 (take msg.text_len msg.text) in
      let buf = before_text ++ (codes ",\"text\":\"" ++ (escaped ++ (b'"' ∷ after_text))) in
      if ltb 0 (length buf) && ltb (length buf) 8192 then some buf else none
