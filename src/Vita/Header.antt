-- ===== src/Vita/Header.antt =====
-- The wrapper and the header of a packet: `vrl_strip` and `vrt_parse_header`.
pub mod Bounds
pub mod Local
use inmarsat_sniffer.Base.{
  ℕ, ◌+◌, ◌-◌, ◌*◌, ◌/◌, ◌%◌, ◌^◌, ◌==◌, ltb, leb, not, ◌&&◌, ◌||◌, Bool, if◌then◌else◌, Option,
  none, some,
}

-- `ntohl` of the four bytes at `i`.
unfoldable pub be_32 : (ℕ → ℕ) → ℕ → ℕ
be_32 p i = p i * 2 ^ 24 + p (i + 1) * 2 ^ 16 + p (i + 2) * 2 ^ 8 + p (i + 3)

-- "VRLP"
abbrev pub vrlp : ℕ
vrlp = 0x56524C50

-- The offset of the packet, and `*pkt_len`.
unfoldable pub vrl_strip : (ℕ → ℕ) → ℕ → ℕ × ℕ
vrl_strip p pkt_len = if leb 12 pkt_len && be_32 p 0 == vrlp then (8, pkt_len - 4) else (0, pkt_len)

-- The fields of a header word.
abbrev pub pkt_type : ℕ → ℕ
pkt_type w = w / 2 ^ 28 % 16

abbrev pub class_id : ℕ → ℕ
class_id w = w / 2 ^ 27 % 2

abbrev pub trailer : ℕ → ℕ
trailer w = w / 2 ^ 26 % 2

abbrev pub tsi : ℕ → ℕ
tsi w = w / 2 ^ 22 % 4

abbrev pub tsf : ℕ → ℕ
tsf w = w / 2 ^ 20 % 4

abbrev pub pkt_size_w : ℕ → ℕ
pkt_size_w w = w % 2 ^ 16

abbrev pub type_signal_data_no_sid : ℕ
type_signal_data_no_sid = 0x0

abbrev pub type_signal_data : ℕ
type_signal_data = 0x1

-- The words of the class identifier and the time stamps.
unfoldable pub optional_words : ℕ → ℕ
optional_words w =
    (if class_id w == 0 then 0 else 2)
    + (if tsi w == 0 then 0 else 1)
    + (if tsf w == 0 then 0 else 2)

unfoldable pub hdr_words : ℕ → ℕ
hdr_words w = 1 + (if pkt_type w == type_signal_data then 1 else 0) + optional_words w

-- `*payload_off` and `*payload_bytes` where the result is 0.
unfoldable pub vrt_parse_header : (ℕ → ℕ) → ℕ → Option (ℕ × ℕ)
vrt_parse_header p len =
    let (vrl_off, pkt_len) = vrl_strip p len in
    let w0 = be_32 p vrl_off in
    let vrt_len = pkt_len - vrl_off in
    let pkt_size_bytes = pkt_size_w w0 * 4 in
    let trailer_words = if trailer w0 == 0 then 0 else 1 in
    let payload_words = pkt_size_w w0 - hdr_words w0 - trailer_words in
    if ltb len 4
    then none
    else if not (pkt_type w0 == type_signal_data_no_sid) && not (pkt_type w0 == type_signal_data)
    then none
    else if ltb vrt_len pkt_size_bytes || ltb pkt_size_bytes 4
    then none
    else if leb (pkt_size_w w0) (hdr_words w0 + trailer_words)
    then none
    else some (vrl_off + hdr_words w0 * 4, payload_words * 4)
