-- ===== src/Stdc/Packet.antt =====
-- `get_packet_length` and the packet checks of `parse_packets` in stdc_decode.c.
use inmarsat_sniffer.Base.{
  ℕ, ◌+◌, ◌-◌, ◌*◌, ◌/◌, ◌^◌, bit_and, bit_or, Bool, ◌||◌, ltb, leb, ◌==◌, if◌then◌else◌,
}
use inmarsat_sniffer.Stdc.Types.{Env}
use inmarsat_sniffer.Stdc.Crc.{compute_crc}

-- `pos < frame_len` where it is called.
unfoldable pub get_packet_length : (ℕ → ℕ) → ℕ → ℕ → ℕ
get_packet_length f pos frame_len =
    let desc = f pos in
    if desc / 2 ^ 7 == 0
    then bit_and desc 0x0F + 1
    else if desc / 2 ^ 6 == 0x02
    then (if leb frame_len (pos + 1) then frame_len - pos else f (pos + 1) + 2)
    else frame_len - pos

-- `frame[i - 2]`, where an index below 0 is a read outside the frame.
abbrev pub two_back : Env → (ℕ → ℕ) → ℕ → ℕ
two_back env f i = if ltb i 2 then env.stray else f (i - 2)

-- The stored check bytes.
unfoldable pub packet_crc : Env → (ℕ → ℕ) → ℕ → ℕ → ℕ
packet_crc env f pos pkt_len =
    bit_or (two_back env f (pos + pkt_len) * 2 ^ 8) (f (pos + pkt_len - 1))

unfoldable pub crc_ok : Env → (ℕ → ℕ) → ℕ → ℕ → Bool
crc_ok env f pos pkt_len =
    let pkt_crc = packet_crc env f pos pkt_len in
    pkt_crc == 0 || pkt_crc == compute_crc f pos pkt_len
