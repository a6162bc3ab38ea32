-- ===== src/Vita/Tests.antt =====
-- Runs of vita49.c, and the theorems of this folder at concrete inputs.
use inmarsat_sniffer.Base.{
  ℕ, ◌+◌, ◌%◌, ◌/◌, ◌^◌, ◌≤◌, ◌<◌, ◌≡◌, refl, List, [], ◌∷◌, ◌++◌, at, some, none, sym, at-append,
  true, false,
}
use inmarsat_sniffer.Vita.Header.{be_32, vrl_strip, vrt_parse_header, hdr_words, optional_words}
use inmarsat_sniffer.Vita.Header.Bounds.{vrt_parse_header-bounds}
use inmarsat_sniffer.Vita.Context.{
  read_be_64, take_field, read_fields, context_fields, log_report, vrt_handle_context,
}
use inmarsat_sniffer.Vita.Receive.{
  ci8, Receiver, gather, sample_values, push_payload, packet_count, count_packet, is_context,
  receive_context, receive_data, receive,
}
use inmarsat_sniffer.Vita.Receive.Count.{packet_count-header}
use inmarsat_sniffer.Vita.Receive.Local.{receive-Agree}

abbrev start : Receiver
start = record {
  last_count = 0;
  have_count = false;
  ctx_logged = false;
  total_pkts = 0;
  skipped_pkts = 0;
  gap_pkts = 0;
  out = [];
  reports = [];
}

-- A wrapped data packet of three words, with two samples of bytes.
abbrev wrapped : List ℕ
wrapped =
    0x56 ∷ 0x52 ∷ 0x4C ∷ 0x50 ∷ 0 ∷ 0 ∷ 0 ∷ 0 ∷ 0x10 ∷ 0x07 ∷ 0 ∷ 3 ∷ 1 ∷ 2 ∷ 3 ∷ 4 ∷ 5 ∷ 6 ∷ 7 ∷ 8
    ∷ 0x56 ∷ 0x45 ∷ 0x4E ∷ 0x44 ∷ []

-- A context packet that reports a sample rate of 16 / 2^20 Hz.
abbrev context : List ℕ
context = 0x40 ∷ 0 ∷ 0 ∷ 5 ∷ 0 ∷ 0 ∷ 0 ∷ 1 ∷ 0 ∷ 0x20 ∷ 0 ∷ 0 ∷ 0 ∷ 0 ∷ 0 ∷ 0 ∷ 0 ∷ 0 ∷ 0 ∷ 16 ∷ []

receive_both : receive ci8 (at wrapped) 24 (receive ci8 (at context) 20 start) ≡ record start {
  last_count = 7;
  have_count = true;
  ctx_logged = true;
  total_pkts = 1;
  out = record { is_float = false; num = 2; values = 5 ∷ 6 ∷ 7 ∷ 8 ∷ [] } ∷ [];
  reports = record { rf_freq = none; samp_rate = some 16 } ∷ [];
}
unfolding receive receive_data receive_context is_context packet_count count_packet push_payload
    sample_values gather vrt_handle_context log_report context_fields read_fields take_field
    read_be_64 vrt_parse_header hdr_words optional_words vrl_strip be_32
receive_both = refl

parse_wrapped : vrt_parse_header (at wrapped) 24 ≡ some (16, 4)
unfolding vrt_parse_header hdr_words optional_words vrl_strip be_32
parse_wrapped = refl

vrt_parse_header-bounds_example :
    ((vrl_strip (at wrapped) 24).0 + 4 ≤ 16)
    × (0 < 4)
    × (4 % 4 ≡ 0)
    × (16 + 4 ≤ (vrl_strip (at wrapped) 24).1)
    × ((vrl_strip (at wrapped) 24).1 ≤ 24)
vrt_parse_header-bounds_example = vrt_parse_header-bounds (at wrapped) 24 16 4 parse_wrapped

packet_count-header_example :
    packet_count (at wrapped) ≡ be_32 (at wrapped) (vrl_strip (at wrapped) 24).0 / 2 ^ 16 % 16
packet_count-header_example = packet_count-header (at wrapped) 24 16 4 parse_wrapped

-- The same datagram before other bytes.
at_stale : (i : ℕ) → i < 24 → at wrapped i ≡ at (wrapped ++ (9 ∷ [])) i
at_stale i h = sym (at-append wrapped (9 ∷ []) i h)

receive-Agree_example :
    receive ci8 (at wrapped) 24 start ≡ receive ci8 (at (wrapped ++ (9 ∷ []))) 24 start
receive-Agree_example = receive-Agree ci8 (at wrapped) (at (wrapped ++ (9 ∷ []))) 24 start at_stale
