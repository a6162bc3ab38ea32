-- ===== src/Vita/Receive/Count.antt =====
-- Where the receive loop takes the sequence count from.
use inmarsat_sniffer.Base.{ℕ, ◌/◌, ◌%◌, ◌^◌, ◌≡◌, ap, some}
use inmarsat_sniffer.Vita.Header.{be_32, vrl_strip, vrt_parse_header}
use inmarsat_sniffer.Vita.Header.Bounds.{seq_offset}
use inmarsat_sniffer.Vita.Receive.{packet_count}

-- In an accepted packet, the loop, which looks for the wrapper's mark without the length check of
-- `vrl_strip`, takes the sequence count from the header word that `vrt_parse_header` has read.
pub packet_count-header :
    (p : ℕ → ℕ) (len off bytes : ℕ)
    → vrt_parse_header p len ≡ some (off, bytes)
    → packet_count p ≡ be_32 p (vrl_strip p len).0 / 2 ^ 16 % 16
unfolding packet_count
packet_count-header p len off bytes h =
    ap (λ i. be_32 p i / 2 ^ 16 % 16) (seq_offset p len off bytes h)
