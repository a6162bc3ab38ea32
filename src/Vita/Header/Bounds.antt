-- ===== src/Vita/Header/Bounds.antt =====
-- The payload that `vrt_parse_header` finds lies inside the datagram.
use inmarsat_sniffer.Base.{ℕ, ◌+◌, ◌%◌, ◌≤◌, ◌<◌, ◌≡◌, arith, ◌==◌, if◌then◌else◌, some}
use inmarsat_sniffer.Vita.Header.{be_32, vrl_strip, vrlp, vrt_parse_header, hdr_words}

-- An accepted payload starts after the first header word of its packet, is a positive number of
-- words, and ends within the datagram, before the trailer of a wrapped packet.
pub vrt_parse_header-bounds :
    (p : ℕ → ℕ) (len off bytes : ℕ)
    → vrt_parse_header p len ≡ some (off, bytes)
    → ((vrl_strip p len).0 + 4 ≤ off)
      × (0 < bytes)
      × (bytes % 4 ≡ 0)
      × (off + bytes ≤ (vrl_strip p len).1)
      × ((vrl_strip p len).1 ≤ len)
unfolding vrt_parse_header vrl_strip hdr_words
vrt_parse_header-bounds p len off bytes h =
    (ground arith, ground arith, ground arith, ground arith, ground arith)

-- The receive loop looks for the wrapper's mark without the check of the length that `vrl_strip`
-- makes; in an accepted packet both find the header at the same place.
pub seq_offset :
    (p : ℕ → ℕ) (len off bytes : ℕ)
    → vrt_parse_header p len ≡ some (off, bytes)
    → (if be_32 p 0 == vrlp then 8 else 0) ≡ (vrl_strip p len).0
unfolding vrt_parse_header vrl_strip
seq_offset p len off bytes h = ground arith
