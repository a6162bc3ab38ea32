-- ===== src/Stdc.antt =====
-- stdc_decode.c and stdc_decode.h: the STD-C frame synchroniser, de-interleaver, descrambler,
-- packet parser and message reassembly. A module for each part; their proofs are in the children.
pub mod Lookup
pub mod Types
pub mod Crc
pub mod Interleave
pub mod Scramble
pub mod Text
pub mod Packet
pub mod Control
pub mod Egc
pub mod Parse
pub mod Feed
pub mod Safe
mod Tests
