-- ===== src/Vita.antt =====
-- The VITA-49 receiver of vita49.c: what it does with one datagram. `p` is the receive buffer, of which
-- the datagram fills the first `len` bytes; what follows is left from earlier datagrams.
pub mod Header
pub mod Context
pub mod Receive
mod Tests
