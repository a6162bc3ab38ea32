-- ===== src/Vita/Receive.antt =====
-- The body of the loop of `vita49_thread` on one received datagram.
pub mod Local
pub mod Count
use inmarsat_sniffer.Base.{
  ℕ, zero, suc, ◌+◌, ◌-◌, ◌*◌, ◌/◌, ◌%◌, ◌^◌, ◌==◌, ltb, leb, not, ◌&&◌, ◌||◌, Bool, true, false,
  if◌then◌else◌, List, [], ◌∷◌, ◌++◌, Option, none, some,
}
use inmarsat_sniffer.Vita.Header.{be_32, vrl_strip, vrlp, pkt_type, vrt_parse_header}
use inmarsat_sniffer.Vita.Context.{Report, vrt_handle_context}

-- `iq_format_t`
pub data IqFormat : Type 0 where
  ci8 cu8 ci16 cf32 : IqFormat

-- `sample_buf_t`: the number of samples, and the two values of each: 32-bit words for `cf32`, bytes
-- for the others.
pub record Samples : Type 0 where
  pub is_float : Bool
  pub num : ℕ
  pub values : List ℕ

-- The local variables of the thread, with the buffers pushed and the reports logged so far, oldest
-- first.
pub record Receiver : Type 0 where
  pub last_count : ℕ
  pub have_count : Bool
  pub ctx_logged : Bool
  pub total_pkts : ℕ
  pub skipped_pkts : ℕ
  pub gap_pkts : ℕ
  pub out : List Samples
  pub reports : List Report

-- `++` on an `unsigned long`.
abbrev pub count_one : ℕ → ℕ
count_one n = (n + 1) % 2 ^ 64

-- The values `read i`, `read (i + step)`, ..., `n` of them.
unfoldable pub gather : (ℕ → ℕ) → ℕ → ℕ → ℕ → List ℕ
gather read step i zero = []
gather read step i (suc n) = read i ∷ gather read step (i + step) n

abbrev pub sample_size : IqFormat → ℕ
sample_size cf32 = 8
sample_size ci16 = 4
sample_size ci8 = 2
sample_size cu8 = 2

-- The values of `num` samples at `off`: words out of network order, the upper bytes of words of 16
-- bits, or bytes as they are; the `default` of the `switch` is the case of bytes.
unfoldable pub sample_values : IqFormat → (ℕ → ℕ) → ℕ → ℕ → List ℕ
sample_values cf32 p off num = gather (be_32 p) 4 off (num * 2)
sample_values ci16 p off num = gather p 2 off (num * 2)
sample_values ci8 p off num = gather p 1 off (num * 2)
sample_values cu8 p off num = gather p 1 off (num * 2)

abbrev pub is_float_format : IqFormat → Bool
is_float_format cf32 = true
is_float_format ci16 = false
is_float_format ci8 = false
is_float_format cu8 = false

-- The `switch` on the format, and `push_samples`.
unfoldable pub push_payload : IqFormat → (ℕ → ℕ) → ℕ → ℕ → Receiver → Receiver
push_payload fmt p off bytes r =
    let num = bytes / sample_size fmt in
    let s : Samples = record {
      is_float = is_float_format fmt;
      num = num;
      values = sample_values fmt p off num;
    } in
    if num == 0 then r else record r { out = r.out ++ (s ∷ []) }

-- The sequence count of the packet whose header stands where the wrapper's mark says.
unfoldable pub packet_count : (ℕ → ℕ) → ℕ
packet_count p = be_32 p (if be_32 p 0 == vrlp then 8 else 0) / 2 ^ 16 % 16

-- Sequence gap detection, and the count of packets.
unfoldable pub count_packet : ℕ → Receiver → Receiver
count_packet count r = record r {
  gap_pkts =
      if r.have_count && not (count == (r.last_count + 1) % 16)
      then count_one r.gap_pkts
      else r.gap_pkts;
  last_count = count;
  have_count = true;
  total_pkts = count_one r.total_pkts;
}

unfoldable pub is_context : (ℕ → ℕ) → ℕ → Bool
is_context p len =
    let (ctx_off, ctx_len) = vrl_strip p len in
    let ctype = pkt_type (be_32 p ctx_off) in
    ltb (ctx_off + 4) ctx_len && (ctype == 0x4 || ctype == 0x5)

abbrev pub reported : Option Report → List Report
reported none = []
reported (some c) = c ∷ []

unfoldable pub receive_context : (ℕ → ℕ) → ℕ → Receiver → Receiver
receive_context p len r =
    let (ctx_off, ctx_len) = vrl_strip p len in
    let (logged, report) =
      vrt_handle_context (λ i. p (ctx_off + i)) (ctx_len - ctx_off) r.ctx_logged in
    record r { ctx_logged = logged; reports = r.reports ++ reported report }

unfoldable pub receive_data : IqFormat → (ℕ → ℕ) → ℕ → Receiver → Receiver
receive_data fmt p len r = elim (vrt_parse_header p len) [
  | none ↦ record r { skipped_pkts = count_one r.skipped_pkts }
  | some (off, bytes) ↦ push_payload fmt p off bytes (count_packet (packet_count p) r)
]

unfoldable pub receive : IqFormat → (ℕ → ℕ) → ℕ → Receiver → Receiver
receive fmt p len r = if is_context p len then receive_context p len r else receive_data fmt p len r
