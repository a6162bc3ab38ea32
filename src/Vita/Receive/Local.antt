-- ===== src/Vita/Receive/Local.antt =====
-- The receiver reads nothing of its buffer after the datagram.
use inmarsat_sniffer.Base.{
  ℕ, zero, suc, ◌+◌, ◌-◌, ◌*◌, ◌/◌, ◌≤◌, ◌<◌, ◌≡◌, refl, ap, ap₂, arith, ◌==◌, Bool, if◌then◌else◌,
  ◌∷◌, ◌++◌, Option, none, some, ◌∙◌,
}
use inmarsat_sniffer.Vita.Header.{be_32, vrl_strip, vrlp, vrt_parse_header}
use inmarsat_sniffer.Vita.Header.Bounds.{vrt_parse_header-bounds, seq_offset}
use inmarsat_sniffer.Vita.Context.{Report, vrt_handle_context}
use inmarsat_sniffer.Vita.Receive.{
  IqFormat, cf32, ci16, ci8, cu8, Receiver, gather, sample_size, sample_values, push_payload,
  packet_count, is_context, receive_context, receive_data, receive, count_packet, count_one,
  reported,
}
use inmarsat_sniffer.Vita.Header.Local.{
  Agree, be_32-Agree, vrl_strip-Agree, vrt_parse_header-Agree, vrl_strip-fits,
}
use inmarsat_sniffer.Vita.Context.Local.{vrt_handle_context-Agree}

gather-Agree :
    (f g : ℕ → ℕ) (step i n stop : ℕ)
    → ((k : ℕ) → k + step ≤ stop → f k ≡ g k)
    → i + n * step ≤ stop
    → gather f step i n ≡ gather g step i n
unfolding gather
gather-Agree f g step i zero stop same fits = refl
gather-Agree f g step i (suc n) stop same fits =
    ap₂ (λ x xs. x ∷ xs) (same i (omega arith))
      (gather-Agree f g step (i + step) n stop same (omega arith))

sample_values-Agree :
    (fmt : IqFormat) (p q : ℕ → ℕ) (len off num : ℕ)
    → Agree p q len
    → off + num * sample_size fmt ≤ len
    → sample_values fmt p off num ≡ sample_values fmt q off num
unfolding sample_values
sample_values-Agree cf32 p q len off num a fits =
    gather-Agree (be_32 p) (be_32 q) 4 off (num * 2) len (λ k h. be_32-Agree p q len k a h)
      (omega arith)
sample_values-Agree ci16 p q len off num a fits =
    gather-Agree p q 2 off (num * 2) len (λ k h. a k (omega arith)) (omega arith)
sample_values-Agree ci8 p q len off num a fits =
    gather-Agree p q 1 off (num * 2) len (λ k h. a k (omega arith)) (omega arith)
sample_values-Agree cu8 p q len off num a fits =
    gather-Agree p q 1 off (num * 2) len (λ k h. a k (omega arith)) (omega arith)

is_context-Agree : (p q : ℕ → ℕ) (len : ℕ) → Agree p q len → is_context p len ≡ is_context q len
unfolding is_context
is_context-Agree p q len a =
    let strip = vrl_strip-Agree p q len a in
    let word : (vrl_strip q len).0 + 4 < (vrl_strip q len).1
        → be_32 p (vrl_strip q len).0 ≡ be_32 q (vrl_strip q len).0 =
      λ h. be_32-Agree p q len (vrl_strip q len).0 a (omega (arith, (vrl_strip-fits q len).0)) in
    rw strip (ground (arith, word))

receive_context-Agree :
    (p q : ℕ → ℕ) (len : ℕ) (r : Receiver)
    → Agree p q len
    → receive_context p len r ≡ receive_context q len r
unfolding receive_context
receive_context-Agree p q len r a =
    let s : ℕ × ℕ = vrl_strip q len in
    let context : vrt_handle_context (λ i. p (s.0 + i)) (s.1 - s.0) r.ctx_logged
        ≡ vrt_handle_context (λ i. q (s.0 + i)) (s.1 - s.0) r.ctx_logged =
      vrt_handle_context-Agree (λ i. p (s.0 + i)) (λ i. q (s.0 + i)) (s.1 - s.0) r.ctx_logged
        (λ i h. a (s.0 + i) (omega (arith, h, vrl_strip-fits q len))) in
    rw (vrl_strip-Agree p q len a) (
      ap
        (λ (c : Bool × Option Report). record r {
          ctx_logged = c.0;
          reports = r.reports ++ reported c.1;
        })
        context)

packet_count-Agree :
    (p q : ℕ → ℕ) (len : ℕ)
    → Agree p q len
    → 4 ≤ len
    → (if be_32 q 0 == vrlp then 8 else 0) + 4 ≤ len
    → packet_count p ≡ packet_count q
unfolding packet_count
packet_count-Agree p q len a h inside =
    rw (be_32-Agree p q len 0 a h) (rw (be_32-Agree p q len _ a inside) refl)

whole_samples : (fmt : IqFormat) (bytes : ℕ) → bytes / sample_size fmt * sample_size fmt ≤ bytes
whole_samples cf32 bytes = omega arith
whole_samples ci16 bytes = omega arith
whole_samples ci8 bytes = omega arith
whole_samples cu8 bytes = omega arith

push_payload-Agree :
    (fmt : IqFormat) (p q : ℕ → ℕ) (len off bytes : ℕ) (r : Receiver)
    → Agree p q len
    → off + bytes ≤ len
    → push_payload fmt p off bytes r ≡ push_payload fmt q off bytes r
unfolding push_payload
push_payload-Agree fmt p q len off bytes r a fits =
    rw
      (sample_values-Agree fmt p q len off (bytes / sample_size fmt) a
        (omega (arith, whole_samples fmt bytes)))
      refl

-- What follows the parsing of the header.
abbrev accepted : IqFormat → (ℕ → ℕ) → Receiver → Option (ℕ × ℕ) → Receiver
accepted fmt f r h = elim h as (λ x. Receiver) [
  | none ↦ record r { skipped_pkts = count_one r.skipped_pkts }
  | some (off, bytes) ↦ push_payload fmt f off bytes (count_packet (packet_count f) r)
]

accepted-Agree :
    (fmt : IqFormat) (p q : ℕ → ℕ) (len : ℕ) (r : Receiver) (h : Option (ℕ × ℕ))
    → Agree p q len
    → vrt_parse_header q len ≡ h
    → accepted fmt p r h ≡ accepted fmt q r h
accepted-Agree fmt p q len r none a e = refl
accepted-Agree fmt p q len r (some (off, bytes)) a e =
    let b = vrt_parse_header-bounds q len off bytes e in
    let count : packet_count p ≡ packet_count q =
      packet_count-Agree p q len a (omega (arith, b))
        (omega (arith, b, seq_offset q len off bytes e)) in
    push_payload-Agree fmt p q len off bytes (count_packet (packet_count p) r) a (omega (arith, b))
    ∙ ap (λ n. push_payload fmt q off bytes (count_packet n r)) count

receive_data-Agree :
    (fmt : IqFormat) (p q : ℕ → ℕ) (len : ℕ) (r : Receiver)
    → Agree p q len
    → receive_data fmt p len r ≡ receive_data fmt q len r
unfolding receive_data
receive_data-Agree fmt p q len r a =
    ap (accepted fmt p r) (vrt_parse_header-Agree p q len a)
    ∙ accepted-Agree fmt p q len r (vrt_parse_header q len) a refl

-- Two buffers that hold the same datagram, whatever stands behind it, are received alike, in every
-- format and from every state: no byte after the datagram is looked at.
pub receive-Agree :
    (fmt : IqFormat) (p q : ℕ → ℕ) (len : ℕ) (r : Receiver)
    → Agree p q len
    → receive fmt p len r ≡ receive fmt q len r
unfolding receive
receive-Agree fmt p q len r a =
    rw
      (
        is_context-Agree p q len a,
        receive_context-Agree p q len r a,
        receive_data-Agree fmt p q len r a,
      )
      refl
