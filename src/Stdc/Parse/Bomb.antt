-- ===== src/Stdc/Parse/Bomb.antt =====
-- A frame on which `parse_packets` calls itself without end.
use inmarsat_sniffer.Base.{ℕ, zero, suc, ◌≤◌, ◌≡◌, refl, ◌∙◌, arith, true, Option, none}
use inmarsat_sniffer.Stdc.Types.{Env, Decoder, Source, decoded_frame, reassembled, frame_at}
use inmarsat_sniffer.Stdc.Packet.{get_packet_length}
use inmarsat_sniffer.Stdc.Parse.{
  add_chunk, decode_multiframe_start, inner_length, decode_multiframe_cont, go_on, stuck, round,
  parse_packets, count_crc,
}
use inmarsat_sniffer.Stdc.Parse.Rounds.{
  zero-crc_ok, round-none, round-some, dispatch-cont, dispatch-start, loop-stuck, loop-go_on,
}

-- The packet under reassembly is itself a continuation packet, of 5 bytes with zero check bytes.
pub record IsBomb (d : Decoder) : Type 0 where
  pub active : d.mfp.active ≡ true
  pub total : d.mfp.total_len ≡ 5
  pub filled : 3 ≤ d.mfp.filled
  pub desc : d.mfp.chunk 0 ≡ 0xBE
  pub len : d.mfp.chunk 1 ≡ 3
  pub body : d.mfp.chunk 2 ≡ 0
  pub check_1 : d.mfp.chunk 3 ≡ 0
  pub check_2 : d.mfp.chunk 4 ≡ 0

add_chunk-IsBomb : (env : Env) (d : Decoder) → IsBomb d → IsBomb (add_chunk env d reassembled 0 5)
unfolding add_chunk frame_at
add_chunk-IsBomb env d b = record {
  active = b.active;
  total = b.total;
  filled = omega arith;
  desc = ground arith;
  len = ground arith;
  body = ground arith;
  check_1 = ground arith;
  check_2 = ground arith;
}

-- A continuation packet that completes the bomb calls the parser on it.
cont-none :
    (parse : Decoder → Source → ℕ → Option Decoder) (env : Env) (d : Decoder) (src : Source) (p : ℕ)
    → d.mfp.active ≡ true
    → IsBomb (add_chunk env d src p 5)
    → ((d' : Decoder) → IsBomb d' → parse d' reassembled 5 ≡ none)
    → decode_multiframe_cont parse env d src p 5 ≡ none
unfolding decode_multiframe_cont
cont-none parse env d src p active b deeper = ground (arith, deeper (add_chunk env d src p 5) b)

IsBomb-count_crc : (d : Decoder) → IsBomb d → IsBomb (count_crc true d)
unfolding count_crc
IsBomb-count_crc d b = record {
  active = b.active;
  total = b.total;
  filled = b.filled;
  desc = b.desc;
  len = b.len;
  body = b.body;
  check_1 = b.check_1;
  check_2 = b.check_2;
}

-- Parsing the reassembled packet never comes back, however many nested calls are allowed.
pub parse_packets-IsBomb :
    (depth : ℕ) (env : Env) (d : Decoder)
    → IsBomb d
    → parse_packets depth env d reassembled 5 ≡ none
unfolding parse_packets
parse_packets-IsBomb zero env d b = refl
parse_packets-IsBomb (suc depth) env d b =
    loop-stuck (parse_packets depth env) env reassembled 5 5 0 d (omega arith) (
      round-none (parse_packets depth env) env reassembled d 5 0 5
        (record {
          length_eq = unfold get_packet_length frame_at in rw (b.desc, b.len);
          not_end = unfold frame_at in omega (arith, b.desc);
          not_padding = unfold frame_at in omega (arith, b.desc);
          nonempty = omega arith;
          inside = omega arith;
          crc =
              zero-crc_ok env (frame_at env d reassembled) 0 5 (omega arith)
                (unfold frame_at in b.check_1) (unfold frame_at in b.check_2);
        })
        (dispatch-cont (parse_packets depth env) env reassembled (count_crc true d) 0 5
            (unfold frame_at count_crc in b.desc)
          ∙ cont-none (parse_packets depth env) env (count_crc true d) reassembled 0
              (unfold count_crc in b.active)
              (add_chunk-IsBomb env (count_crc true d) (IsBomb-count_crc d b))
              (parse_packets-IsBomb depth env)))

-- The frame that sets it off: a multiframe start packet that announces a continuation packet as its
-- content, and a continuation packet that completes it, all with zero check bytes.
pub record IsTrap (f : ℕ → ℕ) : Type 0 where
  pub start : f 0 ≡ 0xBD
  pub start_len : f 1 ≡ 5
  pub inner : f 2 ≡ 0xBE
  pub inner_len : f 3 ≡ 3
  pub inner_body : f 4 ≡ 0
  pub start_check_1 : f 5 ≡ 0
  pub start_check_2 : f 6 ≡ 0
  pub cont : f 7 ≡ 0xBE
  pub cont_len : f 8 ≡ 3
  pub cont_body : f 9 ≡ 0
  pub cont_check_1 : f 10 ≡ 0
  pub cont_check_2 : f 11 ≡ 0

module _ (env : Env) (d : Decoder) (trap : IsTrap d.decoded) where
  abbrev counted : Decoder
  counted = count_crc true d

  -- The state after the start packet.
  abbrev armed : Decoder
  armed = decode_multiframe_start env counted decoded_frame 0 7

  started :
      (parse : Decoder → Source → ℕ → Option Decoder)
      → round parse env decoded_frame 640 d 0 ≡ go_on armed 7
  started parse =
      round-some parse env decoded_frame d armed 640 0 7
        (record {
          length_eq = unfold get_packet_length frame_at in rw (trap.start, trap.start_len);
          not_end = unfold frame_at in omega (arith, trap.start);
          not_padding = unfold frame_at in omega (arith, trap.start);
          nonempty = omega arith;
          inside = omega arith;
          crc =
              zero-crc_ok env (frame_at env d decoded_frame) 0 7 (omega arith)
                (unfold frame_at in trap.start_check_1) (unfold frame_at in trap.start_check_2);
        })
        (dispatch-start parse env decoded_frame counted 0 7
          (unfold frame_at count_crc in trap.start))

  completed : IsBomb (add_chunk env (count_crc true armed) decoded_frame 7 5)
  unfolding add_chunk count_crc decode_multiframe_start frame_at inner_length
  completed = record {
    active = refl;
    total = rw (trap.inner, trap.inner_len);
    filled = omega arith;
    desc = trap.inner;
    len = trap.inner_len;
    body = trap.inner_body;
    check_1 = trap.cont_body;
    check_2 = refl;
  }

  cont_stuck : (depth : ℕ) → round (parse_packets depth env) env decoded_frame 640 armed 7 ≡ stuck
  cont_stuck depth =
      round-none (parse_packets depth env) env decoded_frame armed 640 7 5
        (record {
          length_eq =
              unfold get_packet_length frame_at count_crc decode_multiframe_start in
              rw (trap.cont, trap.cont_len);
          not_end = unfold frame_at count_crc decode_multiframe_start in omega (arith, trap.cont);
          not_padding =
              unfold frame_at count_crc decode_multiframe_start in omega (arith, trap.cont);
          nonempty = omega arith;
          inside = omega arith;
          crc =
              zero-crc_ok env (frame_at env armed decoded_frame) 7 5 (omega arith)
                (unfold frame_at count_crc decode_multiframe_start in trap.cont_check_1)
                (unfold frame_at count_crc decode_multiframe_start in trap.cont_check_2);
        })
        (dispatch-cont (parse_packets depth env) env decoded_frame (count_crc true armed) 7 5
            (unfold frame_at count_crc decode_multiframe_start in trap.cont)
          ∙ cont-none (parse_packets depth env) env (count_crc true armed) decoded_frame 7
              (unfold count_crc decode_multiframe_start in refl) completed
              (λ d' b. parse_packets-IsBomb depth env d' b))

  -- A frame that begins with a start packet around a continuation packet, followed by a continuation
  -- packet, both with zero check bytes, is never parsed to its end, however deep the calls of
  -- `parse_packets` may nest: the reassembled packet calls the parser on itself.
  pub parse_packets-IsTrap : (depth : ℕ) → parse_packets depth env d decoded_frame 640 ≡ none
  unfolding parse_packets
  parse_packets-IsTrap zero = refl
  parse_packets-IsTrap (suc depth) =
      loop-go_on (parse_packets depth env) env decoded_frame 640 640 0 7 d armed (omega arith)
        (started (parse_packets depth env))
      ∙ loop-stuck (parse_packets depth env) env decoded_frame 640 639 7 armed (omega arith)
          (cont_stuck depth)
