-- ===== src/Stdc/Parse/Rounds.antt =====
-- What a round of `parse_packets` does with a packet that passes its checks.
use inmarsat_sniffer.Base.{
  ℕ, suc, ◌+◌, ◌-◌, ◌≤◌, ◌<◌, ◌≡◌, ◌≢◌, ap, arith, true, false, Option, none, some, ltb, ◌==◌,
}
use inmarsat_sniffer.Stdc.Types.{Env, Decoder, Source, frame_at}
use inmarsat_sniffer.Stdc.Packet.{get_packet_length, crc_ok, packet_crc}
use inmarsat_sniffer.Stdc.Parse.{
  decode_multiframe_cont, decode_multiframe_start, dispatch, stop, stuck, go_on, round, count_crc,
  parse_loop,
}

-- A round that is stuck makes the whole parse one that does not come back.
pub loop-stuck :
    (parse : Decoder → Source → ℕ → Option Decoder) (env : Env) (src : Source)
    (frame_len fuel pos : ℕ) (d : Decoder)
    → pos + 2 < frame_len
    → round parse env src frame_len d pos ≡ stuck
    → parse_loop parse env src frame_len (suc fuel) d pos ≡ none
unfolding parse_loop
loop-stuck parse env src frame_len fuel pos d h e =
    let t : ltb (pos + 2) frame_len ≡ true = ground (arith, h) in rw (t, e, parse_loop)

pub loop-go_on :
    (parse : Decoder → Source → ℕ → Option Decoder) (env : Env) (src : Source)
    (frame_len fuel pos pos' : ℕ) (d d' : Decoder)
    → pos + 2 < frame_len
    → round parse env src frame_len d pos ≡ go_on d' pos'
    → parse_loop parse env src frame_len (suc fuel) d pos
      ≡ parse_loop parse env src frame_len fuel d' pos'
unfolding parse_loop
loop-go_on parse env src frame_len fuel pos pos' d d' h e =
    let t : ltb (pos + 2) frame_len ≡ true = ground (arith, h) in rw (t, e, parse_loop)

pub loop-stop :
    (parse : Decoder → Source → ℕ → Option Decoder) (env : Env) (src : Source)
    (frame_len fuel pos : ℕ) (d : Decoder)
    → pos + 2 < frame_len
    → round parse env src frame_len d pos ≡ stop
    → parse_loop parse env src frame_len (suc fuel) d pos ≡ some d
unfolding parse_loop
loop-stop parse env src frame_len fuel pos d h e =
    let t : ltb (pos + 2) frame_len ≡ true = ground (arith, h) in rw (t, e, parse_loop)

pub loop-end :
    (parse : Decoder → Source → ℕ → Option Decoder) (env : Env) (src : Source)
    (frame_len fuel pos : ℕ) (d : Decoder)
    → frame_len ≤ pos + 2
    → parse_loop parse env src frame_len (suc fuel) d pos ≡ some d
unfolding parse_loop
loop-end parse env src frame_len fuel pos d h =
    let t : ltb (pos + 2) frame_len ≡ false = ground (arith, h) in rw (t, parse_loop)

-- Zero check bytes pass.
pub zero-crc_ok :
    (env : Env) (f : ℕ → ℕ) (pos n : ℕ)
    → 2 ≤ pos + n
    → f (pos + n - 2) ≡ 0
    → f (pos + n - 1) ≡ 0
    → crc_ok env f pos n ≡ true
unfolding crc_ok packet_crc
zero-crc_ok env f pos n h e1 e2 =
    let inside : ltb (pos + n) 2 ≡ false = ground arith in rw (inside, e1, e2)

module _ (parse : Decoder → Source → ℕ → Option Decoder) (env : Env) (src : Source) where
  pub record IsPacket (d : Decoder) (frame_len pos n : ℕ) : Type 0 where
    pub length_eq : get_packet_length (frame_at env d src) pos frame_len ≡ n
    pub not_end : frame_at env d src pos ≢ 0
    pub not_padding : frame_at env d src pos ≢ 0xFF
    pub nonempty : 0 < n
    pub inside : pos + n ≤ frame_len
    pub crc : crc_ok env (frame_at env d src) pos n ≡ true

  pub round-none :
      (d : Decoder) (frame_len pos n : ℕ)
      → IsPacket d frame_len pos n
      → dispatch parse env (count_crc true d) src pos n ≡ none
      → round parse env src frame_len d pos ≡ stuck
  unfolding round
  round-none d frame_len pos n p e =
      let t1 : (frame_at env d src pos == 0x00) ≡ false = ground (arith, p.not_end) in
      let t2 : (frame_at env d src pos == 0xFF) ≡ false = ground (arith, p.not_padding) in
      let t3 : (n == 0) ≡ false = ground (arith, p.nonempty) in
      let t4 : ltb frame_len (pos + n) ≡ false = ground (arith, p.inside) in
      rw (t1, t2, p.length_eq, t3, t4, p.crc, e)

  pub round-some :
      (d d' : Decoder) (frame_len pos n : ℕ)
      → IsPacket d frame_len pos n
      → dispatch parse env (count_crc true d) src pos n ≡ some d'
      → round parse env src frame_len d pos ≡ go_on d' (pos + n)
  unfolding round
  round-some d d' frame_len pos n p e =
      let t1 : (frame_at env d src pos == 0x00) ≡ false = ground (arith, p.not_end) in
      let t2 : (frame_at env d src pos == 0xFF) ≡ false = ground (arith, p.not_padding) in
      let t3 : (n == 0) ≡ false = ground (arith, p.nonempty) in
      let t4 : ltb frame_len (pos + n) ≡ false = ground (arith, p.inside) in
      rw (t1, t2, p.length_eq, t3, t4, p.crc, e) (ap (λ k. go_on d' (pos + k)) p.length_eq)

  pub dispatch-cont :
      (d : Decoder) (p n : ℕ)
      → frame_at env d src p ≡ 0xBE
      → dispatch parse env d src p n ≡ decode_multiframe_cont parse env d src p n
  unfolding dispatch
  dispatch-cont d p n e = rw e

  pub dispatch-start :
      (d : Decoder) (p n : ℕ)
      → frame_at env d src p ≡ 0xBD
      → dispatch parse env d src p n ≡ some (decode_multiframe_start env d src p n)
  unfolding dispatch
  dispatch-start d p n e = rw e
