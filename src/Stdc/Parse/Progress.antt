-- ===== src/Stdc/Parse/Progress.antt =====
-- Where `parse_packets` comes back: on a frame in which it does not call itself.
use inmarsat_sniffer.Base.{
  ℕ, zero, suc, ◌+◌, ◌≤◌, ◌<◌, ◌≡◌, ◌≢◌, refl, ap, ◌∙◌, sym, arith, ◌⊎◌, inl, inr, Bool, true,
  false, ◌==◌, ◌||◌, if◌then◌else◌, Option, none, some, ltb, ltb→lt, ltb-false→le, Bool-cases,
}
use inmarsat_sniffer.Stdc.Types.{Env, Decoder, Source, decoded_frame, frame_at, frame_bytes}
use inmarsat_sniffer.Stdc.Packet.{get_packet_length, crc_ok}
use inmarsat_sniffer.Stdc.Parse.{
  count_crc, dispatch, Round, stop, go_on, stuck, round, parse_loop, parse_packets,
}
use inmarsat_sniffer.Stdc.Parse.Rounds.{loop-stop, loop-end, loop-go_on}
use inmarsat_sniffer.Stdc.Parse.Kept.{IsKept}
use inmarsat_sniffer.Stdc.Parse.Handled.{IsHandled, dispatch-IsHandled}

-- The frame has no byte 0xBE, with which a continuation packet starts; or nothing is being reassembled
-- and it has no byte 0xBD, with which a start packet starts.
abbrev pub IsCalm : Decoder → Type 0
IsCalm d =
    ((i : ℕ) → i < frame_bytes → d.decoded i ≢ 0xBE)
    ⊎ ((d.mfp.active ≡ false) × ((i : ℕ) → i < frame_bytes → d.decoded i ≢ 0xBD))

module _ (parse : Decoder → Source → ℕ → Option Decoder) (env : Env) where
  -- A round leaves the loop, or goes on further on in the same frame, which is still calm.
  data IsRound (d : Decoder) (pos frame_len : ℕ) : Round → Type 0 where
    stops : IsRound d pos frame_len stop
    goes_on :
        {d' : Decoder} {pos' : ℕ}
        → pos < pos'
        → pos' ≤ frame_len
        → d'.decoded ≡ d.decoded
        → IsCalm d'
        → IsRound d pos frame_len (go_on d' pos')

  if-IsRound :
      {d : Decoder} {pos frame_len : ℕ} (b : Bool) {r t : Round}
      → (b ≡ true → IsRound d pos frame_len r)
      → (b ≡ false → IsRound d pos frame_len t)
      → IsRound d pos frame_len (if b then r else t)
  if-IsRound true hr ht = hr refl
  if-IsRound false hr ht = ht refl

  frame_at-decoded :
      (d : Decoder) (p : ℕ) → p < frame_bytes → frame_at env d decoded_frame p ≡ d.decoded p
  unfolding frame_at
  frame_at-decoded d p h = ground (arith, h)

  IsCalm-free :
      (d : Decoder) (p : ℕ)
      → p < frame_bytes
      → IsCalm d
      → (frame_at env d decoded_frame p ≢ 0xBE) ⊎ (d.mfp.active ≡ false)
  IsCalm-free d p h (inl no_cont) = inl (λ e. no_cont p h (sym (frame_at-decoded d p h) ∙ e))
  IsCalm-free d p h (inr (idle, no_start)) = inr idle

  IsHandled-IsCalm :
      (d : Decoder) (p : ℕ) (r : Option Decoder)
      → p < frame_bytes
      → IsCalm d
      → (h : IsHandled (frame_at env d decoded_frame p) d r) → IsCalm h.d'
  IsHandled-IsCalm d p r h (inl no_cont) handled =
      inl (λ i lt e. no_cont i lt (sym (ap (λ f. f i) handled.decoded) ∙ e))
  IsHandled-IsCalm d p r h (inr (idle, no_start)) handled = elim handled.mfp [
    | inl start ↦ absurd (no_start p h (sym (frame_at-decoded d p h) ∙ start))
    | inr same ↦ inr (
      ap (λ m. m.active) same ∙ idle,
      λ i lt e. no_start i lt (sym (ap (λ f. f i) handled.decoded) ∙ e),
    )
  ]

  count_crc-IsKept : (b : Bool) (d : Decoder) → IsKept d (count_crc b d)
  unfolding count_crc
  count_crc-IsKept true d = record { decoded = refl; mfp = refl }
  count_crc-IsKept false d = record { decoded = refl; mfp = refl }

  IsKept-IsCalm : {d x : Decoder} → IsKept d x → IsCalm d → IsCalm x
  IsKept-IsCalm k (inl no_cont) = inl (λ i lt e. no_cont i lt (sym (ap (λ f. f i) k.decoded) ∙ e))
  IsKept-IsCalm k (inr (idle, no_start)) =
      inr (
        ap (λ m. m.active) k.mfp ∙ idle,
        λ i lt e. no_start i lt (sym (ap (λ f. f i) k.decoded) ∙ e),
      )

  dispatched-IsRound :
      (d x : Decoder) (pos n frame_len : ℕ)
      → IsKept d x
      → IsCalm d
      → pos < frame_bytes
      → pos < pos + n
      → pos + n ≤ frame_len
      → IsRound d pos frame_len (elim (dispatch parse env x decoded_frame pos n) [
        | none ↦ stuck
        | some d'' ↦ go_on d'' (pos + n)
      ])
  dispatched-IsRound d x pos n frame_len k calm h forward within =
      let x-IsCalm = IsKept-IsCalm k calm in
      let handled =
        dispatch-IsHandled parse env x decoded_frame pos n (IsCalm-free x pos h x-IsCalm) in
      rw handled.returned (
        goes_on forward within (handled.decoded ∙ k.decoded)
          (IsHandled-IsCalm x pos _ h x-IsCalm handled))

  round-IsRound :
      (frame_len : ℕ) (d : Decoder) (pos : ℕ)
      → frame_len ≤ frame_bytes
      → pos + 2 < frame_len
      → IsCalm d
      → IsRound d pos frame_len (round parse env decoded_frame frame_len d pos)
  unfolding round
  round-IsRound frame_len d pos small h calm =
      let f = frame_at env d decoded_frame in
      let n = get_packet_length f pos frame_len in
      let good = crc_ok env f pos n in
      let k = count_crc-IsKept good d in
      if-IsRound (f pos == 0x00) (λ e. stops)
        (λ e0.
          if-IsRound (f pos == 0xFF) (λ e. goes_on (omega arith) (omega (arith, h)) refl calm)
            (λ e1.
              if-IsRound (n == 0 || ltb frame_len (pos + n)) (λ e. stops)
                (λ fits.
                  let forward : pos < pos + n = ground (arith, fits) in
                  let within : pos + n ≤ frame_len = ground (arith, fits) in
                  if-IsRound good
                    (λ e.
                      dispatched-IsRound d (count_crc good d) pos n frame_len k calm
                        (omega (arith, h, small)) forward within)
                    (λ e. goes_on forward within k.decoded (IsKept-IsCalm k calm)))))

  -- The loop comes back, with the frame as it was.
  abbrev Returned : Decoder → Option Decoder → Type 0
  Returned d r = (d' : Decoder) × (r ≡ some d') × (d'.decoded ≡ d.decoded)

  parse_loop-Returned :
      (frame_len fuel : ℕ) (d : Decoder) (pos : ℕ)
      → frame_len ≤ frame_bytes
      → pos ≤ frame_len
      → frame_len < pos + fuel
      → IsCalm d
      → Returned d (parse_loop parse env decoded_frame frame_len fuel d pos)
  parse_loop-Returned frame_len zero d pos small w h calm = absurd (omega arith)
  parse_loop-Returned frame_len (suc fuel) d pos small w h calm =
      elim (Bool-cases (ltb (pos + 2) frame_len)) [
        | inr done ↦
            (d, loop-end parse env decoded_frame frame_len fuel pos d (ltb-false→le _ _ done), refl)
        | inl more ↦
            let lt = ltb→lt _ _ more in
            step (round parse env decoded_frame frame_len d pos) refl lt
              (round-IsRound frame_len d pos small lt calm)
              (λ d' pos'. parse_loop-Returned frame_len fuel d' pos' small)
      ]
    where
      step :
          (r : Round)
          → round parse env decoded_frame frame_len d pos ≡ r
          → pos + 2 < frame_len
          → IsRound d pos frame_len r
          → ((d' : Decoder) (pos' : ℕ)
              → pos' ≤ frame_len
              → frame_len < pos' + fuel
              → IsCalm d'
              → Returned d' (parse_loop parse env decoded_frame frame_len fuel d' pos'))
          → Returned d (parse_loop parse env decoded_frame frame_len (suc fuel) d pos)
      step stop e more stops rest =
          (d, loop-stop parse env decoded_frame frame_len fuel pos d more e, refl)
      step stuck e more impossible rest = elim impossible [ ]
      step (go_on d' pos') e more (goes_on forward within kept calm') rest =
          let (d'', returned, same) = rest d' pos' within (omega (arith, h, forward)) calm' in
          (
            d'',
            loop-go_on parse env decoded_frame frame_len fuel pos pos' d d' more e ∙ returned,
            same ∙ kept,
          )

-- `parse_packets` comes back from the frame buffer, in which it leaves every byte as it was, with a single
-- call open: where no byte of the buffer is 0xBE, whatever is being reassembled, and where none is 0xBD
-- and nothing is being reassembled. The bytes are any others, and the length at most that of the buffer.
pub parse_packets-returns :
    (depth : ℕ) (env : Env) (d : Decoder) (frame_len : ℕ)
    → frame_len ≤ frame_bytes
    → IsCalm d
    → (d' : Decoder) × (parse_packets (suc depth) env d decoded_frame frame_len ≡ some d')
      × (d'.decoded ≡ d.decoded)
unfolding parse_packets
parse_packets-returns depth env d frame_len small calm =
    parse_loop-Returned (parse_packets depth env) env frame_len (frame_len + 1) d 0 small
      (omega arith) (omega arith) calm
