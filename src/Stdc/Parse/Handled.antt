-- ===== src/Stdc/Parse/Handled.antt =====
-- The `switch` of `parse_packets` on a packet for which it does not call itself.
use inmarsat_sniffer.Base.{
  ℕ, ◌≡◌, ◌≢◌, refl, sym, subst, arith, ◌⊎◌, inl, inr, Bool, true, false, ◌==◌, if◌then◌else◌,
  Option, some, ltb, Bool-cases,
}
use inmarsat_sniffer.Stdc.Types.{Env, Decoder, Source, frame_at}
use inmarsat_sniffer.Stdc.Parse.{decode_multiframe_start, decode_multiframe_cont, dispatch}
use inmarsat_sniffer.Stdc.Parse.Kept.{
  IsKept, self-IsKept, decode_ack_request-IsKept, decode_channel_clear-IsKept,
  decode_msg_ack-IsKept, decode_signalling-IsKept, decode_bulletin_board-IsKept,
  decode_announcement-IsKept, decode_chan_assignment-IsKept, decode_login_ack-IsKept,
  decode_individual_poll-IsKept, decode_confirmation-IsKept, decode_message-IsKept,
  decode_les_list-IsKept, decode_egc-IsKept,
}

-- A packet is handled without a nested call, and only a start packet begins a reassembly.
pub record IsHandled (desc : ℕ) (d : Decoder) (r : Option Decoder) : Type 0 where
  pub d' : Decoder
  pub returned : r ≡ some d'
  pub decoded : d'.decoded ≡ d.decoded
  pub mfp : (desc ≡ 0xBD) ⊎ (d'.mfp ≡ d.mfp)

some-IsHandled : {desc : ℕ} {d x : Decoder} → IsKept d x → IsHandled desc d (some x)
some-IsHandled {desc} {d} {x} k = record {
  d' = x;
  returned = refl;
  decoded = k.decoded;
  mfp = inr k.mfp;
}

if-IsHandled :
    {desc : ℕ} {d : Decoder} (b : Bool) {x y : Option Decoder}
    → (b ≡ true → IsHandled desc d x)
    → (b ≡ false → IsHandled desc d y)
    → IsHandled desc d (if b then x else y)
if-IsHandled true hx hy = hx refl
if-IsHandled false hx hy = hy refl

-- A case of the `switch` that leaves the frame and the reassembly alone.
case-IsHandled :
    {desc : ℕ} {d x : Decoder} (b : Bool) {y : Option Decoder}
    → IsKept d x
    → IsHandled desc d y
    → IsHandled desc d (if b then some x else y)
case-IsHandled b k rest = if-IsHandled b (λ e. some-IsHandled k) (λ e. rest)

start-decoded :
    (env : Env) (d : Decoder) (src : Source) (p n : ℕ)
    → (decode_multiframe_start env d src p n).decoded ≡ d.decoded
unfolding decode_multiframe_start
start-decoded env d src p n = elim (Bool-cases (ltb n 5)) [
  | inl short ↦ rw short refl
  | inr long ↦ rw long refl
]

module _ (parse : Decoder → Source → ℕ → Option Decoder) (env : Env) where
  cont-inactive :
      (d : Decoder) (src : Source) (p n : ℕ)
      → d.mfp.active ≡ false
      → decode_multiframe_cont parse env d src p n ≡ some d
  unfolding decode_multiframe_cont
  cont-inactive d src p n idle = rw idle refl

  start-IsHandled :
      (d : Decoder) (src : Source) (p n : ℕ)
      → frame_at env d src p ≡ 0xBD
      → IsHandled (frame_at env d src p) d (some (decode_multiframe_start env d src p n))
  start-IsHandled d src p n start = record {
    d' = decode_multiframe_start env d src p n;
    returned = refl;
    decoded = start-decoded env d src p n;
    mfp = inl start;
  }

  cont-IsHandled :
      (d : Decoder) (src : Source) (p n : ℕ)
      → (frame_at env d src p ≢ 0xBE) ⊎ (d.mfp.active ≡ false)
      → frame_at env d src p ≡ 0xBE
      → IsHandled (frame_at env d src p) d (decode_multiframe_cont parse env d src p n)
  cont-IsHandled d src p n (inl other) cont = absurd (other cont)
  cont-IsHandled d src p n (inr idle) cont =
      subst (IsHandled (frame_at env d src p) d) (sym (cont-inactive d src p n idle))
        (some-IsHandled (self-IsKept d))

  pub dispatch-IsHandled :
      (d : Decoder) (src : Source) (p n : ℕ)
      → (frame_at env d src p ≢ 0xBE) ⊎ (d.mfp.active ≡ false)
      → IsHandled (frame_at env d src p) d (dispatch parse env d src p n)
  unfolding dispatch
  dispatch-IsHandled d src p n free =
      let f = frame_at env d src in
      case-IsHandled _ (decode_ack_request-IsKept env d f p n) (
        case-IsHandled _ (decode_channel_clear-IsKept env d f p n) (
          case-IsHandled _ (decode_msg_ack-IsKept env d f p n) (
            case-IsHandled _ (decode_signalling-IsKept env d f p n) (
              case-IsHandled _ (decode_bulletin_board-IsKept env d f p n) (
                case-IsHandled _ (decode_announcement-IsKept env d f p n) (
                  case-IsHandled _ (decode_chan_assignment-IsKept env d f p n) (
                    case-IsHandled _ (decode_login_ack-IsKept env d f p n) (
                      case-IsHandled _ (decode_individual_poll-IsKept env d f p n) (
                        case-IsHandled _ (decode_confirmation-IsKept env d f p n) (
                          case-IsHandled _ (decode_message-IsKept env d f p n) (
                            case-IsHandled _ (decode_les_list-IsKept env d f p n) (
                              case-IsHandled _ (decode_egc-IsKept env d f p n 0) (
                                case-IsHandled _ (decode_egc-IsKept env d f p n 1) (
                                  if-IsHandled (f p == 0xBD)
                                    (λ e. start-IsHandled d src p n (ground (arith, e)))
                                    (λ e0.
                                      if-IsHandled (f p == 0xBE)
                                        (λ e. cont-IsHandled d src p n free (ground (arith, e)))
                                        (λ e. some-IsHandled (self-IsKept d)))))))))))))))))
