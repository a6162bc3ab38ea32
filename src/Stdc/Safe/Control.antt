-- ===== src/Stdc/Safe/Control.antt =====
-- The decoders of the control packets keep the bounds.
use inmarsat_sniffer.Base.{ℕ, ltb}
use inmarsat_sniffer.Stdc.Types.{Env, Decoder}
use inmarsat_sniffer.Stdc.Control
use inmarsat_sniffer.Stdc.Safe.{IsSafe, if-IsSafe, emit_message-IsSafe, short_or-IsSafe}

module _ (env : Env) (d : Decoder) (f : ℕ → ℕ) (p pkt_len : ℕ) (safe : IsSafe d) where
  pub decode_ack_request-IsSafe : IsSafe (Control.decode_ack_request env d f p pkt_len)
  unfolding Control.decode_ack_request
  decode_ack_request-IsSafe = short_or-IsSafe (ltb pkt_len 6) d _ safe

  pub decode_channel_clear-IsSafe : IsSafe (Control.decode_channel_clear env d f p pkt_len)
  unfolding Control.decode_channel_clear
  decode_channel_clear-IsSafe = short_or-IsSafe (ltb pkt_len 8) d _ safe

  pub decode_msg_ack-IsSafe : IsSafe (Control.decode_msg_ack env d f p pkt_len)
  unfolding Control.decode_msg_ack
  decode_msg_ack-IsSafe = short_or-IsSafe (ltb pkt_len 9) d _ safe

  pub decode_signalling-IsSafe : IsSafe (Control.decode_signalling env d f p pkt_len)
  unfolding Control.decode_signalling
  decode_signalling-IsSafe = short_or-IsSafe (ltb pkt_len 11) d _ safe

  pub decode_bulletin_board-IsSafe : IsSafe (Control.decode_bulletin_board env d f p pkt_len)
  unfolding Control.decode_bulletin_board
  decode_bulletin_board-IsSafe = short_or-IsSafe (ltb pkt_len 14) d _ safe

  pub decode_announcement-IsSafe : IsSafe (Control.decode_announcement env d f p pkt_len)
  unfolding Control.decode_announcement
  decode_announcement-IsSafe = short_or-IsSafe (ltb pkt_len 17) d _ safe

  pub decode_chan_assignment-IsSafe : IsSafe (Control.decode_chan_assignment env d f p pkt_len)
  unfolding Control.decode_chan_assignment
  decode_chan_assignment-IsSafe = short_or-IsSafe (ltb pkt_len 16) d _ safe

  pub decode_login_ack-IsSafe : IsSafe (Control.decode_login_ack env d f p pkt_len)
  unfolding Control.decode_login_ack
  decode_login_ack-IsSafe = short_or-IsSafe (ltb pkt_len 8) d _ safe

  pub decode_les_list-IsSafe : IsSafe (Control.decode_les_list env d f p pkt_len)
  unfolding Control.decode_les_list
  decode_les_list-IsSafe = short_or-IsSafe (ltb pkt_len 6) d _ safe

  pub decode_individual_poll-IsSafe : IsSafe (Control.decode_individual_poll env d f p pkt_len)
  unfolding Control.decode_individual_poll
  decode_individual_poll-IsSafe =
      if-IsSafe (ltb pkt_len 8) d _ safe
        (if-IsSafe _ _ _ (emit_message-IsSafe d _ safe) (emit_message-IsSafe d _ safe))

  pub decode_confirmation-IsSafe : IsSafe (Control.decode_confirmation env d f p pkt_len)
  unfolding Control.decode_confirmation
  decode_confirmation-IsSafe =
      if-IsSafe (ltb pkt_len 9) d _ safe
        (if-IsSafe _ _ _ (emit_message-IsSafe d _ safe) (emit_message-IsSafe d _ safe))

  pub decode_message-IsSafe : IsSafe (Control.decode_message env d f p pkt_len)
  unfolding Control.decode_message
  decode_message-IsSafe =
      if-IsSafe (ltb pkt_len 7) d _ safe (if-IsSafe _ _ d (emit_message-IsSafe d _ safe) safe)
