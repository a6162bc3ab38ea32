-- ===== src/Stdc/Types.antt =====
-- The data of stdc_decode.h and stdc_decode.c: messages, reassembly state, the decoder.
use inmarsat_sniffer.Base.{
  ℕ, ◌+◌, ◌%◌, ◌^◌, Bool, Option, none, List, [], ◌∷◌, ◌++◌, ltb, if◌then◌else◌, false,
}
use inmarsat_sniffer.Base.Int.{ℤ}
use inmarsat_sniffer.Stdc.Interleave.{Buffer}

-- `stdc_msg_type_t`; `unset` is the 0 that `memset` leaves.
pub data MsgType : Type 0 where
  unset egc_single egc_double_1 egc_double_2 announcement bulletin message_data net_update : MsgType
  channel_clear ack_request msg_ack chan_assignment login_ack individual_poll : MsgType
  confirmation les_list distress_ack multiframe_start multiframe_cont : MsgType

-- `stdc_message_t`, field by field. The text is what stands before its NUL. A name that is not set
-- is `none`, and so is a latitude or longitude that is NaN. The frequencies are counted in units of
-- 100 Hz, in which the computed values are whole.
pub record Message : Type 0 where
  pub type : MsgType
  pub descriptor : ℕ
  pub sat_id : ℕ
  pub les_id : ℕ
  pub sat_name : Option (List ℕ)
  pub les_name : Option (List ℕ)
  pub service_code : ℕ
  pub priority : ℕ
  pub repetition : ℕ
  pub message_id : ℕ
  pub continuation : ℕ
  pub packet_no : ℕ
  pub logical_channel : ℕ
  pub uplink_mhz : ℕ
  pub downlink_mhz : ℕ
  pub mes_id : ℕ
  pub presentation : ℕ
  pub frame_number : ℕ
  pub text : List ℕ
  pub text_len : ℕ
  pub lat : Option ℤ
  pub lon : Option ℤ
  pub has_position : Bool
  pub timestamp : ℕ
  pub crc_ok : ℕ

-- `memset` to 0, then the settings that every decoder makes.
abbrev pub new_message : MsgType → ℕ → Message
new_message type descriptor = record {
  type = type;
  descriptor = descriptor;
  sat_id = 0;
  les_id = 0;
  sat_name = none;
  les_name = none;
  service_code = 0;
  priority = 0;
  repetition = 0;
  message_id = 0;
  continuation = 0;
  packet_no = 0;
  logical_channel = 0;
  uplink_mhz = 0;
  downlink_mhz = 0;
  mes_id = 0;
  presentation = 0;
  frame_number = 0;
  text = [];
  text_len = 0;
  lat = none;
  lon = none;
  has_position = false;
  timestamp = 0;
  crc_ok = 1;
}

abbrev pub text_size : ℕ
text_size = 4096

-- `multiframe_state_t`
pub record Multiframe : Type 0 where
  pub active : Bool
  pub chunk : ℕ → ℕ
  pub total_len : ℕ
  pub filled : ℕ

abbrev pub multiframe_size : ℕ
multiframe_size = 4096

abbrev pub egc_max_reassembly : ℕ
egc_max_reassembly = 16

abbrev pub egc_timeout_sec : ℕ
egc_timeout_sec = 60

-- `egc_reassembly_t`
pub record Slot : Type 0 where
  pub active : Bool
  pub message_id : ℕ
  pub presentation : ℕ
  pub service_code : ℕ
  pub priority : ℕ
  pub repetition : ℕ
  pub parts : ℕ → ℕ
  pub part_lens : ℕ → ℕ
  pub max_pkt_no : ℕ
  pub complete : Bool
  pub last_seen : ℕ

-- A slot after `memset`.
abbrev pub empty_slot : Slot
empty_slot = record {
  active = false;
  message_id = 0;
  presentation = 0;
  service_code = 0;
  priority = 0;
  repetition = 0;
  parts = λ _. 0;
  part_lens = λ _. 0;
  max_pkt_no = 0;
  complete = false;
  last_seen = 0;
}

-- The `stat_stdc_` counters of main.c that the decoder writes: `unsigned long`, and one `int`.
pub record Stats : Type 0 where
  pub frames : ℕ
  pub crc_ok : ℕ
  pub crc_fail : ℕ
  pub ber_sum : ℕ
  pub ber_count : ℕ
  pub synced : ℕ

abbrev pub count_up : ℕ → ℕ → ℕ
count_up counter n = (counter + n) % 2 ^ 64

-- `struct stdc_decoder`, with the counters, the messages handed to the callback so far, oldest
-- first, and the number of calls of `time`. `has_cb` is `d->cb != NULL`.
pub record Decoder : Type 0 where
  pub has_cb : Bool
  pub shift_reg : Buffer
  pub shift_pos : ℕ
  pub synced : Bool
  pub frame_count : ℕ
  pub depermuted : Buffer
  pub deinterleaved : Buffer
  pub decoded : ℕ → ℕ
  pub mfp : Multiframe
  pub egc_slots : List Slot
  pub stats : Stats
  pub out : List Message
  pub time_calls : ℕ

-- What the decoder takes from the C library: the conversions of `snprintf` for an `int` by `%d`, by
-- `%02d`, and for a frequency by `%.4f`; the successive results of `time`; and the byte that a read
-- outside the buffer meets, which C leaves open.
pub record Env : Type 0 where
  pub dec : ℕ → List ℕ
  pub dec_02 : ℕ → List ℕ
  pub fixed_4 : ℕ → List ℕ
  pub clock : ℕ → ℕ
  pub stray : ℕ

unfoldable pub emit_message : Decoder → Message → Decoder
emit_message d msg = if d.has_cb then record d { out = d.out ++ (msg ∷ []) } else d

-- The two buffers that packets are parsed from.
pub data Source : Type 0 where
  decoded_frame reassembled : Source

abbrev pub frame_bytes : ℕ
frame_bytes = 640

-- `frame[i]`, read from the decoder as it is now: the packets of a reassembled buffer are parsed
-- while it stays part of the state.
unfoldable pub frame_at : Env → Decoder → Source → ℕ → ℕ
frame_at env d decoded_frame i = if ltb i frame_bytes then d.decoded i else env.stray
frame_at env d reassembled i = if ltb i multiframe_size then d.mfp.chunk i else env.stray
