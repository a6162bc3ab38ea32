-- ===== src/Stdc/Egc.antt =====
-- EGC reassembly of stdc_decode.c: `find_egc_slot`, `try_emit_egc`, `decode_egc`. A slot is named by
-- its index in `egc_slots`.
use inmarsat_sniffer.Base.{
  ℕ, zero, suc, ◌+◌, ◌-◌, ◌*◌, ◌/◌, ◌^◌, bit_and, true, false, not, ◌&&◌, ◌||◌, Option, none, some,
  List, [], ◌∷◌, ◌++◌, ltb, leb, ◌==◌, if◌then◌else◌, length, get_or, set, min,
}
use inmarsat_sniffer.Stdc.Interleave.{copy, store}
use inmarsat_sniffer.Stdc.Lookup.{get_address_length}
use inmarsat_sniffer.Stdc.Text.{extract_ia5_text}
use inmarsat_sniffer.Stdc.Types.{
  MsgType, Message, new_message, text_size, Env, Decoder, Slot, empty_slot, egc_timeout_sec,
  emit_message,
}
use inmarsat_sniffer.Stdc.Control.{be_16}

-- `time(NULL)`
unfoldable pub now : Env → Decoder → ℕ
now env d = env.clock d.time_calls

abbrev pub after_time : Decoder → Decoder
after_time d = record d { time_calls = d.time_calls + 1 }

-- The first loop: an active slot of this message.
unfoldable pub find_existing : ℕ → List Slot → ℕ → Option ℕ
find_existing msg_id [] i = none
find_existing msg_id (s ∷ ss) i =
    let rest = find_existing msg_id ss (i + 1) in
    if s.active && s.message_id == msg_id then some i else rest

-- The second loop: a slot that is empty or has expired.
unfoldable pub find_free : ℕ → List Slot → ℕ → Option ℕ
find_free time [] i = none
find_free time (s ∷ ss) i =
    let rest = find_free time ss (i + 1) in
    if not s.active || ltb (s.last_seen + egc_timeout_sec) time then some i else rest

-- The third loop, over the slots from index `i` on: the oldest one so far and its time.
unfoldable pub find_oldest : List Slot → ℕ → ℕ → ℕ → ℕ
find_oldest [] i oldest seen = oldest
find_oldest (s ∷ ss) i oldest seen =
    let older = ltb s.last_seen seen in
    find_oldest ss (i + 1) (if older then i else oldest) (if older then s.last_seen else seen)

-- The loop starts at index 1, with slot 0 as the oldest.
unfoldable pub evict : List Slot → ℕ
evict [] = 0
evict (s ∷ ss) = find_oldest ss 1 0 s.last_seen

-- A slot after `memset`, taken for a message.
unfoldable pub fresh_slot : ℕ → ℕ → Slot
fresh_slot msg_id time = record empty_slot { active = true; message_id = msg_id; last_seen = time }

abbrev pub take_slot : Decoder → ℕ → ℕ → ℕ → Decoder
take_slot d i msg_id time = record d { egc_slots = set d.egc_slots i (fresh_slot msg_id time) }

unfoldable pub find_egc_slot : Env → Decoder → ℕ → ℕ × Decoder
find_egc_slot env d msg_id =
    let time = now env d in
    let d' = after_time d in
    elim (find_existing msg_id d.egc_slots 0) [
      | some i ↦ (i, d')
      | none ↦ elim (find_free time d.egc_slots 0) [
        | some i ↦ (i, take_slot d' i msg_id time)
        | none ↦ (evict d.egc_slots, take_slot d' (evict d.egc_slots) msg_id time)
      ]
    ]

abbrev pub max_part_size : ℕ
max_part_size = 128

-- `memcpy` of `n` bytes into the text.
unfoldable pub raw_text : (ℕ → ℕ) → ℕ → ℕ → List ℕ
raw_text f from zero = []
raw_text f from (suc n) = f from ∷ raw_text f (from + 1) n

-- What part `i` adds to a text of length `total`.
unfoldable pub part_text : Slot → ℕ → ℕ → List ℕ
part_text slot total i =
    let plen = min (slot.part_lens i) max_part_size in
    if slot.part_lens i == 0
    then []
    else if slot.presentation == 0
    then extract_ia5_text slot.parts (i * max_part_size) plen (text_size - total - 1)
    else raw_text slot.parts (i * max_part_size) (min plen (text_size - total - 1))

-- The loop over the parts from `i` on, with `left` of them to go.
unfoldable pub reassemble : Slot → ℕ → ℕ → List ℕ → List ℕ
reassemble slot zero i text = text
reassemble slot (suc left) i text =
    let rest = reassemble slot left (i + 1) (text ++ part_text slot (length text) i) in
    if ltb (length text) (text_size - 1) then rest else text

unfoldable pub egc_message : Slot → Message
egc_message slot =
    let t = reassemble slot (slot.max_pkt_no + 1) 0 [] in
    record (new_message MsgType.egc_double_1 0xB1) {
      service_code = slot.service_code;
      priority = slot.priority;
      repetition = slot.repetition;
      message_id = slot.message_id;
      text = t;
      text_len = length t;
    }

abbrev pub slot_at : Decoder → ℕ → Slot
slot_at d i = get_or d.egc_slots i empty_slot

unfoldable pub try_emit_egc : Decoder → ℕ → Decoder
try_emit_egc d i =
    let slot = slot_at d i in
    let msg = egc_message slot in
    let d' = if ltb 0 msg.text_len then emit_message d msg else d in
    if not slot.complete
    then d
    else record d' { egc_slots = set d.egc_slots i (record slot { active = false }) }

-- `(pkt_no - 1) * 2 + is_part2`, held between 0 and 63.
unfoldable pub part_index : ℕ → ℕ → ℕ
part_index pkt_no is_part2 = if pkt_no == 0 then 0 else min ((pkt_no - 1) * 2 + is_part2) 63

-- The fields of the packet at `p`.
unfoldable pub header_size : (ℕ → ℕ) → ℕ → ℕ → ℕ
header_size f p pkt_len = min (8 + get_address_length (f (p + 2))) (pkt_len - 2)

-- `payload_len` after it is cut to the size of a part.
unfoldable pub payload_size : (ℕ → ℕ) → ℕ → ℕ → ℕ
payload_size f p pkt_len = min (pkt_len - 2 - header_size f p pkt_len) max_part_size

abbrev pub continuation_of : (ℕ → ℕ) → ℕ → ℕ
continuation_of f p = bit_and (f (p + 3) / 2 ^ 7) 1

abbrev pub priority_of : (ℕ → ℕ) → ℕ → ℕ
priority_of f p = bit_and (f (p + 3) / 2 ^ 5) 3

abbrev pub repetition_of : (ℕ → ℕ) → ℕ → ℕ
repetition_of f p = bit_and (f (p + 3)) 0x1F

-- The slot after the packet: its header fields, its payload as part `part_idx`, and the end mark.
unfoldable pub store_part : (ℕ → ℕ) → ℕ → ℕ → ℕ → ℕ → Slot → Slot
store_part f p pkt_len is_part2 time slot =
    let part_idx = part_index (f (p + 6)) is_part2 in
    let n = payload_size f p pkt_len in
    let fits = leb (part_idx * max_part_size + n) 8192 in
    record slot {
      service_code = f (p + 2);
      priority = priority_of f p;
      repetition = repetition_of f p;
      presentation = f (p + 7);
      last_seen = time;
      parts =
          if fits
          then copy slot.parts (part_idx * max_part_size) f (p + header_size f p pkt_len) n
          else slot.parts;
      part_lens = if fits then store slot.part_lens part_idx n else slot.part_lens;
      max_pkt_no = if ltb slot.max_pkt_no part_idx then part_idx else slot.max_pkt_no;
      complete = slot.complete || (continuation_of f p == 0 && is_part2 == 1);
    }

-- The message for immediate display.
unfoldable pub part_message : (ℕ → ℕ) → ℕ → ℕ → ℕ → Message
part_message f p pkt_len is_part2 =
    let n = payload_size f p pkt_len in
    let start = p + header_size f p pkt_len in
    let t =
      if f (p + 7) == 0
      then extract_ia5_text f start n (text_size - 1)
      else raw_text f start (if leb text_size n then text_size - 1 else n) in
    record (new_message (if is_part2 == 0 then MsgType.egc_double_1 else MsgType.egc_double_2)
      (if is_part2 == 0 then 0xB1 else 0xB2)) {
        service_code = f (p + 2);
        priority = priority_of f p;
        repetition = repetition_of f p;
        message_id = be_16 f (p + 4);
        packet_no = f (p + 6);
        continuation = continuation_of f p;
        presentation = f (p + 7);
        text = t;
        text_len = length t;
      }

unfoldable pub emit_part : Decoder → (ℕ → ℕ) → ℕ → ℕ → ℕ → Decoder
emit_part d f p pkt_len is_part2 =
    let msg = part_message f p pkt_len is_part2 in
    if ltb 0 (payload_size f p pkt_len) && ltb 0 msg.text_len then emit_message d msg else d

-- The slot is found by the first call of `time`, and stamped by a second one.
unfoldable pub decode_egc : Env → Decoder → (ℕ → ℕ) → ℕ → ℕ → ℕ → Decoder
decode_egc env d f p pkt_len is_part2 =
    let (i, d1) = find_egc_slot env d (be_16 f (p + 4)) in
    let slot = store_part f p pkt_len is_part2 (now env d1) (slot_at d1 i) in
    let d2 = record (after_time d1) { egc_slots = set d1.egc_slots i slot } in
    let d3 = emit_part d2 f p pkt_len is_part2 in
    if ltb pkt_len 10 then d else if slot.complete then try_emit_egc d3 i else d3
