-- ===== src/Stdc/Safe/Egc.antt =====
-- EGC reassembly keeps the bounds.
use inmarsat_sniffer.Base.{
  ℕ, zero, suc, ◌+◌, ◌*◌, ◌≤◌, ◌<◌, ◌==◌, ltb, leb, ◌≡◌, refl, sym, ap, ◌∙◌, subst, arith, inl, inr,
  Bool, true, false, not, if◌then◌else◌, List, [], ◌∷◌, none, some, length, get_or, set,
  Option-cases, Bool-cases, length-set, get_or-set, dec_lt,
}
use inmarsat_sniffer.Stdc.Interleave.{store}
use inmarsat_sniffer.Stdc.Types.{Message, Env, Decoder, Slot, empty_slot, emit_message}
use inmarsat_sniffer.Stdc.Control.{be_16}
use inmarsat_sniffer.Stdc.Egc.{
  now, after_time, find_existing, find_free, evict, fresh_slot, take_slot, find_egc_slot,
  max_part_size, egc_message, slot_at, try_emit_egc, part_index, payload_size, store_part,
  emit_part, decode_egc,
}
use inmarsat_sniffer.Stdc.Safe.{IsSlot, IsSafe, if-IsSafe, same-IsSafe, emit_message-IsSafe}

set-past : {A : Type 0} (xs : List A) (i : ℕ) (v : A) → length xs ≤ i → set xs i v ≡ xs
set-past [] i v h = refl
set-past (x ∷ xs) zero v h = absurd (omega arith)
set-past (x ∷ xs) (suc i) v h = ap (λ ys. x ∷ ys) (set-past xs i v (omega arith))

if-IsSlot : (b : Bool) (s t : Slot) → IsSlot s → IsSlot t → IsSlot (if b then s else t)
if-IsSlot true s t hs ht = hs
if-IsSlot false s t hs ht = ht

-- The slots after one is written.
set-IsSlot :
    (slots : List Slot) (i : ℕ) (s : Slot)
    → ((j : ℕ) → IsSlot (get_or slots j empty_slot))
    → IsSlot s
    → (j : ℕ) → IsSlot (get_or (set slots i s) j empty_slot)
set-IsSlot slots i s all h j = elim (dec_lt i (length slots)) [
  | yes lt ↦
      subst IsSlot (sym (get_or-set slots i j s empty_slot lt)) (if-IsSlot (i == j) s _ h (all j))
  | no ge ↦
      subst (λ xs. IsSlot (get_or xs j empty_slot)) (sym (set-past slots i s (omega arith))) (all j)
]

-- A state with the same packet, one slot written.
write-IsSafe :
    (d d' : Decoder) (i : ℕ) (s : Slot)
    → IsSafe d
    → IsSlot s
    → d'.mfp ≡ d.mfp
    → d'.egc_slots ≡ set d.egc_slots i s
    → IsSafe d'
write-IsSafe d d' i s safe h mfp slots =
    let written : Decoder = record d { egc_slots = set d.egc_slots i s } in
    let written-IsSafe : IsSafe written = record {
      filled = safe.filled;
      slot_count = length-set d.egc_slots i s ∙ safe.slot_count;
      slots = set-IsSlot d.egc_slots i s safe.slots h;
    } in
    same-IsSafe written d' written-IsSafe mfp slots

fresh_slot-IsSlot : (msg_id time : ℕ) → IsSlot (fresh_slot msg_id time)
unfolding fresh_slot
fresh_slot-IsSlot msg_id time = record { part_lens = λ i. omega arith; max_pkt_no = omega arith }

-- The three ways to a slot.
slot_known :
    (env : Env) (d : Decoder) (msg_id i : ℕ)
    → find_existing msg_id d.egc_slots 0 ≡ some i
    → find_egc_slot env d msg_id ≡ (i, after_time d)
unfolding find_egc_slot
slot_known env d msg_id i e = ground (arith, e)

slot_free :
    (env : Env) (d : Decoder) (msg_id i : ℕ)
    → find_existing msg_id d.egc_slots 0 ≡ none
    → find_free (now env d) d.egc_slots 0 ≡ some i
    → find_egc_slot env d msg_id ≡ (i, take_slot (after_time d) i msg_id (now env d))
unfolding find_egc_slot
slot_free env d msg_id i e e' = ground (arith, e, e')

slot_evicted :
    (env : Env) (d : Decoder) (msg_id : ℕ)
    → find_existing msg_id d.egc_slots 0 ≡ none
    → find_free (now env d) d.egc_slots 0 ≡ none
    → find_egc_slot env d msg_id
      ≡ (evict d.egc_slots, take_slot (after_time d) (evict d.egc_slots) msg_id (now env d))
unfolding find_egc_slot
slot_evicted env d msg_id e e' = ground (arith, e, e')

take_slot-IsSafe :
    (d : Decoder) (i msg_id time : ℕ) → IsSafe d → IsSafe (take_slot (after_time d) i msg_id time)
take_slot-IsSafe d i msg_id time safe =
    write-IsSafe d _ i (fresh_slot msg_id time) safe (fresh_slot-IsSlot msg_id time) refl refl

find_egc_slot-IsSafe :
    (env : Env) (d : Decoder) (msg_id : ℕ) → IsSafe d → IsSafe (find_egc_slot env d msg_id).1
find_egc_slot-IsSafe env d msg_id safe = elim (Option-cases (find_existing msg_id d.egc_slots 0)) [
  | inr (i, known) ↦
      subst IsSafe (sym (ap (λ r. r.1) (slot_known env d msg_id i known)))
        (same-IsSafe d _ safe refl refl)
  | inl new ↦ elim (Option-cases (find_free (now env d) d.egc_slots 0)) [
    | inr (i, free) ↦
        subst IsSafe (sym (ap (λ r. r.1) (slot_free env d msg_id i new free)))
          (take_slot-IsSafe d i msg_id (now env d) safe)
    | inl full ↦
        subst IsSafe (sym (ap (λ r. r.1) (slot_evicted env d msg_id new full)))
          (take_slot-IsSafe d (evict d.egc_slots) msg_id (now env d) safe)
  ]
]

part_index-lt : (pkt_no is_part2 : ℕ) → part_index pkt_no is_part2 < 64
unfolding part_index
part_index-lt pkt_no is_part2 = ground arith

payload_size-le : (f : ℕ → ℕ) (p pkt_len : ℕ) → payload_size f p pkt_len ≤ max_part_size
unfolding payload_size
payload_size-le f p pkt_len = omega arith

store-le :
    (lens : ℕ → ℕ) (to n i : ℕ)
    → ((j : ℕ) → lens j ≤ max_part_size)
    → n ≤ max_part_size
    → store lens to n i ≤ max_part_size
store-le lens to n i all h = ground (arith, all i)

if-le : (b : Bool) (x y : ℕ → ℕ) (i n : ℕ) → x i ≤ n → y i ≤ n → (if b then x else y) i ≤ n
if-le true x y i n hx hy = hx
if-le false x y i n hx hy = hy

store_part-IsSlot :
    (f : ℕ → ℕ) (p pkt_len is_part2 time : ℕ) (s : Slot)
    → IsSlot s
    → IsSlot (store_part f p pkt_len is_part2 time s)
unfolding store_part
store_part-IsSlot f p pkt_len is_part2 time s h =
    let part_idx = part_index (f (p + 6)) is_part2 in
    let n = payload_size f p pkt_len in
    record {
      part_lens = λ i.
          if-le (leb (part_idx * max_part_size + n) 8192) (store s.part_lens part_idx n) s.part_lens
            i max_part_size
            (store-le s.part_lens part_idx n i h.part_lens (payload_size-le f p pkt_len))
            (h.part_lens i);
      max_pkt_no = ground (arith, h.max_pkt_no, part_index-lt (f (p + 6)) is_part2);
    }

emit_if-mfp :
    (b : Bool) (d : Decoder) (msg : Message) → (if b then emit_message d msg else d).mfp ≡ d.mfp
unfolding emit_message
emit_if-mfp false d msg = refl
emit_if-mfp true d msg = elim (Bool-cases d.has_cb) [
  | inl listens ↦ rw listens refl
  | inr deaf ↦ rw deaf refl
]

try_emit_egc-IsSafe : (d : Decoder) (i : ℕ) → IsSafe d → IsSafe (try_emit_egc d i)
unfolding try_emit_egc
try_emit_egc-IsSafe d i safe =
    let slot = slot_at d i in
    let shut : Slot = record slot { active = false } in
    let shut-IsSlot : IsSlot shut = record {
      part_lens = (safe.slots i).part_lens;
      max_pkt_no = (safe.slots i).max_pkt_no;
    } in
    if-IsSafe (not slot.complete) d _ safe (
      write-IsSafe d _ i shut safe shut-IsSlot
        (emit_if-mfp (ltb 0 (egc_message slot).text_len) d (egc_message slot)) refl)

emit_part-IsSafe :
    (d : Decoder) (f : ℕ → ℕ) (p pkt_len is_part2 : ℕ)
    → IsSafe d
    → IsSafe (emit_part d f p pkt_len is_part2)
unfolding emit_part
emit_part-IsSafe d f p pkt_len is_part2 safe = if-IsSafe _ _ d (emit_message-IsSafe d _ safe) safe

pub decode_egc-IsSafe :
    (env : Env) (d : Decoder) (f : ℕ → ℕ) (p pkt_len is_part2 : ℕ)
    → IsSafe d
    → IsSafe (decode_egc env d f p pkt_len is_part2)
unfolding decode_egc
decode_egc-IsSafe env d f p pkt_len is_part2 safe =
    let found = find_egc_slot env d (be_16 f (p + 4)) in
    let found-IsSafe = find_egc_slot-IsSafe env d (be_16 f (p + 4)) safe in
    let slot = store_part f p pkt_len is_part2 (now env found.1) (slot_at found.1 found.0) in
    let slot-IsSlot =
      store_part-IsSlot f p pkt_len is_part2 (now env found.1) _ (found-IsSafe.slots found.0) in
    let d2 : Decoder = record (after_time found.1) {
      egc_slots = set found.1.egc_slots found.0 slot;
    } in
    let d2-IsSafe : IsSafe d2 =
      write-IsSafe found.1 d2 found.0 slot found-IsSafe slot-IsSlot refl refl in
    let d3-IsSafe = emit_part-IsSafe d2 f p pkt_len is_part2 d2-IsSafe in
    if-IsSafe (ltb pkt_len 10) d _ safe (
      if-IsSafe slot.complete _ _
        (try_emit_egc-IsSafe (emit_part d2 f p pkt_len is_part2) found.0 d3-IsSafe) d3-IsSafe)
