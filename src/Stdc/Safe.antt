-- ===== src/Stdc/Safe.antt =====
-- The bounds of the decoder's buffers, which every call keeps: the reassembled packet is within its
-- array, there are as many EGC slots as the array has, and the parts of each are within theirs.
pub mod Control
pub mod Egc
pub mod Parse
pub mod Feed
use inmarsat_sniffer.Base.{
  ℕ, ◌+◌, ◌*◌, ◌≤◌, ◌<◌, ◌≡◌, refl, sym, ap, ◌∙◌, subst, arith, inl, inr, Bool, true, false,
  if◌then◌else◌, List, Option, none, some, length, get_or, Bool-cases,
}
use inmarsat_sniffer.Stdc.Types.{
  Message, Decoder, Slot, empty_slot, Multiframe, multiframe_size, egc_max_reassembly, emit_message,
}
use inmarsat_sniffer.Stdc.Egc.{max_part_size}

-- The 64 parts of a slot have 128 bytes each.
pub record IsSlot (s : Slot) : Type 0 where
  pub part_lens : (i : ℕ) → s.part_lens i ≤ max_part_size
  pub max_pkt_no : s.max_pkt_no < 64

pub record IsSafe (d : Decoder) : Type 0 where
  pub filled : d.mfp.filled ≤ multiframe_size
  pub slot_count : length d.egc_slots ≡ egc_max_reassembly
  pub slots : (i : ℕ) → IsSlot (get_or d.egc_slots i empty_slot)

-- What comes back is safe.
abbrev pub AllSafe : Option Decoder → Type 0
AllSafe r = (d : Decoder) → r ≡ some d → IsSafe d

pub some-AllSafe : (d : Decoder) → IsSafe d → AllSafe (some d)
some-AllSafe d safe d' e = let same_state : d ≡ d' = cc e in subst IsSafe same_state safe

pub if-IsSafe : (b : Bool) (x y : Decoder) → IsSafe x → IsSafe y → IsSafe (if b then x else y)
if-IsSafe true x y hx hy = hx
if-IsSafe false x y hx hy = hy

pub if-AllSafe :
    (b : Bool) (x y : Option Decoder) → AllSafe x → AllSafe y → AllSafe (if b then x else y)
if-AllSafe true x y hx hy = hx
if-AllSafe false x y hx hy = hy

-- A state that agrees on the two buffers.
pub same-IsSafe :
    (d d' : Decoder) → IsSafe d → d'.mfp ≡ d.mfp → d'.egc_slots ≡ d.egc_slots → IsSafe d'
same-IsSafe d d' safe mfp slots = record {
  filled = subst (λ m. m.filled ≤ multiframe_size) (sym mfp) safe.filled;
  slot_count = ap length slots ∙ safe.slot_count;
  slots = λ i. subst (λ s. IsSlot (get_or s i empty_slot)) (sym slots) (safe.slots i);
}

pub emit_message-IsSafe : (d : Decoder) (msg : Message) → IsSafe d → IsSafe (emit_message d msg)
unfolding emit_message
emit_message-IsSafe d msg safe = if-IsSafe d.has_cb _ d (same-IsSafe d _ safe refl refl) safe

-- The last step of most decoders: nothing for a packet that is too short, or else one message.
pub short_or-IsSafe :
    (b : Bool) (d : Decoder) (msg : Message)
    → IsSafe d
    → IsSafe (if b then d else emit_message d msg)
short_or-IsSafe b d msg safe =
    if-IsSafe b d (emit_message d msg) safe (emit_message-IsSafe d msg safe)
