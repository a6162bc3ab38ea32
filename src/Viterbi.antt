-- ===== src/Viterbi.antt =====
-- viterbi.c: the convolutional encoder and the soft-decision Viterbi decoder (rate 1/2, k = 7).
-- The fixed-size arrays are lists, the received soft symbols a function of their index.
pub mod Edges
pub mod Step
pub mod Paths
pub mod Survivors
pub mod Optimal
pub mod Decode
pub mod Packing
pub mod Sent
pub mod RoundTrip
mod Tests
use inmarsat_sniffer.Base.{
  ℕ, zero, suc, ◌+◌, ◌-◌, ◌*◌, ◌/◌, ◌%◌, ◌^◌, bit_and, bit_or, bit_xor, List, [], ◌∷◌, ltb, leb,
  ◌==◌, if◌then◌else◌, at, set, replicate, ◌≡◌, refl,
}
use inmarsat_sniffer.Base.Int.{ℤ, pos, negsuc, dist_ℤ, ltb_ℤ}
use inmarsat_sniffer.Base.Loops.{for_range}

abbrev pub g1_poly : ℕ
g1_poly = 0x6D

abbrev pub g2_poly : ℕ
g2_poly = 0x4F

abbrev pub viterbi_states : ℕ
viterbi_states = 64

-- A metric from here on marks a state that no path reaches.
abbrev pub unreached : ℕ
unreached = 0x7FFFFFFF

abbrev pub max_metric : ℕ
max_metric = 0xFFFFFFFF

unfoldable pub parity : ℕ → ℕ
parity x =
    let x1 = bit_xor x (x / 2 ^ 4) in
    let x2 = bit_xor x1 (x1 / 2 ^ 2) in let x3 = bit_xor x2 (x2 / 2 ^ 1) in bit_and x3 1

unfoldable pub encode_sym : ℕ → ℕ → ℕ
unfolding parity
encode_sym state input_bit =
    let reg = bit_or (input_bit * 2 ^ 6) state in
    let g1 = parity (bit_and reg g1_poly) in
    let g2 = parity (bit_and reg g2_poly) in bit_or (g1 * 2) g2

-- `(s >> 1) | (bit << (K - 2))`, as the decoder and the encoder both write it.
unfoldable pub next_state : ℕ → ℕ → ℕ
next_state s bit = bit_or (s / 2) (bit * 2 ^ 5)

-- `(sym >> 1) & 1` and `sym & 1`
unfoldable pub sym_g1 : ℕ → ℕ
sym_g1 sym = bit_and (sym / 2) 1

unfoldable pub sym_g2 : ℕ → ℕ
sym_g2 sym = bit_and sym 1

-- The soft value that a hard bit stands for.
abbrev pub hard_soft : ℕ → ℤ
hard_soft g = if g == 0 then negsuc 126 else pos 127

unfoldable pub branch_metric : ℤ → ℤ → ℕ → ℕ → ℕ
branch_metric soft_g1 soft_g2 exp_g1 exp_g2 =
    dist_ℤ soft_g1 (hard_soft exp_g1) + dist_ℤ soft_g2 (hard_soft exp_g2)

-- `viterbi_init`: state 0 is the starting state.
unfoldable pub init_metric : List ℕ
init_metric = 0 ∷ replicate 63 unreached

-- The branch metric of the edge that leaves `s` on `bit`.
unfoldable pub edge_metric : ℤ → ℤ → ℕ → ℕ → ℕ
edge_metric s0 s1 s bit =
    let expected = encode_sym s bit in branch_metric s0 s1 (sym_g1 expected) (sym_g2 expected)

-- The body of the loop over `bit`: `path_metric_new` and the row of `path_history` for this step.
unfoldable pub relax : List ℕ → ℤ → ℤ → ℕ → ℕ → List ℕ × List ℕ → List ℕ × List ℕ
relax metric s0 s1 s bit (new, row) =
    let n = next_state s bit in
    let pm = (at metric s + edge_metric s0 s1 s bit) % 2 ^ 32 in
    if ltb pm (at new n) then (set new n pm, set row n (s * 2 + bit)) else (new, row)

-- The body of the loop over the states.
unfoldable pub relax_state : List ℕ → ℤ → ℤ → ℕ → List ℕ × List ℕ → List ℕ × List ℕ
relax_state metric s0 s1 s acc =
    if leb unreached (at metric s) then acc else for_range 2 0 (relax metric s0 s1 s) acc

-- One time step of the forward pass.
unfoldable pub acs : List ℕ → ℤ → ℤ → List ℕ × List ℕ
acs metric s0 s1 =
    for_range viterbi_states 0 (relax_state metric s0 s1)
      (replicate viterbi_states max_metric, replicate viterbi_states 0)

-- The rows of `path_history` are kept newest first, the order in which the traceback reads them.
unfoldable pub forward_step : (ℕ → ℤ) → ℕ → List ℕ × List (List ℕ) → List ℕ × List (List ℕ)
forward_step soft t (metric, history) =
    let (new, row) = acs metric (soft (t * 2)) (soft (t * 2 + 1)) in (new, row ∷ history)

unfoldable pub forward : (ℕ → ℤ) → ℕ → List ℕ × List (List ℕ)
forward soft num_bits = for_range num_bits 0 (forward_step soft) (init_metric, [])

unfoldable pub better : List ℕ → ℕ → ℕ × ℕ → ℕ × ℕ
better metric s (best_metric, best_state) =
    if ltb (at metric s) best_metric then (at metric s, s) else (best_metric, best_state)

-- The best final metric and its state.
unfoldable pub best : List ℕ → ℕ × ℕ
best metric = for_range viterbi_states 0 (better metric) (max_metric, 0)

-- The traceback writes `decoded[t]` from the last step down; `acc` holds what is written so far.
unfoldable pub traceback : List (List ℕ) → ℕ → List ℕ → List ℕ
traceback [] state acc = acc
traceback (row ∷ rows) state acc =
    let entry = at row state in traceback rows (entry / 2) (bit_and entry 1 ∷ acc)

unfoldable pub pack_bit : List ℕ → ℕ → List ℕ → List ℕ
pack_bit decoded i bits_out =
    if at decoded i == 0
    then bits_out
    else set bits_out (i / 8) (bit_or (at bits_out (i / 8)) (0x80 / 2 ^ (i % 8)))

-- Packs the decoded bits into zeroed bytes, MSB first. At `T = 0` there is no byte to write.
unfoldable pub pack_bits : ℕ → List ℕ → List ℕ
pack_bits num_bits decoded =
    for_range num_bits 0 (pack_bit decoded) (replicate ((num_bits + 7) / 8) 0)

-- The decoded bits before packing.
unfoldable pub decode_bits : (ℕ → ℤ) → ℕ → List ℕ
decode_bits soft num_bits =
    let (metric, history) = forward soft num_bits in traceback history (best metric).1 []

-- `viterbi_decode` after `viterbi_init`: the best path metric and `bits_out`.
unfoldable pub viterbi_decode : (ℕ → ℤ) → ℕ → ℕ × List ℕ
viterbi_decode soft num_bits =
    ((best (forward soft num_bits).0).0, pack_bits num_bits (decode_bits soft num_bits))

-- `(bits[i / 8] >> (7 - i % 8)) & 1`
unfoldable pub bit_at : List ℕ → ℕ → ℕ
bit_at bits i = bit_and (at bits (i / 8) / 2 ^ (7 - i % 8)) 1

-- The loop of `viterbi_encode` at index `i`, with `n` rounds left.
unfoldable pub encode_from : List ℕ → ℕ → ℕ → ℕ → List ℕ
encode_from bits zero i state = []
encode_from bits (suc n) i state =
    let bit = bit_at bits i in
    let sym = encode_sym state bit in
    sym_g1 sym ∷ sym_g2 sym ∷ encode_from bits n (i + 1) (next_state state bit)

unfoldable pub viterbi_encode : List ℕ → ℕ → List ℕ
viterbi_encode bits num_bits = encode_from bits num_bits 0 0

-- `soft > 0` as a hard decision, 0 or 1.
abbrev pub hard : ℤ → ℕ
hard v = if ltb_ℤ (pos 0) v then 1 else 0

-- The loop that counts the symbols whose hard decision differs.
unfoldable pub symbol_errors : (ℕ → ℤ) → ℕ → List ℕ → ℕ
symbol_errors soft i [] = 0
symbol_errors soft i (sym ∷ syms) =
    symbol_errors soft (i + 1) syms + (if hard (soft i) == sym then 0 else 1)

-- `viterbi_ber` as the fraction (errors, symbols); the `malloc` in it is taken to succeed.
unfoldable pub viterbi_ber : List ℕ → ℕ → (ℕ → ℤ) → ℕ × ℕ
viterbi_ber bits num_bits soft =
    if num_bits == 0
    then (1, 2)
    else (symbol_errors soft 0 (viterbi_encode bits num_bits), num_bits * 2)
