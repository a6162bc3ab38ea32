-- ===== src/Viterbi/Tests.antt =====
-- Runs of viterbi.c on small inputs, and the theorems of this folder at concrete inputs.
use mathlib.Core.List.{reverse}
use inmarsat_sniffer.Base.{ℕ, ◌≤◌, ◌<◌, arith, length, suc, zero, ◌∷◌, [], List, ◌≡◌, refl, at}
use inmarsat_sniffer.Base.Int.{ℤ}
use inmarsat_sniffer.Base.Loops.{for_range}
use inmarsat_sniffer.Viterbi.{
  viterbi_ber, encode_sym, next_state, sym_g1, sym_g2, hard_soft, branch_metric, init_metric,
  edge_metric, relax, relax_state, acs, forward_step, forward, better, best, traceback, pack_bit,
  pack_bits, decode_bits, viterbi_decode, bit_at, encode_from, viterbi_encode,
}
use inmarsat_sniffer.Viterbi.Edges.{IsInt8}
use inmarsat_sniffer.Viterbi.Paths.{AllBits, path_cost}
use inmarsat_sniffer.Viterbi.Decode.{viterbi_decode-optimal}
use inmarsat_sniffer.Viterbi.Packing.{bit_at-pack_bits}
use inmarsat_sniffer.Viterbi.RoundTrip.{viterbi_decode-viterbi_encode, viterbi_ber-clean}

abbrev sample : List ℕ
sample = 0xA5 ∷ 0x3C ∷ []

abbrev sample_soft : ℕ → ℤ
sample_soft i = hard_soft (at (viterbi_encode sample 16) i)

decode_sample : viterbi_decode sample_soft 16 ≡ (0, sample)
unfolding viterbi_decode viterbi_encode decode_bits forward forward_step acs relax_state relax
    edge_metric branch_metric best better traceback pack_bits pack_bit bit_at encode_from encode_sym
    next_state sym_g1 sym_g2 init_metric for_range
decode_sample = refl

sample_received-IsInt8 : (i : ℕ) → IsInt8 (sample_soft i)
sample_received-IsInt8 i = ground arith

sample-byte : (i : ℕ) → at sample i < 256
sample-byte zero = omega arith
sample-byte (suc zero) = omega arith
sample-byte (suc (suc i)) = omega arith

viterbi_decode-optimal_example :
    (length (decode_bits sample_soft 4) ≡ 4)
    × AllBits (decode_bits sample_soft 4)
    × (path_cost sample_soft (reverse (decode_bits sample_soft 4))
        ≡ (viterbi_decode sample_soft 4).0)
    × ((viterbi_decode sample_soft 4).0 ≤ path_cost sample_soft (reverse (1 ∷ 1 ∷ 0 ∷ 1 ∷ [])))
viterbi_decode-optimal_example =
    viterbi_decode-optimal sample_soft sample_received-IsInt8 4 (omega arith) (1 ∷ 1 ∷ 0 ∷ 1 ∷ [])
      refl (omega arith)

viterbi_decode-viterbi_encode_example : viterbi_decode sample_soft 16 ≡ (0, sample)
viterbi_decode-viterbi_encode_example =
    viterbi_decode-viterbi_encode sample 16 sample_soft refl sample-byte (omega arith)
      sample_received-IsInt8 (λ i h. refl)

viterbi_ber-clean_example : viterbi_ber sample 16 sample_soft ≡ (0, 32)
viterbi_ber-clean_example = viterbi_ber-clean sample 16 sample_soft (omega arith) (λ i h. refl)

bit_at-pack_bits_example : bit_at (pack_bits 3 (1 ∷ 0 ∷ 1 ∷ [])) 2 ≡ 1
bit_at-pack_bits_example = bit_at-pack_bits 3 (1 ∷ 0 ∷ 1 ∷ []) (omega arith) 2 (omega arith)
