-- ===== src/Viterbi/Edges.antt =====
-- The edges of the trellis: where they lead, what they send, what they cost.
use inmarsat_sniffer.Base.{
  ℕ, zero, suc, ◌≤◌, ◌<◌, ◌≡◌, refl, sym, ◌≢◌, ◌&&◌, true, arith, ltb, ltb→lt, ◌==◌, not,
}
use inmarsat_sniffer.Base.Int.{ℤ, pos, negsuc, ◌≤ℤ◌, dist_ℤ}
use inmarsat_sniffer.Base.Table.{all_below, all_below_sound, all_below_sound₂}
use inmarsat_sniffer.Viterbi.{
  encode_sym, next_state, sym_g1, sym_g2, hard_soft, branch_metric, edge_metric,
}

-- What an `int8_t` holds.
abbrev pub IsInt8 : ℤ → Type 0
IsInt8 v = (negsuc 127 ≤ℤ v) × (v ≤ℤ pos 127)

next_state-lt_table : all_below 64 (λ s. all_below 2 (λ b. ltb (next_state s b) 64)) ≡ true
unfolding all_below next_state
next_state-lt_table = refl

pub next_state-lt : (s b : ℕ) → s < 64 → b < 2 → next_state s b < 64
next_state-lt s b hs hb =
    ltb→lt _ _
      (all_below_sound₂ 64 2 (λ s b. ltb (next_state s b) 64) s b next_state-lt_table hs hb)

-- The expected symbols are hard bits.
sym-lt_table :
    all_below 64
      (λ s. all_below 2 (λ b. ltb (sym_g1 (encode_sym s b)) 2 && ltb (sym_g2 (encode_sym s b)) 2))
    ≡ true
unfolding all_below encode_sym sym_g1 sym_g2
sym-lt_table = refl

pub sym-lt :
    (s b : ℕ) → s < 64 → b < 2 → (sym_g1 (encode_sym s b) < 2) × (sym_g2 (encode_sym s b) < 2)
sym-lt s b hs hb = ground (
  arith,
  all_below_sound₂ 64 2 (λ s b. ltb (sym_g1 (encode_sym s b)) 2 && ltb (sym_g2 (encode_sym s b)) 2)
      s b sym-lt_table hs hb,
)

-- The two edges out of a state differ in the first symbol, so it tells the input bit.
sym_g1-injective_table :
    all_below 64 (λ s. not (sym_g1 (encode_sym s 0) == sym_g1 (encode_sym s 1))) ≡ true
unfolding all_below encode_sym sym_g1
sym_g1-injective_table = refl

sym_g1_differ : (s : ℕ) → s < 64 → sym_g1 (encode_sym s 0) ≢ sym_g1 (encode_sym s 1)
sym_g1_differ s hs = ground (
  arith,
  all_below_sound 64 (λ s. not (sym_g1 (encode_sym s 0) == sym_g1 (encode_sym s 1))) s
      sym_g1-injective_table hs,
)

pub sym_g1-injective :
    (s b c : ℕ) → s < 64 → b < 2 → c < 2 → sym_g1 (encode_sym s b) ≡ sym_g1 (encode_sym s c) → b ≡ c
sym_g1-injective s zero zero hs hb hc e = refl
sym_g1-injective s zero (suc zero) hs hb hc e = absurd (sym_g1_differ s hs e)
sym_g1-injective s (suc zero) zero hs hb hc e = absurd (sym_g1_differ s hs (sym e))
sym_g1-injective s (suc zero) (suc zero) hs hb hc e = refl
sym_g1-injective s zero (suc (suc c)) hs hb hc e = absurd (omega arith)
sym_g1-injective s (suc zero) (suc (suc c)) hs hb hc e = absurd (omega arith)
sym_g1-injective s (suc (suc b)) c hs hb hc e = absurd (omega arith)

dist-hard_le : (v : ℤ) (g : ℕ) → IsInt8 v → dist_ℤ v (hard_soft g) ≤ 255
dist-hard_le (pos n) g h = ground arith
dist-hard_le (negsuc n) g h = ground arith

pub edge_metric-le : (s0 s1 : ℤ) (s b : ℕ) → IsInt8 s0 → IsInt8 s1 → edge_metric s0 s1 s b ≤ 510
unfolding edge_metric branch_metric
edge_metric-le s0 s1 s b h0 h1 = omega (
  arith,
  dist-hard_le s0 (sym_g1 (encode_sym s b)) h0,
  dist-hard_le s1 (sym_g2 (encode_sym s b)) h1,
)

-- Noiseless symbols cost nothing on an edge exactly when it sends them.
pub hard-dist_zero : (g e : ℕ) → g < 2 → e < 2 → dist_ℤ (hard_soft g) (hard_soft e) ≡ 0 → g ≡ e
hard-dist_zero g e hg he h = ground arith

pub hard-dist_self : (g : ℕ) → dist_ℤ (hard_soft g) (hard_soft g) ≡ 0
hard-dist_self g = ground arith
