-- ===== src/Viterbi/Sent.antt =====
-- The path that the encoder takes, and the symbols that it sends on the way.
use mathlib.Core.List.{reverse, reverse-cons}
use inmarsat_sniffer.Base.{
  ℕ, zero, suc, ◌+◌, ◌*◌, ◌≤◌, ◌<◌, ◌≡◌, refl, sym, ◌∙◌, ap, ap₂, List, [], ◌∷◌, arith, dec_lt, at,
  at-append, at-append_end, length, length-reverse,
}
use inmarsat_sniffer.Base.Int.{ℤ, dist_ℤ}
use inmarsat_sniffer.Base.Bits.{bit_and-one}
use inmarsat_sniffer.Viterbi.{
  edge_metric, branch_metric, hard_soft, encode_sym, sym_g1, sym_g2, bit_at, encode_from,
  viterbi_encode,
}
use inmarsat_sniffer.Viterbi.Edges.{sym-lt, sym_g1-injective, hard-dist_zero, hard-dist_self}
use inmarsat_sniffer.Viterbi.Paths.{AllBits, end_state, path_cost, end_state-lt}

pub bit_at-lt : (bytes : List ℕ) (i : ℕ) → bit_at bytes i < 2
unfolding bit_at
bit_at-lt bytes i = omega (arith, bit_and-one)

module _ (bytes : List ℕ) where
  -- The first `k` bits of the message, newest first.
  unfoldable pub sent : ℕ → List ℕ
  sent zero = []
  sent (suc k) = bit_at bytes k ∷ sent k

  pub length-sent : (k : ℕ) → length (sent k) ≡ k
  unfolding sent
  length-sent zero = refl
  length-sent (suc k) = ap suc (length-sent k)

  pub sent-AllBits : (k : ℕ) → AllBits (sent k)
  unfolding sent
  sent-AllBits zero = tt
  sent-AllBits (suc k) = (bit_at-lt bytes k, sent-AllBits k)

  pub at-reverse-sent : (n i : ℕ) → i < n → at (reverse (sent n)) i ≡ bit_at bytes i
  unfolding sent
  at-reverse-sent zero i h = absurd (omega arith)
  at-reverse-sent (suc n) i h =
      let len : length (reverse (sent n)) ≡ n = length-reverse (sent n) ∙ length-sent n in
      rw reverse-cons (elim (dec_lt i n) [
        | yes p ↦
            at-append (reverse (sent n)) (bit_at bytes n ∷ []) i (rw len p) ∙ at-reverse-sent n i p
        | no p ↦
            at-append_end (reverse (sent n)) (bit_at bytes n) i (omega arith)
            ∙ ap (bit_at bytes) (omega arith)
      ])

  -- The symbol pair of step `t`.
  abbrev pub sent_sym : ℕ → ℕ
  sent_sym t = encode_sym (end_state (sent t)) (bit_at bytes t)

  encode_from-at :
      (n i t k : ℕ)
      → t < n
      → k ≡ i + t
      → (at (encode_from bytes n i (end_state (sent i))) (t * 2) ≡ sym_g1 (sent_sym k))
        × (at (encode_from bytes n i (end_state (sent i))) (t * 2 + 1) ≡ sym_g2 (sent_sym k))
  unfolding encode_from sent end_state
  encode_from-at zero i t k h e = absurd (omega arith)
  encode_from-at (suc n) i zero k h e = let e' : k ≡ i = omega arith in rw e' (refl, refl)
  encode_from-at (suc n) i (suc t) k h e =
      let next : i + 1 ≡ suc i = omega arith in
      let even : suc t * 2 ≡ suc (suc (t * 2)) = omega arith in
      let odd : suc t * 2 + 1 ≡ suc (suc (t * 2 + 1)) = omega arith in
      rw (odd, even, next) (encode_from-at n (suc i) t k (omega arith) (omega arith))

  -- The encoder sends the symbol pairs of its path.
  pub viterbi_encode-at :
      (n t : ℕ)
      → t < n
      → (at (viterbi_encode bytes n) (t * 2) ≡ sym_g1 (sent_sym t))
        × (at (viterbi_encode bytes n) (t * 2 + 1) ≡ sym_g2 (sent_sym t))
  unfolding viterbi_encode sent end_state
  viterbi_encode-at n t h = encode_from-at n 0 t t h (omega arith)

  -- The received symbols of the first `n` steps carry no noise.
  abbrev pub IsClean : ℕ → (ℕ → ℤ) → Type 0
  IsClean n soft =
      (t : ℕ)
      → t < n
      → (soft (t * 2) ≡ hard_soft (sym_g1 (sent_sym t)))
        × (soft (t * 2 + 1) ≡ hard_soft (sym_g2 (sent_sym t)))

  module _ (n : ℕ) (soft : ℕ → ℤ) (clean : IsClean n soft) where
    pub path_cost-sent : (k : ℕ) → k ≤ n → path_cost soft (sent k) ≡ 0
    unfolding path_cost sent edge_metric branch_metric
    path_cost-sent zero h = refl
    path_cost-sent (suc k) h =
        let (c1, c2) = clean k h in
        rw (length-sent k, c1, c2)
          (omega (
            arith,
            path_cost-sent k (omega arith),
            hard-dist_self (sym_g1 (sent_sym k)),
            hard-dist_self (sym_g2 (sent_sym k)),
          ))

    last_bit :
        (k b : ℕ)
        → k < n
        → b < 2
        → edge_metric (soft (k * 2)) (soft (k * 2 + 1)) (end_state (sent k)) b ≡ 0
        → b ≡ bit_at bytes k
    unfolding edge_metric branch_metric
    last_bit k b h hb free =
        let st = end_state-lt (sent k) (sent-AllBits k) in
        let s0 = soft (k * 2) in
        let zero_dist : dist_ℤ s0 (hard_soft (sym_g1 (encode_sym (end_state (sent k)) b))) ≡ 0 =
          omega arith in
        let own = sym-lt (end_state (sent k)) (bit_at bytes k) st (bit_at-lt bytes k) in
        let other = sym-lt (end_state (sent k)) b st hb in
        sym (
          sym_g1-injective (end_state (sent k)) (bit_at bytes k) b st (bit_at-lt bytes k) hb
            (hard-dist_zero _ _ own.0 other.0 (rw (clean k h).0 at zero_dist)))

    -- No other path is free.
    pub free-sent :
        (bs : List ℕ) (k : ℕ)
        → k ≤ n
        → length bs ≡ k
        → AllBits bs
        → path_cost soft bs ≡ 0
        → bs ≡ sent k
    unfolding sent
    free-sent [] zero h e bits free = refl
    free-sent [] (suc k) h e bits free = absurd (omega arith)
    free-sent (b ∷ bs) zero h e bits free = absurd (omega arith)
    free-sent (b ∷ bs) (suc k) h e bits free =
        let free_bs : path_cost soft bs ≡ 0 = unfold path_cost in omega arith in
        let same = free-sent bs k (omega arith) (omega arith) bits.1 free_bs in
        let edge : edge_metric (soft (length bs * 2)) (soft (length bs * 2 + 1)) (end_state bs) b
            ≡ 0 =
          unfold path_cost in omega arith in
        let len : length bs ≡ k = omega arith in
        ap₂ ◌∷◌ (last_bit k b h bits.0 (rw (len, same) at edge)) same
