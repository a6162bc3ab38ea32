-- ===== src/Stdc/Crc/Sums.antt =====
-- A packet passes `compute_crc` exactly when two checksums over all of it vanish.
use inmarsat_sniffer.Base.{
  ℕ, zero, suc, ◌+◌, ◌*◌, ◌%◌, ◌^◌, ◌≤◌, ◌<◌, bit_or, ◌≡◌, refl, ◌↔◌, arith,
}
use inmarsat_sniffer.Base.Loops.{for_range, for_range_inv, for_range-snoc}
use inmarsat_sniffer.Base.Bits.{bit_or_join}
use inmarsat_sniffer.Stdc.Crc.{crc_step, crc_sums, check_1, check_2, compute_crc}

module _ (read : ℕ → ℕ) (pos : ℕ) where
  -- The sum of the first `n` bytes.
  abbrev pub byte_sum : ℕ → ℕ
  byte_sum zero = 0
  byte_sum (suc n) = byte_sum n + read (pos + n)

  -- The sum of those sums: byte `i` of `n` counts `n - i` times.
  abbrev pub weighted_sum : ℕ → ℕ
  weighted_sum zero = 0
  weighted_sum (suc n) = weighted_sum n + byte_sum (suc n)

  module _ (n : ℕ) where
    -- Before the two check bytes the loop sums the packet.
    record IsSummed (k : ℕ) (c : ℕ × ℕ) : Type 0 where
      low : c.0 ≡ byte_sum k % 2 ^ 16
      high : c.1 ≡ weighted_sum k % 2 ^ 16

    summed : IsSummed n (for_range n 0 (crc_step read pos (suc (suc n))) (0, 0))
    summed =
        for_range_inv IsSummed (crc_step read pos (suc (suc n))) n 0 n (0, 0) (omega arith) step
          (record { low = refl; high = refl })
      where
        step :
            (k : ℕ) (c : ℕ × ℕ)
            → 0 ≤ k
            → k < n
            → IsSummed k c
            → IsSummed (k + 1) (crc_step read pos (suc (suc n)) k c)
        step k (c0, c1) lo hi c =
            let e : k + 1 ≡ suc k = omega arith in
            rw e (unfold crc_step in record { low = ground arith; high = ground arith })

    -- The loop takes zeros for the two check bytes.
    crc_sums-eq :
        ((crc_sums read pos (suc (suc n))).0 ≡ byte_sum n % 2 ^ 16)
        × ((crc_sums read pos (suc (suc n))).1 ≡ (weighted_sum n + 2 * byte_sum n) % 2 ^ 16)
    unfolding crc_sums
    crc_sums-eq =
        let step = crc_step read pos (suc (suc n)) in
        rw (for_range-snoc (suc n) 0 step (0, 0), for_range-snoc n 0 step (0, 0))
          (unfold crc_step in (ground (arith, summed), ground (arith, summed)))

  -- For a packet of at least two bytes, the stored check bytes are the computed ones exactly when
  -- the byte sum and the weighted sum of the whole packet, check bytes included, are 0 mod 256.
  pub compute_crc_iff :
      (n : ℕ)
      → ((i : ℕ) → read i < 256)
      → (bit_or (read (pos + n) * 2 ^ 8) (read (pos + suc n)) ≡ compute_crc read pos (suc (suc n)))
        ↔ ((byte_sum (suc (suc n)) % 256 ≡ 0) × (weighted_sum (suc (suc n)) % 256 ≡ 0))
  unfolding compute_crc
  compute_crc_iff n byte =
      rw
        (
          bit_or_join 8 (read (pos + n)) (read (pos + suc n)) (byte (pos + suc n)),
          bit_or_join 8 (check_1 (crc_sums read pos (suc (suc n))))
              (check_2 (crc_sums read pos (suc (suc n)))) (omega arith),
        )
        (
          (λ e. (
            omega (arith, crc_sums-eq n, byte (pos + n), byte (pos + suc n)),
            omega (arith, crc_sums-eq n, byte (pos + n), byte (pos + suc n)),
          )),
          (λ h. omega (arith, crc_sums-eq n, byte (pos + n), byte (pos + suc n))),
        )
