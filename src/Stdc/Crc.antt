-- ===== src/Stdc/Crc.antt =====
-- `compute_crc` of stdc_decode.c. A buffer is the function that reads it.
pub mod Sums
use inmarsat_sniffer.Base.{ℕ, ◌+◌, ◌-◌, ◌*◌, ◌%◌, ◌^◌, bit_or, ltb, if◌then◌else◌}
use inmarsat_sniffer.Base.Loops.{for_range}

-- `short` sums, kept as their 16-bit patterns.
unfoldable pub crc_step : (ℕ → ℕ) → ℕ → ℕ → ℕ → ℕ × ℕ → ℕ × ℕ
crc_step read pos len i (c0, c1) =
    let b = if ltb (i + 2) len then read (pos + i) else 0 in
    let c0' = (c0 + b) % 2 ^ 16 in (c0', (c1 + c0') % 2 ^ 16)

unfoldable pub crc_sums : (ℕ → ℕ) → ℕ → ℕ → ℕ × ℕ
crc_sums read pos len = for_range len 0 (crc_step read pos len) (0, 0)

unfoldable pub check_1 : ℕ × ℕ → ℕ
check_1 (c0, c1) = (c0 + 2 ^ 16 - c1) % 2 ^ 8

unfoldable pub check_2 : ℕ × ℕ → ℕ
check_2 (c0, c1) = (c1 + 2 * 2 ^ 16 - 2 * c0) % 2 ^ 8

unfoldable pub compute_crc : (ℕ → ℕ) → ℕ → ℕ → ℕ
unfolding check_1 check_2
compute_crc read pos len = let c = crc_sums read pos len in bit_or (check_1 c * 2 ^ 8) (check_2 c)
