-- ===== src/Uint256/Runs.antt =====
-- The theorems on the default header's `nbits` and on a product that does not fit.
use kan_mine.Prelude.{ℕ, zero, suc, ◌*◌, ◌-◌, ◌^◌, ◌≡◌, refl, replicate, leb, min, arith, All}
use kan_mine.Words.{of_le, IsByte}
use kan_mine.Uint256.{IsU256, le, nbits_to_difficulty, mul_u256_u64_saturate}
use kan_mine.Uint256.Order.{le-leb}
use kan_mine.Uint256.Target.{target_of, nbits_to_difficulty-target_of}
use kan_mine.Uint256.Product.{mul_u256_u64_saturate-min}

copies-IsByte : (n b : ℕ) → IsByte b → All IsByte (replicate n b)
copies-IsByte zero b h = tt
copies-IsByte (suc n) b h = (h, copies-IsByte n b h)

ones : IsU256 (replicate 32 1)
ones = (refl, copies-IsByte 32 1 (omega arith))

full : IsU256 (replicate 32 255)
full = (refl, copies-IsByte 32 255 (omega arith))

le-leb_example :
    le (replicate 32 1) (replicate 32 255) ≡ leb (of_le (replicate 32 1)) (of_le (replicate 32 255))
le-leb_example = le-leb (replicate 32 1) (replicate 32 255) ones full

nbits_to_difficulty-target_of_example :
    of_le (nbits_to_difficulty 0x1D2FFFFF) ≡ target_of 0x1D2FFFFF
nbits_to_difficulty-target_of_example = nbits_to_difficulty-target_of 0x1D2FFFFF (omega arith)

mul_u256_u64_saturate-min_example :
    of_le (mul_u256_u64_saturate (replicate 32 255) 524288)
    ≡ min (of_le (replicate 32 255) * 524288) (2 ^ 256 - 1)
mul_u256_u64_saturate-min_example =
    mul_u256_u64_saturate-min (replicate 32 255) 524288 full (omega arith)
