-- ===== src/Tile/Sizes.antt =====
-- Sizes of integers: 32-bit storage, sums, and products of 8-bit numbers.
use kan_mine.Prelude.{ℕ, suc, ◌+◌, ◌*◌, ◌^◌, ◌≤◌, ◌<◌, ◌≡◌, arith}
use kan_mine.Prelude.Int.{ℤ, pos, negsuc, ◌+ℤ◌, ◌*ℤ◌}
use kan_mine.Noise.Range.{Between}
use kan_mine.Tile.{to_u32, to_i32}

pub to_i32-Between : (c : ℕ) (x : ℤ) → c < 2 ^ 31 → Between c c x → to_i32 x ≡ x
unfolding to_i32 to_u32
to_i32-Between c (pos n) small h = ground (arith, h.1)
to_i32-Between c (negsuc n) small h = ground (arith, h.0)

pub +ℤ-Between :
    (c e : ℕ) (x y : ℤ) → Between c c x → Between e e y → Between (c + e) (c + e) (x +ℤ y)
unfolding ◌+ℤ◌
+ℤ-Between c e x y h k = ground (arith, h.0, h.1, k.0, k.1)

product-le : (m n : ℕ) → m ≤ 127 → n ≤ 127 → m * n ≤ 16129
product-le m n h k = grind arith

pub *ℤ-Between : (x y : ℤ) → Between 127 127 x → Between 127 127 y → Between 16129 16129 (x *ℤ y)
unfolding ◌*ℤ◌
*ℤ-Between (pos m) (pos n) h k = ground (arith, product-le m n h.1 k.1)
*ℤ-Between (pos m) (negsuc n) h k = ground (arith, product-le m (suc n) h.1 k.0)
*ℤ-Between (negsuc m) (pos n) h k = ground (arith, product-le (suc m) n h.0 k.1)
*ℤ-Between (negsuc m) (negsuc n) h k = ground (arith, product-le (suc m) (suc n) h.0 k.0)
