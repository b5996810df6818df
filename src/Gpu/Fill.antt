-- ===== src/Gpu/Fill.antt =====
-- The random numbers of a draw on the GPU: `rng_fill_kernel` of src/gpu_prep.cu.
pub mod Groups
pub mod Same
use kan_mine.Prelude.{
  ℕ, zero, suc, ◌+◌, ◌-◌, ◌*◌, ◌/◌, ◌%◌, bit_or, bit_and, List, [], ◌∷◌, ◌++◌, take, drop, ltb,
  if◌then◌else◌,
}
use kan_mine.Words.{u8, u32, u64, ◌<<<◌, ◌>>>◌, push_le}
use kan_mine.Prelude.Int.{ℤ, sub_ℕ}
use kan_mine.Noise.{to_i8}
use kan_mine.Prover.{byte_of}
use kan_mine.Mine.{golden, mix}
use kan_mine.Gpu.Tree.{threads_for}

-- `pack |= (uint64_t)(uint8_t)v << (8 * b)` for the bytes from `b` on, with `left` to go.
unfoldable pub pack_loop : ℕ → ℕ → ℕ → ℕ → ℕ
pack_loop zero b z pack = pack
pack_loop (suc left) b z pack =
    let v = to_i8 (sub_ℕ (u32 (bit_and (z >>> (8 * b)) 0xff * 129) >>> 8) 64) in
    pack_loop left (b + 1) z (bit_or pack (byte_of v <<< (8 * b)))

-- The eight entries of group `g`, as one word.
unfoldable pub group_pack : ℕ → ℕ → ℕ → ℕ → ℕ
unfolding pack_loop mix
group_pack k seed_xored d g =
    let i = g / (k / 8) in
    let q = g % (k / 8) in
    let st = u64 (seed_xored + d * 1000003 + i * 0x100000001b3 + (q + 1) * golden) in
    pack_loop 8 0 (mix st) 0

-- `reinterpret_cast<uint64_t*>(out)[g] = pack`: eight bytes, lowest first.
unfoldable pub store_group : ℕ → ℕ → List ℕ → List ℕ
store_group g pack out = take (8 * g) out ++ (push_le 8 0 pack ++ drop (8 * g + 8) out)

-- The groups of one thread: `for (g = ..; g < ngroups; g += stride)`. The fuel is the number of
-- groups, since a stride is at least 1.
unfoldable pub fill_thread : ℕ → ℕ → ℕ → ℕ → ℕ → ℕ → ℕ → List ℕ → List ℕ
unfolding store_group group_pack
fill_thread zero g stride ngroups k seed_xored d out = out
fill_thread (suc fuel) g stride ngroups k seed_xored d out =
    let rest =
      fill_thread fuel (g + stride) stride ngroups k seed_xored d
        (store_group g (group_pack k seed_xored d g) out) in
    if ltb g ngroups then rest else out

-- The threads from `t` on, with `left` to go.
unfoldable pub fill_threads : ℕ → ℕ → ℕ → ℕ → ℕ → ℕ → ℕ → List ℕ → List ℕ
unfolding fill_thread
fill_threads zero t stride ngroups k seed_xored d out = out
fill_threads (suc left) t stride ngroups k seed_xored d out =
    fill_threads left (t + 1) stride ngroups k seed_xored d
      (fill_thread ngroups t stride ngroups k seed_xored d out)

-- The launch over the `rows * (k / 8)` groups.
unfoldable pub rng_fill_kernel : ℕ → ℕ → ℕ → ℕ → List ℕ → List ℕ
unfolding fill_threads
rng_fill_kernel rows k seed_xored d out =
    let ngroups = rows * (k / 8) in
    fill_threads (threads_for ngroups) 0 (threads_for ngroups) ngroups k seed_xored d out
