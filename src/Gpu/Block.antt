-- ===== src/Gpu/Block.antt =====
-- The search kernel of src/tc_block.cu. An array in shared memory or in registers is a function of
-- its indices; an asynchronous copy has arrived when the pipeline is waited for; what is read past
-- the end of a panel is 0, and no tile of the grid looks at it.
pub mod Host
pub mod Lanes
pub mod Fold
pub mod Once
pub mod Sums
pub mod Chunks
pub mod Pipeline
pub mod Gather
pub mod Hash
pub mod Places
pub mod Entries
pub mod Jackpot
pub mod Parts
pub mod Tiles
pub mod Winner
pub mod Search
use kan_mine.Prelude.{
  ℕ, zero, suc, ◌+◌, ◌-◌, ◌*◌, ◌/◌, ◌%◌, Bool, true, not, ◌||◌, bit_or, bit_xor, List, [], ◌∷◌,
  ◌++◌, take, drop, length, get_or, set, replicate, ltb, leb, ◌==◌, if◌then◌else◌,
}
use kan_mine.Prelude.Int.{ℤ, pos, ◌+ℤ◌, ◌*ℤ◌}
use kan_mine.Words.{u32, ◌<<<◌, ◌>>>◌}
use kan_mine.Tile.{to_u32, to_i32}
use kan_mine.Gpu.Compress.{iv, msg_schedule, rounds, fold_halves}
use kan_mine.Gpu.Add.{i8_of, stride_threads}

abbrev pub bm : ℕ
bm = 128

abbrev pub bn : ℕ
bn = 128

abbrev pub wgn : ℕ
wgn = 2

abbrev pub wpb : ℕ
wpb = 8

abbrev pub wsubm : ℕ
wsubm = 2

abbrev pub wsubn : ℕ
wsubn = 4

abbrev pub rsub : ℕ
rsub = 32

abbrev pub rotl32d : ℕ → ℕ → ℕ
rotl32d x n = bit_or (u32 (x <<< n)) (x >>> (32 - n))

-- One block of 64 bytes, with the flags of a keyed message of one block.
unfoldable pub jackpot_blake3 : List ℕ → List ℕ → List ℕ
jackpot_blake3 key msg =
    fold_halves 8 0 (rounds msg msg_schedule (take 8 key ++ (take 4 iv ++ 0 ∷ 0 ∷ 64 ∷ 27 ∷ [])))

-- The words from index `i - 1` down.
unfoldable pub le_words : ℕ → List ℕ → List ℕ → Bool
le_words zero a b = true
le_words (suc i) a b =
    if not (get_or a i 0 == get_or b i 0) then ltb (get_or a i 0) (get_or b i 0) else le_words i a b

unfoldable pub le_u256 : List ℕ → List ℕ → Bool
unfolding le_words
le_u256 a b = le_words 8 a b

-- `for (int i = 0; i < n; i++)`.
abbrev pub for_below {ℓ} : {S : Type ℓ} → ℕ → (ℕ → S → S) → S → S
for_below zero f s = s
for_below (suc n) f s = f n (for_below n f s)

-- The blocks from `rprime` on, with `left` to go; `dst` is the memory from that row on.
unfoldable pub gather_rows : ℕ → ℕ → List ℕ → ℕ → List ℕ → List ℕ → ℕ → ℕ → List ℕ → List ℕ
gather_rows zero rprime src k off pat h noff dst = dst
gather_rows (suc left) rprime src k off pat h noff dst =
    let i = rprime / h in
    let u = rprime % h in
    let s = (get_or off i 0 + get_or pat u 0) * k in
    let copied = stride_threads (λ l old. get_or src (s + l) 0) 256 0 256 k (take k dst) in
    (if leb noff i then take k dst else copied)
    ++ gather_rows left (rprime + 1) src k off pat h noff (drop k dst)

-- The arguments of `tc_block_jackpot` that are numbers.
pub record Geometry : Type 0 where
  pub k : ℕ
  pub rank : ℕ
  pub h : ℕ
  pub w : ℕ
  pub nrow_off : ℕ
  pub ncol_off : ℕ

-- 16 by 16 values, a panel's slice, and the accumulators `acc[tr][tc]` of each warp.
abbrev pub Fragment : Type 0
Fragment = ℕ → ℕ → ℤ

abbrev pub Accumulators : Type 0
Accumulators = ℕ → ℕ → ℕ → Fragment

-- `a_sh` and `b_sh`: a slice for each buffer of the pipeline.
pub record Shared : Type 0 where
  pub a_sh : ℕ → Fragment
  pub b_sh : ℕ → Fragment

-- `jp_sh`.
abbrev pub Jackpots : Type 0
Jackpots = ℕ → List ℕ

-- The sum of the products at the first `n` places.
abbrev pub products : ℕ → (ℕ → ℤ) → (ℕ → ℤ) → ℤ
products zero x y = pos 0
products (suc n) x y = products n x y +ℤ x n *ℤ y n

-- `wmma::mma_sync` on 8-bit fragments, with accumulators of 32 bits.
unfoldable pub mma_sync : Fragment → Fragment → Fragment → Fragment
mma_sync a b c i j = to_i32 (c i j +ℤ products 16 (λ l. a i l) (λ l. b l j))

-- `for (int off = ..; off > 0; off >>= 1) x ^= __shfl_xor_sync(.., x, off)` on the lanes of a warp.
unfoldable pub shuffles : ℕ → ℕ → (ℕ → ℕ) → ℕ → ℕ
shuffles zero off x = x
shuffles (suc fuel) off x =
    let rest = shuffles fuel (off / 2) (λ lane. bit_xor (x lane) (x (bit_xor lane off))) in
    if ltb 0 off then rest else x

-- `for (int idx = lane; idx < h*w; idx += 32)` for the tile (`sr`, `sc`) of a subtile.
unfoldable pub lane_loop : ℕ → ℕ → ℕ → ℕ → ℕ → ℕ → Fragment → ℕ → ℕ
lane_loop zero idx h w sr sc o_sh x = x
lane_loop (suc fuel) idx h w sr sc o_sh x =
    let rr = idx / w in
    let ccc = idx % w in
    let rest =
      lane_loop fuel (idx + 32) h w sr sc o_sh
        (bit_xor x (to_u32 (o_sh (sc * w + ccc) (sr * h + rr)))) in
    if ltb idx (h * w) then rest else x

module _ (g : Geometry) (ap btp : List ℕ) (bi bj : ℕ) where
  -- `LOAD_SLICE`: every segment of the two slices.
  abbrev pub load_slice : ℕ → ℕ → Shared → Shared
  load_slice buf kb sh = record {
    a_sh = λ b r o.
        if b == buf then i8_of (get_or ap ((bi * g.h + r) * g.k + kb + o) 0) else sh.a_sh b r o;
    b_sh = λ b r o.
        if b == buf then i8_of (get_or btp ((bj * g.w + r) * g.k + kb + o) 0) else sh.b_sh b r o;
  }

  -- One `ks`: each warp multiplies its fragments.
  unfoldable pub multiply : Shared → ℕ → ℕ → Accumulators → Accumulators
  unfolding mma_sync
  multiply sh buf ks acc warp tr tc =
      let wgr = warp / wgn in
      let wgc = warp % wgn in
      mma_sync (λ i l. sh.b_sh buf ((wgc * wsubn + tc) * 16 + i) (ks * 16 + l))
        (λ l j. sh.a_sh buf ((wgr * wsubm + tr) * 16 + j) (ks * 16 + l)) (acc warp tr tc)

  -- The fold of one jackpot tile after chunk `c`.
  unfoldable pub fold_tile : ℕ → Accumulators → ℕ → ℕ → ℕ → ℕ → ℕ → Jackpots → Jackpots
  unfolding shuffles lane_loop
  fold_tile c acc warp tr tc sr sc jp_sh =
      let sgr = warp / wgn * wsubm + tr in
      let sgc = warp % wgn * wsubn + tc in
      let jt_i = bi + sgr * (16 / g.h) + sr in
      let jt_j = bj + sgc * (16 / g.w) + sc in
      let x =
        shuffles 5 16 (λ lane. lane_loop (g.h * g.w) lane g.h g.w sr sc (acc warp tr tc) 0) 0 in
      let local_jt = (sgr * (16 / g.h) + sr) * (bn / g.w) + (sgc * (16 / g.w) + sc) in
      if leb g.nrow_off jt_i || leb g.ncol_off jt_j then jp_sh else λ t.
      if t == local_jt
      then set (jp_sh t) (c % 16) (bit_xor (rotl32d (get_or (jp_sh t) (c % 16) 0) 13) x)
      else jp_sh t

  -- The fold after a whole chunk: every tile of every subtile of every warp.
  unfoldable pub fold_chunk : ℕ → Accumulators → Jackpots → Jackpots
  unfolding fold_tile
  fold_chunk c acc = for_below wpb (λ warp. for_below wsubm (λ tr. for_below wsubn (λ tc.
      for_below (16 / g.h) (λ sr. for_below (16 / g.w) (λ sc. fold_tile c acc warp tr tc sr sc)))))

  -- `for (int st = 0; st < nstages; st++)`, with `left` to go from stage `st` on.
  unfoldable pub stages : ℕ → ℕ → Shared → Accumulators → Jackpots → Jackpots
  unfolding multiply fold_chunk
  stages zero st sh acc jp_sh = jp_sh
  stages (suc left) st sh acc jp_sh =
      let nsub = g.rank / rsub in
      let pf = st + 1 in
      let sh' = if ltb 0 left then load_slice (pf % 2) (pf * rsub) sh else sh in
      let acc' = for_below (rsub / 16) (multiply sh' (st % 2)) acc in
      let jp_sh' = if (st + 1) % nsub == 0 then fold_chunk (st / nsub) acc' jp_sh else jp_sh in
      stages left (st + 1) sh' acc' jp_sh'

  -- The jackpots of a block's tiles.
  unfoldable pub block_jackpots : Shared → Jackpots
  unfolding stages
  block_jackpots sh =
      let nstages = (g.k - g.k % g.rank) / g.rank * (g.rank / rsub) in
      stages nstages 0 (if ltb 0 nstages then load_slice 0 0 sh else sh) (λ warp tr tc i j. pos 0)
        (λ t. replicate 16 0)
