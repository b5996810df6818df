-- ===== src/Gpu/Tree/Chunks.antt =====
-- A launch of `b3_chunk_kernel` against the chunks of `MerkleTree`.
use kan_mine.Prelude.{
  ℕ, zero, suc, ◌+◌, ◌-◌, ◌*◌, ◌≤◌, ◌<◌, ◌≡◌, refl, ap, ap₂, ◌∙◌, Bool, true, false, inl, inr,
  Bool-cases, if◌then◌else◌, bit_or, List, [], ◌∷◌, ◌++◌, append-nil, map, ltb, ◌==◌, length,
  length-take, length-drop, drop-drop, get_or, take, drop, replicate, All, arith,
}
use kan_mine.Words.{key_to_words, to_words_loop, cv_to_bytes, u8}
use kan_mine.Words.Pack.{get_or-drop, get_or-take, to_words-same}
use kan_mine.Blake3.{
  Blake3, chunk_len, block_len, keyed_hash, chunk_start, final_block, blocks_loop, chunk_cv,
}
use kan_mine.Merkle.{chunk_layer}
use kan_mine.Gpu.Compress.{b3_compress}
use kan_mine.Gpu.Compress.Library.{IsBlake3, IsCv, b3_compress-IsCv}
use kan_mine.Gpu.Tree.{threads_for, chunk_blocks, chunk_threads, b3_chunk_kernel, block_flags}

-- A launch has a thread for each place.
pub threads_enough : (n : ℕ) → n ≤ threads_for n
threads_enough n = omega arith

flags_before_last :
    (at : ℕ)
    → at < 15
    → (if at == 0 then bit_or keyed_hash chunk_start else keyed_hash) ≡ block_flags at
flags_before_last at h =
    let more : (at == 15) ≡ false = ground arith in
    elim (Bool-cases (at == 0)) [ inl e ↦ rw (more, e) refl | inr e ↦ rw (more, e) refl ]

-- Threads past the last place write nothing.
chunk_threads-past :
    (left c n : ℕ) (hkey data_bytes : List ℕ)
    → n ≤ c
    → [] ≡ map cv_to_bytes (chunk_threads left c n hkey data_bytes)
unfolding chunk_threads
chunk_threads-past zero c n hkey data_bytes h = refl
chunk_threads-past (suc left) c n hkey data_bytes h =
    let past : ltb c n ≡ false = ground arith in
    rw past (chunk_threads-past left (c + 1) n hkey data_bytes (omega arith))

module _ (b : Blake3) (lib : IsBlake3 b) where
  -- A whole block as both read it.
  same_block :
      (cv block data_bytes : List ℕ) (i counter flags : ℕ)
      → length block ≡ 64
      → ((m : ℕ) → m < 64 → get_or block m 0 ≡ get_or data_bytes (4 * i + m) 0)
      → b.compress_in_place cv block 64 counter flags
        ≡ b3_compress cv (to_words_loop 16 i data_bytes) counter 64 flags
  same_block cv block data_bytes i counter flags l same =
      lib.in_place cv block counter flags l
      ∙ ap (λ (w : List ℕ). b3_compress cv w counter 64 flags)
          (to_words-same 16 0 i block data_bytes
            (λ m h. ap (λ (t : ℕ). get_or block t 0) (zero_first m) ∙ same m (omega arith)))
    where
      zero_first : (m : ℕ) → 4 * 0 + m ≡ m
      zero_first m = omega arith

  only_final :
      (fuel : ℕ) (cv rest : List ℕ) (first : Bool) (c : ℕ)
      → length rest ≡ 64
      → blocks_loop b fuel cv rest first c ≡ final_block b cv rest first c
  unfolding blocks_loop
  only_final zero cv rest first c l = refl
  only_final (suc fuel) cv rest first c l =
      let short : ltb block_len (length rest) ≡ false = ground arith in rw short refl

  last_block :
      (cv rest data_bytes : List ℕ) (i c : ℕ)
      → length rest ≡ 64
      → ((m : ℕ) → m < 64 → get_or rest m 0 ≡ get_or data_bytes (4 * i + m) 0)
      → final_block b cv rest false c
        ≡ b3_compress cv (to_words_loop 16 i data_bytes) c 64 (block_flags 15)
  unfolding final_block
  last_block cv rest data_bytes i c l same =
      ap₂ (λ (block : List ℕ) (len : ℕ). b.compress_in_place cv block len c 18) padded (ap u8 l)
      ∙ same_block cv rest data_bytes i c 18 l same
    where
      padded : rest ++ replicate (block_len - length rest) 0 ≡ rest
      padded = rw l (append-nil rest)

  one_block_more :
      (fuel : ℕ) (cv rest : List ℕ) (first : Bool) (c : ℕ)
      → 64 < length rest
      → blocks_loop b (suc fuel) cv rest first c
        ≡ blocks_loop b fuel
            (b.compress_in_place cv
              (take block_len rest)
              block_len
              c
              (if first then bit_or keyed_hash chunk_start else keyed_hash))
            (drop block_len rest)
            false
            c
  unfolding blocks_loop
  one_block_more fuel cv rest first c l =
      let more : ltb block_len (length rest) ≡ true = ground arith in rw more refl

  -- The blocks of a chunk that are left, as the CPU and as a thread takes them.
  blocks_loop-chunk_blocks :
      (left at c fuel : ℕ) (data_bytes cv rest : List ℕ) (first : Bool)
      → suc left + at ≡ 16
      → first ≡ (at == 0)
      → length rest ≡ 64 * suc left
      → left ≤ fuel
      → ((m : ℕ)
          → m < 64 * suc left
          → get_or rest m 0 ≡ get_or data_bytes (4 * (c * 256 + at * 16) + m) 0)
      → blocks_loop b fuel cv rest first c ≡ chunk_blocks (suc left) at c data_bytes cv
  unfolding chunk_blocks
  blocks_loop-chunk_blocks zero at c fuel data_bytes cv rest first e f l enough same =
      let fifteen : at ≡ 15 = omega (arith, e) in
      let not_first : first ≡ false = f ∙ ap (λ (t : ℕ). t == 0) fifteen in
      only_final fuel cv rest first c (omega (arith, l))
      ∙ rw (not_first, fifteen)
          (last_block cv rest data_bytes (c * 256 + 15 * 16) c (omega (arith, l))
            (λ m h. rw fifteen at (same m (omega arith))))
  blocks_loop-chunk_blocks (suc left) at c zero data_bytes cv rest first e f l enough same =
      absurd (omega arith)
  blocks_loop-chunk_blocks (suc left) at c (suc fuel) data_bytes cv rest first e f l enough same =
      one_block_more fuel cv rest first c (omega (arith, l))
      ∙ rw (f, flags_before_last at (omega (arith, e)), head)
          (blocks_loop-chunk_blocks left (at + 1) c fuel data_bytes
            (b3_compress cv (to_words_loop 16 (c * 256 + at * 16) data_bytes) c 64 (block_flags at))
            (drop block_len rest) false (omega (arith, e)) later
            (omega (arith, length-drop block_len rest, l)) (omega (arith, enough))
            (λ m h.
              get_or-drop 0 block_len rest m
              ∙ same (block_len + m) (omega arith)
              ∙ ap (λ (t : ℕ). get_or data_bytes t 0) (omega arith)))
    where
      later : false ≡ (at + 1 == 0)
      later = ground arith

      head :
          b.compress_in_place cv (take block_len rest) block_len c (block_flags at)
          ≡ b3_compress cv (to_words_loop 16 (c * 256 + at * 16) data_bytes) c 64 (block_flags at)
      head =
          same_block cv (take block_len rest) data_bytes (c * 256 + at * 16) c (block_flags at)
            (omega (arith, length-take block_len rest, l))
            (λ m h. get_or-take 0 block_len rest m h ∙ same m (omega arith))

  -- One chunk of the data, by its place.
  chunk_cv-chunk_blocks :
      (key data_bytes : List ℕ) (c : ℕ)
      → (c + 1) * chunk_len ≤ length data_bytes
      → chunk_cv b key (take chunk_len (drop (c * chunk_len) data_bytes)) c
        ≡ cv_to_bytes (chunk_blocks 16 0 c data_bytes (key_to_words key))
  unfolding chunk_cv
  chunk_cv-chunk_blocks key data_bytes c fits =
      let chunk : List ℕ = take chunk_len (drop (c * chunk_len) data_bytes) in
      let size : length chunk ≡ 1024 = omega (
        arith,
        length-take chunk_len (drop (c * chunk_len) data_bytes),
        length-drop (c * chunk_len) data_bytes,
      ) in
      ap cv_to_bytes (
        blocks_loop-chunk_blocks 15 0 c (length chunk) data_bytes (key_to_words key) chunk true
          (omega arith) refl (omega (arith, size)) (omega (arith, size))
          (λ m h.
            get_or-take 0 chunk_len (drop (c * chunk_len) data_bytes) m (omega arith)
            ∙ get_or-drop 0 (c * chunk_len) data_bytes m
            ∙ ap (λ (t : ℕ). get_or data_bytes t 0) (omega arith)))

  -- The threads of the launch that have a chunk give the layer of the chunks.
  chunk_layer-chunk_threads :
      (left n c : ℕ) (key data_bytes : List ℕ)
      → (n + c) * chunk_len ≡ length data_bytes
      → n ≤ left
      → chunk_layer b n c key (drop (c * chunk_len) data_bytes)
        ≡ map cv_to_bytes (chunk_threads left c (n + c) (key_to_words key) data_bytes)
  unfolding chunk_layer chunk_threads
  chunk_layer-chunk_threads zero zero c key data_bytes e enough = refl
  chunk_layer-chunk_threads zero (suc n) c key data_bytes e enough = absurd (omega arith)
  chunk_layer-chunk_threads (suc left) zero c key data_bytes e enough =
      let past : ltb c (0 + c) ≡ false = ground arith in
      rw past (chunk_threads-past left (c + 1) (0 + c) (key_to_words key) data_bytes (omega arith))
  chunk_layer-chunk_threads (suc left) (suc n) c key data_bytes e enough =
      let here : ltb c (suc n + c) ≡ true = ground arith in
      let shift : suc n + c ≡ n + (c + 1) = omega arith in
      rw (here, drop-drop (c * chunk_len) chunk_len data_bytes)
        (ap₂ ◌∷◌ (chunk_cv-chunk_blocks key data_bytes c (omega (arith, e))) (
          rw (next_place c, shift)
            (chunk_layer-chunk_threads left n (c + 1) key data_bytes (rw shift at e)
              (omega (arith, enough)))))
    where
      next_place : (c : ℕ) → c * chunk_len + chunk_len ≡ (c + 1) * chunk_len
      next_place c = omega arith

  pub b3_chunk_kernel-chunk_layer :
      (n : ℕ) (key data_bytes : List ℕ)
      → length data_bytes ≡ n * chunk_len
      → chunk_layer b n 0 key data_bytes
        ≡ map cv_to_bytes (b3_chunk_kernel n (key_to_words key) data_bytes)
  unfolding b3_chunk_kernel
  b3_chunk_kernel-chunk_layer n key data_bytes e =
      chunk_layer-chunk_threads (threads_for n) n 0 key data_bytes (omega (arith, e))
        (threads_enough n)
      ∙ ap
          (λ (t : ℕ).
            map cv_to_bytes (chunk_threads (threads_for n) 0 t (key_to_words key) data_bytes))
          (omega arith)

-- What the threads write is a chaining value.
chunk_blocks-IsCv :
    (left at c : ℕ) (data_bytes cv : List ℕ) → IsCv (chunk_blocks (suc left) at c data_bytes cv)
unfolding chunk_blocks
chunk_blocks-IsCv zero at c data_bytes cv =
    b3_compress-IsCv cv (to_words_loop 16 (c * 256 + at * 16) data_bytes) c 64 (block_flags at)
chunk_blocks-IsCv (suc left) at c data_bytes cv =
    chunk_blocks-IsCv left (at + 1) c data_bytes
      (b3_compress cv (to_words_loop 16 (c * 256 + at * 16) data_bytes) c 64 (block_flags at))

chunk_threads-IsCv :
    (left c n : ℕ) (hkey data_bytes : List ℕ) → All IsCv (chunk_threads left c n hkey data_bytes)
unfolding chunk_threads
chunk_threads-IsCv zero c n hkey data_bytes = tt
chunk_threads-IsCv (suc left) c n hkey data_bytes =
    let rest = chunk_threads-IsCv left (c + 1) n hkey data_bytes in
    elim (Bool-cases (ltb c n)) [
      | inl e ↦ rw e (chunk_blocks-IsCv 15 0 c data_bytes hkey, rest)
      | inr e ↦ rw e rest
    ]

pub b3_chunk_kernel-IsCv :
    (n : ℕ) (hkey data_bytes : List ℕ) → All IsCv (b3_chunk_kernel n hkey data_bytes)
unfolding b3_chunk_kernel
b3_chunk_kernel-IsCv n hkey data_bytes = chunk_threads-IsCv (threads_for n) 0 n hkey data_bytes
