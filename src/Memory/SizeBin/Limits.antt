-- ===== src/Memory/SizeBin/Limits.antt =====
-- What the constants that `MakeBinSpec` computes owe to the two layers above them.
use native.Mathlib.Nat.{mod-eq_of_lt, div-le_self, le_trans, mul-le-mul_right, div-mul-le_self}
use iocpnetwork_engine.Prelude.{ℕ, ◌+◌, ◌*◌, ◌/◌, ◌%◌, ◌^◌, ◌≤◌, ◌≡◌, arith, inl, inr, ◌⊎◌}
use iocpnetwork_engine.Memory.SizeBin.{
  align_up_size, make_bin_spec, cache_cap, batch_of, segment_blocks,
}

cap_within : (b : ℕ) → cache_cap b ≤ 65536 / b
cap_within b = ground arith

cap_range : (b : ℕ) → (cache_cap b ≤ 512) × ((cache_cap b ≡ 0) ⊎ (4 ≤ cache_cap b))
cap_range b = (ground arith, ground arith)

batch_range :
    (cap : ℕ)
    → cap ≤ 512
    → (cap ≡ 0) ⊎ (4 ≤ cap)
    → (1 ≤ batch_of cap) × ((cap ≡ 0) ⊎ (batch_of cap * 4 ≤ cap)) × (batch_of cap ≤ 128)
batch_range cap h (inl none_kept) = (ground arith, inl none_kept, ground arith)
batch_range cap h (inr some_kept) = (ground arith, inr (ground arith), ground arith)

segment_range :
    (stride batch : ℕ)
    → batch ≤ 128
    → let blocks = segment_blocks stride batch in
      (batch * 2 ≤ blocks) × (2 ≤ blocks) × (blocks ≤ 262144)
segment_range stride batch h =
    (ground arith, ground arith, ground (arith, div-le_self 262144 stride))

-- The thread cache of a bin never holds more than 64 KiB or 512 blocks; the bin has one of at least
-- four blocks, or none.
pub cache_limits :
    (block_size header_size alignment : ℕ)
    → let spec = make_bin_spec block_size header_size alignment in
      (spec.cache_cap_blocks * block_size ≤ 65536)
      × (spec.cache_cap_blocks ≤ 512)
      × ((spec.cache_cap_blocks ≡ 0) ⊎ (4 ≤ spec.cache_cap_blocks))
unfolding make_bin_spec
cache_limits b h a = (
  le_trans (mul-le-mul_right b (cap_within b)) (div-mul-le_self 65536 b),
  (cap_range b).0,
  (cap_range b).1,
)

-- A batch is never empty; a full cache that gives one batch back keeps three quarters of its blocks or
-- more; and a new segment gives at least two batches.
pub batch_limits :
    (block_size header_size alignment : ℕ)
    → let spec = make_bin_spec block_size header_size alignment in
      (1 ≤ spec.batch_blocks)
      × ((spec.cache_cap_blocks ≡ 0) ⊎ (spec.batch_blocks * 4 ≤ spec.cache_cap_blocks))
      × (spec.batch_blocks * 2 ≤ spec.blocks_per_segment)
      × (2 ≤ spec.blocks_per_segment)
unfolding make_bin_spec
batch_limits b h a =
    let (most, some_or_none) = cap_range b in
    let (full, quarter, small) = batch_range (cache_cap b) most some_or_none in
    let stride : ℕ = align_up_size ((h + b) % 2 ^ 32) a % 2 ^ 32 in
    let (two_batches, two, fits) = segment_range stride (batch_of (cache_cap b)) small in
    let same : segment_blocks stride (batch_of (cache_cap b)) % 2 ^ 32
        ≡ segment_blocks stride (batch_of (cache_cap b)) =
      mod-eq_of_lt (omega (arith, fits)) in
    (full, quarter, omega (arith, same, two_batches), omega (arith, same, two))
