-- ===== src/Memory/SizeBin.antt =====
-- Memory/SizeBin.h: the constants of a size bin. `align_up_size` is that of Memory/BlockLayout.h. A
-- block size or a stride of zero, which the source divides by, is outside the model.
pub mod Limits
use Prim.Native.Nat.{bit_and}
use iocpnetwork_engine.Prelude.{
  ℕ, ◌+◌, ◌-◌, ◌*◌, ◌/◌, ◌%◌, ◌^◌, Bool, not, ◌&&◌, ltb, leb, ◌==◌, if◌then◌else◌,
}

abbrev pub segment_target_bytes : ℕ
segment_target_bytes = 262144

abbrev pub cache_bytes_per_bin : ℕ
cache_bytes_per_bin = 65536

abbrev pub cache_cap_block_limit : ℕ
cache_cap_block_limit = 512

abbrev pub cache_cap_min_blocks : ℕ
cache_cap_min_blocks = 4

-- On `size_t`, 64 bits: `~x` is `2 ^ 64 - 1 - x`.
abbrev pub align_up_size : ℕ → ℕ → ℕ
align_up_size value alignment =
    bit_and ((value + (alignment - 1)) % 2 ^ 64) (2 ^ 64 - 1 - (alignment - 1))

pub record BinSpec : Type 0 where
  pub block_size : ℕ
  pub stride : ℕ
  pub cache_cap_blocks : ℕ
  pub batch_blocks : ℕ
  pub blocks_per_segment : ℕ

-- The three tests on `cap`, in their order.
abbrev pub cache_cap : ℕ → ℕ
cache_cap block_size =
    let cap : ℕ = cache_bytes_per_bin / block_size in
    let capped : ℕ = if ltb cache_cap_block_limit cap then cache_cap_block_limit else cap in
    if ltb capped cache_cap_min_blocks then 0 else capped

-- The unit moved between the cache and the shared pool.
abbrev pub batch_of : ℕ → ℕ
batch_of cap = if leb cache_cap_min_blocks cap then cap / 4 else 1

-- The number of blocks of a segment, from the stride and the batch.
abbrev pub segment_blocks : ℕ → ℕ → ℕ
segment_blocks stride batch =
    let blocks : ℕ = segment_target_bytes / stride in
    let doubled : ℕ = if ltb blocks (batch * 2) then batch * 2 else blocks in
    if ltb doubled 2 then 2 else doubled

pub make_bin_spec : ℕ → ℕ → ℕ → BinSpec
make_bin_spec block_size header_size alignment =
    let stride : ℕ = align_up_size ((header_size + block_size) % 2 ^ 32) alignment % 2 ^ 32 in
    let cap : ℕ = cache_cap block_size in
    let batch : ℕ = batch_of cap in
    record {
      block_size = block_size;
      stride = stride;
      cache_cap_blocks = cap;
      batch_blocks = batch;
      blocks_per_segment = segment_blocks stride batch % 2 ^ 32;
    }
