-- ===== src/Memory/GlobalBlockPool.antt =====
-- Memory/GlobalBlockPool.cpp: the shared stock of blocks, in chunks. A block is known by its address,
-- and a chunk's chain of `next` links is the list of its blocks. One call is one step: of the lock-free
-- stack only the order of whole calls is kept, so that the count of the blocks, which the invariant
-- bounds from below, is a natural number. What the operating system grants is an argument.
pub mod Stock
pub mod Growth
pub mod Supply
use iocpnetwork_engine.Prelude.{
  ℕ, zero, suc, ◌+◌, ◌-◌, ◌*◌, ◌%◌, ◌^◌, Bool, true, false, not, ◌&&◌, ◌||◌, Option, none, some,
  List, [], ◌∷◌, ◌++◌, ltb, leb, ◌==◌, if◌then◌else◌, length,
}
use iocpnetwork_engine.Prelude.Chain.{update}
use iocpnetwork_engine.Memory.SizeBin.{BinSpec}

-- `ChunkNode`: the blocks from `blockHead` on, and `blockCount`.
pub record Chunk : Type 0 where
  pub blocks : List ℕ
  pub block_count : ℕ

pub record Bin : Type 0 where
  pub chunk_list : List Chunk
  pub blocks_in_pool : ℕ
  pub blocks_created : ℕ
  pub growth_count : ℕ
  pub fail_count : ℕ
  pub segments : List ℕ
  pub committed_bytes : ℕ
  pub segment_capacity : ℕ
  pub min_blocks_in_pool : ℕ

abbrev pub max_long_long : ℕ
max_long_long = 2 ^ 63 - 1

abbrev pub empty_bin : Bin
empty_bin = record {
  chunk_list = [];
  blocks_in_pool = 0;
  blocks_created = 0;
  growth_count = 0;
  fail_count = 0;
  segments = [];
  committed_bytes = 0;
  segment_capacity = 0;
  min_blocks_in_pool = max_long_long;
}

-- `bin_count` and `spec` are the table's.
pub record GlobalBlockPool : Type 0 where
  pub initialized : Bool
  pub bin_count : ℕ
  pub spec : ℕ → BinSpec
  pub bins : ℕ → Bin
  pub committed_bytes : ℕ
  pub max_committed_bytes : ℕ
  pub commit_limit_hits : ℕ

-- What the system grants to one growth: the address of `VirtualAlloc`, and whether the heap had room
-- for a longer list of segments.
pub record Grant : Type 0 where
  pub segment : Option ℕ
  pub longer_list : Bool

pub initialize : GlobalBlockPool → ℕ → (ℕ → BinSpec) → Bool → Bool × GlobalBlockPool
initialize p bin_count spec granted =
    if p.initialized
    then (false, p)
    else if granted
    then (
      true,
      record p { initialized = true; bin_count = bin_count; spec = spec; bins = λ b. empty_bin },
    )
    else (false, record p { bin_count = bin_count; spec = spec })

-- The addresses of the blocks of one chunk, the last one carved first, in front of `head`.
abbrev pub carve : ℕ → ℕ → ℕ → List ℕ → List ℕ
carve cursor stride zero head = head
carve cursor stride (suc take) head = carve (cursor + stride) stride take (cursor ∷ head)

-- The loop of `CarveAndPush`, at most `fuel` rounds of it.
abbrev pub carve_and_push : ℕ → BinSpec → ℕ → ℕ → Bin → Bin
carve_and_push zero spec cursor remaining target = target
carve_and_push (suc fuel) spec cursor remaining target =
    let take : ℕ = if ltb remaining spec.batch_blocks then remaining else spec.batch_blocks in
    let rest : Bin =
      carve_and_push fuel spec (cursor + spec.stride * take) (remaining - take) (record target {
        chunk_list =
            record { blocks = carve cursor spec.stride take []; block_count = take }
            ∷ target.chunk_list;
        blocks_in_pool = target.blocks_in_pool + take;
      }) in
    if remaining == 0 then target else rest

pub record_segment_locked : Bin → ℕ → ℕ → Bool → Bool × Bin
record_segment_locked target segment bytes longer_list =
    if leb target.segment_capacity (length target.segments)
    then if longer_list
      then (
        true,
        record target {
          segments = target.segments ++ segment ∷ [];
          segment_capacity =
              if target.segment_capacity == 0 then 4 else target.segment_capacity * 2;
          committed_bytes = target.committed_bytes + bytes;
        },
      )
      else (false, target)
    else (
      true,
      record target {
        segments = target.segments ++ segment ∷ [];
        committed_bytes = target.committed_bytes + bytes;
      },
    )

abbrev pub failed : GlobalBlockPool → ℕ → GlobalBlockPool
failed p bin = record p {
  bins = update p.bins bin (record (p.bins bin) { fail_count = (p.bins bin).fail_count + 1 });
}

-- What `GrowLocked` does once it has a segment recorded in `target`.
abbrev pub stock_up : GlobalBlockPool → ℕ → ℕ → ℕ → Bool → Bin → GlobalBlockPool
stock_up p bin segment blocks is_initial target =
    let carved : Bin = carve_and_push blocks (p.spec bin) segment blocks target in
    record p {
      bins = update p.bins bin (record carved {
        blocks_created = carved.blocks_created + blocks;
        growth_count = if is_initial then carved.growth_count else carved.growth_count + 1;
      });
      committed_bytes = p.committed_bytes + (p.spec bin).stride * blocks;
    }

abbrev pub blocks_to_grow : GlobalBlockPool → ℕ → ℕ → ℕ
blocks_to_grow p bin min_blocks =
    if ltb (p.spec bin).blocks_per_segment min_blocks
    then min_blocks
    else (p.spec bin).blocks_per_segment

-- The commit limit, which a preallocation passes.
abbrev pub over_limit : GlobalBlockPool → ℕ → Bool → Bool
over_limit p bytes is_initial =
    (not is_initial && not (p.max_committed_bytes == 0))
    && ltb p.max_committed_bytes ((p.committed_bytes + bytes) % 2 ^ 64)

pub grow_locked : GlobalBlockPool → ℕ → ℕ → Bool → Grant → Bool × GlobalBlockPool
grow_locked p bin min_blocks is_initial grant =
    let blocks : ℕ = blocks_to_grow p bin min_blocks in
    let bytes : ℕ = (p.spec bin).stride * blocks in
    if over_limit p bytes is_initial
    then (false, failed (record p { commit_limit_hits = p.commit_limit_hits + 1 }) bin)
    else with_segment blocks bytes grant.segment
  where
    with_segment : ℕ → ℕ → Option ℕ → Bool × GlobalBlockPool
    with_segment blocks bytes none = (false, failed p bin)
    with_segment blocks bytes (some segment) =
        let (recorded, target) =
          record_segment_locked (p.bins bin) segment bytes grant.longer_list in
        if recorded
        then (true, stock_up p bin segment blocks is_initial target)
        else (false, failed p bin)

pub preallocate : GlobalBlockPool → ℕ → ℕ → Grant → Bool × GlobalBlockPool
preallocate p bin blocks grant =
    if (not p.initialized || leb p.bin_count bin) || (blocks == 0)
    then (false, p)
    else grow_locked p bin blocks true grant

pub note_popped : Bin → ℕ → Bin
note_popped target count =
    let remaining : ℕ = target.blocks_in_pool - count in
    record target {
      blocks_in_pool = remaining;
      min_blocks_in_pool =
          if leb target.min_blocks_in_pool remaining then target.min_blocks_in_pool else remaining;
    }

-- `InterlockedPopEntrySList` and what follows it.
abbrev pub pop_entry : GlobalBlockPool → ℕ → List Chunk → Option Chunk × GlobalBlockPool
pop_entry p bin [] = (none, failed p bin)
pop_entry p bin (c ∷ rest) = (
  some c,
  record p {
    bins =
        update p.bins bin (note_popped (record (p.bins bin) { chunk_list = rest }) c.block_count);
  },
)

abbrev pub is_dry : List Chunk → Bool
is_dry [] = true
is_dry (c ∷ rest) = false

pub pop_chunk : GlobalBlockPool → ℕ → Grant → Option Chunk × GlobalBlockPool
pop_chunk p bin grant =
    if is_dry (p.bins bin).chunk_list
    then (let (grown, q) = grow_locked p bin (p.spec bin).batch_blocks false grant in
        if grown then pop_entry q bin (q.bins bin).chunk_list else (none, failed q bin))
    else pop_entry p bin (p.bins bin).chunk_list

pub push_chunk : GlobalBlockPool → ℕ → List ℕ → ℕ → GlobalBlockPool
push_chunk p bin head count = if (length head == 0) || (count == 0) then p else record p {
  bins = update p.bins bin (record (p.bins bin) {
    chunk_list = record { blocks = head; block_count = count } ∷ (p.bins bin).chunk_list;
    blocks_in_pool = (p.bins bin).blocks_in_pool + count;
  });
}

pub record BinStats : Type 0 where
  pub blocks_created : ℕ
  pub blocks_in_pool : ℕ
  pub growth_count : ℕ
  pub fail_count : ℕ
  pub segment_count : ℕ
  pub committed_bytes : ℕ
  pub peak_out_of_pool : ℕ

-- The counters cast to their types.
abbrev pub stats_of : Bin → BinStats
stats_of target =
    let created : ℕ = target.blocks_created % 2 ^ 32 in
    record {
      blocks_created = created;
      blocks_in_pool = target.blocks_in_pool % 2 ^ 32;
      growth_count = target.growth_count % 2 ^ 32;
      fail_count = target.fail_count % 2 ^ 32;
      segment_count = length target.segments;
      committed_bytes = target.committed_bytes;
      peak_out_of_pool =
          if leb target.min_blocks_in_pool created
          then (created - target.min_blocks_in_pool) % 2 ^ 32
          else 0;
    }

pub get_stats : GlobalBlockPool → ℕ → Option BinStats
get_stats p bin =
    if not p.initialized || leb p.bin_count bin then none else some (stats_of (p.bins bin))
