-- ===== src/Tests/Blocks.antt =====
-- A pool with one bin of blocks of 64 bytes, four to a segment and two to a batch.
use iocpnetwork_engine.Prelude.{
  ℕ, ◌≤◌, ◌≡◌, refl, true, false, some, List, [], ◌∷◌, ◌++◌, arith, inl,
}
use iocpnetwork_engine.Memory.SizeBin.{BinSpec}
use iocpnetwork_engine.Memory.GlobalBlockPool.{
  GlobalBlockPool, Bin, Grant, empty_bin, carve_and_push, blocks_to_grow, grow_locked, pop_chunk,
}
use iocpnetwork_engine.Memory.GlobalBlockPool.Stock
use iocpnetwork_engine.Memory.GlobalBlockPool.Stock.{all_blocks, places, carve_and_push_lem}
use iocpnetwork_engine.Memory.GlobalBlockPool.Growth.{Grown, grow_locked_lem}
use iocpnetwork_engine.Memory.GlobalBlockPool.Supply.{Popped, pop_chunk_lem}
use iocpnetwork_engine.Memory.ThreadBlockCache.{ThreadBlockCache, pop, push}
use iocpnetwork_engine.Memory.ThreadBlockCache.Account.{Sound}
use iocpnetwork_engine.Memory.ThreadBlockCache.Calls.{Lent, pop_lem, push_lem}

abbrev spec : BinSpec
spec = record {
  block_size = 64;
  stride = 80;
  cache_cap_blocks = 8;
  batch_blocks = 2;
  blocks_per_segment = 4;
}

-- Two of four blocks are out of the bin.
abbrev bin : Bin
bin = record empty_bin {
  chunk_list = record { blocks = 1080 ∷ (1000 ∷ []); block_count = 2 } ∷ [];
  blocks_in_pool = 2;
  blocks_created = 4;
  segments = 1000 ∷ [];
  committed_bytes = 320;
  segment_capacity = 4;
  min_blocks_in_pool = 2;
}

abbrev pool : GlobalBlockPool
pool = record {
  initialized = true;
  bin_count = 1;
  spec = λ b. spec;
  bins = λ b. bin;
  committed_bytes = 320;
  max_committed_bytes = 1000;
  commit_limit_hits = 0;
}

abbrev grant : Grant
grant = record { segment = some 2000; longer_list = true }

bin-IsValid : Stock.IsValid bin 2
bin-IsValid = record {
  stocked = refl;
  whole = (refl, omega arith, tt);
  created = refl;
  lowest = inl (omega arith);
}

carve_and_push_example :
    all_blocks (carve_and_push 5 spec 2000 5 bin).chunk_list
    ≡ places 2000 80 5 ++ all_blocks bin.chunk_list
carve_and_push_example = carve_and_push_lem 5 spec 2000 5 bin (omega arith) (omega arith)

grow_locked_example :
    let (grown, q) = grow_locked pool 0 2 false grant in
    Grown pool 0 (blocks_to_grow pool 0 2) 2 grown q
grow_locked_example = grow_locked_lem pool 0 2 2 false grant (omega arith) bin-IsValid

pop_chunk_example : Popped 0 2 (pop_chunk pool 0 grant).0 (pop_chunk pool 0 grant).1
pop_chunk_example = pop_chunk_lem pool 0 2 grant (omega arith) bin-IsValid

abbrev returned : List ℕ
returned = 1240 ∷ (1160 ∷ [])

-- A cache that holds one of the two blocks that are out of the bin.
abbrev cache : ThreadBlockCache
cache = record {
  lists = λ b. record { blocks = 1160 ∷ []; count = 1 };
  acquire_count = λ b. 0;
  release_count = λ b. 0;
}

cache-Sound : Sound 0 1 cache pool
cache-Sound = record {
  stock = record {
    stocked = refl;
    whole = (refl, omega arith, tt);
    created = refl;
    lowest = inl (omega arith);
  };
  counted = refl;
}

pop_lem_example : let (block, d, q) = pop cache pool 0 grant in Lent 0 1 block d q
pop_lem_example = pop_lem cache pool 0 1 grant (omega arith) cache-Sound

push_lem_example : let (d, q) = push cache pool 0 1240 in Sound 0 0 d q × ((d.lists 0).count ≤ 8)
push_lem_example = push_lem cache pool 0 0 1240 (omega arith) cache-Sound (omega arith)
