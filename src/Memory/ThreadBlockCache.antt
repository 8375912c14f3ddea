-- ===== src/Memory/ThreadBlockCache.antt =====
-- Memory/ThreadBlockCache.h and .cpp, the cache of one thread: a free list for each bin in front of the
-- shared pool. A free list's chain of `next` links is the list of its blocks.
pub mod Account
pub mod Calls
use iocpnetwork_engine.Prelude.{
  ℕ, zero, suc, ◌+◌, ◌-◌, Bool, true, false, ◌&&◌, ◌||◌, Option, none, some, List, [], ◌∷◌, ltb,
  ◌==◌, if◌then◌else◌, length, take, drop,
}
use iocpnetwork_engine.Prelude.Chain.{update}
use iocpnetwork_engine.Memory.SizeBin.{BinSpec}
use iocpnetwork_engine.Memory.GlobalBlockPool.{GlobalBlockPool, Chunk, Grant, pop_chunk, push_chunk}

pub record FreeList : Type 0 where
  pub blocks : List ℕ
  pub count : ℕ

pub record ThreadBlockCache : Type 0 where
  pub lists : ℕ → FreeList
  pub acquire_count : ℕ → ℕ
  pub release_count : ℕ → ℕ

abbrev pub with_list : ThreadBlockCache → ℕ → FreeList → ThreadBlockCache
with_list c bin l = record c { lists = update c.lists bin l }

abbrev pub take_chunk :
    ThreadBlockCache
    → ℕ
    → Option Chunk × GlobalBlockPool
    → Bool × ThreadBlockCache × GlobalBlockPool
take_chunk c bin (none, p) = (false, c, p)
take_chunk c bin (some chunk, p) =
    if length chunk.blocks == 0
    then (false, c, p)
    else (true, with_list c bin (record { blocks = chunk.blocks; count = chunk.block_count }), p)

pub refill :
    ThreadBlockCache → GlobalBlockPool → ℕ → Grant → Bool × ThreadBlockCache × GlobalBlockPool
refill c p bin grant = take_chunk c bin (pop_chunk p bin grant)

-- The first block off the list, if there is one.
abbrev pub pop_first :
    ThreadBlockCache → GlobalBlockPool → ℕ → List ℕ → Option ℕ × ThreadBlockCache × GlobalBlockPool
pop_first c p bin [] = (none, c, p)
pop_first c p bin (b ∷ rest) = (
  some b,
  record c {
    lists = update c.lists bin (record { blocks = rest; count = (c.lists bin).count - 1 });
    acquire_count = update c.acquire_count bin (c.acquire_count bin + 1);
  },
  p,
)

pub pop :
    ThreadBlockCache → GlobalBlockPool → ℕ → Grant → Option ℕ × ThreadBlockCache × GlobalBlockPool
pop c p bin grant =
    if length (c.lists bin).blocks == 0
    then (let (filled, d, q) = refill c p bin grant in
        if filled then pop_first d q bin (d.lists bin).blocks else (none, d, q))
    else pop_first c p bin (c.lists bin).blocks

-- The loop of `Flush`, at most `fuel` rounds of it.
abbrev pub flush_loop : ℕ → FreeList → GlobalBlockPool → ℕ → Bool → FreeList × GlobalBlockPool
flush_loop zero l p bin all = (l, p)
flush_loop (suc fuel) l p bin all =
    let batch : ℕ = (p.spec bin).batch_blocks in
    let taken : ℕ = if ltb l.count batch then l.count else batch in
    let m : FreeList = record { blocks = drop taken l.blocks; count = l.count - taken } in
    let q : GlobalBlockPool = push_chunk p bin (take taken l.blocks) taken in
    let rest : FreeList × GlobalBlockPool = flush_loop fuel m q bin all in
    if taken == 0 then (l, p) else if all && ltb 0 m.count then rest else (m, q)

-- One round for each block is enough.
pub flush : ThreadBlockCache → GlobalBlockPool → ℕ → Bool → ThreadBlockCache × GlobalBlockPool
flush c p bin all =
    if ((c.lists bin).count == 0) || (length (c.lists bin).blocks == 0)
    then (c, p)
    else (let (l, q) = flush_loop (c.lists bin).count (c.lists bin) p bin all in
        (with_list c bin l, q))

pub push : ThreadBlockCache → GlobalBlockPool → ℕ → ℕ → ThreadBlockCache × GlobalBlockPool
push c p bin block =
    let l : FreeList = record {
      blocks = block ∷ (c.lists bin).blocks;
      count = (c.lists bin).count + 1;
    } in
    let d : ThreadBlockCache = record c {
      lists = update c.lists bin l;
      release_count = update c.release_count bin (c.release_count bin + 1);
    } in
    if ltb (p.spec bin).cache_cap_blocks l.count then flush d p bin false else (d, p)

-- The bins from the first to the last: `flush_all c p n` has flushed the first `n`.
pub flush_all : ThreadBlockCache → GlobalBlockPool → ℕ → ThreadBlockCache × GlobalBlockPool
flush_all c p zero = (c, p)
flush_all c p (suc bin) = let (d, q) = flush_all c p bin in flush d q bin true
