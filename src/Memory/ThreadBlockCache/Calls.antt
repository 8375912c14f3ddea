-- ===== src/Memory/ThreadBlockCache/Calls.antt =====
-- The calls of Memory/ThreadBlockCache.h and .cpp against the account of the bin.
use iocpnetwork_engine.Prelude.{
  ℕ, suc, ◌+◌, ◌-◌, ◌≤◌, ◌<◌, ◌≡◌, refl, sym, subst, ap, ◌∙◌, Bool, true, false, ◌||◌, Option, none,
  some, List, [], ◌∷◌, arith, ltb, ◌==◌, if_either, if_split, length, ◌⊎◌, inl, inr,
}
use iocpnetwork_engine.Prelude.Chain.{update}
use iocpnetwork_engine.Memory.GlobalBlockPool.{GlobalBlockPool, Chunk, Grant, pop_chunk}
use iocpnetwork_engine.Memory.GlobalBlockPool.Stock
use iocpnetwork_engine.Memory.GlobalBlockPool.Supply.{pop_chunk_lem, Popped}
use iocpnetwork_engine.Memory.ThreadBlockCache.{
  ThreadBlockCache, FreeList, refill, take_chunk, pop_first, pop, flush_loop, flush, push,
  with_list,
}
use iocpnetwork_engine.Memory.ThreadBlockCache.Account.{
  Accounted, Sound, flush_loop-Kept, flush_loop-all, flush_loop-fewer,
}

list_at : (c : ThreadBlockCache) (bin : ℕ) (l : FreeList) → (with_list c bin l).lists bin ≡ l
list_at c bin l = ground arith

-- `Flush` moves blocks from the cache to the pool and loses none; asked for all, it leaves the cache of
-- the bin empty.
pub flush_lem :
    (c : ThreadBlockCache) (p : GlobalBlockPool) (bin lent : ℕ) (all : Bool)
    → 1 ≤ (p.spec bin).batch_blocks
    → Sound bin lent c p
    → let (d, q) = flush c p bin all in
      Sound bin lent d q × ((all ≡ false) ⊎ ((d.lists bin).count ≡ 0))
unfolding flush
flush_lem c p bin lent all full a = (
  if_either (λ (r : ThreadBlockCache × GlobalBlockPool). Sound bin lent r.0 r.1) idle a
      (subst (λ l. Accounted l flushed.1 bin lent) (sym (list_at c bin flushed.0))
        (flush_loop-Kept held.count held p bin lent all a)),
  emptied all refl,
)
  where
    held : FreeList
    held = c.lists bin

    idle : Bool
    idle = (held.count == 0) || (length held.blocks == 0)

    flushed : FreeList × GlobalBlockPool
    flushed = flush_loop held.count held p bin all

    emptied : (b : Bool) → all ≡ b → (all ≡ false) ⊎ (((flush c p bin all).0.lists bin).count ≡ 0)
    emptied false e = inl e
    emptied true e = inr (
        if_split (λ (r : ThreadBlockCache × GlobalBlockPool). (r.0.lists bin).count ≡ 0) idle
          (λ h. ground (arith, h, a.counted))
          (λ h.
            ap (λ (l : FreeList). l.count) (list_at c bin flushed.0)
            ∙ ap (λ b. (flush_loop held.count held p bin b).0.count) e
            ∙ flush_loop-all held.count held p bin full (omega arith)))

flush-fewer :
    (c : ThreadBlockCache) (p : GlobalBlockPool) (bin lent : ℕ)
    → 1 ≤ (p.spec bin).batch_blocks
    → Sound bin lent c p
    → 1 ≤ (c.lists bin).count
    → ((flush c p bin false).0.lists bin).count < (c.lists bin).count
unfolding flush
flush-fewer c p bin lent full a some_held =
    if_split
      (λ (r : ThreadBlockCache × GlobalBlockPool). (r.0.lists bin).count < (c.lists bin).count)
      (((c.lists bin).count == 0) || (length (c.lists bin).blocks == 0))
      (λ h. ground (arith, h, a.counted))
      (λ h.
        subst (λ (l : FreeList). l.count < (c.lists bin).count) (sym (list_at c bin _))
          (flush_loop-fewer (c.lists bin).count (c.lists bin) p bin full some_held some_held))

-- With batches of one block or more, `Push` gives one block back that was lent; if the cache held
-- no more than its limit before, it holds no more after.
pub push_lem :
    (c : ThreadBlockCache) (p : GlobalBlockPool) (bin lent block : ℕ)
    → 1 ≤ (p.spec bin).batch_blocks
    → Sound bin (lent + 1) c p
    → (c.lists bin).count ≤ (p.spec bin).cache_cap_blocks
    → let (d, q) = push c p bin block in
      Sound bin lent d q × ((d.lists bin).count ≤ (p.spec bin).cache_cap_blocks)
unfolding push
push_lem c p bin lent block full a small =
    if_split holds (ltb (p.spec bin).cache_cap_blocks (held.count + 1))
      (λ over. (
        (flush_lem d p bin lent false full put).0,
        omega (
          arith,
          flush-fewer d p bin lent full put (ground (arith, at)),
          ap (λ (m : FreeList). m.count) at,
        ),
      ))
      (λ under. (put, ground (arith, at, under)))
  where
    holds : ThreadBlockCache × GlobalBlockPool → Type 0
    holds r = Sound bin lent r.0 r.1 × ((r.0.lists bin).count ≤ (p.spec bin).cache_cap_blocks)

    held : FreeList
    held = c.lists bin

    l : FreeList
    l = record { blocks = block ∷ held.blocks; count = held.count + 1 }

    d : ThreadBlockCache
    d = record c {
      lists = update c.lists bin l;
      release_count = update c.release_count bin (c.release_count bin + 1);
    }

    at : d.lists bin ≡ l
    at = ground arith

    put : Sound bin lent d p
    put =
        subst (λ m. Accounted m p bin lent) (sym at)
          (record {
            stock =
                subst (Stock.IsValid (p.bins bin))
                  (let e : length held.blocks + (lent + 1) ≡ suc (length held.blocks) + lent =
                      omega arith in
                    e)
                  a.stock;
            counted = omega (arith, a.counted);
          })

-- What `Pop` owes, by what it returns.
abbrev pub Lent : ℕ → ℕ → Option ℕ → ThreadBlockCache → GlobalBlockPool → Type 0
Lent bin lent none c p = Sound bin lent c p
Lent bin lent (some block) c p = Sound bin (lent + 1) c p

pop_first-Lent :
    (c : ThreadBlockCache) (p : GlobalBlockPool) (bin lent : ℕ) (xs : List ℕ)
    → (c.lists bin).blocks ≡ xs
    → Sound bin lent c p
    → let (block, d, q) = pop_first c p bin xs in Lent bin lent block d q
pop_first-Lent c p bin lent [] e a = a
pop_first-Lent c p bin lent (b ∷ rest) e a =
    subst (λ m. Accounted m p bin (lent + 1))
      (let at : record { blocks = rest; count = (c.lists bin).count - 1 }
            ≡ (pop_first c p bin (b ∷ rest)).1.lists bin =
          ground arith in
        at)
      (record {
        stock =
            subst (Stock.IsValid (p.bins bin))
              (let s : length (c.lists bin).blocks + lent ≡ length rest + (lent + 1) =
                  omega (arith, ap length e) in
                s)
              a.stock;
        counted = omega (arith, a.counted, ap length e);
      })

Refilled : ℕ → ℕ → Bool × ThreadBlockCache × GlobalBlockPool → Type 0
Refilled bin lent r = Sound bin lent r.1 r.2

take_chunk-Refilled :
    (c : ThreadBlockCache) (bin lent : ℕ) (r : Option Chunk × GlobalBlockPool)
    → length (c.lists bin).blocks ≡ 0
    → (c.lists bin).count ≡ 0
    → Popped bin lent r.0 r.1
    → Refilled bin lent (take_chunk c bin r)
unfolding Refilled
take_chunk-Refilled c bin lent (none, p) e f popped = record {
  stock =
      subst (Stock.IsValid (p.bins bin))
        (let s : lent ≡ length (c.lists bin).blocks + lent = omega (arith, e) in s) popped;
  counted = omega (arith, e, f);
}
take_chunk-Refilled c bin lent (some chunk, p) e f popped =
    if_split (Refilled bin lent) (length chunk.blocks == 0)
      (λ h. absurd (ground (arith, h, popped.2)))
      (λ h.
        subst (λ m. Accounted m p bin lent)
          (sym (list_at c bin (record { blocks = chunk.blocks; count = chunk.block_count })))
          (record {
            stock =
                subst (Stock.IsValid (p.bins bin))
                  (let s : lent + length chunk.blocks ≡ length chunk.blocks + lent = omega arith in
                    s)
                  popped.0;
            counted = popped.1;
          }))

-- With batches of one block or more and the account of the bin right, `Pop` lends one block more,
-- or returns null and lends none; no block is lost on the way from the pool to the cache.
pub pop_lem :
    (c : ThreadBlockCache) (p : GlobalBlockPool) (bin lent : ℕ) (grant : Grant)
    → 1 ≤ (p.spec bin).batch_blocks
    → Sound bin lent c p
    → let (block, d, q) = pop c p bin grant in Lent bin lent block d q
unfolding pop refill Refilled
pop_lem c p bin lent grant full a =
    if_split holds (length (c.lists bin).blocks == 0)
      (λ e.
        if_either holds filled.0
          (pop_first-Lent filled.1 filled.2 bin lent (filled.1.lists bin).blocks refl (refilled e))
          (refilled e))
      (λ e. pop_first-Lent c p bin lent (c.lists bin).blocks refl a)
  where
    holds : Option ℕ × ThreadBlockCache × GlobalBlockPool → Type 0
    holds r = Lent bin lent r.0 r.1 r.2

    filled : Bool × ThreadBlockCache × GlobalBlockPool
    filled = refill c p bin grant

    refilled : (length (c.lists bin).blocks == 0) ≡ true → Refilled bin lent filled
    refilled e =
        let dry : length (c.lists bin).blocks ≡ 0 = ground (arith, e) in
        take_chunk-Refilled c bin lent (pop_chunk p bin grant) dry (omega (arith, a.counted, dry)) (
          pop_chunk_lem p bin lent grant full (
            subst (Stock.IsValid (p.bins bin))
              (let s : length (c.lists bin).blocks + lent ≡ lent = omega (arith, dry) in s)
              a.stock))
