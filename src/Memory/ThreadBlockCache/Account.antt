-- ===== src/Memory/ThreadBlockCache/Account.antt =====
-- Where the blocks of a bin are, with the cache of one thread in front of the pool.
use iocpnetwork_engine.Prelude.{
  ℕ, zero, suc, ◌+◌, ◌-◌, ◌≤◌, ◌<◌, ◌≡◌, sym, subst, Bool, true, false, ◌&&◌, List, arith, ltb,
  ◌==◌, if◌then◌else◌, if_either, if_split, length, take, drop, length-take, length-drop,
}
use iocpnetwork_engine.Memory.SizeBin.{BinSpec}
use iocpnetwork_engine.Memory.GlobalBlockPool.{GlobalBlockPool, push_chunk}
use iocpnetwork_engine.Memory.GlobalBlockPool.Stock
use iocpnetwork_engine.Memory.GlobalBlockPool.Supply.{push_chunk_lem, spec-push_chunk}
use iocpnetwork_engine.Memory.ThreadBlockCache.{ThreadBlockCache, FreeList, flush_loop}

-- `lent` blocks of the bin are with the program, the list's with this thread, the rest in the pool.
pub record Accounted (l : FreeList) (p : GlobalBlockPool) (bin lent : ℕ) : Type 0 where
  pub stock : Stock.IsValid (p.bins bin) (length l.blocks + lent)
  pub counted : l.count ≡ length l.blocks

abbrev pub Kept : ℕ → ℕ → FreeList × GlobalBlockPool → Type 0
Kept bin lent r = Accounted r.0 r.1 bin lent

abbrev taken : FreeList → GlobalBlockPool → ℕ → ℕ
taken l p bin = if ltb l.count (p.spec bin).batch_blocks then l.count else (p.spec bin).batch_blocks

-- The list and the pool after one round of `Flush`.
abbrev shorter : FreeList → GlobalBlockPool → ℕ → FreeList
shorter l p bin = record { blocks = drop (taken l p bin) l.blocks; count = l.count - taken l p bin }

abbrev fuller : FreeList → GlobalBlockPool → ℕ → GlobalBlockPool
fuller l p bin = push_chunk p bin (take (taken l p bin) l.blocks) (taken l p bin)

round-Kept :
    (l : FreeList) (p : GlobalBlockPool) (bin lent : ℕ)
    → Accounted l p bin lent
    → Accounted (shorter l p bin) (fuller l p bin) bin lent
round-Kept l p bin lent a = record {
  stock =
      subst
        (λ n.
          Stock.IsValid ((push_chunk p bin head n).bins bin)
            (length (shorter l p bin).blocks + lent))
        size
        (subst (Stock.IsValid ((push_chunk p bin head (length head)).bins bin))
          (let e : length l.blocks + lent - length head ≡ length (shorter l p bin).blocks + lent =
              omega (arith, size, within, length-drop (taken l p bin) l.blocks) in
            e)
          (push_chunk_lem p bin (length l.blocks + lent) head (omega (arith, size, within))
            a.stock));
  counted = omega (arith, a.counted, length-drop (taken l p bin) l.blocks);
}
  where
    head : List ℕ
    head = take (taken l p bin) l.blocks

    within : taken l p bin ≤ length l.blocks
    within = ground (arith, a.counted)

    size : length head ≡ taken l p bin
    size = omega (arith, length-take (taken l p bin) l.blocks, within)

pub flush_loop-Kept :
    (fuel : ℕ) (l : FreeList) (p : GlobalBlockPool) (bin lent : ℕ) (all : Bool)
    → Accounted l p bin lent
    → Kept bin lent (flush_loop fuel l p bin all)
flush_loop-Kept zero l p bin lent all a = a
flush_loop-Kept (suc fuel) l p bin lent all a =
    let b : Accounted (shorter l p bin) (fuller l p bin) bin lent = round-Kept l p bin lent a in
    if_either (Kept bin lent) (taken l p bin == 0) a (
      if_either (Kept bin lent) (all && ltb 0 (shorter l p bin).count)
        (flush_loop-Kept fuel (shorter l p bin) (fuller l p bin) bin lent all b) b)

pub flush_loop-all :
    (fuel : ℕ) (l : FreeList) (p : GlobalBlockPool) (bin : ℕ)
    → 1 ≤ (p.spec bin).batch_blocks
    → l.count ≤ fuel
    → (flush_loop fuel l p bin true).0.count ≡ 0
flush_loop-all zero l p bin full enough = omega arith
flush_loop-all (suc fuel) l p bin full enough =
    if_split Empty (taken l p bin == 0) (λ e. ground (arith, e))
      (λ e.
        if_split Empty (ltb 0 (shorter l p bin).count)
          (λ more.
            flush_loop-all fuel (shorter l p bin) (fuller l p bin) bin
              (subst (λ (f : ℕ → BinSpec). 1 ≤ (f bin).batch_blocks)
                (sym (spec-push_chunk p bin (take (taken l p bin) l.blocks) (taken l p bin))) full)
              (ground (arith, e)))
          (λ none_left. ground (arith, none_left)))
  where
    Empty : FreeList × GlobalBlockPool → Type 0
    Empty r = r.0.count ≡ 0

-- What the calls on a cache owe to the bin.
abbrev pub Sound : ℕ → ℕ → ThreadBlockCache → GlobalBlockPool → Type 0
Sound bin lent c p = Accounted (c.lists bin) p bin lent

pub flush_loop-fewer :
    (fuel : ℕ) (l : FreeList) (p : GlobalBlockPool) (bin : ℕ)
    → 1 ≤ (p.spec bin).batch_blocks
    → 1 ≤ fuel
    → 1 ≤ l.count
    → (flush_loop fuel l p bin false).0.count < l.count
flush_loop-fewer zero l p bin full enough some_held = absurd (omega arith)
flush_loop-fewer (suc fuel) l p bin full enough some_held = ground arith
