-- ===== src/Memory/GlobalBlockPool/Supply.antt =====
-- The traffic of GlobalBlockPool.cpp: no block is lost or made up by `PopChunk` and `PushChunk`.
use native.Mathlib.Nat.{mod-eq_of_lt}
use iocpnetwork_engine.Prelude.{
  ℕ, ◌+◌, ◌-◌, ◌%◌, ◌^◌, ◌≤◌, ◌<◌, ◌≡◌, refl, sym, subst, Bool, true, false, Option, none, some,
  List, [], ◌∷◌, arith, length, if◌then◌else◌,
}
use iocpnetwork_engine.Memory.GlobalBlockPool.{
  GlobalBlockPool, Chunk, Grant, BinStats, failed, blocks_to_grow, grow_locked, pop_entry,
  pop_chunk, push_chunk, get_stats, stats_of, note_popped,
}
use iocpnetwork_engine.Memory.GlobalBlockPool.Stock.{AllWhole, IsValid, note_popped-IsValid}
use iocpnetwork_engine.Memory.GlobalBlockPool.Growth.{Grown, failed-IsValid, grow_locked_lem}

-- What `PopChunk` owes to a bin with `outside` blocks out of it.
abbrev pub Popped : ℕ → ℕ → Option Chunk → GlobalBlockPool → Type 0
Popped bin outside none q = IsValid (q.bins bin) outside
Popped bin outside (some c) q =
    IsValid (q.bins bin) (outside + length c.blocks)
    × (c.block_count ≡ length c.blocks)
    × (1 ≤ length c.blocks)

pop_entry-Popped :
    (p : GlobalBlockPool) (bin outside : ℕ) (xs : List Chunk)
    → IsValid (p.bins bin) outside
    → (p.bins bin).chunk_list ≡ xs
    → Popped bin outside (pop_entry p bin xs).0 (pop_entry p bin xs).1
pop_entry-Popped p bin outside [] v e = failed-IsValid p bin outside v
pop_entry-Popped p bin outside (c ∷ rest) v e =
    let w : AllWhole (c ∷ rest) = subst AllWhole e v.whole in
    let moved : IsValid (note_popped (record (p.bins bin) { chunk_list = rest }) c.block_count)
        (outside + c.block_count) =
      note_popped-IsValid c rest outside v e in
    let at : (pop_entry p bin (c ∷ rest)).1.bins bin
        ≡ note_popped (record (p.bins bin) { chunk_list = rest }) c.block_count =
      ground arith in
    (
      subst (λ b. IsValid b (outside + length c.blocks)) (sym at)
          (subst
            (λ n.
              IsValid (note_popped (record (p.bins bin) { chunk_list = rest }) c.block_count)
                (outside + n))
            w.0 moved),
      w.0,
      omega (arith, w.0, w.1),
    )

pop_dry :
    (p : GlobalBlockPool) (bin : ℕ) (grant : Grant)
    → (p.bins bin).chunk_list ≡ []
    → pop_chunk p bin grant ≡ (
        let r = grow_locked p bin (p.spec bin).batch_blocks false grant in
        if r.0 then pop_entry r.1 bin (r.1.bins bin).chunk_list else (none, failed r.1 bin))
unfolding pop_chunk
pop_dry p bin grant e = ground (arith, e)

pop_stocked :
    (p : GlobalBlockPool) (bin : ℕ) (grant : Grant) (c : Chunk) (rest : List Chunk)
    → (p.bins bin).chunk_list ≡ c ∷ rest
    → pop_chunk p bin grant ≡ pop_entry p bin (c ∷ rest)
unfolding pop_chunk
pop_stocked p bin grant c rest e = ground (arith, e)

-- With batches of one block or more, `PopChunk` hands out a chunk of one block or more, which
-- then counts as out of the bin, or nothing; the bin's account stays right in both cases,
-- whatever the system grants.
pub pop_chunk_lem :
    (p : GlobalBlockPool) (bin outside : ℕ) (grant : Grant)
    → 1 ≤ (p.spec bin).batch_blocks
    → IsValid (p.bins bin) outside
    → Popped bin outside (pop_chunk p bin grant).0 (pop_chunk p bin grant).1
pop_chunk_lem p bin outside grant full v = popped (p.bins bin).chunk_list refl
  where
    holds : Option Chunk × GlobalBlockPool → Type 0
    holds r = Popped bin outside r.0 r.1

    min_blocks : ℕ
    min_blocks = (p.spec bin).batch_blocks

    after :
        (r : Bool × GlobalBlockPool)
        → Grown p bin (blocks_to_grow p bin min_blocks) outside r.0 r.1
        → holds
            (if r.0 then pop_entry r.1 bin (r.1.bins bin).chunk_list else (none, failed r.1 bin))
    after (true, q) g = pop_entry-Popped q bin outside (q.bins bin).chunk_list g.0 refl
    after (false, q) g = failed-IsValid q bin outside g.0

    popped : (xs : List Chunk) → (p.bins bin).chunk_list ≡ xs → holds (pop_chunk p bin grant)
    popped [] e = subst holds (sym (pop_dry p bin grant e)) (
        after (grow_locked p bin min_blocks false grant)
          (grow_locked_lem p bin min_blocks outside false grant full v))
    popped (c ∷ rest) e =
        subst holds (sym (pop_stocked p bin grant c rest e))
          (pop_entry-Popped p bin outside (c ∷ rest) v e)

-- `PushChunk` takes blocks back that were out of the bin, with their right count, and the bin's
-- account stays right.
pub push_chunk_lem :
    (p : GlobalBlockPool) (bin outside : ℕ) (head : List ℕ)
    → length head ≤ outside
    → IsValid (p.bins bin) outside
    → IsValid ((push_chunk p bin head (length head)).bins bin) (outside - length head)
unfolding push_chunk
push_chunk_lem p bin outside [] most v =
    subst (IsValid (p.bins bin)) (let e : outside ≡ outside - 0 = omega arith in e) v
push_chunk_lem p bin outside (x ∷ xs) most v =
    subst (λ b. IsValid b (outside - length (x ∷ xs))) (sym at)
      (record {
        stocked = omega (arith, v.stocked);
        whole = (refl, omega arith, v.whole);
        created = omega (arith, v.created);
        lowest = ground (arith, v.lowest);
      })
  where
    at : (push_chunk p bin (x ∷ xs) (length (x ∷ xs))).bins bin ≡ record (p.bins bin) {
      chunk_list =
          record { blocks = x ∷ xs; block_count = length (x ∷ xs) } ∷ (p.bins bin).chunk_list;
      blocks_in_pool = (p.bins bin).blocks_in_pool + length (x ∷ xs);
    }
    at = unfold push_chunk in ground arith

-- The peak that `GetStats` reports is no less than the blocks that are out of the bin now, while fewer
-- than 2 ^ 32 blocks have been made.
pub get_stats_peak :
    (p : GlobalBlockPool) (bin outside : ℕ)
    → p.initialized ≡ true
    → bin < p.bin_count
    → (p.bins bin).blocks_created < 2 ^ 32
    → IsValid (p.bins bin) outside
    → (stats : BinStats) × (get_stats p bin ≡ some stats) × (outside ≤ stats.peak_out_of_pool)
unfolding get_stats
get_stats_peak p bin outside up lt few v =
    let made : (p.bins bin).blocks_created % 2 ^ 32 ≡ (p.bins bin).blocks_created =
      mod-eq_of_lt few in
    (
      stats_of (p.bins bin),
      ground (arith, up, lt),
      ground (arith, v.lowest, v.created, made, peak_fits),
    )
  where
    peak_fits :
        ((p.bins bin).blocks_created - (p.bins bin).min_blocks_in_pool) % 2 ^ 32
        ≡ (p.bins bin).blocks_created - (p.bins bin).min_blocks_in_pool
    peak_fits = mod-eq_of_lt (omega (arith, few))

pub spec-push_chunk :
    (p : GlobalBlockPool) (bin : ℕ) (head : List ℕ) (count : ℕ)
    → (push_chunk p bin head count).spec ≡ p.spec
unfolding push_chunk
spec-push_chunk p bin head count = ground arith
