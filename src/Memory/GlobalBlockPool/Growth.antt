-- ===== src/Memory/GlobalBlockPool/Growth.antt =====
-- How a bin of GlobalBlockPool.cpp grows: by whole segments, within the limit, or not at all.
use native.Mathlib.Nat.{mod-eq_of_lt}
use iocpnetwork_engine.Prelude.{
  ℕ, ◌+◌, ◌*◌, ◌%◌, ◌^◌, ◌≤◌, ◌<◌, ◌≡◌, ◌≢◌, refl, sym, subst, ap, ◌∙◌, Bool, true, false, List, [],
  ◌∷◌, ◌++◌, arith, length, leb, ◌==◌, if◌then◌else◌, inl, inr, ◌⊎◌, Bool-cases, Option-cases,
}
use iocpnetwork_engine.Memory.GlobalBlockPool.{
  GlobalBlockPool, Bin, Grant, record_segment_locked, failed, stock_up, blocks_to_grow, over_limit,
  grow_locked, carve_and_push,
}
use iocpnetwork_engine.Memory.GlobalBlockPool.Stock.{IsValid, Carved, carve_and_push-Carved}

-- What `GrowLocked` owes to a bin with `outside` blocks out of it, when it says `grown`.
abbrev pub Grown : GlobalBlockPool → ℕ → ℕ → ℕ → Bool → GlobalBlockPool → Type 0
Grown p bin blocks outside true q =
    IsValid (q.bins bin) outside
    × ((q.bins bin).blocks_in_pool ≡ (p.bins bin).blocks_in_pool + blocks)
    × (q.committed_bytes ≡ p.committed_bytes + (p.spec bin).stride * blocks)
Grown p bin blocks outside false q =
    IsValid (q.bins bin) outside
    × ((q.bins bin).fail_count ≡ (p.bins bin).fail_count + 1)
    × ((q.bins bin).chunk_list ≡ (p.bins bin).chunk_list)
    × (q.committed_bytes ≡ p.committed_bytes)

pub failed-IsValid :
    (p : GlobalBlockPool) (bin outside : ℕ)
    → IsValid (p.bins bin) outside
    → IsValid ((failed p bin).bins bin) outside
failed-IsValid p bin outside v =
    subst (λ b. IsValid b outside)
      (sym (
        let e : (failed p bin).bins bin
            ≡ record (p.bins bin) { fail_count = (p.bins bin).fail_count + 1 } =
          ground arith in
        e))
      (record { stocked = v.stocked; whole = v.whole; created = v.created; lowest = v.lowest })

-- The bin with the list of its segments changed.
listed : Bin → List ℕ → ℕ → ℕ → Bin
listed b segments capacity bytes = record b {
  segments = segments;
  segment_capacity = capacity;
  committed_bytes = bytes;
}

recorded_cases :
    (b : Bin) (segment bytes : ℕ) (longer_list : Bool)
    → (record_segment_locked b segment bytes longer_list ≡ (false, b))
      ⊎ ((xs : List ℕ) × (capacity : ℕ) × (total_bytes : ℕ) × (record_segment_locked b segment bytes
              longer_list
            ≡ (true, listed b xs capacity total_bytes)))
unfolding record_segment_locked listed
recorded_cases b segment bytes longer_list =
    split (leb b.segment_capacity (length b.segments)) longer_list refl refl
  where
    split :
        (full longer : Bool)
        → leb b.segment_capacity (length b.segments) ≡ full
        → longer_list ≡ longer
        → (record_segment_locked b segment bytes longer_list ≡ (false, b))
          ⊎ ((xs : List ℕ) × (capacity : ℕ) × (total_bytes : ℕ) × (record_segment_locked b segment
                  bytes longer_list
                ≡ (true, listed b xs capacity total_bytes)))
    split true true e f = inr (
      b.segments ++ segment ∷ [],
      if b.segment_capacity == 0 then 4 else b.segment_capacity * 2,
      b.committed_bytes + bytes,
      ground (arith, e, f),
    )
    split true false e f = inl (ground (arith, e, f))
    split false longer e f = inr (
      b.segments ++ segment ∷ [],
      b.segment_capacity,
      b.committed_bytes + bytes,
      ground (arith, e, f),
    )

-- A growth that fails, with the hits of the limit it leaves.
abbrev Refused : GlobalBlockPool → ℕ → Bool × GlobalBlockPool → Type 0
Refused p bin r = (hits : ℕ) × (r ≡ (false, failed (record p { commit_limit_hits = hits }) bin))

-- A growth that succeeds.
abbrev Stocked : GlobalBlockPool → ℕ → ℕ → Bool → Bool × GlobalBlockPool → Type 0
Stocked p bin blocks is_initial r =
    (segment : ℕ) × (xs : List ℕ) × (capacity : ℕ) × (bytes : ℕ) × (over_limit p
        ((p.spec bin).stride * blocks) is_initial
      ≡ false)
    × (r ≡ (true, stock_up p bin segment blocks is_initial (listed (p.bins bin) xs capacity bytes)))

grow_locked_cases :
    (p : GlobalBlockPool) (bin min_blocks : ℕ) (is_initial : Bool) (grant : Grant)
    → let r = grow_locked p bin min_blocks is_initial grant in
      Refused p bin r ⊎ Stocked p bin (blocks_to_grow p bin min_blocks) is_initial r
unfolding grow_locked
grow_locked_cases p bin min_blocks is_initial grant =
    elim (Bool-cases (over_limit p bytes is_initial)) [
      | inl over ↦ inl (p.commit_limit_hits + 1, ground (arith, over))
      | inr within ↦ elim (Option-cases grant.segment) [
        | inl no_memory ↦ inl (p.commit_limit_hits, ground (arith, within, no_memory))
        | inr (segment, e) ↦ elim (recorded_cases (p.bins bin) segment bytes grant.longer_list) [
          | inl unlisted ↦ inl (p.commit_limit_hits, ground (arith, within, e, unlisted))
          | inr (xs, capacity, total_bytes, f) ↦
              inr (segment, xs, capacity, total_bytes, within, ground (arith, within, e, f))
        ]
      ]
    ]
  where
    bytes : ℕ
    bytes = (p.spec bin).stride * blocks_to_grow p bin min_blocks

stock_up-Grown :
    (p : GlobalBlockPool) (bin outside segment blocks : ℕ) (xs : List ℕ) (capacity bytes : ℕ)
    (is_initial : Bool)
    → 1 ≤ (p.spec bin).batch_blocks
    → IsValid (p.bins bin) outside
    → Grown p bin blocks outside true
        (stock_up p bin segment blocks is_initial (listed (p.bins bin) xs capacity bytes))
unfolding listed
stock_up-Grown p bin outside segment blocks xs capacity bytes is_initial full v =
    let target : Bin = listed (p.bins bin) xs capacity bytes in
    let q : GlobalBlockPool = stock_up p bin segment blocks is_initial target in
    let c : Carved target (carve_and_push blocks (p.spec bin) segment blocks target) blocks =
      carve_and_push-Carved blocks (p.spec bin) segment blocks target full (omega arith) v.whole in
    let at : q.bins bin ≡ record (carve_and_push blocks (p.spec bin) segment blocks target) {
      blocks_created =
          (carve_and_push blocks (p.spec bin) segment blocks target).blocks_created + blocks;
      growth_count =
          if is_initial
          then (carve_and_push blocks (p.spec bin) segment blocks target).growth_count
          else (carve_and_push blocks (p.spec bin) segment blocks target).growth_count + 1;
    } =
      ground arith in
    (
      subst (λ b. IsValid b outside) (sym at)
          (record {
            stocked = omega (arith, c.in_pool, c.sum, v.stocked);
            whole = c.whole;
            created = omega (arith, c.in_pool, c.created_same, v.created);
            lowest = ground (arith, c.in_pool, c.lowest_same, v.lowest);
          }),
      ap (λ (b : Bin). b.blocks_in_pool) at ∙ c.in_pool,
      refl,
    )

-- With batches of one block or more, `GrowLocked` adds the blocks of one segment to the stock, or
-- fails, counts the failure and leaves the stock as it was. Either way the bin's account stays
-- right.
pub grow_locked_lem :
    (p : GlobalBlockPool) (bin min_blocks outside : ℕ) (is_initial : Bool) (grant : Grant)
    → 1 ≤ (p.spec bin).batch_blocks
    → IsValid (p.bins bin) outside
    → let (grown, q) = grow_locked p bin min_blocks is_initial grant in
      Grown p bin (blocks_to_grow p bin min_blocks) outside grown q
grow_locked_lem p bin min_blocks outside is_initial grant full v =
    elim (grow_locked_cases p bin min_blocks is_initial grant) [
      | inl (hits, e) ↦ subst holds (sym e) (
        failed-IsValid (record p { commit_limit_hits = hits }) bin outside v,
        ground arith,
        ground arith,
        refl,
      )
      | inr (segment, xs, capacity, bytes, within, e) ↦
          subst holds (sym e)
            (stock_up-Grown p bin outside segment blocks xs capacity bytes is_initial full v)
    ]
  where
    blocks : ℕ
    blocks = blocks_to_grow p bin min_blocks

    holds : Bool × GlobalBlockPool → Type 0
    holds r = Grown p bin blocks outside r.0 r.1

-- With a limit set that the committed bytes are within, a growth at run time does not take them
-- above it, if the sum fits 64 bits and no other bin grows during the call.
pub commit_limit_lem :
    (p : GlobalBlockPool) (bin min_blocks : ℕ) (grant : Grant)
    → p.max_committed_bytes ≢ 0
    → p.committed_bytes ≤ p.max_committed_bytes
    → p.committed_bytes + (p.spec bin).stride * blocks_to_grow p bin min_blocks < 2 ^ 64
    → (grow_locked p bin min_blocks false grant).1.committed_bytes ≤ p.max_committed_bytes
commit_limit_lem p bin min_blocks grant limited below fits =
    elim (grow_locked_cases p bin min_blocks false grant) [
      | inl (hits, e) ↦ omega (arith, ap (λ (r : Bool × GlobalBlockPool). r.1.committed_bytes) e)
      | inr (segment, xs, capacity, total_bytes, within, e) ↦
          (let room : p.committed_bytes + bytes ≤ p.max_committed_bytes = under_limit within in
            omega (arith, room, ap (λ (r : Bool × GlobalBlockPool). r.1.committed_bytes) e))
    ]
  where
    bytes : ℕ
    bytes = (p.spec bin).stride * blocks_to_grow p bin min_blocks

    under_limit :
        over_limit p bytes false ≡ false → p.committed_bytes + bytes ≤ p.max_committed_bytes
    under_limit within =
        (let same : (p.committed_bytes + bytes) % 2 ^ 64 ≡ p.committed_bytes + bytes =
            mod-eq_of_lt fits in
          ground (arith, within, same, limited))
