-- ===== src/Memory/GlobalBlockPool/Stock.antt =====
-- The stock of one bin of GlobalBlockPool.cpp: the blocks it holds, and how a segment is cut into them.
use iocpnetwork_engine.Prelude.{
  ℕ, zero, suc, ◌+◌, ◌-◌, ◌*◌, ◌≤◌, ◌≡◌, refl, sym, subst, ap, ap₂, ◌∙◌, List, [], ◌∷◌, ◌++◌, arith,
  length, append_assoc, ltb, if◌then◌else◌, inl, ◌⊎◌,
}
use iocpnetwork_engine.Memory.SizeBin.{BinSpec}
use iocpnetwork_engine.Memory.GlobalBlockPool.{Chunk, Bin, carve, carve_and_push, note_popped}

abbrev pub total : List Chunk → ℕ
total [] = 0
total (c ∷ cs) = c.block_count + total cs

-- A chunk counts its blocks and has one at least.
abbrev pub AllWhole : List Chunk → Type 0
AllWhole [] = Unit {0}
AllWhole (c ∷ cs) = (c.block_count ≡ length c.blocks) × (1 ≤ c.block_count) × AllWhole cs

abbrev pub all_blocks : List Chunk → List ℕ
all_blocks [] = []
all_blocks (c ∷ cs) = c.blocks ++ all_blocks cs

-- The bin when `outside` of its blocks are out of it. Once a block has been out, the lowest stock on
-- record is no more than the stock.
pub record IsValid (b : Bin) (outside : ℕ) : Type 0 where
  pub stocked : b.blocks_in_pool ≡ total b.chunk_list
  pub whole : AllWhole b.chunk_list
  pub created : b.blocks_created ≡ b.blocks_in_pool + outside
  pub lowest : (b.min_blocks_in_pool ≤ b.blocks_in_pool) ⊎ (outside ≡ 0)

carve-append :
    (cursor stride n : ℕ) (acc : List ℕ)
    → carve cursor stride n acc ≡ carve cursor stride n [] ++ acc
carve-append cursor stride zero acc = refl
carve-append cursor stride (suc n) acc =
    carve-append (cursor + stride) stride n (cursor ∷ acc)
    ∙ sym (append_assoc (carve (cursor + stride) stride n []) (cursor ∷ []) acc)
    ∙ ap (λ xs. xs ++ acc) (sym (carve-append (cursor + stride) stride n (cursor ∷ [])))

pub length-carve :
    (cursor stride n : ℕ) (acc : List ℕ) → length (carve cursor stride n acc) ≡ n + length acc
length-carve cursor stride zero acc = omega arith
length-carve cursor stride (suc n) acc =
    omega (arith, length-carve (cursor + stride) stride n (cursor ∷ acc))

-- The addresses of `n` blocks from `segment` on, by their numbers, the last one first.
abbrev pub places : ℕ → ℕ → ℕ → List ℕ
places segment stride zero = []
places segment stride (suc n) = (segment + stride * n) ∷ places segment stride n

places-first :
    (segment stride n : ℕ)
    → places segment stride (suc n) ≡ places (segment + stride) stride n ++ (segment ∷ [])
places-first segment stride zero =
    ap (λ x. x ∷ []) (let e : segment + stride * 0 ≡ segment = omega arith in e)
places-first segment stride (suc n) =
    ap₂ ◌∷◌ (let e : segment + stride * suc n ≡ segment + stride + stride * n = omega arith in e)
      (places-first segment stride n)

carve-places : (segment stride n : ℕ) → carve segment stride n [] ≡ places segment stride n
carve-places segment stride zero = refl
carve-places segment stride (suc n) =
    carve-append (segment + stride) stride n (segment ∷ [])
    ∙ ap (λ xs. xs ++ (segment ∷ [])) (carve-places (segment + stride) stride n)
    ∙ sym (places-first segment stride n)

carve-add :
    (cursor stride n m : ℕ) (acc : List ℕ)
    → carve cursor stride (n + m) acc
      ≡ carve (cursor + stride * n) stride m (carve cursor stride n acc)
carve-add cursor stride zero m acc =
    ap (λ c. carve c stride (0 + m) acc) (let e : cursor ≡ cursor + stride * 0 = omega arith in e)
    ∙ ap (λ k. carve (cursor + stride * 0) stride k acc) (let e : 0 + m ≡ m = omega arith in e)
carve-add cursor stride (suc n) m acc =
    ap (λ k. carve cursor stride k acc) (let e : suc n + m ≡ suc (n + m) = omega arith in e)
    ∙ carve-add (cursor + stride) stride n m (cursor ∷ acc)
    ∙ ap (λ c. carve c stride m (carve (cursor + stride) stride n (cursor ∷ acc)))
        (let e : cursor + stride + stride * n ≡ cursor + stride * suc n = omega arith in e)

abbrev cut : BinSpec → ℕ → ℕ → Bin → Bin
cut spec cursor take target = record target {
  chunk_list =
      record { blocks = carve cursor spec.stride take []; block_count = take } ∷ target.chunk_list;
  blocks_in_pool = target.blocks_in_pool + take;
}

abbrev taken : BinSpec → ℕ → ℕ
taken spec remaining = if ltb remaining spec.batch_blocks then remaining else spec.batch_blocks

taken_range :
    (spec : BinSpec) (r : ℕ)
    → 1 ≤ spec.batch_blocks
    → (1 ≤ taken spec (suc r)) × (taken spec (suc r) ≤ suc r)
taken_range spec r full = (ground arith, ground arith)

one_round :
    (fuel : ℕ) (spec : BinSpec) (cursor r : ℕ) (target : Bin)
    → carve_and_push (suc fuel) spec cursor (suc r) target
      ≡ carve_and_push fuel spec
          (cursor + spec.stride * taken spec (suc r))
          (suc r - taken spec (suc r))
          (cut spec cursor (taken spec (suc r)) target)
one_round fuel spec cursor r target = ground arith

carve_and_push-carve :
    (fuel : ℕ) (spec : BinSpec) (cursor remaining : ℕ) (target : Bin)
    → 1 ≤ spec.batch_blocks
    → remaining ≤ fuel
    → all_blocks (carve_and_push fuel spec cursor remaining target).chunk_list
      ≡ carve cursor spec.stride remaining [] ++ all_blocks target.chunk_list
carve_and_push-carve zero spec cursor zero target full enough = refl
carve_and_push-carve zero spec cursor (suc r) target full enough = absurd (omega arith)
carve_and_push-carve (suc fuel) spec cursor zero target full enough = refl
carve_and_push-carve (suc fuel) spec cursor (suc r) target full enough =
    ap (λ (b : Bin). all_blocks b.chunk_list) (one_round fuel spec cursor r target)
    ∙ carve_and_push-carve fuel spec beyond left (cut spec cursor take target) full
        (omega (arith, taken_range spec r full))
    ∙ sym (
        append_assoc (carve beyond spec.stride left []) (carve cursor spec.stride take [])
          (all_blocks target.chunk_list))
    ∙ ap (λ xs. xs ++ all_blocks target.chunk_list)
        (sym (carve-append beyond spec.stride left (carve cursor spec.stride take []))
          ∙ sym (carve-add cursor spec.stride take left [])
          ∙ ap (λ k. carve cursor spec.stride k [])
              (let e : take + left ≡ suc r = omega (arith, taken_range spec r full) in e))
  where
    take : ℕ
    take = taken spec (suc r)

    left : ℕ
    left = suc r - take

    beyond : ℕ
    beyond = cursor + spec.stride * take

-- With batches of one block or more and a round for each block, `CarveAndPush` puts in front of the
-- stock one block for each number below `remaining`, the last one first: block `i` is the address
-- `segment + stride * i`, and no other block is added.
pub carve_and_push_lem :
    (fuel : ℕ) (spec : BinSpec) (segment remaining : ℕ) (target : Bin)
    → 1 ≤ spec.batch_blocks
    → remaining ≤ fuel
    → all_blocks (carve_and_push fuel spec segment remaining target).chunk_list
      ≡ places segment spec.stride remaining ++ all_blocks target.chunk_list
carve_and_push_lem fuel spec segment remaining target full enough =
    carve_and_push-carve fuel spec segment remaining target full enough
    ∙ ap (λ xs. xs ++ all_blocks target.chunk_list) (carve-places segment spec.stride remaining)

-- What carving `n` blocks into a bin owes to its counts.
pub record Carved (b c : Bin) (n : ℕ) : Type 0 where
  pub in_pool : c.blocks_in_pool ≡ b.blocks_in_pool + n
  pub sum : total c.chunk_list ≡ total b.chunk_list + n
  pub whole : AllWhole c.chunk_list
  pub created_same : c.blocks_created ≡ b.blocks_created
  pub lowest_same : c.min_blocks_in_pool ≡ b.min_blocks_in_pool
  pub fails_same : c.fail_count ≡ b.fail_count
  pub growth_same : c.growth_count ≡ b.growth_count

nothing-Carved : (b : Bin) → AllWhole b.chunk_list → Carved b b 0
nothing-Carved b whole = record {
  in_pool = omega arith;
  sum = omega arith;
  whole = whole;
  created_same = refl;
  lowest_same = refl;
  fails_same = refl;
  growth_same = refl;
}

pub carve_and_push-Carved :
    (fuel : ℕ) (spec : BinSpec) (cursor remaining : ℕ) (target : Bin)
    → 1 ≤ spec.batch_blocks
    → remaining ≤ fuel
    → AllWhole target.chunk_list
    → Carved target (carve_and_push fuel spec cursor remaining target) remaining
carve_and_push-Carved zero spec cursor zero target full enough whole = nothing-Carved target whole
carve_and_push-Carved zero spec cursor (suc r) target full enough whole = absurd (omega arith)
carve_and_push-Carved (suc fuel) spec cursor zero target full enough whole =
    nothing-Carved target whole
carve_and_push-Carved (suc fuel) spec cursor (suc r) target full enough whole =
    let take : ℕ = taken spec (suc r) in
    let rest : Carved (cut spec cursor take target)
        (carve_and_push fuel spec (cursor + spec.stride * take) (suc r - take)
          (cut spec cursor take target))
        (suc r - take) =
      carve_and_push-Carved fuel spec (cursor + spec.stride * take) (suc r - take)
        (cut spec cursor take target) full (omega (arith, taken_range spec r full))
        (
          omega (arith, length-carve cursor spec.stride take []),
          (taken_range spec r full).0,
          whole,
        ) in
    subst (λ c. Carved target c (suc r)) (sym (one_round fuel spec cursor r target))
      (record {
        in_pool = omega (arith, rest.in_pool, taken_range spec r full);
        sum = omega (arith, rest.sum, taken_range spec r full);
        whole = rest.whole;
        created_same = rest.created_same;
        lowest_same = rest.lowest_same;
        fails_same = rest.fails_same;
        growth_same = rest.growth_same;
      })

pub note_popped-IsValid :
    {b : Bin} (c : Chunk) (rest : List Chunk) (outside : ℕ)
    → IsValid b outside
    → b.chunk_list ≡ c ∷ rest
    → IsValid (note_popped (record b { chunk_list = rest }) c.block_count) (outside + c.block_count)
unfolding note_popped
note_popped-IsValid {b} c rest outside v e = record {
  stocked = omega (arith, v.stocked, ap total e);
  whole = (subst AllWhole e v.whole).2;
  created = omega (arith, v.created, v.stocked, ap total e);
  lowest = inl (ground arith);
}
