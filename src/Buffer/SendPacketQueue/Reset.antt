-- ===== src/Buffer/SendPacketQueue/Reset.antt =====
-- `ReleaseEntry` and `Reset` of SendPacketQueue.cpp: every queued packet is given back once.
use iocpnetwork_engine.Prelude.{
  ℕ, zero, suc, ◌≡◌, ◌≢◌, refl, sym, ap, ap₂, append-nil, append_assoc, ◌∙◌, true, Option, none,
  some, List, [], ◌∷◌, ◌++◌, arith, length,
}
use iocpnetwork_engine.Prelude.Chain.{Ptr, Chain, Distinct, Absent, Chain-update}
use iocpnetwork_engine.Buffer.SendPacketQueue.{
  SendPacketQueue, Memory, Release, to_pool, by_func, pools_ready, release_packet, release_entry,
  release_chain, reset, finalize,
}
use iocpnetwork_engine.Buffer.SendPacketQueue.Fifo.{
  IsValid, next_of, payload, items, items-congr, Payload,
}

-- How the packet of an entry goes back.
abbrev pub release_of : Payload → List Release
release_of p = elim p.packet_data [
  | none ↦ []
  | some d ↦ elim p.release_func [
    | none ↦ to_pool d ∷ []
    | some f ↦ by_func f d p.release_context ∷ []
  ]
]

abbrev pub releases : List Payload → List Release
releases [] = []
releases (p ∷ ps) = release_of p ++ releases ps

module _ (q : SendPacketQueue) (ready : pools_ready q ≡ true) where
  pub released-release_entry :
      (m : Memory) (x : Ptr)
      → (release_entry q m (some x)).released ≡ m.released ++ release_of (payload (m.entries x))
  unfolding release_entry release_packet
  released-release_entry m x = ground (arith, append-nil m.released)

  pub freed-release_entry :
      (m : Memory) (x : Ptr) → (release_entry q m (some x)).freed ≡ m.freed ++ x ∷ []
  unfolding release_entry release_packet
  freed-release_entry m x = ground arith

  pub violations-release_entry :
      (m : Memory) (x : Ptr) → (release_entry q m (some x)).violations ≡ m.violations
  unfolding release_entry release_packet
  violations-release_entry m x = ground arith

  pub release_entry_elsewhere :
      (m : Memory) (x b : Ptr) → b ≢ x → (release_entry q m (some x)).entries b ≡ m.entries b
  unfolding release_entry release_packet
  release_entry_elsewhere m x b ne = ground arith

  -- The loop gives back each packet and each entry of the chain, in order, and ends in time.
  release_chain_lem :
      (xs : List Ptr) (fuel : ℕ) (m : Memory) (p : Option Ptr)
      → fuel ≡ length xs
      → Distinct xs
      → Chain (next_of m) p xs
      → (m' : Memory) × (release_chain fuel q m p ≡ some m')
        × (m'.released ≡ m.released ++ releases (items m xs))
        × (m'.freed ≡ m.freed ++ xs)
        × (m'.violations ≡ m.violations)
  unfolding release_chain
  release_chain_lem [] fuel m p e d c =
      (m, rw (c, release_chain), sym (append-nil m.released), sym (append-nil m.freed), refl)
  release_chain_lem (x ∷ xs) zero m p e d c = absurd (omega arith)
  release_chain_lem (x ∷ xs) (suc fuel) m p e d c =
      let m1 = release_entry q m (some x) in
      let rest_chain =
        Chain-update (next_of m) (next_of m1) x (next_of m x) xs
          (λ b ne. ap (λ r. r.next) (release_entry_elsewhere m x b ne)) d.0 c.1 in
      let (m', run, out, back, calm) =
        release_chain_lem xs fuel m1 (next_of m x) (omega arith) d.1 rest_chain in
      let same =
        items-congr m m1 x xs (λ b ne. ap payload (release_entry_elsewhere m x b ne)) d.0 in
      (
        m',
        rw (c.0, release_chain) run,
        out
            ∙ ap₂ (λ r is. r ++ releases is) (released-release_entry m x) same
            ∙ append_assoc m.released (release_of (payload (m.entries x))) (releases (items m xs)),
        back ∙ ap (λ fs. fs ++ xs) (freed-release_entry m x) ∙ append_assoc m.freed (x ∷ []) xs,
        calm ∙ violations-release_entry m x,
      )

  -- The loop does not touch other entries.
  release_chain_elsewhere :
      (xs : List Ptr) (fuel : ℕ) (m m' : Memory) (p : Option Ptr) (b : Ptr)
      → fuel ≡ length xs
      → Distinct xs
      → Chain (next_of m) p xs
      → Absent b xs
      → release_chain fuel q m p ≡ some m'
      → m'.entries b ≡ m.entries b
  unfolding release_chain
  release_chain_elsewhere [] fuel m m' p b e d c gone run =
      let stop : release_chain fuel q m p ≡ some m = rw (c, release_chain) refl in
      let same : m ≡ m' = ground (arith, stop, run) in ap (λ t. t.entries b) (sym same)
  release_chain_elsewhere (x ∷ xs) zero m m' p b e d c gone run = absurd (omega arith)
  release_chain_elsewhere (x ∷ xs) (suc fuel) m m' p b e d c gone run =
      let m1 = release_entry q m (some x) in
      let rest_chain =
        Chain-update (next_of m) (next_of m1) x (next_of m x) xs
          (λ b ne. ap (λ r. r.next) (release_entry_elsewhere m x b ne)) d.0 c.1 in
      let go_on : release_chain (suc fuel) q m p ≡ release_chain fuel q m1 (next_of m x) =
        rw (c.0, release_chain) refl in
      release_chain_elsewhere xs fuel m1 m' (next_of m x) b (omega arith) d.1 rest_chain gone.1
        (sym go_on ∙ run)
      ∙ release_entry_elsewhere m x b (λ e. gone.0 (sym e))

-- `Reset` of a queue with its pools gives back each queued packet exactly once, the oldest first, and
-- each entry once, and leaves the queue empty. Its loop ends within `count` rounds.
pub reset_lem :
    {q : SendPacketQueue} {m : Memory} (xs : List Ptr)
    → IsValid q m xs
    → pools_ready q ≡ true
    → (m' : Memory) × ((reset q m).0 ≡ some m')
      × (m'.released ≡ m.released ++ releases (items m xs))
      × (m'.freed ≡ m.freed ++ xs)
      × (m'.violations ≡ m.violations)
      × IsValid (reset q m).1 m' []
unfolding reset
reset_lem {q} {m} xs v ready =
    let emptied = record q { head = none; tail = none; count = 0 } in
    let (m', run, out, back, calm) =
      release_chain_lem emptied ready xs q.count m q.head v.queue.counted v.queue.distinct
        v.queue.chain in
    (
      m',
      run,
      out,
      back,
      calm,
      record {
        queue = record { chain = refl; distinct = tt; ends = refl; counted = refl };
        bounded = omega arith;
      },
    )

-- An entry that is not queued is not touched by `Reset`.
pub reset_elsewhere :
    {q : SendPacketQueue} {m m' : Memory} (xs : List Ptr) (b : Ptr)
    → IsValid q m xs
    → pools_ready q ≡ true
    → Absent b xs
    → (reset q m).0 ≡ some m'
    → m'.entries b ≡ m.entries b
unfolding reset
reset_elsewhere {q} {m} {m'} xs b v ready gone run =
    release_chain_elsewhere (record q { head = none; tail = none; count = 0 }) ready xs q.count m m'
      q.head b v.queue.counted v.queue.distinct v.queue.chain gone run

-- An empty queue gives nothing back.
pub finalize_nothing :
    (q : SendPacketQueue) (m : Memory) → q.head ≡ none → (finalize q m).0 ≡ some m
unfolding finalize reset release_chain
finalize_nothing q m e = rw (e, release_chain) refl
