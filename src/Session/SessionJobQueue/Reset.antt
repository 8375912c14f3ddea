-- ===== src/Session/SessionJobQueue/Reset.antt =====
-- `Reset` of SessionJobQueue.cpp: every queued job and its packet are given back once.
use iocpnetwork_engine.Prelude.{
  ℕ, zero, suc, ◌≡◌, refl, sym, subst, ap, ap₂, map, ◌∙◌, Option, none, some, List, [], ◌∷◌, ◌++◌,
  append-nil, append_assoc, arith, length, false,
}
use iocpnetwork_engine.Prelude.Chain.{Ptr, Chain}
use iocpnetwork_engine.Session.SessionJobQueue.{
  SessionJobQueue, Job, Memory, release_job, release_chain, reset,
}
use iocpnetwork_engine.Session.SessionJobQueue.Fifo.{next_of, packets, IsValid}

-- The packets that some jobs hold.
abbrev pub held : List (Option Ptr) → List Ptr
held [] = []
held (none ∷ ps) = held ps
held (some p ∷ ps) = p ∷ held ps

held-cons : (o : Option Ptr) (ps : List (Option Ptr)) → held (o ∷ ps) ≡ held (o ∷ []) ++ held ps
held-cons none ps = refl
held-cons (some p) ps = refl

released-release_job :
    (m : Memory) (job : Ptr)
    → (release_job m job).released_packets ≡ m.released_packets ++ held ((m.jobs job).packet ∷ [])
unfolding release_job
released-release_job m job = ground (arith, append-nil m.released_packets)

jobs-release_job : (m : Memory) (job : Ptr) → (release_job m job).jobs ≡ m.jobs
unfolding release_job
jobs-release_job m job = ground arith

back-release_job :
    (m : Memory) (job : Ptr) → (release_job m job).released_jobs ≡ m.released_jobs ++ job ∷ []
unfolding release_job
back-release_job m job = ground arith

release_chain_lem :
    (xs : List Ptr) (fuel : ℕ) (m : Memory) (p : Option Ptr)
    → fuel ≡ length xs
    → Chain (next_of m) p xs
    → (m' : Memory) × (release_chain fuel m p ≡ some m')
      × (m'.released_packets ≡ m.released_packets ++ held (packets m xs))
      × (m'.released_jobs ≡ m.released_jobs ++ xs)
unfolding release_chain
release_chain_lem [] fuel m p e c = (
  m,
  rw (c, release_chain),
  sym (append-nil m.released_packets),
  sym (append-nil m.released_jobs),
)
release_chain_lem (x ∷ xs) zero m p e c = absurd (omega arith)
release_chain_lem (x ∷ xs) (suc fuel) m p e c =
    let m1 = release_job m x in
    let jobs_same = jobs-release_job m x in
    let rest_chain =
      subst (λ (f : Ptr → Job). Chain (λ b. (f b).next) (next_of m x) xs) (sym jobs_same) c.1 in
    let (m', run, out, back) =
      release_chain_lem xs fuel m1 (next_of m x) (omega arith) rest_chain in
    (
      m',
      rw (c.0, release_chain) run,
      out
          ∙ ap₂ (λ r (f : Ptr → Job). r ++ held (map (λ b. (f b).packet) xs))
              (released-release_job m x) jobs_same
          ∙ append_assoc m.released_packets (held ((m.jobs x).packet ∷ [])) (held (packets m xs))
          ∙ ap (◌++◌ m.released_packets) (sym (held-cons (m.jobs x).packet (packets m xs))),
      back ∙ ap (λ fs. fs ++ xs) (back-release_job m x) ∙ append_assoc m.released_jobs (x ∷ []) xs,
    )

-- `Reset` gives back each queued job exactly once, and each packet that one holds, the oldest first,
-- and leaves the queue empty with its mark at 0 and its stop flag down. Its loop ends within `count`
-- rounds.
pub reset_releases_all :
    {q : SessionJobQueue} {m : Memory} (xs : List Ptr)
    → IsValid q m xs
    → (m' : Memory) × ((reset q m).0 ≡ some m')
      × (m'.released_packets ≡ m.released_packets ++ held (packets m xs))
      × (m'.released_jobs ≡ m.released_jobs ++ xs)
      × IsValid (reset q m).1 m' []
      × ((reset q m).1.peak_count ≡ 0)
      × ((reset q m).1.stop_flag ≡ false)
unfolding reset
reset_releases_all {q} {m} xs v =
    let (m', run, out, back) =
      release_chain_lem xs q.count m q.head v.queue.counted v.queue.chain in
    (
      m',
      run,
      out,
      back,
      record {
        queue = record { chain = refl; distinct = tt; ends = refl; counted = refl };
        peak = omega arith;
      },
      refl,
      refl,
    )

-- An empty queue gives nothing back.
pub reset_nothing : (q : SessionJobQueue) (m : Memory) → q.head ≡ none → (reset q m).0 ≡ some m
unfolding reset release_chain
reset_nothing q m e = rw (e, release_chain) refl
