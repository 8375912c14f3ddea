-- ===== src/Session/SessionJobQueue/Fifo.antt =====
-- The job queue of SessionJobQueue.cpp as a first-in first-out queue with its high-water mark.
use Prim.Native.Nat.{max}
use iocpnetwork_engine.Prelude.{
  ◌+◌, ◌≤◌, ◌≡◌, refl, sym, subst, ap, ap₂, ◌∙◌, Bool, true, false, Option, none, some, List, [],
  ◌∷◌, ◌++◌, map, arith, length-append, ◌==◌, if◌then◌else◌,
}
use iocpnetwork_engine.Prelude.Chain.{
  Ptr, Chain, Absent, Absent-last, last, is_none, IsQueue, Chain-snoc, Distinct-snoc, last-snoc,
  last-cons, popped_tail,
}
use iocpnetwork_engine.Session.SessionJobQueue.{
  SessionJobQueue, Job, Memory, WaitResult, got, stopped, sleeping, enqueue_job, unlink_first,
  dequeue_job, wait_dequeue_job, is_server, is_client,
}

abbrev pub next_of : Memory → Ptr → Option Ptr
next_of m p = (m.jobs p).next

pub record IsValid (q : SessionJobQueue) (m : Memory) (xs : List Ptr) : Type 0 where
  pub queue : IsQueue (next_of m) q.head q.tail q.count xs
  pub peak : q.count ≤ q.peak_count

abbrev pub packets : Memory → List Ptr → List (Option Ptr)
packets m = map (λ p. (m.jobs p).packet)

-- `EnqueueJob` puts the job last, says whether the queue was empty, and raises the high-water mark to
-- the new depth if that is higher.
pub enqueue_job_lem :
    {q : SessionJobQueue} {m : Memory} (xs : List Ptr) (job : Ptr)
    → IsValid q m xs
    → Absent job xs
    → let (done, was_empty, q', m') = enqueue_job q m (some job) in
      (done ≡ true)
      × (was_empty ≡ some (q.count == 0))
      × IsValid q' m' (xs ++ job ∷ [])
      × (q'.peak_count ≡ max q.peak_count (q.count + 1))
unfolding enqueue_job
enqueue_job_lem {q} {m} [] job v gone = (
  refl,
  ground arith,
  record {
    queue = record {
      chain = ground arith;
      distinct = (tt, tt);
      ends = ground arith;
      counted = ground arith;
    };
    peak = ground arith;
  },
  ground arith,
)
enqueue_job_lem {q} {m} (x ∷ xs) job v gone = behind (last-cons x xs)
  where
    behind :
        (t : Ptr) × (last (x ∷ xs) ≡ some t)
        → let (done, was_empty, q', m') = enqueue_job q m (some job) in
          (done ≡ true)
          × (was_empty ≡ some (q.count == 0))
          × IsValid q' m' (x ∷ (xs ++ job ∷ []))
          × (q'.peak_count ≡ max q.peak_count (q.count + 1))
    behind (t, at_end) =
        let tail_is : q.tail ≡ some t = v.queue.ends ∙ at_end in
        let (_, _, q', m') = enqueue_job q m (some job) in
        (
          refl,
          ground arith,
          record {
            queue = record {
              chain =
                  Chain-snoc (next_of m) (next_of m') t job q'.head (x ∷ xs)
                    (λ b bt be. ground arith) (ground arith)
                    (ground (arith, Absent-last job t (x ∷ xs) gone at_end)) v.queue.distinct gone
                    at_end (ground arith);
              distinct = Distinct-snoc (x ∷ xs) job v.queue.distinct gone;
              ends = ground (arith, last-snoc (x ∷ xs) job);
              counted = ground (arith, length-append (x ∷ xs) (job ∷ []));
            };
            peak = ground arith;
          },
          ground arith,
        )

-- No payload is touched by the links.
pub packets-enqueue_job :
    (q : SessionJobQueue) (m : Memory) (job : Ptr) (xs : List Ptr)
    → packets (enqueue_job q m (some job)).3 xs ≡ packets m xs
packets-enqueue_job q m job [] = refl
packets-enqueue_job q m job (x ∷ xs) = ap₂ ◌∷◌ (same x) (packets-enqueue_job q m job xs)
  where
    same : (b : Ptr) → ((enqueue_job q m (some job)).3.jobs b).packet ≡ (m.jobs b).packet
    same b = unfold enqueue_job in ground arith

unlink_first-IsValid :
    {q : SessionJobQueue} {m m' : Memory} (x : Ptr) (xs : List Ptr)
    → m'.jobs ≡ m.jobs
    → IsValid q m (x ∷ xs)
    → IsValid (unlink_first q m x) m' xs
unlink_first-IsValid {q} {m} {m'} x xs same v = record {
  queue = record {
    chain =
        subst (λ (f : Ptr → Job). Chain (λ p. (f p).next) (next_of m x) xs) (sym same)
          v.queue.chain.1;
    distinct = v.queue.distinct.1;
    ends =
        ap (λ t. if is_none (next_of m x) then none else t) v.queue.ends
        ∙ popped_tail (next_of m) x xs (next_of m x) v.queue.chain.1;
    counted = omega (arith, v.queue.counted);
  };
  peak = omega (arith, v.peak);
}

-- `DequeueJob` hands out the oldest job and leaves the others in order; on the empty queue it gives
-- none. The calls differ by role only in the violation logged.
pub dequeue_job_lem :
    {q : SessionJobQueue} {m : Memory} (x : Ptr) (xs : List Ptr)
    → IsValid q m (x ∷ xs)
    → let (out, q', m') = dequeue_job q m in
      (out ≡ some x) × IsValid q' m' xs × (m'.jobs ≡ m.jobs) × (q'.peak_count ≡ q.peak_count)
unfolding dequeue_job
dequeue_job_lem {q} {m} x xs v =
    rw (v.queue.chain.0, dequeue_job)
      (
        refl,
        unlink_first-IsValid x xs (unchanged (is_server q.session_role)) v,
        unchanged (is_server q.session_role),
        refl,
      )
  where
    unchanged :
        (b : Bool) → (if b then m else record m { violations = m.violations + 1 }).jobs ≡ m.jobs
    unchanged true = refl
    unchanged false = refl

-- What a look at a queue that holds `xs` may give.
abbrev pub Waited : SessionJobQueue → List Ptr → WaitResult × SessionJobQueue × Memory → Type 0
Waited q [] r = (r.0 ≡ (if q.stop_flag then stopped else sleeping)) × (r.1 ≡ q)
Waited q (x ∷ rest) r = (r.0 ≡ got x) × IsValid r.1 r.2 rest

-- `WaitDequeueJob` hands out the oldest job while there is one, also after `WakeUp`; on the empty queue
-- it ends if the stop flag is set, and sleeps if not.
pub wait_dequeue_job_lem :
    {q : SessionJobQueue} {m : Memory} (xs : List Ptr)
    → IsValid q m xs
    → Waited q xs (wait_dequeue_job q m)
unfolding wait_dequeue_job
wait_dequeue_job_lem {q} {m} [] v = ground arith
wait_dequeue_job_lem {q} {m} (x ∷ xs) v =
    rw (v.queue.chain.0, wait_dequeue_job)
      (refl, unlink_first-IsValid x xs (unchanged (is_client q.session_role)) v)
  where
    unchanged :
        (b : Bool) → (if b then m else record m { violations = m.violations + 1 }).jobs ≡ m.jobs
    unchanged true = refl
    unchanged false = refl
