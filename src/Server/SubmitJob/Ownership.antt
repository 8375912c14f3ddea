-- ===== src/Server/SubmitJob/Ownership.antt =====
-- Who has a packet after `SubmitPacketJob`: a job in the queue, or the pool it came from.
use iocpnetwork_engine.Prelude.{
  ℕ, ◌≡◌, refl, ◌∙◌, ◌⊎◌, inl, inr, Bool, true, false, not, ◌||◌, Option, none, some, List, [], ◌∷◌,
  ◌++◌, if_split, if◌then◌else◌, arith,
}
use iocpnetwork_engine.Prelude.Chain.{Ptr, Absent, is_none, IsQueue-update}
use iocpnetwork_engine.Session.SessionJobQueue.{SessionJobQueue, Memory, enqueue_job}
use iocpnetwork_engine.Session.SessionJobQueue.Fifo.{IsValid, enqueue_job_lem, next_of}
use iocpnetwork_engine.Server.SubmitJob.{
  Setup, Target, drop_packet, queue_packet, schedule, set_packet_job, release_job_block, violated,
  server_submit_packet_job, client_submit_packet_job, handler_of, no_table,
}

-- The job is last in the queue and has the packet, and nothing was given back.
pub record Queued (t : Target) (xs : List Ptr) (packet job : Ptr) (r : Bool × Target) : Type 0 where
  pub said : r.0 ≡ true
  pub in_queue : IsValid r.1.job_queue r.1.memory (xs ++ (job ∷ []))
  pub carries : (r.1.memory.jobs job).packet ≡ some packet
  pub kept :
      (r.1.memory.released_packets ≡ t.memory.released_packets)
      × (r.1.memory.released_jobs ≡ t.memory.released_jobs)

-- The packet went back once; the queue is as it was.
pub record Refused (t : Target) (xs : List Ptr) (packet : Ptr) (r : Bool × Target) : Type 0 where
  pub said : r.0 ≡ false
  pub in_queue : IsValid r.1.job_queue r.1.memory xs
  pub packet_back : r.1.memory.released_packets ≡ t.memory.released_packets ++ (packet ∷ [])

abbrev pub Owned : Setup → Target → List Ptr → Ptr → Bool × Target → Type 0
Owned a t xs packet r =
    ((job : Ptr) × (a.job ≡ some job) × Queued t xs packet job r) ⊎ Refused t xs packet r

drop_packet-Refused :
    (a : Setup) (t : Target) (xs : List Ptr) (packet : Ptr)
    → a.packet_pools ≡ true
    → IsValid t.job_queue t.memory xs
    → Refused t xs packet (false, drop_packet a t packet)
drop_packet-Refused a t xs packet pools v = record {
  said = refl;
  in_queue = rw pools (record { queue = v.queue; peak = v.peak });
  packet_back = rw pools refl;
}

-- The same after a violation was counted.
violated-Refused :
    (a : Setup) (t : Target) (xs : List Ptr) (packet : Ptr)
    → a.packet_pools ≡ true
    → IsValid t.job_queue t.memory xs
    → Refused t xs packet (false, drop_packet a (violated t) packet)
violated-Refused a t xs packet pools v =
    let w : IsValid t.job_queue (violated t).memory xs = record {
      queue = v.queue;
      peak = v.peak;
    } in
    let f = drop_packet-Refused a (violated t) xs packet pools w in
    record { said = refl; in_queue = f.in_queue; packet_back = f.packet_back }

-- What `EnqueueJob` leaves alone.
enqueue_job-kept :
    (q : SessionJobQueue) (m : Memory) (job : Ptr)
    → ((enqueue_job q m (some job)).0 ≡ true)
      × ((enqueue_job q m (some job)).3.released_packets ≡ m.released_packets)
      × ((enqueue_job q m (some job)).3.released_jobs ≡ m.released_jobs)
      × (((enqueue_job q m (some job)).3.jobs job).packet ≡ (m.jobs job).packet)
unfolding enqueue_job
enqueue_job-kept q m job = ground arith

set_packet_job-IsValid :
    (t : Target) (job packet : Ptr) (xs : List Ptr)
    → Absent job xs
    → IsValid t.job_queue t.memory xs
    → IsValid t.job_queue (set_packet_job t job packet).memory xs
set_packet_job-IsValid t job packet xs gone v = record {
  queue =
      IsQueue-update (next_of t.memory) (next_of (set_packet_job t job packet).memory) job xs
        (λ b ne. ground (arith, ne)) gone v.queue;
  peak = v.peak;
}

-- The job that `CreateJob` returns is none of those in the queue.
abbrev pub FreshJob : Option Ptr → List Ptr → Type 0
FreshJob none xs = Unit {0}
FreshJob (some job) xs = Absent job xs

queue_packet-Owned :
    (a : Setup) (t : Target) (xs : List Ptr) (packet : Ptr) (job : Option Ptr)
    → a.job ≡ job
    → a.packet_pools ≡ true
    → IsValid t.job_queue t.memory xs
    → FreshJob job xs
    → Owned a t xs packet (queue_packet a t packet job)
queue_packet-Owned a t xs packet none made pools v fresh =
    inr (drop_packet-Refused a t xs packet pools v)
queue_packet-Owned a t xs packet (some job) made pools v fresh =
    let m = (set_packet_job t job packet).memory in
    let (done, packets_kept, jobs_kept, packet_kept) = enqueue_job-kept t.job_queue m job in
    let w = (enqueue_job_lem xs job (set_packet_job-IsValid t job packet xs fresh v) fresh).2 in
    rw done (
      inl (
        job,
        made,
        record {
          said = refl;
          in_queue = w;
          carries = packet_kept ∙ ground arith;
          kept = (packets_kept, jobs_kept);
        },
      ))

schedule-kept :
    (t : Target) → ((schedule t).job_queue ≡ t.job_queue) × ((schedule t).memory ≡ t.memory)
unfolding schedule
schedule-kept t = ground arith

-- Scheduling the session changes nothing about its job.
schedule-Owned :
    (a : Setup) (t : Target) (xs : List Ptr) (packet : Ptr) (r : Bool × Target)
    → Owned a t xs packet r
    → Owned a t xs packet (if r.0 then (true, schedule r.1) else r)
schedule-Owned a t xs packet r (inl (job, made, q)) =
    let (same_queue, same_memory) = schedule-kept r.1 in
    rw q.said (
      inl (
        job,
        made,
        record {
          said = refl;
          in_queue = rw (same_queue, same_memory) q.in_queue;
          carries = rw same_memory q.carries;
          kept = rw same_memory q.kept;
        },
      ))
schedule-Owned a t xs packet r (inr f) =
    if_split (Owned a t xs packet) r.0 (λ e. absurd (ground (arith, e, f.said))) (λ e. inr f)

-- After the server's `SubmitPacketJob`, with the packet pools there, a valid job queue and a new job
-- out of the pool, the packet has one owner: either the call said so and the job is last in the
-- queue with the packet and nothing was given back, or it refused, the queue is as it was, and the
-- packet went back to its pool once.
pub server_submit_packet_job_lem :
    (a : Setup) (t : Target) (xs : List Ptr) (packet_id : ℕ) (packet : Ptr)
    → a.packet_pools ≡ true
    → IsValid t.job_queue t.memory xs
    → FreshJob a.job xs
    → Owned a t xs packet (server_submit_packet_job a t packet_id packet)
unfolding server_submit_packet_job
server_submit_packet_job_lem a t xs packet_id packet pools v fresh =
    if_split (Owned a t xs packet)
      (no_table a.handlers || (not a.job_pool || not a.has_ready_queue))
      (λ e. inr (violated-Refused a t xs packet pools v))
      (λ e.
        if_split (Owned a t xs packet) (is_none (handler_of a.handlers packet_id))
          (λ f. inr (drop_packet-Refused a t xs packet pools v))
          (λ f.
            schedule-Owned a t xs packet (queue_packet a t packet a.job)
              (queue_packet-Owned a t xs packet a.job refl pools v fresh)))

-- The same of the client's `SubmitPacketJob`, also where the session has no job queue.
pub client_submit_packet_job_lem :
    (a : Setup) (has_job_queue : Bool) (t : Target) (xs : List Ptr) (packet_id : ℕ) (packet : Ptr)
    → a.packet_pools ≡ true
    → IsValid t.job_queue t.memory xs
    → FreshJob a.job xs
    → Owned a t xs packet (client_submit_packet_job a has_job_queue t packet_id packet)
unfolding client_submit_packet_job
client_submit_packet_job_lem a has_job_queue t xs packet_id packet pools v fresh =
    if_split (Owned a t xs packet) (no_table a.handlers || not a.job_pool)
      (λ e. inr (violated-Refused a t xs packet pools v))
      (λ e.
        if_split (Owned a t xs packet) (is_none (handler_of a.handlers packet_id))
          (λ f. inr (drop_packet-Refused a t xs packet pools v))
          (λ f.
            if_split (Owned a t xs packet) has_job_queue
              (λ g. queue_packet-Owned a t xs packet a.job refl pools v fresh)
              (λ g. without_queue a.job fresh)))
  where
    without_queue :
        (job : Option Ptr)
        → FreshJob job xs
        → Owned a t xs packet (elim job [
          | none ↦ (false, drop_packet a t packet)
          | some job ↦ (
            false,
            release_job_block (drop_packet a (violated (set_packet_job t job packet)) packet) job,
          )
        ])
    without_queue none none_made = inr (drop_packet-Refused a t xs packet pools v)
    without_queue (some job) gone =
        let f =
          violated-Refused a (set_packet_job t job packet) xs packet pools
            (set_packet_job-IsValid t job packet xs gone v) in
        inr (record {
          said = refl;
          in_queue = record { queue = f.in_queue.queue; peak = f.in_queue.peak };
          packet_back = f.packet_back;
        })
