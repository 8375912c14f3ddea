-- ===== src/Server/SubmitJob.antt =====
-- `SubmitPacketJob` of Core/IOCPServer.cpp and of Core/IOCPClient.cpp with `SubmitJob` of
-- Session/ClientSession.cpp, and the table of HandlerTable/PacketHandlerTable.cpp: who has the packet
-- after the call. Session and packet are there. One thread runs here; Scheduler/Backpressure is about
-- several.
pub mod Ownership
use iocpnetwork_engine.Prelude.{
  ℕ, zero, suc, ◌+◌, Bool, true, false, not, ◌&&◌, ◌||◌, Option, none, some, List, [], ◌∷◌, ◌++◌,
  leb, ltb, ◌==◌, if◌then◌else◌,
}
use iocpnetwork_engine.Prelude.Chain.{Ptr, update, is_none}
use iocpnetwork_engine.Protocol.{is_service_packet_id}
use iocpnetwork_engine.Session.SessionJobQueue.{SessionJobQueue, Job, Memory, enqueue_job}
use iocpnetwork_engine.Scheduler.ReadySessionQueue.{ReadySessionQueue, push}

-- The entries of `m_handlerTable`.
abbrev pub PacketHandlerTable : Type 0
PacketHandlerTable = ℕ → Option Ptr

unfoldable pub register : PacketHandlerTable → ℕ → Option Ptr → Bool × PacketHandlerTable
register t packet_id handler =
    if not (is_service_packet_id packet_id)
    then (false, t)
    else if is_none handler
    then (false, t)
    else if not (is_none (t packet_id))
    then (false, t)
    else (true, update t packet_id handler)

unfoldable pub get_handler : PacketHandlerTable → ℕ → Option Ptr
get_handler t packet_id = if leb 10000 packet_id then none else t packet_id

-- What the calls find: the table, the job pool and the ready queue where they are there, whether the
-- packet pools are, and what `CreateJob` returns.
pub record Setup : Type 0 where
  pub handlers : Option PacketHandlerTable
  pub job_pool : Bool
  pub has_ready_queue : Bool
  pub packet_pools : Bool
  pub job : Option Ptr

-- A session with the ready queue of the server; `address` is the session's.
pub record Target : Type 0 where
  pub address : ℕ
  pub job_queue : SessionJobQueue
  pub memory : Memory
  pub processing : Bool
  pub ready_queue : ReadySessionQueue

-- `ENGINE_VIOLATION`.
abbrev pub violated : Target → Target
violated t = record t { memory = record (t.memory) { violations = t.memory.violations + 1 } }

-- The function `dropPacket` of both calls.
abbrev pub drop_packet : Setup → Target → Ptr → Target
drop_packet a t packet =
    if a.packet_pools
    then record t {
      memory = record (t.memory) { released_packets = t.memory.released_packets ++ packet ∷ [] };
    }
    else t

-- `ReleaseJob`: the block goes back to the job pool.
abbrev pub release_job_block : Target → Ptr → Target
release_job_block t job = record t {
  memory = record (t.memory) { released_jobs = t.memory.released_jobs ++ job ∷ [] };
}

-- `SetPacketJob`, as far as the queue reads the job.
abbrev pub set_packet_job : Target → Ptr → Ptr → Target
set_packet_job t job packet = record t {
  memory = record (t.memory) {
    jobs = update t.memory.jobs job (record (t.memory.jobs job) { packet = some packet });
  };
}

abbrev pub no_table : Option PacketHandlerTable → Bool
no_table none = true
no_table (some t) = false

abbrev pub handler_of : Option PacketHandlerTable → ℕ → Option Ptr
handler_of none packet_id = none
handler_of (some t) packet_id = get_handler t packet_id

-- The exchange of `m_processing`, `Push`, and the exchange back where it fails.
unfoldable pub schedule : Target → Target
schedule t =
    if t.processing
    then t
    else if (push t.ready_queue t.address).0
    then record t { processing = true; ready_queue = (push t.ready_queue t.address).1 }
    else record t { processing = false; ready_queue = (push t.ready_queue t.address).1 }

abbrev pub enqueued : Target → Ptr → Bool × Target
enqueued t job =
    let r = enqueue_job t.job_queue t.memory (some job) in
    (r.0, record t { job_queue = r.2; memory = r.3 })

-- From `CreateJob` on, where there is a handler.
abbrev pub queue_packet : Setup → Target → Ptr → Option Ptr → Bool × Target
queue_packet a t packet none = (false, drop_packet a t packet)
queue_packet a t packet (some job) =
    let r = enqueued (set_packet_job t job packet) job in
    if r.0 then (true, r.1) else (false, release_job_block (drop_packet a r.1 packet) job)

unfoldable pub server_submit_packet_job : Setup → Target → ℕ → Ptr → Bool × Target
unfolding get_handler schedule
server_submit_packet_job a t packet_id packet =
    let r : Bool × Target = queue_packet a t packet a.job in
    if no_table a.handlers || (not a.job_pool || not a.has_ready_queue)
    then (false, drop_packet a (violated t) packet)
    else if is_none (handler_of a.handlers packet_id)
    then (false, drop_packet a t packet)
    else if r.0
    then (true, schedule r.1)
    else r

-- The client has one thread that waits on the job queue itself. `has_job_queue` is the test of
-- `SubmitJob`.
unfoldable pub client_submit_packet_job : Setup → Bool → Target → ℕ → Ptr → Bool × Target
unfolding get_handler
client_submit_packet_job a has_job_queue t packet_id packet =
    if no_table a.handlers || not a.job_pool
    then (false, drop_packet a (violated t) packet)
    else if is_none (handler_of a.handlers packet_id)
    then (false, drop_packet a t packet)
    else if has_job_queue
    then queue_packet a t packet a.job
    else elim a.job [
      | none ↦ (false, drop_packet a t packet)
      | some job ↦ (
        false,
        release_job_block (drop_packet a (violated (set_packet_job t job packet)) packet) job,
      )
    ]
