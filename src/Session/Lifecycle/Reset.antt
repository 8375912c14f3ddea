-- ===== src/Session/Lifecycle/Reset.antt =====
-- `ResetSession` of Session/ClientSession.cpp: nothing of one connection is left for the next.
use iocpnetwork_engine.Prelude.{
  ◌≡◌, refl, sym, ap, ap₂, ◌∙◌, true, false, Option, none, some, List, [], ◌∷◌, ◌++◌, append-nil,
  append_assoc, arith,
}
use iocpnetwork_engine.Prelude.Int.{pos}
use iocpnetwork_engine.Prelude.Chain.{Ptr, Absent}
use iocpnetwork_engine.Protocol.{unknown}
use iocpnetwork_engine.Buffer.RecvPacketBuffer
use iocpnetwork_engine.Buffer.RecvPacketBuffer.{RecvPacketBuffer}
use iocpnetwork_engine.Buffer.SendPacketQueue
use iocpnetwork_engine.Buffer.SendPacketQueue.{SendPacketQueue, pools_ready}
use iocpnetwork_engine.Buffer.SendPacketQueue.Fifo.{items, payload, IsValid as SendIsValid}
use iocpnetwork_engine.Buffer.SendPacketQueue.Reset.{
  releases, release_of, reset_lem, reset_elsewhere, released-release_entry, freed-release_entry,
}
use iocpnetwork_engine.Session.SessionJobQueue
use iocpnetwork_engine.Session.SessionJobQueue.{SessionJobQueue}
use iocpnetwork_engine.Session.SessionJobQueue.Fifo.{packets, IsValid as JobsIsValid}
use iocpnetwork_engine.Session.SessionJobQueue.Reset.{held, reset_releases_all}
use iocpnetwork_engine.Session.ClientSession.{is_ready, SendRejectReason, by_role}
use iocpnetwork_engine.Session.Lifecycle.{
  Session, Store, reset_session, base_reset, release_after, store_of, reset_ring,
}

abbrev pub entry_of : Option Ptr → List Ptr
entry_of none = []
entry_of (some c) = c ∷ []

abbrev pub AbsentCurrent : Option Ptr → List Ptr → Type 0
AbsentCurrent none xs = Unit {0}
AbsentCurrent (some c) xs = Absent c xs

-- What was given back out of the entries `xs` and the current one.
pub record GivenBack (m m' : SendPacketQueue.Memory) (xs : List Ptr) : Type 0 where
  pub packets_back : m'.released ≡ m.released ++ releases (items m xs)
  pub entries_back : m'.freed ≡ m.freed ++ xs

releases-append :
    (m : SendPacketQueue.Memory) (xs : List Ptr) (c : Ptr)
    → releases (items m (xs ++ (c ∷ [])))
      ≡ releases (items m xs) ++ release_of (payload (m.entries c))
releases-append m [] c = append-nil (release_of (payload (m.entries c)))
releases-append m (x ∷ xs) c =
    ap (◌++◌ (release_of (payload (m.entries x)))) (releases-append m xs c)
    ∙ sym (
        append_assoc (release_of (payload (m.entries x))) (releases (items m xs))
          (release_of (payload (m.entries c))))

reset-pools_ready :
    (q : SendPacketQueue) (m : SendPacketQueue.Memory)
    → pools_ready (SendPacketQueue.reset q m).1 ≡ pools_ready q
unfolding SendPacketQueue.reset
reset-pools_ready q m = refl

-- The queue first, then the current entry.
sends_back :
    {q : SendPacketQueue} {m : SendPacketQueue.Memory} (xs : List Ptr) (current : Option Ptr)
    → SendIsValid q m xs
    → pools_ready q ≡ true
    → AbsentCurrent current xs
    → (m' : SendPacketQueue.Memory) × (release_after
          (some (SendPacketQueue.reset q m).1)
          current
          (SendPacketQueue.reset q m).0
        ≡ some m')
      × GivenBack m m' (xs ++ entry_of current)
unfolding SendPacketQueue.release_entry
sends_back {q} {m} xs none v ready gone =
    let (m', run, out, back, calm, empty) = reset_lem xs v ready in
    (
      m',
      ap (release_after (some (SendPacketQueue.reset q m).1) none) run,
      record {
        packets_back = out ∙ ap (λ t. m.released ++ releases (items m t)) (sym (append-nil xs));
        entries_back = back ∙ ap (λ t. m.freed ++ t) (sym (append-nil xs));
      },
    )
sends_back {q} {m} xs (some c) v ready gone =
    let (m', run, out, back, calm, empty) = reset_lem xs v ready in
    let emptied = (SendPacketQueue.reset q m).1 in
    let kept : pools_ready emptied ≡ true = reset-pools_ready q m ∙ ready in
    let untouched = ap payload (reset_elsewhere xs c v ready gone run) in
    (
      SendPacketQueue.release_entry emptied m' (some c),
      ap (release_after (some emptied) (some c)) run,
      record {
        packets_back =
            released-release_entry emptied kept m' c
            ∙ ap₂ ◌++◌ out (ap release_of untouched)
            ∙ append_assoc m.released (releases (items m xs)) (release_of (payload (m.entries c)))
            ∙ ap (◌++◌ m.released) (sym (releases-append m xs c));
        entries_back =
            freed-release_entry emptied kept m' c
            ∙ ap (λ t. t ++ (c ∷ [])) back
            ∙ append_assoc m.freed xs (c ∷ []);
      },
    )

-- What a session is like once it is reset. For each of the reasons `r` of a refused send, the time of the
-- last line and the number of lines left out are 0.
pub record IsFresh (s : Session) : Type 0 where
  pub ready : is_ready s.client_session ≡ by_role s.client_session.session_role true true
  pub flags :
      (s.sending ≡ false)
      × (s.processing ≡ false)
      × (s.recv_paused ≡ false)
      × (s.recv_pause_count ≡ 0)
      × (s.closing ≡ false)
      × (s.cancel_io ≡ false)
      × (s.release_pending ≡ false)
      × (s.service_connect_notified ≡ false)
  pub reason : s.disconnect_reason ≡ unknown
  pub no_send : (s.current_send_packet ≡ none) × (s.send_offset ≡ 0)
  pub never_active :
      (s.client_session.last_recv_tick ≡ 0) × (s.client_session.last_heartbeat_tick ≡ 0)
  pub no_window :
      (r : SendRejectReason)
      → (s.client_session.send_reject_log_tick r ≡ 0)
        × (s.client_session.send_reject_suppressed r ≡ 0)
  pub no_context : s.session_context ≡ none

-- The queues and the ring hold nothing.
abbrev pub RingIsEmpty : Option RecvPacketBuffer → Type 0
RingIsEmpty none = Unit {0}
RingIsEmpty (some b) = (b.stored_size ≡ 0) × (b.read_pos ≡ 0) × (b.write_pos ≡ 0)

pub record Emptied (q : SendPacketQueue) (jq : SessionJobQueue) (s : Session) (m : Store)
    : Type 0 where
  pub has_queue : s.send_packet_queue ≡ some q
  pub has_jobs : s.job_queue ≡ some jq
  pub no_packet : SendIsValid q m.entries []
  pub no_job : JobsIsValid jq m.jobs []
  pub no_byte : RingIsEmpty s.recv_packet_buffer

reset-RingIsEmpty : (b : Option RecvPacketBuffer) → RingIsEmpty (reset_ring b)
unfolding RecvPacketBuffer.reset
reset-RingIsEmpty none = tt
reset-RingIsEmpty (some b) = (refl, refl, refl)

reset-SendIsValid :
    (q : SendPacketQueue) (m m' : SendPacketQueue.Memory)
    → SendIsValid (SendPacketQueue.reset q m).1 m' []
unfolding SendPacketQueue.reset
reset-SendIsValid q m m' = record {
  queue = record { chain = refl; distinct = tt; ends = refl; counted = refl };
  bounded = omega arith;
}

reset_session-IsFresh : (s : Session) (m : Store) → IsFresh (reset_session s m).1
unfolding reset_session base_reset
reset_session-IsFresh s m = record {
  ready = ground arith;
  flags = (refl, refl, refl, refl, refl, refl, refl, refl);
  reason = refl;
  no_send = (refl, refl);
  never_active = (refl, refl);
  no_window = λ r. (refl, refl);
  no_context = refl;
}

-- What `ResetSession` owes of a session with the queues `q` and `jq`, which hold `xs` and `ys`.
abbrev pub WasReset :
    Session → Store → SendPacketQueue → SessionJobQueue → List Ptr → List Ptr → Type 0
WasReset s m q jq xs ys =
    (m' : Store) × ((reset_session s m).0 ≡ some m')
    × GivenBack m.entries m'.entries (xs ++ entry_of s.current_send_packet)
    × (m'.jobs.released_packets ≡ m.jobs.released_packets ++ held (packets m.jobs ys))
    × (m'.jobs.released_jobs ≡ m.jobs.released_jobs ++ ys)
    × IsFresh (reset_session s m).1
    × Emptied (SendPacketQueue.reset q m.entries).1 (SessionJobQueue.reset jq m.jobs).1
        (reset_session s m).1 m'
    × ((reset_session s m).1.violations ≡ s.violations)

-- `ResetSession` of a session with no socket and no I/O ends. With a valid send queue of the entries
-- `xs`, whose pools are there, a current send that is none of these, and a valid job queue of the jobs
-- `ys`, it gives back every packet and entry of the send queue and then those of the current send, and
-- every job with its packet, each once and in order. It logs no violation, and both queues and the
-- ring, if there is one, are empty then. The session is ready for a connection again: its flags are
-- down, the pause count, the two activity ticks and the windows of the refusal log are 0, and it has no
-- disconnect reason, no packet on its way and no service context.
pub reset_session_lem :
    (s : Session) (m : Store) {q : SendPacketQueue} {jq : SessionJobQueue} (xs ys : List Ptr)
    → s.live_socket ≡ false
    → s.io_count ≡ pos 0
    → s.send_packet_queue ≡ some q
    → s.job_queue ≡ some jq
    → SendIsValid q m.entries xs
    → JobsIsValid jq m.jobs ys
    → pools_ready q ≡ true
    → AbsentCurrent s.current_send_packet xs
    → WasReset s m q jq xs ys
unfolding reset_session
reset_session_lem s m {q} {jq} xs ys no_socket no_io has_queue has_jobs v w ready gone =
    let (e', run_e, back_e) = sends_back xs s.current_send_packet v ready gone in
    let (j', run_j, packets_j, jobs_j, empty, peak, stop) = reset_releases_all ys w in
    (
      record { entries = e'; jobs = j' },
      rw (has_queue, has_jobs) (ap₂ store_of run_e run_j),
      back_e,
      packets_j,
      jobs_j,
      reset_session-IsFresh s m,
      record {
        has_queue = rw (has_queue) refl;
        has_jobs = rw (has_jobs) refl;
        no_packet = reset-SendIsValid q m.entries e';
        no_job = empty;
        no_byte = reset-RingIsEmpty s.recv_packet_buffer;
      },
      ground (arith, no_socket, no_io),
    )
