-- ===== src/Session/Sending.antt =====
-- The sending side of Session/ClientSession.cpp: `EnqueueSendPacket`, `TrySendNext`,
-- `PostCurrentSend`, `OnSendCompleted` and the part of `HandleSocketError` on sends, run by several
-- threads at the same time. A step is one atomic operation, or one call that holds a lock, with the
-- plain fields that only the holder of `m_sending` touches.
pub mod Inv
pub mod Moves
pub mod Reached
pub mod Bytes
pub mod Wire
use iocpnetwork_engine.Prelude.{
  ℕ, suc, ◌+◌, ◌-◌, ◌≤◌, ◌≡◌, Bool, true, false, not, ◌&&◌, Option, none, some, List, [], ◌∷◌, ◌++◌,
  if◌then◌else◌, ◌==◌, ltb, length, take, drop,
}
use iocpnetwork_engine.Prelude.Schedule.{Pick, put_back}
use iocpnetwork_engine.Session.ClientSession.{ClientSession, check_send_packet}

-- `queue` are the packets in the send queue, `outgoing` is the buffer of `m_sendOverlapped`, `posted`
-- how many sends are with the system, `wire` the bytes that it has taken, in order. The other fields
-- are kept for the statements only: the bytes of the packets that were accepted and of those that were
-- sent; how many packets were given back unsent; how many sends the system refused; how many threads
-- kept `m_sending` because `BeginIO` refused.
pub record Shared : Type 0 where
  pub sending : Bool
  pub queue : List (List ℕ)
  pub current_send_packet : Option (List ℕ)
  pub send_offset : ℕ
  pub outgoing : List ℕ
  pub posted : ℕ
  pub cancel_io : Bool
  pub disconnect_requested : Bool
  pub wire : List ℕ
  pub accepted : List ℕ
  pub sent : List ℕ
  pub dropped : ℕ
  pub failures : ℕ
  pub stalled : ℕ

-- What a step does not decide: the state of the session, whether the send queue has room, whether
-- `WSASend` takes the buffer, and whether its error is one that ends the connection.
pub record Answers : Type 0 where
  pub session : ClientSession
  pub room : Bool
  pub taken : Bool
  pub fatal : Bool

-- In `TrySendNext`: the exchange to 1, the look at the packet and at the queue, the exchange to 0, the
-- second look at the queue.
pub data TryPc : Type 0 where
  acquire take_next give_back recheck : TryPc

-- In `PostCurrentSend`: the bytes that remain, the look at `m_cancelIo`, `BeginIO`, `WSASend`.
pub data PostPc : Type 0 where
  aim look_cancel begin send : PostPc

-- What follows once the current packet is given back and `m_sending` is 0.
pub data Then : Type 0 where
  stop report try_next : Then

-- `completed n` is in `OnSendCompleted` of `n` bytes; `clearing` gives the entry back, `freeing` sets
-- `m_sending` to 0; `reporting` is at the `switch` on the error.
pub data Thread : Type 0 where
  enqueueing : List ℕ → Thread
  trying : TryPc → Thread
  posting : PostPc → Thread
  completed : ℕ → Thread
  clearing : Then → Thread
  freeing : Then → Thread
  reporting : Thread

pub record Outcome : Type 0 where
  pub shared : Shared
  pub next : Option Thread

abbrev goes_on : Shared → Thread → Outcome
goes_on s t = record { shared = s; next = some t }

abbrev returns : Shared → Outcome
returns s = record { shared = s; next = none }

abbrev pub bytes : Option (List ℕ) → List ℕ
bytes none = []
bytes (some packet) = packet

unfoldable pub enqueue_send_packet : Answers → Shared → List ℕ → Outcome
enqueue_send_packet a s packet =
    if check_send_packet a.session packet (length packet) && a.room
    then goes_on (record s { queue = s.queue ++ (packet ∷ []); accepted = s.accepted ++ packet })
        (trying acquire)
    else returns s

-- `Dequeue`, where `m_currentSendPacket` is null.
abbrev pub dequeue_next : Shared → List (List ℕ) → Outcome
dequeue_next s [] = goes_on s (trying give_back)
dequeue_next s (packet ∷ rest) =
    goes_on (record s { queue = rest; current_send_packet = some packet; send_offset = 0 })
      (posting aim)

abbrev pub take_current : Shared → Option (List ℕ) → Outcome
take_current s none = dequeue_next s s.queue
take_current s (some packet) = goes_on s (posting aim)

unfoldable pub try_send_next : Shared → TryPc → Outcome
try_send_next s acquire =
    if s.sending then returns s else goes_on (record s { sending = true }) (trying take_next)
try_send_next s take_next = take_current s s.current_send_packet
try_send_next s give_back = goes_on (record s { sending = false }) (trying recheck)
try_send_next s recheck = elim s.queue [
  | [] ↦ returns s
  | packet ∷ rest ↦ goes_on s (trying acquire)
]

-- The subtraction runs only where the packet is longer than the offset (`Inv.aimed`).
abbrev pub aim_at : Shared → Option (List ℕ) → Outcome
aim_at s none = returns s
aim_at s (some packet) =
    if length packet - s.send_offset == 0
    then goes_on (record s { current_send_packet = none; dropped = s.dropped + 1 }) (freeing stop)
    else goes_on (record s { outgoing = drop s.send_offset packet }) (posting look_cancel)

unfoldable pub post_current_send : Answers → Shared → PostPc → Outcome
post_current_send a s aim = aim_at s s.current_send_packet
post_current_send a s look_cancel =
    if s.cancel_io then goes_on s (clearing stop) else goes_on s (posting begin)
post_current_send a s begin =
    if s.cancel_io then returns (record s { stalled = s.stalled + 1 }) else goes_on s (posting send)
post_current_send a s send =
    if a.taken
    then returns (record s { posted = s.posted + 1 })
    else goes_on (record s { failures = s.failures + 1 }) (clearing report)

abbrev pub after_bytes : Shared → Option (List ℕ) → Outcome
after_bytes s none = returns s
after_bytes s (some packet) =
    if ltb s.send_offset (length packet)
    then goes_on s (posting aim)
    else goes_on s (clearing try_next)

unfoldable pub on_send_completed : Shared → ℕ → Outcome
on_send_completed s n =
    after_bytes (record s { send_offset = s.send_offset + n }) s.current_send_packet

-- `ReleaseEntry`, and the packet and the offset reset.
unfoldable pub clear_current : Shared → Then → Outcome
clear_current s try_next =
    goes_on
      (record s {
        current_send_packet = none;
        send_offset = 0;
        sent = s.sent ++ bytes s.current_send_packet;
      })
      (freeing try_next)
clear_current s w =
    goes_on (record s { current_send_packet = none; send_offset = 0; dropped = s.dropped + 1 })
      (freeing w)

unfoldable pub free_token : Shared → Then → Outcome
free_token s stop = returns (record s { sending = false })
free_token s report = goes_on (record s { sending = false }) reporting
free_token s try_next = goes_on (record s { sending = false }) (trying acquire)

unfoldable pub step : Answers → Shared → Thread → Outcome
unfolding enqueue_send_packet try_send_next post_current_send on_send_completed clear_current
    free_token
step a s (enqueueing packet) = enqueue_send_packet a s packet
step a s (trying pc) = try_send_next s pc
step a s (posting pc) = post_current_send a s pc
step a s (completed n) = on_send_completed s n
step a s (clearing w) = clear_current s w
step a s (freeing w) = free_token s w
step a s reporting = returns (if a.fatal then record s { disconnect_requested = true } else s)

pub record System : Type 0 where
  pub shared : Shared
  pub threads : List Thread

-- What can happen: a thread makes one step; a packet is handed to `EnqueueSendPacket`; the system
-- completes a send with `n` bytes of its buffer; I/O is cancelled.
pub data Step (s : System) : System → Type 0 where
  run :
      (a : Answers) (t : Thread) (rest : List Thread)
      → Pick t s.threads rest
      → Step s (record {
        shared = (step a s.shared t).shared;
        threads = put_back (step a s.shared t).next rest;
      })
  enqueue : (packet : List ℕ) → Step s (record s { threads = enqueueing packet ∷ s.threads })
  complete :
      (k n : ℕ)
      → s.shared.posted ≡ suc k
      → n ≤ length s.shared.outgoing
      → Step s (record {
        shared = record (s.shared) { posted = k; wire = s.shared.wire ++ take n s.shared.outgoing };
        threads = completed n ∷ s.threads;
      })
  cancel : Step s (record s { shared = record (s.shared) { cancel_io = true } })

-- A session that is handed out, and what can be reached from it.
abbrev pub start : System
start = record {
  shared = record {
    sending = false;
    queue = [];
    current_send_packet = none;
    send_offset = 0;
    outgoing = [];
    posted = 0;
    cancel_io = false;
    disconnect_requested = false;
    wire = [];
    accepted = [];
    sent = [];
    dropped = 0;
    failures = 0;
    stalled = 0;
  };
  threads = [];
}

pub data Reach : System → Type 0 where
  here : Reach start
  next : {s t : System} → Reach s → Step s t → Reach t
