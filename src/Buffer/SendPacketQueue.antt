-- ===== src/Buffer/SendPacketQueue.antt =====
-- Buffer/SendPacketQueue.h, .cpp and SendPacketEntry.h: the send queue of a session, a list of entries
-- linked through memory. The lock makes each update of the links one step; entries are taken from and
-- given back to a pool outside it.
pub mod Fifo
pub mod Refuse
pub mod Dequeue
pub mod Reset
use iocpnetwork_engine.Prelude.{
  ℕ, zero, suc, ◌+◌, ◌-◌, ◌≡◌, Bool, true, false, not, ◌&&◌, ◌||◌, Option, none, some, List, [],
  ◌∷◌, ◌++◌, ltb, leb, ◌==◌, if◌then◌else◌,
}
use iocpnetwork_engine.Prelude.Chain.{Ptr, update, is_none}

-- Packets, functions and their contexts are known by their addresses.
pub record SendPacketEntry : Type 0 where
  pub next : Option Ptr
  pub packet_data : Option Ptr
  pub packet_size : ℕ
  pub release_func : Option Ptr
  pub release_context : Ptr

-- `SendPacketEntry()` and `SendPacketEntry::Reset`
abbrev pub cleared : SendPacketEntry
cleared = record {
  next = none;
  packet_data = none;
  packet_size = 0;
  release_func = none;
  release_context = 0;
}

-- How a packet was given back: to the packet pool, or by the function that came with it.
pub data Release : Type 0 where
  to_pool : Ptr → Release
  by_func : Ptr → Ptr → Ptr → Release

-- The entries, and what was given back so far, oldest first.
pub record Memory : Type 0 where
  pub entries : Ptr → SendPacketEntry
  pub released : List Release
  pub freed : List Ptr
  pub violations : ℕ

-- The pool fields say whether the pool is there.
pub record SendPacketQueue : Type 0 where
  pub head : Option Ptr
  pub tail : Option Ptr
  pub count : ℕ
  pub max_count : ℕ
  pub entry_pool : Bool
  pub packet_pool : Bool
  pub general_pool : Bool

-- PACKET_SIZE_LIMIT
abbrev pub packet_size_limit : ℕ
packet_size_limit = 65535

abbrev pub pools_ready : SendPacketQueue → Bool
pools_ready q = q.entry_pool && (q.packet_pool && q.general_pool)

-- `p->next = n`
abbrev pub link : Memory → Ptr → Option Ptr → Memory
link m p n = record m { entries = update m.entries p (record (m.entries p) { next = n }) }

abbrev pub write_entry : Memory → Ptr → SendPacketEntry → Memory
write_entry m p e = record m { entries = update m.entries p e }

-- MEMORY_POOL::ReleaseSendPacketEntry
abbrev pub free_entry : Memory → Ptr → Memory
free_entry m p = record m { freed = m.freed ++ p ∷ [] }

append_entry : SendPacketQueue → Memory → Ptr → Memory
append_entry q m e = elim q.tail [ none ↦ m | some t ↦ link m t (some e) ]

pub push_back : SendPacketQueue → Memory → Ptr → Bool × SendPacketQueue × Memory
unfolding append_entry
push_back q m e =
    let m1 = link m e none in
    if leb q.max_count q.count then (false, q, m1) else (
      true,
      record q {
        head = if is_none q.tail then some e else q.head;
        tail = some e;
        count = q.count + 1;
      },
      append_entry q m1 e,
    )

-- `packet_data` is the caller's pointer, which the call clears when the queue takes the packet;
-- `entry` is what the entry pool hands out.
pub enqueue :
    SendPacketQueue
    → Memory
    → Option Ptr
    → ℕ
    → Option Ptr
    → Bool × SendPacketQueue × Memory × Option Ptr
enqueue q m packet_data packet_size entry =
    if not (pools_ready q)
    then (false, q, m, packet_data)
    else if is_none packet_data || packet_size == 0 || ltb packet_size_limit packet_size
    then (false, q, m, packet_data)
    else elim entry [
      | none ↦ (false, q, m, packet_data)
      | some e ↦
          let filled = record cleared { packet_data = packet_data; packet_size = packet_size } in
          let (pushed, q', m') = push_back q (write_entry m e filled) e in
          if pushed then (true, q', m', none) else (false, q', free_entry m' e, packet_data)
    ]

pub enqueue_shared :
    SendPacketQueue
    → Memory
    → Option Ptr
    → ℕ
    → Option Ptr
    → Ptr
    → Option Ptr
    → Bool × SendPacketQueue × Memory
enqueue_shared q m packet_data packet_size release_func release_context entry =
    if not (pools_ready q)
    then (false, q, m)
    else if is_none packet_data
        || packet_size == 0
        || ltb packet_size_limit packet_size
        || is_none release_func
    then (false, q, m)
    else elim entry [
      | none ↦ (false, q, m)
      | some e ↦
          let filled = record cleared {
            packet_data = packet_data;
            packet_size = packet_size;
            release_func = release_func;
            release_context = release_context;
          } in
          let (pushed, q', m') = push_back q (write_entry m e filled) e in
          if pushed then (true, q', m') else (false, q', free_entry m' e)
    ]

pub dequeue : SendPacketQueue → Memory → Option Ptr × SendPacketQueue × Memory
dequeue q m = elim q.head [
  | none ↦ (none, q, m)
  | some e ↦
      let rest = (m.entries e).next in
      (
        some e,
        record q { head = rest; tail = if is_none rest then none else q.tail; count = q.count - 1 },
        link m e none,
      )
]

release_packet : SendPacketQueue → Memory → SendPacketEntry → Memory
release_packet q m e = elim e.packet_data [
  | none ↦ m
  | some packet ↦ elim e.release_func [
    | some f ↦ record m { released = m.released ++ by_func f packet e.release_context ∷ [] }
    | none ↦
        if q.packet_pool && q.general_pool
        then record m { released = m.released ++ to_pool packet ∷ [] }
        else record m { violations = m.violations + 1 }
  ]
]

unfoldable pub release_entry : SendPacketQueue → Memory → Option Ptr → Memory
unfolding release_packet
release_entry q m none = m
release_entry q m (some p) =
    let m1 = write_entry (release_packet q m (m.entries p)) p cleared in
    if q.entry_pool then free_entry m1 p else record m1 { violations = m1.violations + 1 }

-- `while (chain)`: `none` where the fuel runs out.
pub release_chain : ℕ → SendPacketQueue → Memory → Option Ptr → Option Memory
release_chain fuel q m none = some m
release_chain zero q m (some p) = none
release_chain (suc fuel) q m (some p) =
    release_chain fuel q (release_entry q m (some p)) (m.entries p).next

-- The list is taken off first and given back then. One round for each entry, and `count` entries.
unfoldable pub reset : SendPacketQueue → Memory → Option Memory × SendPacketQueue
reset q m =
    let emptied = record q { head = none; tail = none; count = 0 } in
    (release_chain q.count emptied m q.head, emptied)

unfoldable pub finalize : SendPacketQueue → Memory → Option Memory × SendPacketQueue
unfolding reset
finalize q m = (
  (reset q m).0,
  record {
    head = none;
    tail = none;
    count = 0;
    max_count = 0;
    entry_pool = false;
    packet_pool = false;
    general_pool = false;
  },
)

unfoldable pub initialize :
    SendPacketQueue → Memory → Bool → Bool → Bool → ℕ → Bool × Option Memory × SendPacketQueue
unfolding finalize
initialize q m entry_pool packet_pool general_pool max_count =
    if not (entry_pool && (packet_pool && general_pool))
    then (false, some m, q)
    else if max_count == 0
    then (false, some (record m { violations = m.violations + 1 }), q)
    else (
      true,
      (finalize q m).0,
      record (finalize q m).1 {
        entry_pool = entry_pool;
        packet_pool = packet_pool;
        general_pool = general_pool;
        max_count = max_count;
      },
    )

abbrev pub is_empty : SendPacketQueue → Bool
is_empty q = q.count == 0
