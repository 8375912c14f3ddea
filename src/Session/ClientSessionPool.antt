-- ===== src/Session/ClientSessionPool.antt =====
-- Session/ClientSessionPool.cpp with the nodes of Session/SessionNode.h: the free list of sessions and
-- the state of each. A session is known by its id, the index of its node. What the pool asks of a
-- session is written to `calls`, the newest first.
pub mod Leases
pub mod Releases
pub mod Construct
pub mod Zombies
use iocpnetwork_engine.Prelude.{
  ℕ, zero, suc, ◌+◌, Bool, true, false, Option, none, some, List, [], ◌∷◌, leb, if◌then◌else◌,
}
use iocpnetwork_engine.Prelude.Chain.{update}

pub data SessionPoolState : Type 0 where
  free in_use releasing : SessionPoolState

pub record SessionNode : Type 0 where
  pub next_node : Option ℕ
  pub pool_state : SessionPoolState

pub data Call : Type 0 where
  cancel_pending_io close_socket notify_disconnect on_disconnect reset_session : ℕ → Call

-- `ready` is `m_ready`; `has_close` and `has_notify` say which callbacks are set; `connected` and
-- `connect_notified` are those two flags of each session.
pub record ClientSessionPool : Type 0 where
  pub capacity : ℕ
  pub nodes : ℕ → SessionNode
  pub free_list : Option ℕ
  pub ready : Bool
  pub has_close : Bool
  pub has_notify : Bool
  pub connected : ℕ → Bool
  pub connect_notified : ℕ → Bool
  pub calls : List Call

-- `InterlockedCompareExchange`, as far as its test.
abbrev pub is_state : SessionPoolState → SessionPoolState → Bool
is_state free free = true
is_state in_use in_use = true
is_state releasing releasing = true
is_state _ _ = false

abbrev pub set_state : ClientSessionPool → ℕ → SessionPoolState → ClientSessionPool
set_state p i s = record p { nodes = update p.nodes i (record (p.nodes i) { pool_state = s }) }

-- The loop of the constructor, `i` rounds of it. `fits` says which sessions could be initialized.
abbrev pub fill : ClientSessionPool → (ℕ → Bool) → ℕ → Bool × ClientSessionPool
fill p fits zero = (true, p)
fill p fits (suc i) =
    let (fine, q) = fill p fits i in
    if fine
    then if fits i
      then (
        true,
        record q {
          nodes = update q.nodes i (record (q.nodes i) { next_node = q.free_list });
          free_list = some i;
        },
      )
      else (false, q)
    else (false, q)

abbrev pub unfilled : ℕ → ClientSessionPool
unfilled capacity = record {
  capacity = capacity;
  nodes = λ i. record { next_node = none; pool_state = free };
  free_list = none;
  ready = false;
  has_close = false;
  has_notify = false;
  connected = λ i. false;
  connect_notified = λ i. false;
  calls = [];
}

unfoldable pub construct : (ℕ → Bool) → ℕ → ClientSessionPool
construct fits capacity =
    let (fine, p) = fill (unfilled capacity) fits capacity in
    if fine then record p { ready = true } else p

unfoldable pub acquire : ClientSessionPool → Option ℕ × ClientSessionPool
acquire p = lease p p.free_list
  where
    lease : ClientSessionPool → Option ℕ → Option ℕ × ClientSessionPool
    lease p none = (none, p)
    lease p (some i) =
        let q : ClientSessionPool = record p {
          free_list = (p.nodes i).next_node;
          nodes = update p.nodes i (record (p.nodes i) { next_node = none });
        } in
        if is_state (p.nodes i).pool_state free then (some i, set_state q i in_use) else (none, q)

pub notify_service_disconnect : ClientSessionPool → ℕ → ClientSessionPool
notify_service_disconnect p i =
    if p.has_notify
    then if p.connect_notified i
      then record p {
        connect_notified = update p.connect_notified i false;
        calls = notify_disconnect i ∷ p.calls;
      }
      else p
    else p

pub complete_release : ClientSessionPool → ℕ → ClientSessionPool
complete_release p i =
    if leb p.capacity i
    then p
    else let a : ClientSessionPool =
        if p.has_close then record p { calls = close_socket i ∷ p.calls } else p in
      let b : ClientSessionPool = notify_service_disconnect a i in
      record b {
        calls = reset_session i ∷ (on_disconnect i ∷ b.calls);
        nodes = update b.nodes i (record { next_node = b.free_list; pool_state = free });
        free_list = some i;
      }

-- `requested` is the answer of `RequestRelease`: whether no I/O of the session is outstanding.
pub release : ClientSessionPool → ℕ → Bool → ClientSessionPool
release p i requested =
    if leb p.capacity i
    then p
    else if is_state (p.nodes i).pool_state in_use
    then (if requested
        then complete_release (cancelled (set_state p i releasing)) i
        else cancelled (set_state p i releasing))
    else p
  where
    cancelled : ClientSessionPool → ClientSessionPool
    cancelled a = if a.connected i then record a { calls = cancel_pending_io i ∷ a.calls } else a

pub is_session_full : ClientSessionPool → Bool
is_session_full p = elim p.free_list [ none ↦ true | some i ↦ false ]

abbrev pub busy : (ℕ → SessionNode) → ℕ → ℕ
busy nodes zero = 0
busy nodes (suc i) = (if is_state (nodes i).pool_state free then 0 else 1) + busy nodes i

pub get_in_use_count : ClientSessionPool → ℕ
get_in_use_count p = busy p.nodes p.capacity
