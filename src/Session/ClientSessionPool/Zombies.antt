-- ===== src/Session/ClientSessionPool/Zombies.antt =====
-- `DisconnectZombieSessions` of Session/ClientSessionPool.cpp, with `HasPendingSend` of
-- Session/ClientSession.cpp: which silent sessions one pass gives up, and in what order.
pub mod Order
use iocpnetwork_engine.Prelude.{
  ℕ, zero, suc, ◌+◌, ◌-◌, ◌≤◌, ◌<◌, ◌≡◌, ◌≢◌, refl, sym, subst, ap, ◌∙◌, Bool, true, false, not,
  ◌&&◌, ◌||◌, Option, none, some, List, [], ◌∷◌, ◌++◌, append-nil, append_assoc, leb, ltb, ◌==◌,
  if◌then◌else◌, arith, length, take, Bool-cases, inl, inr,
}
use iocpnetwork_engine.Prelude.Chain.{update}
use iocpnetwork_engine.Protocol
use iocpnetwork_engine.Protocol.{DisconnectReason}
use iocpnetwork_engine.Server.SystemPacket.{is_unknown}
use iocpnetwork_engine.Session.SessionJobQueue.{is_server}
use iocpnetwork_engine.Session.ClientSession.{
  ClientSession, is_transport_connected, is_heartbeat_timed_out, mark_heartbeat_timeout,
}
use iocpnetwork_engine.Session.ClientSessionPool.{ClientSessionPool, release}

-- A session of the pool as the pass sees it: `sending` is `m_sending`, `send_queue_empty` is the answer
-- of the send queue where there is one.
pub record Slot : Type 0 where
  pub session : ClientSession
  pub socket_invalid : Bool
  pub sending : Bool
  pub send_queue_empty : Option Bool
  pub disconnect_reason : DisconnectReason

abbrev pub has_pending_send : Slot → Bool
has_pending_send s =
    if s.sending then true else elim s.send_queue_empty [ none ↦ false | some e ↦ not e ]

-- The arguments, the clock at the start of the pass and at each session, and the answer of
-- `RequestRelease` for each session.
pub record Pass : Type 0 where
  pub now_tick : ℕ
  pub heartbeat_timeout_ms : ℕ
  pub stalled_peer_timeout_ms : ℕ
  pub release_budget_ms : ℕ
  pub pass_begin_tick : ℕ
  pub clock : ℕ → ℕ
  pub requested : ℕ → Bool

pub record State : Type 0 where
  pub pool : ClientSessionPool
  pub slots : ℕ → Slot
  pub disconnected_count : ℕ

abbrev pub stalled_timeout : Pass → ℕ
stalled_timeout a =
    if ltb a.stalled_peer_timeout_ms a.heartbeat_timeout_ms
    then a.heartbeat_timeout_ms
    else a.stalled_peer_timeout_ms

-- The tests of one round of the loop, up to the budget.
unfoldable pub is_zombie : Pass → Slot → Bool
is_zombie a s =
    if not (is_transport_connected s.session)
    then false
    else if not (is_server s.session.session_role)
    then false
    else if s.socket_invalid
    then false
    else if not (is_heartbeat_timed_out s.session a.now_tick a.heartbeat_timeout_ms)
    then false
    else not (
        has_pending_send s && not (is_heartbeat_timed_out s.session a.now_tick (stalled_timeout a)))

abbrev pub zombie_reason : Slot → DisconnectReason
zombie_reason s =
    if has_pending_send s then DisconnectReason.stalled_peer else DisconnectReason.heartbeat_timeout

abbrev pub note_reason : Slot → DisconnectReason → Slot
note_reason s reason =
    if is_unknown s.disconnect_reason then record s { disconnect_reason = reason } else s

-- The end of one round: the reason, the state, `Release`, the count.
unfoldable pub disconnect : Pass → ℕ → State → State
disconnect a i st =
    let s : Slot = st.slots i in
    let noted : Slot = note_reason s (zombie_reason s) in
    record st {
      pool = release st.pool i (a.requested i);
      slots = update st.slots i (record noted { session = mark_heartbeat_timeout noted.session });
      disconnected_count = st.disconnected_count + 1;
    }

-- The loop from session `i` on, over `n` sessions. One session is released whatever the budget is.
unfoldable pub pass_loop : Pass → ℕ → ℕ → State → State
pass_loop a zero i st = st
pass_loop a (suc n) i st =
    let zombie : Bool = is_zombie a (st.slots i) in
    let rest : State = pass_loop a n (suc i) (if zombie then disconnect a i st else st) in
    if zombie
      && (ltb 0 st.disconnected_count && leb a.release_budget_ms (a.clock i - a.pass_begin_tick))
    then st
    else rest

unfoldable pub disconnect_zombie_sessions : Pass → ClientSessionPool → (ℕ → Slot) → State
unfolding pass_loop
disconnect_zombie_sessions a pool slots =
    let st : State = record { pool = pool; slots = slots; disconnected_count = 0 } in
    if a.heartbeat_timeout_ms == 0 then st else pass_loop a pool.capacity 0 st
