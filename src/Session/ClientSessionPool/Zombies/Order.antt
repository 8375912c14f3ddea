-- ===== src/Session/ClientSessionPool/Zombies/Order.antt =====
-- What a pass of `DisconnectZombieSessions` does to the pool and to its sessions within its budget.
use iocpnetwork_engine.Prelude.{
  ℕ, zero, suc, ◌+◌, ◌-◌, ◌<◌, ◌≡◌, Bool, false, not, ◌&&◌, ◌||◌, List, [], ◌∷◌, ◌++◌, length, leb,
  ltb, ◌==◌, if◌then◌else◌,
}
use iocpnetwork_engine.Protocol.{DisconnectReason}
use iocpnetwork_engine.Server.SystemPacket.{is_unknown}
use iocpnetwork_engine.Session.SessionJobQueue.{is_server}
use iocpnetwork_engine.Session.ClientSession.{
  is_transport_connected, get_last_active_tick, mark_heartbeat_timeout,
}
use iocpnetwork_engine.Session.ClientSessionPool.{ClientSessionPool, release}
use iocpnetwork_engine.Session.ClientSessionPool.Zombies.{Slot, Pass, State, has_pending_send}

-- The session has been active, and not within the last `timeout` milliseconds.
abbrev pub is_silent : Pass → Slot → ℕ → Bool
is_silent a s timeout =
    let active : ℕ = get_last_active_tick s.session in
    ltb 0 active && leb (active + timeout) a.now_tick

-- A session that a pass may give up: a connected server session with its socket, silent for the
-- heartbeat timeout, and for that of a stalled peer too where sends to it still wait.
abbrev pub is_dead : Pass → Slot → Bool
is_dead a s =
    is_transport_connected s.session
    && (is_server s.session.session_role
        && (not s.socket_invalid
            && (is_silent a s a.heartbeat_timeout_ms
                && (not (has_pending_send s) || is_silent a s a.stalled_peer_timeout_ms))))

-- The numbers of the dead among the `n` sessions from `i` on.
abbrev pub dead : Pass → (ℕ → Slot) → ℕ → ℕ → List ℕ
dead a slots zero i = []
dead a slots (suc n) i =
    if is_dead a (slots i) then i ∷ dead a slots n (suc i) else dead a slots n (suc i)

-- `xs` is the beginning of `ys`.
abbrev pub IsPrefix : List ℕ → List ℕ → Type 0
IsPrefix xs ys = (rest : List ℕ) × (xs ++ rest ≡ ys)

abbrev pub among : ℕ → List ℕ → Bool
among j [] = false
among j (i ∷ is) = (j == i) || among j is

-- A session given up: one that did not read is a stalled peer, another has timed out. An earlier reason
-- stays.
abbrev pub given_up : Slot → Slot
given_up s = record s {
  session = mark_heartbeat_timeout s.session;
  disconnect_reason =
      if not (is_unknown s.disconnect_reason)
      then s.disconnect_reason
      else if has_pending_send s
      then DisconnectReason.stalled_peer
      else DisconnectReason.heartbeat_timeout;
}

-- The pool after `Release` of the sessions, one after the other.
abbrev pub released : Pass → ClientSessionPool → List ℕ → ClientSessionPool
released a pool [] = pool
released a pool (i ∷ is) = released a (release pool i (a.requested i)) is

-- What rounds owe from the state `st` on that should give up the sessions `target`.
pub record Passed (a : Pass) (st : State) (target : List ℕ) (r : State) : Type 0 where
  pub gone : List ℕ
  pub in_order : IsPrefix gone target
  pub in_pool : r.pool ≡ released a st.pool gone
  pub in_slots : (j : ℕ) → r.slots j ≡ (if among j gone then given_up (st.slots j) else st.slots j)
  pub counted : r.disconnected_count ≡ st.disconnected_count + length gone
  pub progress : 0 < length target → 0 < st.disconnected_count + length gone
  pub complete : ((j : ℕ) → a.clock j - a.pass_begin_tick < a.release_budget_ms) → gone ≡ target
