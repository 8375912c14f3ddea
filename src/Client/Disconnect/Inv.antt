-- ===== src/Client/Disconnect/Inv.antt =====
-- What holds of the connection of Core/IOCPClient.cpp between the handlers, and inside them.
use iocpnetwork_engine.Prelude.{
  ℕ, suc, ◌+◌, ◌≡◌, ◌≤◌, Bool, true, false, not, ◌&&◌, List, [], ◌∷◌, ◌==◌, if◌then◌else◌, arith,
  if_split,
}
use iocpnetwork_engine.Client.Disconnect.{
  Callback, on_client_connect, on_client_disconnect, on_connect_failed, on_send, Connection,
  decrement_io, complete_disconnect, release_unposted_io, CancelAnswer, cancelled, not_found,
  failed, cancel_pending_io, request_release, on_disconnect_request, cancel_for_disconnect,
}

abbrev pub bit : Bool → ℕ
bit b = if b then 1 else 0

-- How often the service heard of a connection, and of its end.
abbrev pub starts : List Callback → ℕ
starts [] = 0
starts (on_client_connect ∷ cs) = suc (starts cs)
starts (on_client_disconnect r ∷ cs) = starts cs
starts (on_connect_failed n ∷ cs) = starts cs
starts (on_send n ∷ cs) = starts cs

abbrev pub ends : List Callback → ℕ
ends [] = 0
ends (on_client_connect ∷ cs) = ends cs
ends (on_client_disconnect r ∷ cs) = suc (ends cs)
ends (on_connect_failed n ∷ cs) = ends cs
ends (on_send n ∷ cs) = ends cs

-- Not asked to disconnect, on the way, and over.
abbrev pub phase_ok : Connection → Bool
phase_ok c =
    if not c.disconnecting
    then not c.release_pending && (not c.closing && (c.socket_open && not c.cancel_io))
    else if c.closing
    then not c.release_pending
      && (not c.socket_open && (not c.connect_notified && (c.cancel_io && (c.io_count == 0))))
    else c.release_pending && (c.socket_open && (c.cancel_io && not (c.io_count == 0)))

-- `h` is the count that the running handlers hold, `k` is 1 where the handler of a receive, or of the
-- connect, has not set up the next receive yet.
pub record Inv (h k : ℕ) (c : Connection) : Type 0 where
  pub counted : c.io_count ≡ c.connects + c.receives + c.sends + bit c.recv_paused + h
  pub one : c.connects + c.receives + bit c.recv_paused + k ≤ 1
  pub paired : starts c.calls ≡ ends c.calls + bit c.connect_notified
  pub once : c.connects + starts c.calls ≤ 1
  pub phase : phase_ok c ≡ true

pub decrement_io-Inv : {h k : ℕ} {c : Connection} → Inv (suc h) k c → Inv h k (decrement_io c)
unfolding decrement_io complete_disconnect
decrement_io-Inv {h} {k} {c} v =
    let n = v.counted in
    let p = v.phase in
    let q = v.paired in
    let o = v.once in
    let w = v.one in
    record {
      counted = ground arith;
      one = ground arith;
      paired = ground arith;
      once = ground arith;
      phase = ground arith;
    }

-- Between the exchange of `m_disconnecting` and the reservation of the release.
record Between (h k : ℕ) (c : Connection) : Type 0 where
  counted : c.io_count ≡ c.connects + c.receives + c.sends + bit c.recv_paused + h
  one : c.connects + c.receives + bit c.recv_paused + k ≤ 1
  paired : starts c.calls ≡ ends c.calls + bit c.connect_notified
  once : c.connects + starts c.calls ≤ 1
  flags :
      (c.disconnecting ≡ true)
      × (c.cancel_io ≡ true)
      × (c.release_pending ≡ false)
      × (c.closing ≡ false)
      × (c.socket_open ≡ true)

cancel_for_disconnect-Between :
    {h k : ℕ} {c : Connection} (answer : CancelAnswer)
    → Inv h k c
    → c.disconnecting ≡ false
    → Between h k (cancel_for_disconnect answer (record c { disconnecting = true }))
unfolding cancel_pending_io release_unposted_io decrement_io complete_disconnect
cancel_for_disconnect-Between {h} {k} {c} cancelled v e =
    let n = v.counted in
    let p = v.phase in
    let q = v.paired in
    let o = v.once in
    let w = v.one in
    record {
      counted = ground arith;
      one = ground arith;
      paired = ground arith;
      once = ground arith;
      flags = (ground arith, ground arith, ground arith, ground arith, ground arith);
    }
cancel_for_disconnect-Between {h} {k} {c} not_found v e =
    let n = v.counted in
    let p = v.phase in
    let q = v.paired in
    let o = v.once in
    let w = v.one in
    record {
      counted = ground arith;
      one = ground arith;
      paired = ground arith;
      once = ground arith;
      flags = (ground arith, ground arith, ground arith, ground arith, ground arith);
    }
cancel_for_disconnect-Between {h} {k} {c} failed v e =
    let n = v.counted in
    let p = v.phase in
    let q = v.paired in
    let o = v.once in
    let w = v.one in
    record {
      counted = ground arith;
      one = ground arith;
      paired = ground arith;
      once = ground arith;
      flags = (ground arith, ground arith, ground arith, ground arith, ground arith);
    }

reserved :
    {h k : ℕ} (c : Connection)
    → Between h k c
    → Inv h k (
        if (request_release c).0
        then complete_disconnect (request_release c).1
        else (request_release c).1)
unfolding request_release complete_disconnect
reserved {h} {k} c v =
    let n = v.counted in
    let p = v.flags in
    let q = v.paired in
    let o = v.once in
    let w = v.one in
    record {
      counted = ground arith;
      one = ground arith;
      paired = ground arith;
      once = ground arith;
      phase = ground arith;
    }

pub on_disconnect_request-Inv :
    {h k : ℕ} {c : Connection} (answer : CancelAnswer)
    → Inv h k c
    → Inv h k (on_disconnect_request answer c)
unfolding on_disconnect_request
on_disconnect_request-Inv {h} {k} {c} answer v =
    if_split (Inv h k) c.disconnecting (λ e. v)
      (λ e.
        reserved (cancel_for_disconnect answer (record c { disconnecting = true }))
          (cancel_for_disconnect-Between answer v e))
