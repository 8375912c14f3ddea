-- ===== src/Client/Disconnect.antt =====
-- The end of the one connection of Core/IOCPClient.cpp: `OnDisconnectRequest`, `CompleteDisconnect`, the
-- posting of receives and sends, and what they use of
-- Session/BaseSession.cpp. Each handler is one step here; Session/ReleaseProtocol is about their
-- atomic operations. What the system, the socket options and the receive loop decide is an answer.
pub mod Inv
use iocpnetwork_engine.Prelude.{
  ℕ, zero, suc, ◌+◌, ◌-◌, Bool, true, false, not, ◌&&◌, ◌||◌, Option, none, some, List, [], ◌∷◌,
  ◌==◌, if◌then◌else◌,
}
use iocpnetwork_engine.Protocol.{
  DisconnectReason, unknown, local_shutdown, peer_closed, socket_error, connect_failed,
  resource_exhausted,
}
use iocpnetwork_engine.Server.SystemPacket.{is_unknown}
use iocpnetwork_engine.Session.ClientSession.{
  ClientSessionState, connecting, connected, auth_pending, connect_aborted, disconnected,
}

-- What the service hears.
pub data Callback : Type 0 where
  on_client_connect : Callback
  on_client_disconnect : DisconnectReason → Callback
  on_connect_failed on_send : ℕ → Callback

-- `connects`, `receives` and `sends` are the I/Os that the system still has; the calls are the newest
-- first.
pub record Connection : Type 0 where
  pub io_count : ℕ
  pub cancel_io : Bool
  pub release_pending : Bool
  pub disconnecting : Bool
  pub closing : Bool
  pub socket_open : Bool
  pub recv_paused : Bool
  pub connect_notified : Bool
  pub state : ClientSessionState
  pub disconnect_reason : DisconnectReason
  pub violations : ℕ
  pub calls : List Callback
  pub connects : ℕ
  pub receives : ℕ
  pub sends : ℕ

abbrev pub violated : Connection → Connection
violated c = record c { violations = c.violations + 1 }

abbrev pub note_disconnect_reason : Connection → DisconnectReason → Connection
note_disconnect_reason c reason =
    if is_unknown c.disconnect_reason then record c { disconnect_reason = reason } else c

-- `OnDisconnect`.
abbrev pub on_disconnect : Connection → Connection
on_disconnect c = if c.closing then c else record c { closing = true; state = disconnected }

-- The latch is exchanged for 0, and the service is told if it was 1.
abbrev pub tell_disconnect : Connection → Connection
tell_disconnect c =
    if c.connect_notified
    then record c {
      connect_notified = false;
      calls = on_client_disconnect c.disconnect_reason ∷ c.calls;
    }
    else c

unfoldable pub complete_disconnect : Connection → Connection
complete_disconnect c = on_disconnect (tell_disconnect (record c { socket_open = false }))

-- A count of 0 would go below it, which the code reports as a violation.
unfoldable pub decrement_io : Connection → Connection
unfolding complete_disconnect
decrement_io c =
    let d = record c { io_count = c.io_count - 1 } in
    if c.io_count == 0
    then violated c
    else if (c.io_count == 1) && c.release_pending
    then complete_disconnect (record d { release_pending = false })
    else d

unfoldable pub begin_io : Connection → Bool × Connection
unfolding decrement_io
begin_io c =
    let d = record c { io_count = c.io_count + 1 } in
    if c.cancel_io then (false, decrement_io d) else (true, d)

pub release_unposted_io : Connection → Connection
unfolding decrement_io
release_unposted_io c = if c.recv_paused then decrement_io (record c { recv_paused = false }) else c

-- What `CancelIoEx` says: done, no I/O found, or another error.
pub data CancelAnswer : Type 0 where
  cancelled not_found failed : CancelAnswer

abbrev pub after_cancel : CancelAnswer → Connection → Bool × Connection
after_cancel cancelled c = (true, release_unposted_io c)
after_cancel not_found c = (true, c)
after_cancel failed c = (false, c)

-- Where no I/O is found the function returns before its last line.
pub cancel_pending_io : CancelAnswer → Connection → Bool × Connection
unfolding release_unposted_io
cancel_pending_io answer c =
    if c.socket_open && not c.cancel_io
    then after_cancel answer (record c { cancel_io = true })
    else (true, release_unposted_io c)

-- Whether the caller carries the release out.
pub request_release : Connection → Bool × Connection
request_release c =
    if c.io_count == 0
    then (true, record c { release_pending = false })
    else (false, record c { release_pending = true })

abbrev pub cancel_for_disconnect : CancelAnswer → Connection → Connection
cancel_for_disconnect answer c =
    let r = cancel_pending_io answer c in
    if c.socket_open then (if r.0 then r.1 else violated r.1) else c

unfoldable pub on_disconnect_request : CancelAnswer → Connection → Connection
unfolding cancel_pending_io request_release complete_disconnect
on_disconnect_request answer c =
    let r = request_release (cancel_for_disconnect answer (record c { disconnecting = true })) in
    if c.disconnecting then c else if r.0 then complete_disconnect r.1 else r.1

-- What the system says to `WSARecv` and `WSASend`: it takes the I/O, it is short of resources or the
-- I/O is cancelled, or the connection is broken.
pub data PostAnswer : Type 0 where
  accepted short : PostAnswer
  broken : CancelAnswer → PostAnswer

-- `HandleSocketError` of the session.
unfoldable pub post_failed : CancelAnswer → Connection → Connection
unfolding on_disconnect_request decrement_io
post_failed answer c =
    decrement_io (on_disconnect_request answer (note_disconnect_reason c socket_error))

abbrev pub receive_posted : PostAnswer → Connection → Bool × Connection
receive_posted accepted c = (true, record c { receives = c.receives + 1 })
receive_posted short c = (false, decrement_io c)
receive_posted (broken answer) c = (false, post_failed answer c)

abbrev pub send_posted : PostAnswer → Connection → Bool × Connection
send_posted accepted c = (true, record c { sends = c.sends + 1 })
send_posted short c = (false, decrement_io c)
send_posted (broken answer) c = (false, post_failed answer c)

-- `PostReceive` as far as it counts; `none` where it returns before `BeginIO`, the ring being full or
-- the session not connected.
unfoldable pub post_receive : Option PostAnswer → Connection → Bool × Connection
unfolding begin_io decrement_io post_failed
post_receive none c = (false, c)
post_receive (some answer) c = let r = begin_io c in if r.0 then receive_posted answer r.1 else r

-- The same of `PostCurrentSend`.
unfoldable pub post_send : PostAnswer → Connection → Bool × Connection
unfolding begin_io decrement_io post_failed
post_send answer c = let r = begin_io c in if r.0 then send_posted answer r.1 else r

-- After `PostConnect`: one I/O is with the system.
abbrev pub posted : Connection
posted = record {
  io_count = 1;
  cancel_io = false;
  release_pending = false;
  disconnecting = false;
  closing = false;
  socket_open = true;
  recv_paused = false;
  connect_notified = false;
  state = connecting;
  disconnect_reason = unknown;
  violations = 0;
  calls = [];
  connects = 1;
  receives = 0;
  sends = 0;
}
