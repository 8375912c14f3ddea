-- ===== src/Client/Completion/Posting.antt =====
-- Posting a receive or a send, and the fields that the invariant is not about, keep the connection of
-- Core/IOCPClient.cpp in step.
use iocpnetwork_engine.Prelude.{
  ℕ, suc, ◌≡◌, Bool, true, false, Option, none, some, ◌∷◌, arith, if_split,
}
use iocpnetwork_engine.Protocol.{DisconnectReason, socket_error}
use iocpnetwork_engine.Session.ClientSession.{ClientSessionState}
use iocpnetwork_engine.Client.Disconnect.{
  Connection, note_disconnect_reason, violated, decrement_io, begin_io, complete_disconnect,
  CancelAnswer, on_disconnect_request, post_receive, post_send, PostAnswer, accepted, short, broken,
  post_failed, receive_posted, send_posted, on_send, on_connect_failed,
}
use iocpnetwork_engine.Client.Disconnect.Inv.{Inv, decrement_io-Inv, on_disconnect_request-Inv}

-- The fields that the invariant is not about.
pub note_disconnect_reason-Inv :
    {h k : ℕ} {c : Connection} (reason : DisconnectReason)
    → Inv h k c
    → Inv h k (note_disconnect_reason c reason)
note_disconnect_reason-Inv {h} {k} {c} reason v =
    let n = v.counted in
    let p = v.phase in
    let q = v.paired in
    let o = v.once in
    let w = v.one in
    record {
      counted = ground arith;
      one = ground arith;
      paired = ground arith;
      once = ground arith;
      phase = ground arith;
    }

pub with_state :
    {h k : ℕ} {c : Connection} (state : ClientSessionState)
    → Inv h k c
    → Inv h k (record c { state = state })
with_state state v = record {
  counted = v.counted;
  one = v.one;
  paired = v.paired;
  once = v.once;
  phase = v.phase;
}

-- A callback that is neither of the two, and a violation.
pub with_failed :
    {h k : ℕ} {c : Connection} (code : ℕ)
    → Inv h k c
    → Inv h k (record c { calls = on_connect_failed code ∷ c.calls })
with_failed code v = record {
  counted = v.counted;
  one = v.one;
  paired = v.paired;
  once = v.once;
  phase = v.phase;
}

pub with_sent :
    {h k : ℕ} {c : Connection} (n : ℕ)
    → Inv h k c
    → Inv h k (record c { calls = on_send n ∷ c.calls })
with_sent n v = record {
  counted = v.counted;
  one = v.one;
  paired = v.paired;
  once = v.once;
  phase = v.phase;
}

pub violated-Inv : {h k : ℕ} {c : Connection} → Inv h k c → Inv h k (violated c)
violated-Inv v = record {
  counted = v.counted;
  one = v.one;
  paired = v.paired;
  once = v.once;
  phase = v.phase;
}

-- A turn that is not used.
pub turn_over : {h k : ℕ} {c : Connection} → Inv h k c → Inv h 0 c
turn_over v = record {
  counted = v.counted;
  one = ground (arith, v.one);
  paired = v.paired;
  once = v.once;
  phase = v.phase;
}

pub give_up :
    {h k : ℕ} {c : Connection} (reason : DisconnectReason) (answer : CancelAnswer)
    → Inv h k c
    → Inv h k (on_disconnect_request answer (note_disconnect_reason c reason))
give_up reason answer v = on_disconnect_request-Inv answer (note_disconnect_reason-Inv reason v)

-- An I/O that was begun has a count of its own.
pub begun :
    {h k : ℕ} (c : Connection) → Inv h k c → (begin_io c).0 ≡ true → Inv (suc h) k (begin_io c).1
unfolding begin_io decrement_io complete_disconnect
begun {h} {k} c v e =
    let n = v.counted in
    let p = v.phase in
    let q = v.paired in
    let o = v.once in
    let w = v.one in
    record {
      counted = ground arith;
      one = ground arith;
      paired = ground arith;
      once = ground arith;
      phase = ground arith;
    }

pub not_begun :
    {h k : ℕ} (c : Connection) → Inv h k c → (begin_io c).0 ≡ false → Inv h k (begin_io c).1
unfolding begin_io decrement_io complete_disconnect
not_begun {h} {k} c v e =
    let n = v.counted in
    let p = v.phase in
    let q = v.paired in
    let o = v.once in
    let w = v.one in
    record {
      counted = ground arith;
      one = ground arith;
      paired = ground arith;
      once = ground arith;
      phase = ground arith;
    }

post_failed-Inv :
    {h k : ℕ} {c : Connection} (answer : CancelAnswer)
    → Inv (suc h) k c
    → Inv h k (post_failed answer c)
unfolding post_failed
post_failed-Inv answer v = decrement_io-Inv (give_up socket_error answer v)

receive_posted-Inv :
    {h : ℕ} {c : Connection} (answer : PostAnswer)
    → Inv (suc h) 1 c
    → Inv h 0 (receive_posted answer c).1
receive_posted-Inv {h} {c} accepted v =
    let n = v.counted in
    let w = v.one in
    record {
      counted = ground arith;
      one = ground arith;
      paired = v.paired;
      once = v.once;
      phase = v.phase;
    }
receive_posted-Inv short v = turn_over (decrement_io-Inv v)
receive_posted-Inv (broken answer) v = turn_over (post_failed-Inv answer v)

send_posted-Inv :
    {h k : ℕ} {c : Connection} (answer : PostAnswer)
    → Inv (suc h) k c
    → Inv h k (send_posted answer c).1
send_posted-Inv {h} {k} {c} accepted v =
    let n = v.counted in
    record {
      counted = ground arith;
      one = v.one;
      paired = v.paired;
      once = v.once;
      phase = v.phase;
    }
send_posted-Inv short v = decrement_io-Inv v
send_posted-Inv (broken answer) v = post_failed-Inv answer v

pub post_receive-Inv :
    {h : ℕ} {c : Connection} (post : Option PostAnswer)
    → Inv h 1 c
    → Inv h 0 (post_receive post c).1
unfolding post_receive
post_receive-Inv none v = turn_over v
post_receive-Inv {h} {c} (some answer) v =
    if_split (λ (r : Bool × Connection). Inv h 0 r.1) (begin_io c).0
      (λ e. receive_posted-Inv answer (begun c v e)) (λ e. turn_over (not_begun c v e))

pub post_send-Inv :
    {h k : ℕ} {c : Connection} (answer : PostAnswer) → Inv h k c → Inv h k (post_send answer c).1
unfolding post_send
post_send-Inv {h} {k} {c} answer v =
    if_split (λ (r : Bool × Connection). Inv h k r.1) (begin_io c).0
      (λ e. send_posted-Inv answer (begun c v e)) (λ e. not_begun c v e)
