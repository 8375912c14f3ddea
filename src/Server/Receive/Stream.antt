-- ===== src/Server/Receive/Stream.antt =====
-- The receive loop of Core/IOCPServer.cpp against the byte stream: what it does depends on the bytes in
-- the ring and not on where they lie, and it stops for a reason.
use iocpnetwork_engine.Prelude.{
  ℕ, zero, suc, ◌≤◌, ◌<◌, ◌≡◌, refl, sym, subst, ap, Bool, true, false, List, arith, length, ◌==◌,
  if◌then◌else◌, if_split, inl, inr, ◌⊎◌,
}
use iocpnetwork_engine.Buffer.RecvPacketBuffer.{
  RecvPacketBuffer, PacketReadResult, ok, need_more_data, invalid, out_of_memory, ReadOutcome,
  read_packet, is_empty,
}
use iocpnetwork_engine.Buffer.RecvPacketBuffer.Inv.{IsValid}
use iocpnetwork_engine.Buffer.RecvPacketBuffer.Refine.{contents, length-contents}
use iocpnetwork_engine.Buffer.RecvPacketBuffer.Framing.{
  Reading, incomplete, frame, read_frame, read_packet_refines, read_packet-Told, Told,
}
use iocpnetwork_engine.Server.SystemPacket.{Surroundings}
use iocpnetwork_engine.Server.Receive.{RecvState, Rounds, act, dispatch, read_loop}

-- The loop over a list of bytes.
abbrev pub serve : ℕ → ℕ → Rounds → ℕ → List ℕ → RecvState → List ℕ × RecvState
serve zero max_packet rounds n bytes st = (bytes, st)
serve (suc fuel) max_packet rounds n bytes st =
    let r : Reading = read_frame max_packet (rounds.granted n) bytes in
    let (go_on, next) = act (rounds.around n) st r.result r.packet_id r.packet in
    let rest : List ℕ × RecvState = serve fuel max_packet rounds (suc n) r.rest next in
    if length bytes == 0 then (bytes, st) else if go_on then rest else (r.rest, next)

abbrev pub Same : RecvPacketBuffer × RecvState → List ℕ × RecvState → Type 0
Same r t = IsValid r.0 × (contents r.0 ≡ t.0) × (r.1 ≡ t.1)

Same-either :
    {b b' : Bool} {x y : RecvPacketBuffer × RecvState} {x' y' : List ℕ × RecvState}
    → b ≡ b'
    → Same x x'
    → Same y y'
    → Same (if b then x else y) (if b' then x' else y')
Same-either {b = true} {b' = true} e p q = p
Same-either {b = true} {b' = false} e p q = absurd (ground (arith, e))
Same-either {b = false} {b' = true} e p q = absurd (ground (arith, e))
Same-either {b = false} {b' = false} e p q = q

Told-max :
    (b : RecvPacketBuffer) (r : ReadOutcome) (x : PacketReadResult)
    → Told b r x
    → r.after.max_packet_size ≡ b.max_packet_size
Told-max b r ok t = t.1
Told-max b r need_more_data t = ap (λ (c : RecvPacketBuffer). c.max_packet_size) t.0
Told-max b r invalid t = ap (λ (c : RecvPacketBuffer). c.max_packet_size) t
Told-max b r out_of_memory t = ap (λ (c : RecvPacketBuffer). c.max_packet_size) t

-- The loop over a valid ring does what the loop over its bytes does: the same packets reach the same
-- handlers in the same order, the same bytes stay, and the ring is valid after.
pub read_loop_refines :
    (fuel : ℕ) (rounds : Rounds) (n : ℕ) (b : RecvPacketBuffer) (st : RecvState)
    → IsValid b
    → Same (read_loop fuel rounds n b st) (serve fuel b.max_packet_size rounds n (contents b) st)
read_loop_refines zero rounds n b st v = (v, refl, refl)
read_loop_refines (suc fuel) rounds n b st v =
    let r : ReadOutcome = read_packet b (rounds.granted n) in
    let (kept, e) = read_packet_refines (rounds.granted n) v in
    let next : Bool × RecvState = act (rounds.around n) st r.result r.packet_id r.packet in
    subst
      (λ (q : Reading). Same (read_loop (suc fuel) rounds n b st) (
        let a = act (rounds.around n) st q.result q.packet_id q.packet in
        if length (contents b) == 0
        then (contents b, st)
        else if a.0
        then serve fuel b.max_packet_size rounds (suc n) q.rest a.1
        else (q.rest, a.1)))
      e
      (Same-either {b = is_empty b} {b' = length (contents b) == 0}
        (ground (arith, length-contents b)) (v, refl, refl)
        (Same-either {b = next.0} {b' = next.0} refl
          (subst
            (λ m.
              Same (read_loop fuel rounds (suc n) r.after next.1)
                (serve fuel m rounds (suc n) (contents r.after) next.1))
            (Told-max b r r.result (read_packet-Told (rounds.granted n) v))
            (read_loop_refines fuel rounds (suc n) r.after next.1 kept))
          (kept, refl, refl)))

-- Why the loop stopped: the session is to be released, or the bytes left do not make a packet yet.
abbrev pub Ended : RecvPacketBuffer × RecvState → Type 0
Ended r = (r.1.release ≡ true) ⊎ (frame r.0.max_packet_size (contents r.0) ≡ incomplete)

frame-empty :
    (b : RecvPacketBuffer) → b.stored_size ≡ 0 → frame b.max_packet_size (contents b) ≡ incomplete
unfolding frame
frame-empty b e = ground (arith, length-contents b, e)

dispatch-stops :
    (w : Surroundings) (st : RecvState) (packet_id : ℕ) (packet : List ℕ)
    → (dispatch w st packet_id packet).0 ≡ false
    → (dispatch w st packet_id packet).1.release ≡ true
unfolding dispatch
dispatch-stops w st packet_id packet h = ground arith

-- The loop with one round for each byte stored never runs out of rounds: when it stops, the session is
-- to be released or no whole packet is left.
pub read_loop_ends :
    (fuel : ℕ) (rounds : Rounds) (n : ℕ) (b : RecvPacketBuffer) (st : RecvState)
    → IsValid b
    → b.stored_size ≤ fuel
    → Ended (read_loop fuel rounds n b st)
read_loop_ends zero rounds n b st v enough = inr (frame-empty b (omega arith))
read_loop_ends (suc fuel) rounds n b st v enough =
    let r : ReadOutcome = read_packet b (rounds.granted n) in
    let next : Bool × RecvState = act (rounds.around n) st r.result r.packet_id r.packet in
    if_split Ended (is_empty b) (λ e. inr (frame-empty b (ground (arith, e))))
      (λ some_left.
        after_read b r (rounds.around n) st (read_loop fuel rounds (suc n) r.after next.1) r.result
          (read_packet-Told (rounds.granted n) v)
          (λ less.
            read_loop_ends fuel rounds (suc n) r.after next.1
              (read_packet_refines (rounds.granted n) v).0 (omega (arith, less, enough))))
  where
    after_read :
        (b : RecvPacketBuffer) (r : ReadOutcome) (w : Surroundings) (st : RecvState)
        (rest : RecvPacketBuffer × RecvState) (x : PacketReadResult)
        → Told b r x
        → (r.after.stored_size < b.stored_size → Ended rest)
        → let a = act w st x r.packet_id r.packet in Ended (if a.0 then rest else (r.after, a.1))
    after_read b r w st rest ok t go =
        if_split Ended (dispatch w st r.packet_id r.packet).0 (λ e. go t.0)
          (λ e. inl (dispatch-stops w st r.packet_id r.packet e))
    after_read b r w st rest need_more_data t go = inr (
        subst (λ (c : RecvPacketBuffer). frame c.max_packet_size (contents c) ≡ incomplete)
          (sym t.0) t.1)
    after_read b r w st rest invalid t go = inl refl
    after_read b r w st rest out_of_memory t go = inl refl
