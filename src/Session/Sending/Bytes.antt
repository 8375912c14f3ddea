-- ===== src/Session/Sending/Bytes.antt =====
-- The bytes in the threads of Session/Sending: what is on the wire, and what is still to go there.
pub mod Moves
use iocpnetwork_engine.Prelude.{
  ℕ, zero, suc, ◌+◌, ◌≤◌, ◌<◌, ◌≡◌, ◌⊎◌, refl, Bool, true, false, Option, none, some, List, [], ◌∷◌,
  ◌++◌, length, arith, take, drop, ap, sym, ◌∙◌, append-nil, append_assoc, take-append-drop,
}
use iocpnetwork_engine.Prelude.Pieces.{
  concat, concat-append, concat_none, take-add, take_zero, take_all, take_none, drop_none,
}
use iocpnetwork_engine.Prelude.Schedule.{Pick, put_back, total, Pick-total, total-zero}
use iocpnetwork_engine.Session.Sending.{
  Answers, TryPc, acquire, take_next, give_back, recheck, PostPc, aim, look_cancel, begin, send,
  Then, stop, report, try_next, Thread, enqueueing, trying, posting, completed, clearing, freeing,
  reporting, System, Shared, bytes, step,
}
use iocpnetwork_engine.Session.Sending.Inv.{Inv, flag, has, owns, works, aims}
use iocpnetwork_engine.Session.Sending.Moves.{Picked}

-- How many bytes a completion reported that are not yet added to the offset.
abbrev pub amount : Thread → ℕ
amount (enqueueing packet) = 0
amount (trying pc) = 0
amount (posting pc) = 0
amount (completed n) = n
amount (clearing w) = 0
amount (freeing w) = 0
amount reporting = 0

-- 1 for a thread that has set the buffer of the send.
abbrev pub loads : Thread → ℕ
loads (enqueueing packet) = 0
loads (trying pc) = 0
loads (posting aim) = 0
loads (posting look_cancel) = 1
loads (posting begin) = 1
loads (posting send) = 1
loads (completed n) = 0
loads (clearing w) = 0
loads (freeing w) = 0
loads reporting = 0

-- 1 for a thread that found the whole packet sent.
abbrev pub ends : Thread → ℕ
ends (enqueueing packet) = 0
ends (trying pc) = 0
ends (posting pc) = 0
ends (completed n) = 0
ends (clearing stop) = 0
ends (clearing report) = 0
ends (clearing try_next) = 1
ends (freeing w) = 0
ends reporting = 0

works-zero_amount : (t : Thread) → works t ≡ 0 → amount t ≡ 0
works-zero_amount (enqueueing packet) e = refl
works-zero_amount (trying pc) e = refl
works-zero_amount (posting pc) e = refl
works-zero_amount (completed n) e = absurd (omega arith)
works-zero_amount (clearing w) e = refl
works-zero_amount (freeing w) e = refl
works-zero_amount reporting e = refl

works-zero_loads : (t : Thread) → works t ≡ 0 → loads t ≡ 0
works-zero_loads (enqueueing packet) e = refl
works-zero_loads (trying pc) e = refl
works-zero_loads (posting pc) e = absurd (omega arith)
works-zero_loads (completed n) e = refl
works-zero_loads (clearing w) e = refl
works-zero_loads (freeing w) e = refl
works-zero_loads reporting e = refl

works-zero_ends : (t : Thread) → works t ≡ 0 → ends t ≡ 0
works-zero_ends (enqueueing packet) e = refl
works-zero_ends (trying pc) e = refl
works-zero_ends (posting pc) e = refl
works-zero_ends (completed n) e = refl
works-zero_ends (clearing w) e = absurd (omega arith)
works-zero_ends (freeing w) e = refl
works-zero_ends reporting e = refl

-- Where no thread works on a packet, none has bytes to report, a buffer set, or a packet to end.
abbrev pub Quiet : List Thread → Type 0
Quiet ts = total works ts ≡ 0 → (total amount ts ≡ 0) × (total loads ts ≡ 0) × (total ends ts ≡ 0)

pub Quiet_lem : (ts : List Thread) → Quiet ts
Quiet_lem ts e = (
  total-zero amount works works-zero_amount ts e,
  total-zero loads works works-zero_loads ts e,
  total-zero ends works works-zero_ends ts e,
)

pub record Data (s : System) : Type 0 where
  pub on_wire :
      s.shared.dropped ≡ 0
      → s.shared.wire
        ≡ s.shared.sent
          ++ take
              (s.shared.send_offset + total amount s.threads)
              (bytes s.shared.current_send_packet)
  pub in_order :
      s.shared.dropped ≡ 0
      → s.shared.accepted
        ≡ s.shared.sent ++ (bytes s.shared.current_send_packet ++ concat s.shared.queue)
  pub loaded :
      0 < s.shared.posted + total loads s.threads
      → s.shared.outgoing ≡ drop s.shared.send_offset (bytes s.shared.current_send_packet)
  pub ended :
      0 < total ends s.threads → length (bytes s.shared.current_send_packet) ≤ s.shared.send_offset

-- The sums over those at work once a thread is taken out, as `Data` needs them.
pub record Rest (t : Thread) (ts us : List Thread) : Type 0 where
  pub picked : Picked t ts us
  pub amounts : total amount ts ≡ amount t + total amount us
  pub loading : total loads ts ≡ loads t + total loads us
  pub ending : total ends ts ≡ ends t + total ends us
