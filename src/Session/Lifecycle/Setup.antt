-- ===== src/Session/Lifecycle/Setup.antt =====
-- `InitializeMemoryPool` of Session/ClientSession.cpp: when the buffers of a session come up.
use iocpnetwork_engine.Prelude.{
  ℕ, ◌<◌, ◌≡◌, ◌↔◌, refl, ap, Bool, true, false, Option, none, some, List, arith, Bool-cases, inl,
  inr, ◌&&◌,
}
use iocpnetwork_engine.Prelude.Bits.{is_power_of_two}
use iocpnetwork_engine.Buffer.RecvPacketBuffer
use iocpnetwork_engine.Buffer.RecvPacketBuffer.{RecvPacketBuffer, header_size, packet_size_limit}
use iocpnetwork_engine.Buffer.RecvPacketBuffer.Inv.{Accepts, initialize_accepted}
use iocpnetwork_engine.Buffer.SendPacketQueue
use iocpnetwork_engine.Buffer.SendPacketQueue.{SendPacketQueue}
use iocpnetwork_engine.Buffer.SessionBufferConfig.{SessionBufferConfig, is_valid}
use iocpnetwork_engine.Buffer.SendPacketQueue.Reset.{finalize_nothing}
use iocpnetwork_engine.Session.SessionJobQueue.Reset.{reset_nothing}
use iocpnetwork_engine.Session.Lifecycle.{
  Session, Store, Pools, initialize_memory_pool, release_memory_resources, new_send_queue,
  new_job_queue,
}

abbrev pub has_storage : Option (List ℕ) → Bool
has_storage none = false
has_storage (some bytes) = true

-- A valid configuration asks the ring and the queue for nothing that they refuse.
is_valid-Accepts :
    (c : SessionBufferConfig)
    → is_valid c ≡ true
    → Accepts true c.recv_ring_size c.max_recv_packet_size × (0 < c.send_queue_depth)
unfolding is_valid
is_valid-Accepts c h = ground arith

ring_up :
    (c : SessionBufferConfig) (pool : Bool) (storage : Option (List ℕ))
    → is_valid c ≡ true
    → (RecvPacketBuffer.initialize RecvPacketBuffer.constructed pool c.recv_ring_size
        c.max_recv_packet_size storage).0
      ≡ (pool && has_storage storage)
unfolding RecvPacketBuffer.initialize is_power_of_two
ring_up c false storage h = refl
ring_up c true none h = let a = (is_valid-Accepts c h).0 in ground (arith, a, a.two_power)
ring_up c true (some bytes) h =
    ap (λ r. r.0)
      (initialize_accepted RecvPacketBuffer.constructed true c.recv_ring_size c.max_recv_packet_size
        bytes (is_valid-Accepts c h).0)

sends_up :
    (m : SendPacketQueue.Memory) (a b c : Bool) (depth : ℕ)
    → 0 < depth
    → (SendPacketQueue.initialize new_send_queue m a b c depth).0 ≡ (a && (b && c))
unfolding SendPacketQueue.initialize
sends_up m a b c depth h = ground arith

-- The buffers of a session come up exactly when the configuration is valid, the three pools are there
-- that are needed, and there is memory for the ring: `IsValid` of the configuration lets nothing
-- through that the ring or the send queue would refuse.
pub initialize_memory_pool_iff :
    (s : Session) (m : Store) (p : Pools) (config : SessionBufferConfig)
    → ((initialize_memory_pool s m p config).0 ≡ true) ↔ (
        (is_valid config ≡ true)
        × (p.send_queue_pool ≡ true)
        × (p.packet_pool ≡ true)
        × (p.general_pool ≡ true)
        × (has_storage p.storage ≡ true))
unfolding initialize_memory_pool
initialize_memory_pool_iff s m p config = elim (Bool-cases (is_valid config)) [
  | inl e ↦ ground (
    arith,
    e,
    ring_up config p.packet_pool p.storage e,
    sends_up m.entries p.send_queue_pool p.packet_pool p.general_pool config.send_queue_depth
        (is_valid-Accepts config e).1,
  )
  | inr e ↦ ground (arith, e)
]

-- A session without buffers that does not get them all keeps none of them, and the stores are as they
-- were.
pub initialize_memory_pool_fails :
    (s : Session) (m : Store) (p : Pools) (config : SessionBufferConfig)
    → s.send_packet_queue ≡ none
    → s.job_queue ≡ none
    → s.recv_packet_buffer ≡ none
    → (initialize_memory_pool s m p config).0 ≡ false
    → let r = initialize_memory_pool s m p config in
      (r.1 ≡ some m)
      × (r.2.send_packet_queue ≡ none)
      × (r.2.job_queue ≡ none)
      × (r.2.recv_packet_buffer ≡ none)
unfolding initialize_memory_pool release_memory_resources SendPacketQueue.initialize
initialize_memory_pool_fails s m p config a b c h = ground (
  arith,
  a,
  b,
  c,
  h,
  is_valid-Accepts config,
  reset_nothing (new_job_queue s.client_session.session_role) m.jobs refl,
  finalize_nothing new_send_queue m.entries refl,
)
