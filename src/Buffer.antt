-- ===== src/Buffer.antt =====
-- Buffer/ of the engine: the receive ring of a session and its send queue.
pub mod RecvPacketBuffer
pub mod SendPacketQueue
pub mod SessionBufferConfig
