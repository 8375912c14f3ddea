-- ===== src/Session.antt =====
-- The parts of Session/: the release protocol, the job queue and the pool of client sessions.
pub mod ReleaseProtocol
pub mod SessionJobQueue
pub mod ClientSession
pub mod Sending
pub mod ClientSessionPool
pub mod Lifecycle
