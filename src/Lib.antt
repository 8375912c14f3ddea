-- ===== src/Lib.antt =====
-- A model of the IOCP network engine, a C++ library that serves and makes TCP connections through I/O
-- completion ports on Windows: the buffers of a session, the protocol by which a session is given
-- back, the queues that carry its work, the memory below them, and the server's receive path.
--
-- How the parts interact. A receive fills the ring of a session (Buffer/RecvPacketBuffer.cpp), and the
-- completion handler of the server (Core/IOCPServer.cpp) cuts packets from it: system packets go to the
-- handshake, service packets become jobs in the queue of the session (Session/SessionJobQueue.cpp),
-- and the session goes to the ready ring (Scheduler/ReadySessionQueue.cpp) for a worker. Answers leave
-- through the send queue (Buffer/SendPacketQueue.cpp). Each I/O holds a count of the session; a
-- session to be released goes back to the pool (Session/ClientSessionPool.cpp) when the last count is
-- let go (Session/BaseSession.cpp). Packets, jobs and entries are blocks of the shared pool
-- (Memory/GlobalBlockPool.cpp), which each thread draws through a cache (Memory/ThreadBlockCache.cpp).
--
-- The files. Each file says in its first lines which code it is about, keeps the source's names in
-- snake case, and has child modules named for what they prove.
--   Prelude: names, tests and lemmas that the other files share; Prelude/Schedule threads that take
--     turns, Prelude/Pieces lists cut in two, Prelude/Chain linked lists in memory, Prelude/Window
--     memory read and written through an index, Prelude/Bits masks.
--   Buffer/RecvPacketBuffer: Buffer/RecvPacketBuffer.h and .cpp; in Framing the byte stream that the
--     ring stands for, in Wire packets as bytes.
--   Buffer/SessionBufferConfig: the file of that name.
--   Buffer/SendPacketQueue: Buffer/SendPacketQueue.cpp with Buffer/SendPacketEntry.h.
--   Session/ReleaseProtocol: `RequestRelease`, `DecrementIO` and `BeginIO` of Session/BaseSession.cpp.
--     Each interlocked operation is a step of its own, and any thread may make the next one.
--   Session/ClientSession: the states, checks and ticks of Session/ClientSession.cpp; in RejectLog
--     `ShouldLogSendReject`, as steps of several threads.
--   Session/Lifecycle: what a session owns, from `InitializeMemoryPool` over `ResetSession` to
--     `Finalize`.
--   Session/Sending: `EnqueueSendPacket`, `TrySendNext`, `PostCurrentSend`, `OnSendCompleted` and
--     `HandleSocketError` of the same file, as steps of several threads; Reached is about the token,
--     Bytes and Wire about the bytes.
--   Session/SessionJobQueue: Session/SessionJobQueue.cpp.
--   Session/ClientSessionPool: the leases of Session/ClientSessionPool.cpp; in Zombies
--     `DisconnectZombieSessions`.
--   Scheduler/Backpressure: `SubmitPacketJob`, `WorkerThreadLoop`, `PostReceiveOrPause`,
--     `ResumeReceive` and `ReleaseUnpostedIO` on one session, as steps of several threads.
--   Scheduler/ReadySessionQueue: Scheduler/ReadySessionQueue.cpp.
--   Memory/SizeBin: the constants of Memory/SizeBin.h; Memory/GlobalBlockPool and
--     Memory/ThreadBlockCache: the files of those names.
--   Protocol: the ids, answers and reasons of Protocol/PacketID.h, Protocol/SystemPacket.h and
--     Session/DisconnectReason.h.
--   Server/SystemPacket: `HandleSystemPacket` of Core/IOCPServer.cpp; Server/Receive: `HandleRecv`;
--     Server/SubmitJob: `SubmitPacketJob` of Core/IOCPServer.cpp and of Core/IOCPClient.cpp, with
--     HandlerTable/PacketHandlerTable.cpp.
--   Client/SystemPacket: `HandleSystemPacket` and `SendSystemAuthRequest` of Core/IOCPClient.cpp, and in
--     Agreement the handshake with the server's side of it; Client/Watchdog:
--     Core/ClientWatchdogThread.cpp; Client/Disconnect: `OnDisconnectRequest` and
--     `CompleteDisconnect` of Core/IOCPClient.cpp, with the I/O count of Session/BaseSession.cpp;
--     Client/Completion: the completion handlers of Core/IOCPClient.cpp.
--   Tests: the theorems applied to concrete states.
--
-- Bounds. Numbers are natural numbers; sums of `uint32_t` and `size_t` are written with their wrap
-- where the code can reach it. Loops take fuel: the receive loop one round for each byte stored, since
-- a packet has four bytes at least; `CarveAndPush` one for each block; `Flush` one for each block of
-- the list; the two `Reset` loops one for each element.
--
-- Not modelled: calls of the operating system and of the allocator, whose answers are arguments; the
-- text of log lines, of which only the violations are counted; waiting, where one look at a queue is
-- one call that may say that the caller sleeps. Of the functions under a lock each is one step. In
-- Scheduler/Backpressure and Session/Sending the lists of jobs and of packets are a number and a list,
-- since Session/SessionJobQueue and Buffer/SendPacketQueue are about their links; what the rest of the
-- session decides (room in a ring, an answer of the system) is an answer that a step may get. The
-- receive loop of the client, the accept path and the start and stop of threads are not
-- there yet.
pub mod Prelude
pub mod Buffer
pub mod Session
pub mod Memory
pub mod Protocol
pub mod Scheduler
pub mod Server
pub mod Client
pub mod Tests
