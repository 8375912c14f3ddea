-- ===== src/Client.antt =====
-- The client side of Core/: the packets of the engine, the receive loop, and the watch on a silent server.
pub mod Disconnect
pub mod Completion
pub mod SystemPacket
pub mod Watchdog
