-- ===== src/Server.antt =====
-- The parts of Core/IOCPServer.cpp that decide what a session may send.
pub mod SystemPacket
pub mod Receive
pub mod SubmitJob
