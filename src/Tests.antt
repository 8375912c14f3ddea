-- ===== src/Tests.antt =====
-- The theorems applied to concrete states of the program.
mod Recv
mod Send
mod Jobs
mod Sessions
mod Blocks
mod Serving
mod Sending
mod Pauses
mod Lifecycle
mod Agreement
mod Liveness
mod Submit
mod Ending
mod Refusals
