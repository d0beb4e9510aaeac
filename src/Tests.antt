-- ===== src/Tests.antt =====
-- Runs of the model and uses of its theorems at concrete inputs.
mod Buffers
mod Channels
mod Handles
mod Loops
mod Packets
mod Services
mod Calls
mod Clients
mod Remote
mod Streams
mod Waiting
mod Serving
mod Zk
mod Tasks
mod Registered
mod Nets
mod Lives
mod Stores
