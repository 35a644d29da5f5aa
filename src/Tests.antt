-- ===== src/Tests.antt =====
-- Tests of the definitions, and the theorems at concrete inputs.
pub mod Strings
pub mod Lines
pub mod Receiving
pub mod Queues
pub mod Packets
pub mod Requests
pub mod Responses
pub mod Dumps
pub mod Servers
pub mod Dialogues
pub mod Multiplexing
pub mod Terminals
pub mod Threads
pub mod Printing
pub mod Connecting
pub mod Certificates
pub mod Datagrams
pub mod Talks
pub mod Loads
