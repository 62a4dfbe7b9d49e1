-- ===== src/Transport/Bbb.antt =====
-- usbd-storage/src/transport/bbb.rs: the Bulk Only Transport.
pub mod Types
pub mod Wrapper
pub mod Packets
pub mod PacketCases
pub mod States
pub mod Copies
pub mod Handlers
pub mod Invariant
pub mod StatusSafety
pub mod HostSafety
pub mod ToHostSafety
pub mod Independence
pub mod ParseCases
pub mod CbwCases
pub mod ReadSafety
pub mod PollSafety
pub mod ApiSafety
pub mod TryWrite
pub mod Reach
pub mod Sending
pub mod CswSending
pub mod Receiving
pub mod Stuck
pub mod Depth
pub mod Intake
pub mod Queue
pub mod Impl
pub mod RoundTrip
pub mod Range
pub mod Flow
pub mod Api
pub mod Begun
pub mod Reassembly
pub mod CbwSent
