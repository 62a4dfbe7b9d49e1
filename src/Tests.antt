-- ===== src/Tests.antt =====
-- The tests, over a bus of their own: usbd-storage/src/buffer.rs, usbd-
-- storage/src/transport/bbb.rs, and the two subclasses of usbd-storage/src/subclass.
pub mod Bus
mod Polls
mod Firmware
mod Storing
mod Polling
mod Ring
mod Calls
mod Wire
mod Blocks
mod Cbw
