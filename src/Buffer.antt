-- ===== src/Buffer.antt =====
-- usbd-storage/src/buffer.rs: the IO buffer of the transport, a byte queue that is shifted to the
-- front of its storage when the room behind it runs short.
mod Defs
mod Closures
pub mod Contents
pub mod Reading
pub mod Writing
pub mod Filling
pub use Defs.{Buffer}
unfoldable pub use Defs.{
  new, clear, available_read, available_write, shift, make_room, write, fill_up_to, copy_to_front,
  copy_from_slice,
}
unfoldable pub use Closures.{Closure, write_all, read}
