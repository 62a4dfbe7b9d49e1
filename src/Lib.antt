-- ===== src/Lib.antt =====
-- The usbd-storage crate, a USB mass storage device in Rust without an operating system: an IO buffer,
-- the Bulk Only Transport over it, and the SCSI and UFI subclasses over the transport.
--
-- A host sends a Command Block Wrapper (CBW), then data in one of the two directions, and reads a
-- Command Status Wrapper (CSW). The transport is a state machine that `poll` drives: each call moves at
-- most one packet between the IO buffer and the bulk endpoints. Between two polls a subclass takes the
-- command block of the transport, parses it and hands it to the callback of the user, which reads or
-- writes data through the IO buffer and sets the status.
--
-- Which file models what:
--   Buffer            usbd-storage/src/buffer.rs. `Buffer.Defs` has the operations without a closure,
--                     `Buffer.Closures` has `write_all` and `read`; `contents` is the list of waiting
--                     bytes, between `rpos` and `wpos`. `make_room` is the shift that `write`,
--                     `write_all` and `fill_up_to` begin with.
--   Transport         usbd-storage/src/transport.rs: the trait `Transport`, `TransportError` and
--                     `CommandStatus`; and `UsbStack`, the part of the usb-device crate that is called.
--   Transport.Bbb     usbd-storage/src/transport/bbb.rs. `Types`, `Wrapper` (CBW and CSW), `Packets`,
--                     `States` (`enter_state_*`), `Copies` (closures), `Handlers` (`handle_*`, `poll`),
--                     `Api` (the public methods) and `Impl` (the trait). A method with `&mut self` is a
--                     function from the transport to an outcome and the transport after it, in which
--                     `bus` stands for everything behind the endpoints. The other files prove.
--   Subclass          usbd-storage/src/subclass.rs, and what the two subclasses have word for word in
--                     common; `Subclass.Command` has the methods of `Command`. The callback is a program
--                     over what it captures and the class, given the kind of the command and the
--                     LUN.
--   Subclass.Scsi     usbd-storage/src/subclass/scsi.rs, with the feature `extended_addressing` as a
--                     Boolean argument of the parser.
--   Subclass.Ufi      usbd-storage/src/subclass/ufi.rs, its geometry functions among it.
--   Examples          examples/stm32/src/bin/stm32f411x_scsi_bbb.rs, stm32f411x_ufi_bbb.rs beside it, and
--                     examples/rp2040/src/bin/rp2040_scsi_bbb.rs: what these programs keep in static
--                     variables, and the callback `process_command`. `Firmware`, `ScsiData` and `Scsi`
--                     have what they share word for word; `Stm32Scsi`, `Rp2040Scsi` and `Stm32Ufi` the
--                     rest. `Written` is about any `Write` arm that takes waiting bytes to a disk, which
--                     `Stm32Written` and `Rp2040Written` fill in. The other files prove.
--   Prelude, Bytes    shared names, lists, outcomes, and the conversions of bytes.
--   Tests             a bus of queues, and the theorems at concrete inputs.
--
-- An outcome is a value, an error, a panic, or a lack of fuel. A failed assertion (a `debug_assert`
-- also), an index or slice out of range, a division by 0 and a subtraction below 0 panic. An error keeps
-- the state that it was met in. Bytes and integers are natural numbers; `as u32` of a length is
-- `% 2 ^ 32`, `saturating_sub` is the subtraction of the natural numbers. A `usize` is taken to have 32
-- bits at least, and the storage of the buffer to have fewer than 2 ^ 32 bytes. In `poll` the handlers
-- call one another and, over `handle_status_transfer`, themselves: the calls of that handler are counted
-- by fuel, of which `poll` gives 1; `Transport.Bbb.Depth` compares it with any other.
--
-- The usb-device crate is the parameter `UsbStack`, and the hypothesis `IsLawful` what it documents: a
-- write takes no more bytes than it is given, a read fills no more than it is given and a slice keeps
-- its length, and an endpoint has the packet size that it was allocated for.
--
-- Four more hypotheses are about many polls: `IsLog`, that there is a list of the bytes which the
-- bulk IN endpoint has taken, to which writes alone add; `HasPackets`, that no endpoint has packets
-- of 0 bytes; for what is delivered in the end, `IsReady`, that a write of some bytes takes one at
-- least, as where the host keeps reading; and `IsIntake`, that there is a list of the bytes which
-- the bulk OUT endpoint has handed over, to which a read adds what it fills in. `owed`, in
-- `Transport.Bbb.Flow`, is what each state of the transport has still to send.
--
-- The loops of the firmware are counted by fuel: each turn of the loop that sends the filler but the
-- last writes a byte at least, so that one more than the space is enough; each turn of the loop of
-- the RP2040 program but the last takes a byte at least, so that one more than the bytes that wait
-- is enough. A product or sum of the firmware that leaves 32 bits panics, as in a build with
-- overflow checks; `program_block`, which adds an address below 2 ^ 24 to a place in the file system, is
-- the one sum without that test.
--
-- The image `FAT` and the flash memory of the RP2040 are parameters; `IsFlash` is what the rp2040-flash
-- crate documents of whole sectors, and where memory.x places the file system.
--
-- Not modelled: the logging macros of usbd-storage/src/fmt.rs, which change no state; the string indices
-- of descriptors, which are always `None`; the `main` of the examples, which sets up a board and loops
-- for ever; the tests of the crate and the build scripts.
pub mod Prelude
pub mod Bytes
pub mod Buffer
pub mod Transport
pub mod Subclass
pub mod Examples
mod Tests
