-- ===== src/Transport/Bbb/Stuck.antt =====
-- usbd-storage/src/transport/bbb.rs: the command transfer, where the buffer has no room for a packet.
use usbd_storage.Prelude.{◌-◌, ◌<◌, ◌≡◌, ap, ◌∙◌, length, arith}
use usbd_storage.Prelude.Outcome.{fail}
use usbd_storage.Buffer.{Buffer}
use usbd_storage.Buffer.Contents.{IsValid, contents, capacity}
use usbd_storage.Buffer.Writing.{SameBytes}
use usbd_storage.Buffer.Filling.{write_all_overflow}
use usbd_storage.Transport.{UsbStack, error}
use usbd_storage.Transport.Bbb.Types.{BulkOnly, Method, io_buffer_overflow, command_transfer}
use usbd_storage.Transport.Bbb.Packets.{packet_size, read_closure, read_packet}
use usbd_storage.Transport.Bbb.Handlers.{
  handle_read_cbw, handle_status_transfer, poll_state, poll_within, poll,
}
use usbd_storage.Transport.Bbb.ApiSafety.{with_buf}

module _ {World Endpoint UsbError : Type 0} (stack : UsbStack World Endpoint UsbError)
    (t : BulkOnly World Endpoint) where
  read_cbw_overflows :
      (status_transfer : Method World Endpoint UsbError (Unit {0}))
      → t.state ≡ command_transfer
      → IsValid t.buf
      → capacity t.buf - length (contents t.buf) < packet_size stack t
      → (b : Buffer) × (handle_read_cbw stack status_transfer t
          ≡ (fail (error io_buffer_overflow), with_buf stack t b))
        × SameBytes t.buf b
  unfolding handle_read_cbw read_packet
  read_cbw_overflows status_transfer h v full =
      let (b, run, kept) =
        write_all_overflow (packet_size stack t) (error io_buffer_overflow)
          (read_closure stack t.out_ep) t.buf t.bus v full in
      (b, ground (arith, h, run), kept)

  -- In the command transfer, with a valid buffer that has less room than a packet, consumed bytes
  -- counted in, `poll` returns `IoBufferOverflow`, and leaves a valid buffer of the same capacity
  -- with the same waiting bytes. Nothing else changes, so the next poll does the same.
  pub poll_overflows :
      t.state ≡ command_transfer
      → IsValid t.buf
      → capacity t.buf - length (contents t.buf) < packet_size stack t
      → (b : Buffer) × (poll stack t ≡ (fail (error io_buffer_overflow), with_buf stack t b))
        × SameBytes t.buf b
  unfolding poll poll_within
  poll_overflows h v full =
      let (b, run, kept) = read_cbw_overflows (handle_status_transfer stack 1) h v full in
      (b, ap (λ x. poll_state stack 1 x t) h ∙ unfold poll_state in run, kept)
