-- ===== src/Transport/Bbb/Receiving.antt =====
-- usbd-storage/src/transport/bbb.rs: one poll of the transfer from the host, packet by packet.
use usbd_storage.Prelude.{
  ℕ, ◌-◌, ◌%◌, ◌^◌, ◌<◌, ◌≡◌, ◌≢◌, sym, subst, ap, ◌∙◌, inl, inr, none, List, ◌++◌, length, take,
  arith,
}
use usbd_storage.Prelude.Outcome.{Outcome, done, fail, ok, err}
use usbd_storage.Buffer.{Buffer}
use usbd_storage.Buffer.Contents.{contents, capacity}
use usbd_storage.Transport.{UsbStack, IsLawful, TransportError, usb, error}
use usbd_storage.Transport.Bbb.Types.{
  BulkOnly, BulkOnlyError, Method, data_transfer_from_host, io_buffer_overflow,
}
use usbd_storage.Transport.Bbb.Packets.{packet_size, mark_as_transferred}
use usbd_storage.Transport.Bbb.PacketCases.{received, not_received, read_packet-cases}
use usbd_storage.Transport.Bbb.Handlers.{
  has_status, handle_data_transfer_from_host, handle_status_transfer, poll_state, poll_within, poll,
}
use usbd_storage.Transport.Bbb.Invariant.{Base, Inv}
use usbd_storage.Transport.Bbb.HostSafety.{moved}

module _ {World Endpoint UsbError : Type 0} (stack : UsbStack World Endpoint UsbError)
    (law : IsLawful stack) where
  -- The ways in which a run that receives a packet ends. `given` is the slice of the buffer that the
  -- endpoint fills.
  pub data Receives (t : BulkOnly World Endpoint)
      (r : Outcome (TransportError UsbError BulkOnlyError) (Unit {0}) × BulkOnly World Endpoint)
      : Type 0 where
    arrived :
        (n : ℕ) (given bytes : List ℕ) (b : Buffer) (w : World)
        → length given ≡ packet_size stack t
        → stack.read t.out_ep given t.bus ≡ (ok n, bytes, w)
        → contents b ≡ contents t.buf ++ take n bytes
        → r ≡ (done tt, moved stack law t b w (t.left_to_transfer - n))
        → Receives t r
    refused :
        (e : UsbError) (given bytes : List ℕ) (b : Buffer) (w : World)
        → length given ≡ packet_size stack t
        → stack.read t.out_ep given t.bus ≡ (err e, bytes, w)
        → contents b ≡ contents t.buf
        → r ≡ (fail (usb e), moved stack law t b w t.left_to_transfer)
        → Receives t r
    full :
        (b : Buffer)
        → capacity t.buf - length (contents t.buf) < packet_size stack t
        → contents b ≡ contents t.buf
        → r ≡ (fail (error io_buffer_overflow), moved stack law t b t.bus t.left_to_transfer)
        → Receives t r

  handle-Receives :
      (k : Method World Endpoint UsbError (Unit {0})) (t : BulkOnly World Endpoint)
      → Base stack t
      → t.state ≡ data_transfer_from_host
      → t.cs ≡ none
      → t.left_to_transfer ≢ 0
      → Receives t (handle_data_transfer_from_host stack k t)
  unfolding handle_data_transfer_from_host has_status mark_as_transferred
  handle-Receives k t v h c p = elim (read_packet-cases stack law t v.buffer) [
    | received n bytes b w run hb hn added why ↦
        (let (given, ys, size, read, is) = why in
          arrived n given ys b w size read (added.holds ∙ ap (λ r. contents t.buf ++ r) is) (
            ground (arith, run)
            ∙ ap (λ j. (done tt, moved stack law t b w j)) {x = t.left_to_transfer - n % 2 ^ 32}
                {y = t.left_to_transfer - n} (omega (arith, hn, v.packet_fits, v.small))))
    | not_received x b w run kept why ↦ elim why [
      | inl why ↦
          (let (is, short, same) = why in full b short kept.same (ground (arith, run, is, same)))
      | inr why ↦
          (let (e, given, ys, size, is, read) = why in
            refused e given ys b w size read kept.same (ground (arith, run, is)))
    ]
  ]

  pub poll_is_handle :
      (t : BulkOnly World Endpoint)
      → t.state ≡ data_transfer_from_host
      → poll stack t ≡ handle_data_transfer_from_host stack (handle_status_transfer stack 1) t
  unfolding poll poll_within poll_state
  poll_is_handle t h = ap (λ x. poll_state stack 1 x t) h

  -- On a lawful stack, in the invariant and the state of the transfer from the host, with no
  -- status set and bytes left to transfer: `poll` gives the endpoint a slice of the length of a
  -- packet to fill. The bytes that arrive follow those that wait, and their number is subtracted
  -- from the count of bytes left, which stops at 0. An error of the endpoint is returned and keeps
  -- both. Where the buffer has no room for a packet, `IoBufferOverflow` is returned, and both
  -- stay.
  pub poll-Receives :
      (t : BulkOnly World Endpoint)
      → Inv stack t
      → t.state ≡ data_transfer_from_host
      → t.cs ≡ none
      → t.left_to_transfer ≢ 0
      → Receives t (poll stack t)
  poll-Receives t v h c p =
      subst (Receives t) (sym (poll_is_handle t h))
        (handle-Receives (handle_status_transfer stack 1) t v.base h c p)
