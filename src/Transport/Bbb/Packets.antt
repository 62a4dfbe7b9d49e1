-- ===== src/Transport/Bbb/Packets.antt =====
-- usbd-storage/src/transport/bbb.rs: one packet to or from the IO buffer, and the small helpers.
use usbd_storage.Prelude.{ℕ, ◌-◌, ◌%◌, ◌^◌, min, List, [], ◌∷◌, length, take, ltb, leb}
use usbd_storage.Prelude.Outcome.{Outcome, done, fail, panic, out_of_fuel, Result, ok, err, assert}
use usbd_storage.Prelude.Proc.{Proc, ◌>>=◌, ◌>>◌, pure, get, lift, fail_if, unwrap_or}
use usbd_storage.Buffer.{Buffer, Closure, write_all, read, available_read}
use usbd_storage.Transport.{TransportError, usb, error, UsbStack}
use usbd_storage.Transport.Bbb.Types.{
  BulkOnly, BulkOnlyError, Method, io_buffer_overflow, full_packet_expected,
}

-- A buffer operation whose closure acts on the bus, as an operation of the transport.
abbrev pub on_buf :
    {World Endpoint E A : Type 0} → Proc (Buffer × World) E A → Proc (BulkOnly World Endpoint) E A
on_buf p t = let (r, bw) = p (t.buf, t.bus) in let (b, w) = bw in (r, record t { buf = b; bus = w })

-- A byte count beside the slice that it was copied to.
abbrev pub beside : {E : Type 0} → List ℕ → Outcome E ℕ → Outcome E (ℕ × List ℕ)
beside bytes (done n) = done (n, bytes)
beside bytes (fail e) = fail e
beside bytes panic = panic
beside bytes out_of_fuel = out_of_fuel

-- A buffer operation whose closure captures a slice of the caller, and whose `unwrap_or(0)`.
abbrev pub with_slice :
    {World Endpoint E : Type 0}
    → List ℕ
    → Proc (Buffer × List ℕ) ⊥ ℕ
    → Proc (BulkOnly World Endpoint) E (ℕ × List ℕ)
with_slice dst p t =
    let (r, bs) = p (t.buf, dst) in
    let (b, dst') = bs in (beside dst' (unwrap_or 0 r), record t { buf = b })

abbrev pub from_usb :
    {UsbError : Type 0} → Result UsbError ℕ → Outcome (TransportError UsbError BulkOnlyError) ℕ
from_usb (ok n) = done n
from_usb (err e) = fail (usb e)

module _ {World Endpoint UsbError : Type 0} (stack : UsbStack World Endpoint UsbError) where
  -- same for both endpoints
  unfoldable pub packet_size : BulkOnly World Endpoint → ℕ
  packet_size t = stack.max_packet_size t.in_ep

  unfoldable pub read_closure : Endpoint → Closure World (TransportError UsbError BulkOnlyError)
  read_closure ep bytes w = let (r, bytes', w') = stack.read ep bytes w in (from_usb r, bytes', w')

  unfoldable pub read_packet : Method World Endpoint UsbError ℕ
  read_packet = do
    t ← get
    on_buf (write_all (packet_size t) (error io_buffer_overflow) (read_closure t.out_ep))

  unfoldable pub write_closure :
      Endpoint → ℕ → Closure World (TransportError UsbError BulkOnlyError)
  write_closure ep size [] w = (done 0, [], w)
  write_closure ep size (b ∷ bs) w =
      let bytes = b ∷ bs in
      let (r, w') = stack.write ep (take (min size (length bytes)) bytes) w in
      (from_usb r, bytes, w')

  unfoldable pub write_packet : Method World Endpoint UsbError ℕ
  write_packet = do t ← get; on_buf (read (write_closure t.in_ep (packet_size t)))

  unfoldable pub try_write_full_packet : Method World Endpoint UsbError ℕ
  try_write_full_packet = do
    t ← get
    available ← lift (available_read t.buf)
    fail_if (ltb available (packet_size t)) (error full_packet_expected)
    write_packet

  -- `as u32` of a byte count; `saturating_sub`
  unfoldable pub mark_as_transferred : ℕ → BulkOnly World Endpoint → BulkOnly World Endpoint
  mark_as_transferred by t = record t { left_to_transfer = t.left_to_transfer - by % 2 ^ 32 }

  unfoldable pub assert_buffer_len_not_exceeding : Method World Endpoint UsbError (Unit {0})
  assert_buffer_len_not_exceeding = do
    t ← get
    available ← lift (available_read t.buf)
    lift (assert (leb available t.left_to_transfer))

  unfoldable pub allowed_to_append_to_data_transfer : Method World Endpoint UsbError ℕ
  allowed_to_append_to_data_transfer = do
    t ← get
    available ← lift (available_read t.buf)
    pure (t.left_to_transfer - available % 2 ^ 32)
