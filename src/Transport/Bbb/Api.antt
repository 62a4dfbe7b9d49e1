-- ===== src/Transport/Bbb/Api.antt =====
-- usbd-storage/src/transport/bbb.rs: the public methods of the transport, and its `Transport` trait.
use usbd_storage.Prelude.{
  ℕ, ◌-◌, min, not, ◌&&◌, ◌||◌, Option, none, some, List, [], ◌∷◌, length, ltb, ◌==◌, if◌then◌else◌,
}
use usbd_storage.Prelude.Outcome
use usbd_storage.Prelude.Outcome.{Outcome, done, assert, slice, or_panic}
use usbd_storage.Prelude.Proc.{Proc, ◌>>=◌, ◌>>◌, pure, get, put, lift, fail_if}
use usbd_storage.Buffer
use usbd_storage.Buffer.{read, write, write_all}
use usbd_storage.Transport.{TransportError, error, CommandStatus, ControlRequest, UsbStack}
use usbd_storage.Transport.Bbb.Types.{
  BulkOnly, BulkOnlyError, Method, command_transfer, command_transfer_invalid,
  data_transfer_no_data, data_transfer_to_host, data_transfer_from_host,
  data_transfer_from_host_status_await, data_transfer_status_await, CommandBlock, default_cbw,
  cbw_len, matches, io_buffer_overflow, invalid_max_lun, invalid_state, buffer_too_small,
  transfer_length_exceeded, class_specific_bulk_only_mass_storage_reset, class_specific_get_max_lun,
}
use usbd_storage.Transport.Bbb.Copies.{read_data_closure, write_all_closure}
use usbd_storage.Transport.Bbb.Packets.{on_buf, with_slice, allowed_to_append_to_data_transfer}
use usbd_storage.Transport.Bbb.States.{enter_state_command_transfer}

module _ {World Endpoint UsbError : Type 0} (stack : UsbStack World Endpoint UsbError) where
  -- The state that `new` acts on is the bus, where it allocates the endpoints.
  unfoldable pub new : ℕ → ℕ → List ℕ → Proc World BulkOnlyError (BulkOnly World Endpoint)
  new packet_size max_lun buf = do
    fail_if (ltb 0x0F max_lun) invalid_max_lun
    let buf_len = length buf
    fail_if (ltb buf_len cbw_len || ltb buf_len packet_size) buffer_too_small
    w ← get
    (in_ep, w) ← lift (or_panic (stack.bulk packet_size w))
    (out_ep, w) ← lift (or_panic (stack.bulk packet_size w))
    put w
    pure (record {
      in_ep = in_ep;
      out_ep = out_ep;
      buf = Buffer.new buf;
      state = command_transfer;
      cbw = default_cbw;
      cs = none;
      max_lun = max_lun;
      left_to_transfer = 0;
      bus = w;
    })

  unfoldable pub set_status : CommandStatus → ℕ → Method World Endpoint UsbError (Unit {0})
  set_status status data_processed = do
    t ← get
    lift (
        assert (
          matches t.state data_transfer_to_host
          || (matches t.state data_transfer_from_host
              || (matches t.state data_transfer_no_data
                  || (matches t.state data_transfer_status_await
                      || matches t.state data_transfer_from_host_status_await)))))
    let data_residue = t.cbw.data_transfer_len - data_processed
    put (record t { cs = some (record { status = status; data_residue = data_residue }) })

  unfoldable pub get_command :
      BulkOnly World Endpoint
      → Outcome (TransportError UsbError BulkOnlyError) (Option CommandBlock)
  get_command t =
      if matches t.state command_transfer || matches t.state command_transfer_invalid
      then done none
      else block t.cbw.lun (slice t.cbw.block 0 t.cbw.block_len)
    where
      block :
          ℕ
          → Outcome (TransportError UsbError BulkOnlyError) (List ℕ)
          → Outcome (TransportError UsbError BulkOnlyError) (Option CommandBlock)
      block lun r = Outcome.◌>>=◌ r λ bytes. done (some (record { bytes = bytes; lun = lun }))

  -- The result is the byte count, and `dst` as the call leaves it.
  unfoldable pub read_data : List ℕ → Method World Endpoint UsbError (ℕ × List ℕ)
  read_data dst = do
    t ← get
    fail_if
        (not (
          matches t.state data_transfer_from_host
          || matches t.state data_transfer_from_host_status_await))
        (error invalid_state)
    with_slice dst (read read_data_closure)

  unfoldable pub write_data : List ℕ → Method World Endpoint UsbError ℕ
  write_data src = do
    t ← get
    fail_if (not (matches t.state data_transfer_to_host)) (error invalid_state)
    allowed_to_write ← allowed_to_append_to_data_transfer stack
    bytes ← lift (slice src 0 (min (length src) allowed_to_write))
    (count, buf) ← lift (write bytes t.buf)
    put (record t { buf = buf })
    pure count

  unfoldable pub try_write_data_all : List ℕ → Method World Endpoint UsbError (Unit {0})
  try_write_data_all src = do
    t ← get
    fail_if (not (matches t.state data_transfer_to_host)) (error invalid_state)
    allowed_to_write ← allowed_to_append_to_data_transfer stack
    fail_if (ltb allowed_to_write (length src)) (error transfer_length_exceeded)
    bytes_written ←
        on_buf (write_all (length src) (error io_buffer_overflow) (write_all_closure src))
    pure tt

  unfoldable pub reset : BulkOnly World Endpoint → BulkOnly World Endpoint
  reset t = enter_state_command_transfer stack t

  -- A refused answer to `Get Max Lun` is only logged.
  unfoldable pub control_in : ControlRequest → BulkOnly World Endpoint → BulkOnly World Endpoint
  control_in req t =
      if not (req.is_class && req.is_interface)
      then t
      else if req.request == class_specific_bulk_only_mass_storage_reset
      then enter_state_command_transfer stack t
      else if req.request == class_specific_get_max_lun
      then record t { bus = (stack.accept_with (t.max_lun ∷ []) t.bus).1 }
      else t
