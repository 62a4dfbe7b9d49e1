-- ===== src/Transport/Bbb/Handlers.antt =====
-- usbd-storage/src/transport/bbb.rs: the `handle_*` functions and `poll`.
-- `handle_status_transfer` calls `handle_read_cbw`, which leads back to it through the handlers of the
-- data transfer. Those take it as their argument `status_transfer`; the knot is tied on fuel.
use usbd_storage.Prelude.{
  ℕ, zero, suc, ◌-◌, ◌%◌, ◌^◌, min, Bool, true, false, not, ◌||◌, none, some, length, replicate,
  ltb, leb, ◌==◌, if◌then◌else◌,
}
use usbd_storage.Prelude.Outcome.{out_of_fuel, assert, slice}
use usbd_storage.Prelude.Proc.{Proc, ◌>>=◌, ◌>>◌, pure, get, lift, modify, fail_if, match_result}
use usbd_storage.Bytes.{starts_with}
use usbd_storage.Buffer.{read, available_read, clear, fill_up_to}
use usbd_storage.Transport.{UsbStack}
use usbd_storage.Transport.Bbb.Types.{
  BulkOnly, Method, State, command_transfer, command_transfer_invalid, data_transfer_no_data,
  status_transfer, data_transfer_to_host, data_transfer_to_host_ending, data_transfer_from_host,
  data_transfer_from_host_status_await, data_transfer_from_host_ending, data_transfer_status_await,
  CommandBlockWrapper, DataDirection, out, into, not_expected, InvalidCbwError, invalid_cbw,
  cbw_len, cbw_signature_le, fill_byte, matches,
}
use usbd_storage.Transport.Bbb.Copies.{cbw_closure}
use usbd_storage.Transport.Bbb.Wrapper.{from_le_bytes}
use usbd_storage.Transport.Bbb.Packets.{
  with_slice, packet_size, read_packet, write_packet, try_write_full_packet, mark_as_transferred,
  assert_buffer_len_not_exceeding,
}
use usbd_storage.Transport.Bbb.States.{
  enter_state_command_transfer, enter_state_status_transfer, enter_state_cbw_invalid,
  enter_state_data_transfer_no_data, enter_state_data_transfer_to_host,
  enter_state_data_transfer_status_await, enter_state_data_transfer_from_host_status_await,
  enter_state_data_transfer_to_host_ending, enter_state_data_transfer_from_host_ending,
  enter_state_data_transfer_from_host,
}

unfoldable pub has_status : {World Endpoint : Type 0} → BulkOnly World Endpoint → Bool
has_status t = elim t.cs [ none ↦ false | some s ↦ true ]

-- `assert_matches!(self.state, a)`
abbrev pub assert_state :
    {World Endpoint UsbError : Type 0} → State → Method World Endpoint UsbError (Unit {0})
assert_state a t = (assert (matches t.state a), t)

unfoldable pub try_parse_cbw :
    {World Endpoint : Type 0} → Proc (BulkOnly World Endpoint) InvalidCbwError CommandBlockWrapper
try_parse_cbw = do
  t ← get
  available ← lift (available_read t.buf)
  lift (assert (leb cbw_len available))
  (count, raw_cbw) ← with_slice (replicate cbw_len 0) (read cbw_closure)
  fail_if (not (starts_with raw_cbw cbw_signature_le)) invalid_cbw
  value ← lift (slice raw_cbw 4 (length raw_cbw))
  lift (from_le_bytes value)

module _ {World Endpoint UsbError : Type 0} (stack : UsbStack World Endpoint UsbError) where
  unfoldable pub handle_cbw_invalid : Method World Endpoint UsbError (Unit {0})
  handle_cbw_invalid = do
    assert_state command_transfer_invalid
    modify (λ t. record t { bus = stack.stall t.out_ep (stack.stall t.in_ep t.bus) })

  module _ (status_transfer : Method World Endpoint UsbError (Unit {0})) where
    unfoldable pub handle_data_transfer_status_await : Method World Endpoint UsbError (Unit {0})
    handle_data_transfer_status_await = do
      t ← get
      lift (
          assert (
            matches t.state data_transfer_status_await
            || matches t.state data_transfer_from_host_status_await))
      if has_status t then (do enter_state_status_transfer stack; status_transfer) else pure tt

    unfoldable pub handle_data_transfer_no_data : Method World Endpoint UsbError (Unit {0})
    handle_data_transfer_no_data = do
      assert_state data_transfer_no_data
      modify enter_state_data_transfer_status_await
      handle_data_transfer_status_await

    unfoldable pub handle_data_transfer_to_host_ending : Method World Endpoint UsbError (Unit {0})
    handle_data_transfer_to_host_ending = do
      assert_state data_transfer_to_host_ending
      assert_buffer_len_not_exceeding stack
      t ← get
      let has_to_send = min t.left_to_transfer (packet_size stack t)
      if has_to_send == 0 then (do enter_state_status_transfer stack; status_transfer) else (do
        available ← lift (available_read t.buf)
        if ltb available has_to_send
            then (do
              buf ← lift (fill_up_to fill_byte (has_to_send - available) t.buf)
              modify (λ t. record t { buf = buf }))
            else pure tt
        bytes_written ← write_packet stack
        modify (mark_as_transferred stack bytes_written))

    unfoldable pub handle_data_transfer_to_host : Method World Endpoint UsbError (Unit {0})
    handle_data_transfer_to_host = do
      assert_state data_transfer_to_host
      assert_buffer_len_not_exceeding stack
      t ← get
      if t.left_to_transfer == 0
          then (do modify enter_state_data_transfer_status_await; handle_data_transfer_status_await)
          else if has_status t
          then (do
            modify enter_state_data_transfer_to_host_ending
            handle_data_transfer_to_host_ending)
          else (do
            bytes_sent ←
                (if ltb t.left_to_transfer (packet_size stack t % 2 ^ 32)
                  then write_packet stack
                  else try_write_full_packet stack)
            modify (mark_as_transferred stack bytes_sent))

    unfoldable pub handle_data_transfer_from_host_ending : Method World Endpoint UsbError (Unit {0})
    handle_data_transfer_from_host_ending = do
      assert_state data_transfer_from_host_ending
      t ← get
      if ltb 0 t.left_to_transfer
          then (do
            modify (λ t. record t { buf = clear t.buf })
            bytes_read ← read_packet stack
            modify (mark_as_transferred stack bytes_read))
          else (do enter_state_status_transfer stack; status_transfer)

    unfoldable pub handle_data_transfer_from_host : Method World Endpoint UsbError (Unit {0})
    handle_data_transfer_from_host = do
      assert_state data_transfer_from_host
      t ← get
      if t.left_to_transfer == 0
          then (do
            modify enter_state_data_transfer_from_host_status_await
            handle_data_transfer_status_await)
          else if has_status t
          then (do
            modify enter_state_data_transfer_from_host_ending
            handle_data_transfer_from_host_ending)
          else (do bytes_read ← read_packet stack; modify (mark_as_transferred stack bytes_read))

    unfoldable pub enter_data_transfer : DataDirection → Method World Endpoint UsbError (Unit {0})
    enter_data_transfer out = do
      modify enter_state_data_transfer_from_host
      handle_data_transfer_from_host
    enter_data_transfer into = do
      modify enter_state_data_transfer_to_host
      handle_data_transfer_to_host
    enter_data_transfer not_expected = do
      modify enter_state_data_transfer_no_data
      handle_data_transfer_no_data

    unfoldable pub start_data_transfer :
        CommandBlockWrapper → Method World Endpoint UsbError (Unit {0})
    start_data_transfer cbw = do
      assert_state command_transfer
      modify
          (λ t. record t { cbw = cbw; left_to_transfer = cbw.data_transfer_len; buf = clear t.buf })
      enter_data_transfer cbw.direction

    unfoldable pub handle_read_cbw : Method World Endpoint UsbError (Unit {0})
    handle_read_cbw = do
      assert_state command_transfer
      bytes_read ← read_packet stack
      t ← get
      available ← lift (available_read t.buf)
      if leb cbw_len available
          then match_result try_parse_cbw start_data_transfer
              (do modify enter_state_cbw_invalid; handle_cbw_invalid)
          else pure tt

  unfoldable pub handle_status_transfer : ℕ → Method World Endpoint UsbError (Unit {0})
  handle_status_transfer zero = λ t. (out_of_fuel, t)
  handle_status_transfer (suc fuel) = do
    assert_state status_transfer
    t ← get
    available ← lift (available_read t.buf)
    if available == 0
        then (do
          modify (enter_state_command_transfer stack)
          handle_read_cbw (handle_status_transfer fuel))
        else (do bytes_written ← write_packet stack; pure tt)

  -- The `match` of `poll`, for a call chain through `handle_status_transfer` of at most `fuel` calls.
  unfoldable pub poll_state : ℕ → State → Method World Endpoint UsbError (Unit {0})
  poll_state fuel command_transfer = handle_read_cbw (handle_status_transfer fuel)
  poll_state fuel command_transfer_invalid = handle_cbw_invalid
  poll_state fuel data_transfer_no_data = handle_data_transfer_no_data (handle_status_transfer fuel)
  poll_state fuel data_transfer_to_host = handle_data_transfer_to_host (handle_status_transfer fuel)
  poll_state fuel data_transfer_to_host_ending =
      handle_data_transfer_to_host_ending (handle_status_transfer fuel)
  poll_state fuel data_transfer_from_host =
      handle_data_transfer_from_host (handle_status_transfer fuel)
  poll_state fuel data_transfer_from_host_ending =
      handle_data_transfer_from_host_ending (handle_status_transfer fuel)
  poll_state fuel status_transfer = handle_status_transfer fuel
  poll_state fuel data_transfer_from_host_status_await =
      handle_data_transfer_status_await (handle_status_transfer fuel)
  poll_state fuel data_transfer_status_await =
      handle_data_transfer_status_await (handle_status_transfer fuel)

  unfoldable pub poll_within : ℕ → Method World Endpoint UsbError (Unit {0})
  poll_within fuel = do t ← get; poll_state fuel t.state

  unfoldable pub poll : Method World Endpoint UsbError (Unit {0})
  poll = poll_within 1
