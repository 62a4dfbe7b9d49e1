-- ===== src/Transport/Bbb/States.antt =====
-- usbd-storage/src/transport/bbb.rs: the `enter_state_*` functions.
use usbd_storage.Prelude.{none}
use usbd_storage.Prelude.Proc.{◌>>=◌, get, lift, modify}
use usbd_storage.Prelude.Outcome.{or_panic}
use usbd_storage.Buffer.{clear, write}
use usbd_storage.Transport.{UsbStack}
use usbd_storage.Transport.Bbb.Types.{
  BulkOnly, Method, command_transfer, command_transfer_invalid, data_transfer_no_data,
  status_transfer, data_transfer_to_host, data_transfer_to_host_ending, data_transfer_from_host,
  data_transfer_from_host_status_await, data_transfer_from_host_ending, data_transfer_status_await,
}
use usbd_storage.Transport.Bbb.Wrapper.{build_csw}

module _ {World Endpoint UsbError : Type 0} (stack : UsbStack World Endpoint UsbError) where
  unfoldable pub enter_state_command_transfer : BulkOnly World Endpoint → BulkOnly World Endpoint
  enter_state_command_transfer t = record t {
    cs = none;
    left_to_transfer = 0;
    bus = stack.unstall t.out_ep (stack.unstall t.in_ep t.bus);
    buf = clear t.buf;
    state = command_transfer;
  }

  unfoldable pub enter_state_status_transfer : Method World Endpoint UsbError (Unit {0})
  enter_state_status_transfer = do
    t ← get
    csw ← lift (or_panic (build_csw t.cbw t.cs))
    let cleared = clear t.buf
    (count, buf) ← lift (write csw cleared)
    modify (λ t. record t { buf = buf; state = status_transfer })

module _ {World Endpoint : Type 0} where
  unfoldable pub enter_state_cbw_invalid : BulkOnly World Endpoint → BulkOnly World Endpoint
  enter_state_cbw_invalid t = record t { state = command_transfer_invalid }

  unfoldable pub enter_state_data_transfer_no_data :
      BulkOnly World Endpoint → BulkOnly World Endpoint
  enter_state_data_transfer_no_data t = record t { state = data_transfer_no_data }

  unfoldable pub enter_state_data_transfer_to_host :
      BulkOnly World Endpoint → BulkOnly World Endpoint
  enter_state_data_transfer_to_host t = record t { state = data_transfer_to_host }

  unfoldable pub enter_state_data_transfer_status_await :
      BulkOnly World Endpoint → BulkOnly World Endpoint
  enter_state_data_transfer_status_await t = record t { state = data_transfer_status_await }

  unfoldable pub enter_state_data_transfer_from_host_status_await :
      BulkOnly World Endpoint → BulkOnly World Endpoint
  enter_state_data_transfer_from_host_status_await t = record t {
    state = data_transfer_from_host_status_await;
  }

  unfoldable pub enter_state_data_transfer_to_host_ending :
      BulkOnly World Endpoint → BulkOnly World Endpoint
  enter_state_data_transfer_to_host_ending t = record t { state = data_transfer_to_host_ending }

  unfoldable pub enter_state_data_transfer_from_host_ending :
      BulkOnly World Endpoint → BulkOnly World Endpoint
  enter_state_data_transfer_from_host_ending t = record t { state = data_transfer_from_host_ending }

  unfoldable pub enter_state_data_transfer_from_host :
      BulkOnly World Endpoint → BulkOnly World Endpoint
  enter_state_data_transfer_from_host t = record t { state = data_transfer_from_host }
