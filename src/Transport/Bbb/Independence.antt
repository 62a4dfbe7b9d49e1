-- ===== src/Transport/Bbb/Independence.antt =====
-- usbd-storage/src/transport/bbb.rs: the handlers of the data transfer where no status is set,
-- whichever function stands for `handle_status_transfer`.
use usbd_storage.Prelude.{◌≡◌, none, arith}
use usbd_storage.Transport.{UsbStack}
use usbd_storage.Transport.Bbb.Types.{BulkOnly, Method, DataDirection, out, into, not_expected}
use usbd_storage.Transport.Bbb.Packets.{assert_buffer_len_not_exceeding}
use usbd_storage.Transport.Bbb.States.{
  enter_state_data_transfer_status_await, enter_state_data_transfer_from_host_status_await,
  enter_state_data_transfer_from_host, enter_state_data_transfer_to_host,
  enter_state_data_transfer_no_data,
}
use usbd_storage.Transport.Bbb.Handlers.{
  has_status, handle_data_transfer_status_await, handle_data_transfer_from_host,
  handle_data_transfer_to_host, handle_data_transfer_no_data, enter_data_transfer,
}

module _ {World Endpoint UsbError : Type 0} (stack : UsbStack World Endpoint UsbError)
    (k k' : Method World Endpoint UsbError (Unit {0})) where
  await-any :
      (t : BulkOnly World Endpoint)
      → t.cs ≡ none
      → handle_data_transfer_status_await stack k t ≡ handle_data_transfer_status_await stack k' t
  unfolding handle_data_transfer_status_await has_status
  await-any t c = ground arith

  from_host-any :
      (t : BulkOnly World Endpoint)
      → t.cs ≡ none
      → handle_data_transfer_from_host stack k t ≡ handle_data_transfer_from_host stack k' t
  unfolding handle_data_transfer_from_host has_status
      enter_state_data_transfer_from_host_status_await
  from_host-any t c =
      ground (arith, await-any (enter_state_data_transfer_from_host_status_await t) c)

  to_host-any :
      (t : BulkOnly World Endpoint)
      → t.cs ≡ none
      → handle_data_transfer_to_host stack k t ≡ handle_data_transfer_to_host stack k' t
  unfolding handle_data_transfer_to_host has_status enter_state_data_transfer_status_await
      assert_buffer_len_not_exceeding
  to_host-any t c = ground (arith, await-any (enter_state_data_transfer_status_await t) c)

  no_data-any :
      (t : BulkOnly World Endpoint)
      → t.cs ≡ none
      → handle_data_transfer_no_data stack k t ≡ handle_data_transfer_no_data stack k' t
  unfolding handle_data_transfer_no_data enter_state_data_transfer_status_await
  no_data-any t c = ground (arith, await-any (enter_state_data_transfer_status_await t) c)

  pub enter_data_transfer-any :
      (d : DataDirection) (t : BulkOnly World Endpoint)
      → t.cs ≡ none
      → enter_data_transfer stack k d t ≡ enter_data_transfer stack k' d t
  unfolding enter_data_transfer enter_state_data_transfer_from_host
      enter_state_data_transfer_to_host enter_state_data_transfer_no_data
  enter_data_transfer-any out t c = from_host-any (enter_state_data_transfer_from_host t) c
  enter_data_transfer-any into t c = to_host-any (enter_state_data_transfer_to_host t) c
  enter_data_transfer-any not_expected t c = no_data-any (enter_state_data_transfer_no_data t) c
