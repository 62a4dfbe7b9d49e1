-- ===== src/Transport/Bbb/ReadSafety.antt =====
-- usbd-storage/src/transport/bbb.rs: the handler that reads the CBW, and the invariant.
use usbd_storage.Prelude.{◌≤◌, ◌≡◌, refl, ap, subst, none, [], length, arith}
use usbd_storage.Prelude.Outcome.{done, fail}
use usbd_storage.Buffer.{clear}
use usbd_storage.Buffer.Contents.{contents}
use usbd_storage.Transport.{UsbStack, IsLawful}
use usbd_storage.Transport.Bbb.Types.{
  BulkOnly, Method, command_transfer, command_transfer_invalid, data_transfer_no_data,
  data_transfer_to_host, data_transfer_from_host, CommandBlockWrapper, DataDirection, out, into,
  not_expected,
}
use usbd_storage.Transport.Bbb.Packets.{packet_size}
use usbd_storage.Transport.Bbb.CbwCases.{no_packet, too_few, invalid, accepted, read_cbw-cases}
use usbd_storage.Transport.Bbb.States.{
  enter_state_data_transfer_from_host, enter_state_data_transfer_to_host,
  enter_state_data_transfer_no_data,
}
use usbd_storage.Transport.Bbb.Handlers.{
  handle_cbw_invalid, enter_data_transfer, start_data_transfer, handle_read_cbw,
}
use usbd_storage.Transport.Bbb.ParseCases.{BlockFits}
use usbd_storage.Transport.Bbb.Invariant.{Base, Inv, in_any_state, InState}
use usbd_storage.Transport.Bbb.StatusSafety.{Safe, Safe-run, SafeStatus, no_data-Safe}
use usbd_storage.Transport.Bbb.HostSafety.{moved, moved-Base, moved-Inv, from_host-Safe}
use usbd_storage.Transport.Bbb.ToHostSafety.{to_host-Safe}
use usbd_storage.Transport.Bbb.Independence.{enter_data_transfer-any}

module _ {World Endpoint UsbError : Type 0} (stack : UsbStack World Endpoint UsbError)
    (law : IsLawful stack) where
  pub cbw_invalid-Safe :
      (t : BulkOnly World Endpoint)
      → Inv stack t
      → t.state ≡ command_transfer_invalid
      → Safe stack (handle_cbw_invalid stack) t
  unfolding handle_cbw_invalid
  cbw_invalid-Safe t v h =
      let w = stack.stall t.out_ep (stack.stall t.in_ep t.bus) in
      Safe-run stack (handle_cbw_invalid stack) t (done tt, record t { bus = w }) (ground arith)
        (moved-Inv stack law t t.buf w t.left_to_transfer _ v.base v.base.buffer refl h
          (subst (λ x. InState x t) h v.in_state))

  -- A stand-in for `handle_status_transfer`, where it is not called.
  abbrev idle : Method World Endpoint UsbError (Unit {0})
  idle t = (done tt, t)

  idle-SafeStatus : SafeStatus stack idle
  idle-SafeStatus t v h ne = v

  entered-Safe :
      (d : DataDirection) (t : BulkOnly World Endpoint)
      → Base stack t
      → 1 ≤ t.cbw.block_len
      → contents t.buf ≡ []
      → Safe stack (enter_data_transfer stack idle d) t
  unfolding enter_data_transfer enter_state_data_transfer_from_host
      enter_state_data_transfer_to_host enter_state_data_transfer_no_data
  entered-Safe out t v len empty =
      from_host-Safe stack law idle idle-SafeStatus (record t { state = data_transfer_from_host })
        (in_any_state stack t _ (λ _. len) v) refl
  entered-Safe into t v len empty =
      to_host-Safe stack law idle idle-SafeStatus (record t { state = data_transfer_to_host })
        (in_any_state stack t _ (λ _. len) v) refl (omega (arith, ap length empty))
  entered-Safe not_expected t v len empty =
      no_data-Safe stack idle idle-SafeStatus (record t { state = data_transfer_no_data })
        (record { base = in_any_state stack t _ (λ _. len) v; in_state = tt }) refl

  module _ (k : Method World Endpoint UsbError (Unit {0})) where
    enter_data_transfer-Safe :
        (d : DataDirection) (t : BulkOnly World Endpoint)
        → Base stack t
        → t.cs ≡ none
        → 1 ≤ t.cbw.block_len
        → contents t.buf ≡ []
        → Safe stack (enter_data_transfer stack k d) t
    enter_data_transfer-Safe d t v c len empty =
        Safe-run stack (enter_data_transfer stack k d) t (enter_data_transfer stack idle d t)
          (enter_data_transfer-any stack k idle d t c) (entered-Safe d t v len empty)

    -- The command of a CBW that was read begins its data transfer with an empty buffer.
    start_data_transfer-Safe :
        (cbw : CommandBlockWrapper) (t : BulkOnly World Endpoint)
        → Base stack t
        → t.state ≡ command_transfer
        → t.cs ≡ none
        → BlockFits cbw
        → Safe stack (start_data_transfer stack k cbw) t
    unfolding start_data_transfer clear packet_size
    start_data_transfer-Safe cbw t v h c fits =
        let t' = record t {
          cbw = cbw;
          left_to_transfer = cbw.data_transfer_len;
          buf = record t.buf { rpos = 0; wpos = 0 };
        } in
        Safe-run stack (start_data_transfer stack k cbw) t
          (enter_data_transfer stack k cbw.direction t') (ground arith)
          (enter_data_transfer-Safe cbw.direction t'
            (record {
              buffer = omega arith;
              cbw_fits = v.cbw_fits;
              packet_fits = v.packet_fits;
              small = v.small;
              block_fits = fits.within;
              block_some = λ _. fits.some_bytes;
            })
            c fits.some_bytes refl)

    -- Whatever the host sends, and however often the read fails.
    pub read_cbw-Safe :
        (t : BulkOnly World Endpoint)
        → Inv stack t
        → t.state ≡ command_transfer
        → Safe stack (handle_read_cbw stack k) t
    read_cbw-Safe t v h =
        let (c, none_left) = subst (λ x. InState x t) h v.in_state in
        let handle = handle_read_cbw stack k in
        let left = t.left_to_transfer in
        elim (read_cbw-cases stack law t v.base.buffer h) [
          | no_packet x b w run why vb room kept ↦
              Safe-run stack handle t (fail x, moved stack law t b w left) (run k)
                (moved-Inv stack law t b w left _ v.base vb room h (c, none_left))
          | too_few n bytes b w run why vb room holds few ↦
              Safe-run stack handle t (done tt, moved stack law t b w left) (run k)
                (moved-Inv stack law t b w left _ v.base vb room h (c, none_left))
          | invalid n bytes b w run why vb room enough parse ↦
              (let t' = record t { buf = b; bus = w; state = command_transfer_invalid } in
                let base = moved-Base stack law t b w left v.base vb room in
                Safe-run stack handle t (handle_cbw_invalid stack t') (run k) (
                  cbw_invalid-Safe t'
                    (record {
                      base = in_any_state stack (moved stack law t b w left) _ (λ c. absurd c) base;
                      in_state = c;
                    })
                    refl))
          | accepted n bytes b w cbw run why vb room fits enough parse ↦
              Safe-run stack handle t
                (start_data_transfer stack k cbw (record t { buf = b; bus = w })) (run k)
                (start_data_transfer-Safe cbw (record t { buf = b; bus = w })
                  (moved-Base stack law t b w left v.base vb room) h c fits)
        ]
