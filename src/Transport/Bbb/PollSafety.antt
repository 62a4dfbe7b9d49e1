-- ===== src/Transport/Bbb/PollSafety.antt =====
-- usbd-storage/src/transport/bbb.rs: `poll`, and the invariant.
use usbd_storage.Prelude.{
  ℕ, suc, ◌+◌, ◌≡◌, ◌≢◌, refl, ap, ◌∙◌, subst, ◌==◌, Bool-cases, length, drop, arith, inl, inr,
  drop-drop,
}
use usbd_storage.Prelude.Outcome.{done, fail}
use usbd_storage.Buffer.{clear}
use usbd_storage.Buffer.Contents.{contents, available_read-done}
use usbd_storage.Transport.{UsbStack, IsLawful, TransportError}
use usbd_storage.Transport.Bbb.Types.{
  BulkOnly, BulkOnlyError, Method, State, command_transfer, command_transfer_invalid,
  data_transfer_no_data, status_transfer, data_transfer_to_host, data_transfer_to_host_ending,
  data_transfer_from_host, data_transfer_from_host_status_await, data_transfer_from_host_ending,
  data_transfer_status_await,
}
use usbd_storage.Transport.Bbb.Wrapper.{csw_bytes}
use usbd_storage.Transport.Bbb.Packets.{packet_size}
use usbd_storage.Transport.Bbb.PacketCases.{sent, not_sent, nothing, write_packet-cases}
use usbd_storage.Transport.Bbb.States.{enter_state_command_transfer}
use usbd_storage.Transport.Bbb.Handlers.{
  handle_read_cbw, handle_status_transfer, poll_state, poll_within, poll,
}
use usbd_storage.Transport.Bbb.Invariant.{Base, Inv, InState}
use usbd_storage.Transport.Bbb.StatusSafety.{
  Safe, Safe-run, SafeStatus, no_data-Safe, status_await-Safe,
}
use usbd_storage.Transport.Bbb.HostSafety.{moved, moved-Inv, from_host-Safe, from_host_ending-Safe}
use usbd_storage.Transport.Bbb.ToHostSafety.{to_host-Safe, to_host_ending-Safe}
use usbd_storage.Transport.Bbb.ReadSafety.{read_cbw-Safe, cbw_invalid-Safe}

module _ {World Endpoint UsbError : Type 0} (stack : UsbStack World Endpoint UsbError) where
  -- A reset, by the bus or by the class request, ends in the invariant from any state.
  pub enter_command-Inv :
      (t : BulkOnly World Endpoint)
      → Base stack t
      → Inv stack (enter_state_command_transfer stack t)
  unfolding enter_state_command_transfer clear packet_size
  enter_command-Inv t v = record {
    base = record {
      buffer = omega arith;
      cbw_fits = v.cbw_fits;
      packet_fits = v.packet_fits;
      small = v.small;
      block_fits = v.block_fits;
      block_some = λ c. absurd c;
    };
    in_state = (refl, refl);
  }

module _ {World Endpoint UsbError : Type 0} (stack : UsbStack World Endpoint UsbError)
    (law : IsLawful stack) where
  module _ (fuel : ℕ) where
    status_sends :
        (t : BulkOnly World Endpoint)
        → Inv stack t
        → t.state ≡ status_transfer
        → length (contents t.buf) ≢ 0
        → Safe stack (handle_status_transfer stack (suc fuel)) t
    unfolding handle_status_transfer
    status_sends t v h more =
        let (s, k, c, holds) = subst (λ x. InState x t) h v.in_state in
        let handle = handle_status_transfer stack (suc fuel) in
        let read_eq =
          available_read-done {E = TransportError UsbError BulkOnlyError} t.buf v.base.buffer in
        let left = t.left_to_transfer in
        elim (write_packet-cases stack law t v.base.buffer) [
          | sent n b w run wrote bound vb rest room full ↦
              Safe-run stack handle t (done tt, moved stack law t b w left)
                (ground (arith, read_eq, run))
                (moved-Inv stack law t b w left _ v.base vb room h
                  (s, k + n, c, rest ∙ ap (drop n) holds ∙ drop-drop k n (csw_bytes t.cbw.tag s)))
          | not_sent e b w run kept why full ↦
              Safe-run stack handle t (fail e, moved stack law t b w left)
                (ground (arith, read_eq, run))
                (moved-Inv stack law t b w left _ v.base kept.valid kept.room h
                  (s, k, c, kept.same ∙ holds))
          | nothing b run empty kept ↦ absurd (more (ap length empty))
        ]

    pub status_transfer-Safe :
        (t : BulkOnly World Endpoint)
        → Inv stack t
        → t.state ≡ status_transfer
        → Safe stack (handle_status_transfer stack (suc fuel)) t
    unfolding handle_status_transfer
    status_transfer-Safe t v h =
        let handle = handle_status_transfer stack (suc fuel) in
        let t' = enter_state_command_transfer stack t in
        let read_eq =
          available_read-done {E = TransportError UsbError BulkOnlyError} t.buf v.base.buffer in
        elim (Bool-cases (length (contents t.buf) == 0)) [
          | inl all ↦
              Safe-run stack handle t (handle_read_cbw stack (handle_status_transfer stack fuel) t')
                (ground (arith, read_eq))
                (read_cbw-Safe stack law (handle_status_transfer stack fuel) t'
                  (enter_command-Inv stack t v.base) (unfold enter_state_command_transfer in refl))
          | inr more ↦ status_sends t v h (λ e. ground arith)
        ]

    abbrev next : Method World Endpoint UsbError (Unit {0})
    next = handle_status_transfer stack (suc fuel)

    next-Safe : SafeStatus stack next
    next-Safe t v h ne = status_transfer-Safe t v h

    poll_state-Safe :
        (x : State) (t : BulkOnly World Endpoint)
        → Inv stack t
        → t.state ≡ x
        → InState x t
        → Safe stack (poll_state stack (suc fuel) x) t
    unfolding poll_state
    poll_state-Safe command_transfer t v h i = read_cbw-Safe stack law next t v h
    poll_state-Safe command_transfer_invalid t v h i = cbw_invalid-Safe stack law t v h
    poll_state-Safe data_transfer_no_data t v h i = no_data-Safe stack next next-Safe t v h
    poll_state-Safe data_transfer_to_host t v h i =
        to_host-Safe stack law next next-Safe t v.base h i
    poll_state-Safe data_transfer_to_host_ending t v h i =
        to_host_ending-Safe stack law next next-Safe t v.base h i.0 i.1
    poll_state-Safe data_transfer_from_host t v h i =
        from_host-Safe stack law next next-Safe t v.base h
    poll_state-Safe data_transfer_from_host_ending t v h i =
        from_host_ending-Safe stack law next next-Safe t v.base h i
    poll_state-Safe status_transfer t v h i = status_transfer-Safe t v h
    poll_state-Safe data_transfer_from_host_status_await t v h i =
        status_await-Safe stack next next-Safe t v (inr h)
    poll_state-Safe data_transfer_status_await t v h i =
        status_await-Safe stack next next-Safe t v (inl h)

  -- On a lawful stack and from every state of the invariant, `poll` returns, normally or by an
  -- error, in a state of the invariant: no assertion, index, slice or subtraction of the handlers
  -- panics, and the fuel of one call of `handle_status_transfer` is enough for their recursion.
  pub poll-Safe : (t : BulkOnly World Endpoint) → Inv stack t → Safe stack (poll stack) t
  unfolding poll poll_within
  poll-Safe t v = poll_state-Safe 0 t.state t v refl v.in_state
