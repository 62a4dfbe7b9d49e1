-- ===== src/Transport/Bbb/Flow/Debt.antt =====
-- usbd-storage/src/transport/bbb.rs: `poll` in every state, and the debt of the transport.
use usbd_storage.Prelude.{
  ℕ, suc, ◌≤◌, ◌≡◌, ◌≢◌, refl, sym, subst, ap, ◌∙◌, inl, inr, some, min, [], ◌++◌, length, take,
  drop, arith, ◌==◌, ==_iff, Bool-cases, Option-cases, take-append-drop, take-take_le,
}
use usbd_storage.Prelude.Outcome.{done, fail, ok, err}
use usbd_storage.Buffer.Contents.{contents, available_read-done}
use usbd_storage.Transport.{UsbStack, IsLawful, TransportError}
use usbd_storage.Transport.Bbb.Types.{
  BulkOnly, BulkOnlyError, Method, State, StatusAndResidue, command_transfer,
  command_transfer_invalid, data_transfer_no_data, status_transfer, data_transfer_to_host,
  data_transfer_to_host_ending, data_transfer_from_host, data_transfer_from_host_status_await,
  data_transfer_from_host_ending, data_transfer_status_await,
}
use usbd_storage.Transport.Bbb.Packets.{packet_size}
use usbd_storage.Transport.Bbb.PacketCases.{sent, not_sent, nothing, write_packet-cases}
use usbd_storage.Transport.Bbb.States.{enter_state_command_transfer}
use usbd_storage.Transport.Bbb.Handlers.{
  handle_status_transfer, handle_read_cbw, poll_state, poll_within, poll,
}
use usbd_storage.Transport.Bbb.Invariant.{Inv, InState}
use usbd_storage.Transport.Bbb.PollSafety.{enter_command-Inv}
use usbd_storage.Transport.Bbb.Flow.{
  SendsOn, owed, owed_in, owed_in_state, same, unstalled, after, Quiet, Pays, Flow,
}
use usbd_storage.Transport.Bbb.Flow.Sending.{empty_of_length, offer_some}
use usbd_storage.Transport.Bbb.Flow.ToHost.{to_host-Pays, ending-Pays}
use usbd_storage.Transport.Bbb.Flow.FromHost.{
  from_host-Flow, from_host_ending-Flow, await-Flow, no_data-Flow,
}
use usbd_storage.Transport.Bbb.Flow.Polls.{to_host_none, read_cbw-Idle, invalid-Idle, Quiet-after}

module _ {World Endpoint UsbError : Type 0} (stack : UsbStack World Endpoint UsbError)
    (law : IsLawful stack) where
  module _ (fuel : ℕ) where
    abbrev status : Method World Endpoint UsbError (Unit {0})
    status = handle_status_transfer stack (suc fuel)

    -- A part of the CSW is offered.
    status-Pays :
        (t : BulkOnly World Endpoint)
        → Inv stack t
        → t.state ≡ status_transfer
        → contents t.buf ≢ []
        → 1 ≤ packet_size stack t
        → Pays stack t.in_ep t.bus t.cs (contents t.buf) (status t).1
    unfolding handle_status_transfer
    status-Pays t v h full pos =
        let read_eq =
          available_read-done {E = TransportError UsbError BulkOnlyError} t.buf v.base.buffer in
        let some_left : length (contents t.buf) ≢ 0 =
          λ e. full (empty_of_length (contents t.buf) e) in
        let size = min (packet_size stack t) (length (contents t.buf)) in
        let c = contents t.buf in
        elim (write_packet-cases stack law t v.base.buffer) [
          | sent n b w run wrote bound vb rest room some_wait ↦
              (let t' = record t { buf = b; bus = w } in
                let ends : status t ≡ (done tt, t') = ground (arith, read_eq, run) in
                subst (Pays stack t.in_ep t.bus t.cs c) (sym (ap (λ r. r.1) ends)) (record {
                  offer = take size c;
                  result = ok n;
                  wrote = wrote;
                  sends_on = subst SendsOn (sym h) tt;
                  same_status = refl;
                  not_empty = offer_some (packet_size stack t) c pos full;
                  paid =
                      sym (take-append-drop n c)
                      ∙ ap (λ x. x ++ drop n c) (sym (take-take_le n size c bound))
                      ∙ ap (λ x. take n (take size c) ++ x)
                          (sym rest ∙ sym (owed_in_state status_transfer t' h));
                }))
          | not_sent x b w run kept why some_wait ↦
              (let (e, is, wrote) = why in
                let t' = record t { buf = b; bus = w } in
                let ends : status t ≡ (fail x, t') = ground (arith, read_eq, run) in
                subst (Pays stack t.in_ep t.bus t.cs c) (sym (ap (λ r. r.1) ends)) (record {
                  offer = take size c;
                  result = err e;
                  wrote = wrote;
                  sends_on = subst SendsOn (sym h) tt;
                  same_status = refl;
                  not_empty = offer_some (packet_size stack t) c pos full;
                  paid = sym kept.same ∙ sym (owed_in_state status_transfer t' h);
                }))
          | nothing b run empty kept ↦ absurd (full empty)
        ]

    -- With the CSW gone the next command is awaited.
    status_idle :
        (t : BulkOnly World Endpoint)
        → Inv stack t
        → t.state ≡ status_transfer
        → contents t.buf ≡ []
        → 1 ≤ packet_size stack t
        → Quiet stack t.bus [] (status t).1
    unfolding handle_status_transfer enter_state_command_transfer packet_size
    status_idle t v h empty pos =
        let t' = enter_state_command_transfer stack t in
        let read_eq =
          available_read-done {E = TransportError UsbError BulkOnlyError} t.buf v.base.buffer in
        let ends : status t ≡ handle_read_cbw stack (handle_status_transfer stack fuel) t' =
          ground (arith, read_eq, empty) in
        subst (Quiet stack t.bus []) (sym (ap (λ r. r.1) ends)) (
          Quiet-after stack law t.bus t'.bus [] [] _
            (after (unstalled t.in_ep t.bus) (unstalled t.out_ep (stack.unstall t.in_ep t.bus)))
            refl
            (read_cbw-Idle stack law (handle_status_transfer stack fuel) t'
              ((enter_command-Inv stack t v.base).base) pos refl refl))

  -- What the states make of a poll: the debt is paid in part, or left.
  debt-Flow :
      (x : State) (t : BulkOnly World Endpoint)
      → Inv stack t
      → t.state ≡ x
      → InState x t
      → 1 ≤ packet_size stack t
      → Flow stack t.in_ep t.bus t.cs (owed_in x t) (poll_state stack 1 x t).1
  unfolding poll_state
  debt-Flow command_transfer t v h i pos =
      inl (read_cbw-Idle stack law (status 0) t v.base pos h i.0)
  debt-Flow command_transfer_invalid t v h i pos = inl (invalid-Idle stack law t h)
  debt-Flow data_transfer_no_data t v h i pos =
      no_data-Flow stack law t v.base (status 0) (status-Pays 0) pos h
  debt-Flow status_transfer t v h i pos = elim (Bool-cases (length (contents t.buf) == 0)) [
    | inl all ↦
        (let empty =
            empty_of_length (contents t.buf) ((==_iff (length (contents t.buf)) 0).0 all) in
          inl (
            Quiet-after stack law t.bus t.bus [] (contents t.buf) _ (same t.bus) (sym empty)
              (status_idle 0 t v h empty pos)))
    | inr more ↦ inr (status-Pays 0 t v h (λ e. ground (arith, more, ap length e)) pos)
  ]
  debt-Flow data_transfer_to_host t v h i pos = elim (Option-cases t.cs) [
    | inl c ↦ elim (to_host_none stack law (status 0) t v.base i pos h c) [
      | inl (some_wait, paid) ↦ inr paid
      | inr quiet ↦ inl quiet
    ]
    | inr (s, c) ↦ inr (to_host-Pays stack (status 0) (status-Pays 0) law t s v.base h i c pos)
  ]
  debt-Flow data_transfer_to_host_ending t v h i pos =
      inr (ending-Pays stack (status 0) (status-Pays 0) law t i.1.0 v.base h i.0 i.1.1 pos)
  debt-Flow data_transfer_from_host t v h i pos =
      from_host-Flow stack law t v.base (status 0) (status-Pays 0) pos h
  debt-Flow data_transfer_from_host_status_await t v h i pos =
      await-Flow stack law t v.base (status 0) (status-Pays 0) pos (inr h)
  debt-Flow data_transfer_from_host_ending t v h i pos =
      from_host_ending-Flow stack law t v.base (status 0) (status-Pays 0) pos i.0 h i.1
  debt-Flow data_transfer_status_await t v h i pos =
      await-Flow stack law t v.base (status 0) (status-Pays 0) pos (inl h)

  pub poll-Flow :
      (t : BulkOnly World Endpoint)
      → Inv stack t
      → 1 ≤ packet_size stack t
      → Flow stack t.in_ep t.bus t.cs (owed t) (poll stack t).1
  unfolding poll poll_within
  poll-Flow t v pos = debt-Flow t.state t v refl v.in_state pos

  -- Where a status is set and packets are written, every poll offers a part of the debt.
  debt-Pays :
      (x : State) (t : BulkOnly World Endpoint) (s : StatusAndResidue)
      → Inv stack t
      → t.state ≡ x
      → InState x t
      → SendsOn x
      → t.cs ≡ some s
      → owed_in x t ≢ []
      → 1 ≤ packet_size stack t
      → Pays stack t.in_ep t.bus t.cs (owed_in x t) (poll_state stack 1 x t).1
  unfolding poll_state
  debt-Pays status_transfer t s v h i on c more pos = status-Pays 0 t v h more pos
  debt-Pays data_transfer_to_host t s v h i on c more pos =
      to_host-Pays stack (status 0) (status-Pays 0) law t s v.base h i c pos
  debt-Pays data_transfer_to_host_ending t s v h i on c more pos =
      ending-Pays stack (status 0) (status-Pays 0) law t s v.base h i.0 c pos
  debt-Pays command_transfer t s v h i on c more pos = absurd on
  debt-Pays command_transfer_invalid t s v h i on c more pos = absurd on
  debt-Pays data_transfer_no_data t s v h i on c more pos = absurd on
  debt-Pays data_transfer_from_host t s v h i on c more pos = absurd on
  debt-Pays data_transfer_from_host_status_await t s v h i on c more pos = absurd on
  debt-Pays data_transfer_from_host_ending t s v h i on c more pos = absurd on
  debt-Pays data_transfer_status_await t s v h i on c more pos = absurd on

  pub poll-Pays :
      (t : BulkOnly World Endpoint) (s : StatusAndResidue)
      → Inv stack t
      → SendsOn t.state
      → t.cs ≡ some s
      → owed t ≢ []
      → 1 ≤ packet_size stack t
      → Pays stack t.in_ep t.bus t.cs (owed t) (poll stack t).1
  unfolding poll poll_within
  poll-Pays t s v on c more pos = debt-Pays t.state t s v refl v.in_state on c more pos
