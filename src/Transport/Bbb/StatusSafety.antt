-- ===== src/Transport/Bbb/StatusSafety.antt =====
-- usbd-storage/src/transport/bbb.rs: the handlers that wait for the status, over any function that
-- stands for `handle_status_transfer`.
use usbd_storage.Prelude.{
  ◌≡◌, ◌≢◌, refl, ap, none, some, [], length, arith, ◌⊎◌, inl, inr, Option-cases,
}
use usbd_storage.Prelude.Outcome.{Outcome, done}
use usbd_storage.Prelude.Proc.{Ensures, Ensures-run}
use usbd_storage.Buffer.Contents.{contents}
use usbd_storage.Transport.{UsbStack, TransportError}
use usbd_storage.Transport.Bbb.Types.{
  State, BulkOnly, BulkOnlyError, Method, status_transfer, data_transfer_no_data,
  data_transfer_from_host_status_await, data_transfer_status_await, StatusAndResidue,
}
use usbd_storage.Transport.Bbb.States.{
  enter_state_status_transfer, enter_state_data_transfer_status_await,
}
use usbd_storage.Transport.Bbb.Handlers.{
  has_status, handle_data_transfer_status_await, handle_data_transfer_no_data,
}
use usbd_storage.Transport.Bbb.Invariant.{
  Base, Inv, in_other_state, Commanded, commanded, enter_status, length-csw_bytes,
}

pub awaits-Commanded :
    {x : State}
    → (x ≡ data_transfer_status_await) ⊎ (x ≡ data_transfer_from_host_status_await)
    → Commanded x
awaits-Commanded (inl h) = commanded h tt
awaits-Commanded (inr h) = commanded h tt

module _ {World Endpoint UsbError : Type 0} (stack : UsbStack World Endpoint UsbError) where
  -- The run does not panic and has the fuel it needs, and it ends in the invariant, by an error too.
  abbrev pub Safe : Method World Endpoint UsbError (Unit {0}) → BulkOnly World Endpoint → Type 0
  Safe m t = Ensures (m t) (λ _ t'. Inv stack t') (Inv stack)

  abbrev pub SafeStatus : Method World Endpoint UsbError (Unit {0}) → Type 0
  SafeStatus k =
      (t : BulkOnly World Endpoint)
      → Inv stack t
      → t.state ≡ status_transfer
      → contents t.buf ≢ []
      → Safe k t

  pub Safe-run :
      (m : Method World Endpoint UsbError (Unit {0})) (t : BulkOnly World Endpoint)
      → (r : Outcome (TransportError UsbError BulkOnlyError) (Unit {0}) × BulkOnly World Endpoint)
      → m t ≡ r
      → Ensures r (λ _ t'. Inv stack t') (Inv stack)
      → Safe m t
  Safe-run m t r e h = Ensures-run r (λ _ t'. Inv stack t') (Inv stack) e h

  module _ (k : Method World Endpoint UsbError (Unit {0})) where
    pub await_none :
        (t : BulkOnly World Endpoint)
        → t.cs ≡ none
        → (t.state ≡ data_transfer_status_await) ⊎ (t.state ≡ data_transfer_from_host_status_await)
        → handle_data_transfer_status_await stack k t ≡ (done tt, t)
    unfolding handle_data_transfer_status_await has_status
    await_none t h s = ground arith

    pub await_some :
        (t t' : BulkOnly World Endpoint) (s : StatusAndResidue)
        → t.cs ≡ some s
        → (t.state ≡ data_transfer_status_await) ⊎ (t.state ≡ data_transfer_from_host_status_await)
        → enter_state_status_transfer stack t ≡ (done tt, t')
        → handle_data_transfer_status_await stack k t ≡ k t'
    unfolding handle_data_transfer_status_await has_status
    await_some t t' s h w e = ground arith

  module _ (k : Method World Endpoint UsbError (Unit {0})) (safe : SafeStatus k) where
    -- The CSW is put in the buffer, and the transfer of the status begins.
    pub status_begins :
        (t : BulkOnly World Endpoint) (s : StatusAndResidue)
        → Base stack t
        → t.cs ≡ some s
        → Commanded t.state
        → (t' : BulkOnly World Endpoint) × (enter_state_status_transfer stack t ≡ (done tt, t'))
          × Safe k t'
    status_begins t s v h on =
        let (t', e) = enter_status stack t s v h on in
        (
          t',
          e.run,
          safe t' e.inv (ap (λ u. u.state) e.only_buffer) (λ empty.
              omega
                (arith, length-csw_bytes stack t.cbw.tag s, ap length e.holds, ap length empty)),
        )

    pub status_await-Safe :
        (t : BulkOnly World Endpoint)
        → Inv stack t
        → (t.state ≡ data_transfer_status_await) ⊎ (t.state ≡ data_transfer_from_host_status_await)
        → Safe (handle_data_transfer_status_await stack k) t
    status_await-Safe t v w = elim (Option-cases t.cs) [
      | inl h ↦
          Safe-run (handle_data_transfer_status_await stack k) t (done tt, t) (await_none k t h w) v
      | inr (s, h) ↦
          (let (t', e, next) = status_begins t s v.base h (awaits-Commanded w) in
            Safe-run (handle_data_transfer_status_await stack k) t (k t')
              (await_some k t t' s h w e) next)
    ]

    pub no_data-Safe :
        (t : BulkOnly World Endpoint)
        → Inv stack t
        → t.state ≡ data_transfer_no_data
        → Safe (handle_data_transfer_no_data stack k) t
    unfolding handle_data_transfer_no_data enter_state_data_transfer_status_await
    no_data-Safe t v h =
        let t' = record t { state = data_transfer_status_await } in
        Safe-run (handle_data_transfer_no_data stack k) t
          (handle_data_transfer_status_await stack k t') (ground arith)
          (status_await-Safe t'
            (record { base = in_other_state stack t _ (commanded h tt) v.base; in_state = tt })
            (inl refl))
