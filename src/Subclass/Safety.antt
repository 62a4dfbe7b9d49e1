-- ===== src/Subclass/Safety.antt =====
-- usbd-storage/src/subclass/scsi.rs and ufi.rs: `poll_command`, for a callback that keeps the invariant.
use usbd_storage.Prelude.{
  ℕ, ◌-◌, ◌≤◌, ◌≡◌, refl, ◌⊎◌, inl, inr, none, some, Option-cases, List, length, take, arith,
  length-take,
}
use usbd_storage.Prelude.Outcome.{Outcome, done, fail, panic, out_of_fuel, slice}
use usbd_storage.Prelude.Proc.{Proc, Ensures, Ensures-run, ◌>>=◌, ◌>>◌}
use usbd_storage.Buffer.Contents.{slice-done}
use usbd_storage.Transport.{UsbStack, IsLawful, TransportError}
use usbd_storage.Transport.Bbb.Types.{
  BulkOnly, BulkOnlyError, CommandBlock, StatusAndResidue, State, command_transfer,
  command_transfer_invalid, status_transfer, data_transfer_to_host, data_transfer_from_host,
  data_transfer_no_data, data_transfer_status_await, data_transfer_from_host_status_await,
  data_transfer_to_host_ending, data_transfer_from_host_ending,
}
use usbd_storage.Transport.Bbb.Handlers.{has_status, poll}
use usbd_storage.Transport.Bbb.Api.{get_command}
use usbd_storage.Transport.Bbb.Invariant.{Inv, InState, Commanded, commanded}
use usbd_storage.Transport.Bbb.ApiSafety.{AwaitsStatus}
use usbd_storage.Transport.Bbb.PollSafety.{poll-Safe}
use usbd_storage.Subclass.{
  Class, WithClass, on_class, on_transport, run_command, if_command, poll_command,
}

module _ {S E A B : Type 0} where
  -- A program that goes on only from a normal end.
  pub bind-Ensures :
      (m : Proc S E A) (k : A → Proc S E B) (s : S) (P : A → S → Type 0) (P' : B → S → Type 0)
      (Q : S → Type 0)
      → Ensures (m s) P Q
      → ((a : A) (s' : S) → P a s' → Ensures (k a s') P' Q)
      → Ensures ((m >>= k) s) P' Q
  bind-Ensures m k s P P' Q h next = from (m s) h
    where
      from :
          (r : Outcome E A × S)
          → Ensures r P Q
          → Ensures {E = E} {A = B}
              (elim r.0 [
                | done a ↦ k a r.1
                | fail e ↦ (fail e, r.1)
                | panic ↦ (panic, r.1)
                | out_of_fuel ↦ (out_of_fuel, r.1)
              ])
              P'
              Q
      from (done a, s') h = next a s' h
      from (fail e, s') h = h
      from (panic, s') h = absurd h
      from (out_of_fuel, s') h = absurd h

module _ {World Endpoint UsbError : Type 0} (stack : UsbStack World Endpoint UsbError) where
  abbrev pub Idle : BulkOnly World Endpoint → Type 0
  Idle t = (t.state ≡ command_transfer) ⊎ (t.state ≡ command_transfer_invalid)

  -- Without a status, the transport waits for a command, or has one that it awaits the status of.
  pub without_status :
      (x : State) (t : BulkOnly World Endpoint)
      → t.state ≡ x
      → InState x t
      → t.cs ≡ none
      → Idle t ⊎ AwaitsStatus stack t
  without_status command_transfer t h i c = inl (inl h)
  without_status command_transfer_invalid t h i c = inl (inr h)
  without_status status_transfer t h (s, k, cs, rest) c = ground (arith, cs, c)
  without_status data_transfer_to_host t h i c = inr (inl h)
  without_status data_transfer_to_host_ending t h (w, (s, cs)) c = ground (arith, cs, c)
  without_status data_transfer_from_host t h i c = inr (inr (inl h))
  without_status data_transfer_from_host_ending t h (s, cs) c = ground (arith, cs, c)
  without_status data_transfer_no_data t h i c = inr (inr (inr (inl h)))
  without_status data_transfer_status_await t h i c = inr (inr (inr (inr (inl h))))
  without_status data_transfer_from_host_status_await t h i c = inr (inr (inr (inr (inr h))))

  has_block : (t : BulkOnly World Endpoint) → AwaitsStatus stack t → Commanded t.state
  has_block t (inl h) = commanded h tt
  has_block t (inr (inl h)) = commanded h tt
  has_block t (inr (inr (inl h))) = commanded h tt
  has_block t (inr (inr (inr (inl h)))) = commanded h tt
  has_block t (inr (inr (inr (inr h)))) = commanded h tt

  abbrev pub Held : {S : Type 0} → S × Class (BulkOnly World Endpoint) → Type 0
  Held f = Inv stack f.1.transport

  -- The command block, as `get_command` returns it.
  abbrev pub raw_command : BulkOnly World Endpoint → CommandBlock
  raw_command t = record { bytes = take (t.cbw.block_len - 0) t.cbw.block; lun = t.cbw.lun }

  sliced :
      (t : BulkOnly World Endpoint)
      → Inv stack t
      → slice {E = TransportError UsbError BulkOnlyError} t.cbw.block 0 t.cbw.block_len
        ≡ done (raw_command t).bytes
  sliced t v = slice-done t.cbw.block 0 t.cbw.block_len (omega arith) v.base.block_fits

  -- A command without a status is parsed, and run.
  module _ {S Kind : Type 0}
      (parse_cb : List ℕ → Outcome (TransportError UsbError BulkOnlyError) Kind)
      (callback : Kind → ℕ → WithClass stack S (Unit {0})) where
    pub awaits_run :
        (f : S × Class (BulkOnly World Endpoint))
        → Held f
        → AwaitsStatus stack f.1.transport
        → f.1.transport.cs ≡ none
        → poll_command stack parse_cb callback f
          ≡ run_command stack parse_cb callback (raw_command f.1.transport) f
    unfolding poll_command if_command get_command has_status
    awaits_run f v w c = ground (arith, sliced f.1.transport v, w, c)

  module _ (law : IsLawful stack) {S Kind : Type 0}
      (parse_cb : List ℕ → Outcome (TransportError UsbError BulkOnlyError) Kind)
      (parses : (cb : List ℕ) → 1 ≤ length cb → (kind : Kind) × (parse_cb cb ≡ done kind))
      (callback : Kind → ℕ → WithClass stack S (Unit {0}))
      (keeps : (kind : Kind) (lun : ℕ) (f : S × Class (BulkOnly World Endpoint))
        → Held f
        → AwaitsStatus stack f.1.transport
        → f.1.transport.cs ≡ none
        → Ensures (callback kind lun f) (λ _ f'. Held f') (λ f'. Held f')) where
    class_polled :
        (f : S × Class (BulkOnly World Endpoint))
        → Held f
        → Ensures (on_class stack (on_transport (poll stack)) f) (λ _ f'. Held f') (λ f'. Held f')
    class_polled f v = from (poll stack f.1.transport) (poll-Safe stack law f.1.transport v)
      where
        from :
            (r : Outcome (TransportError UsbError BulkOnlyError) (Unit {0})
              × BulkOnly World Endpoint)
            → Ensures r (λ _ t'. Inv stack t') (Inv stack)
            → Ensures {S = S × Class (BulkOnly World Endpoint)}
                (r.0, (f.0, record f.1 { transport = r.1 }))
                (λ _ f'. Held f')
                (λ f'. Held f')
        from (done a, t') h = h
        from (fail e, t') h = h
        from (panic, t') h = absurd h
        from (out_of_fuel, t') h = absurd h

    run_command-Ensures :
        (raw : CommandBlock) (f : S × Class (BulkOnly World Endpoint))
        → 1 ≤ length raw.bytes
        → Held f
        → AwaitsStatus stack f.1.transport
        → f.1.transport.cs ≡ none
        → Ensures (run_command stack parse_cb callback raw f) (λ _ f'. Held f') (λ f'. Held f')
    unfolding run_command
    run_command-Ensures raw f some_bytes v w c =
        let (kind, parsed) = parses raw.bytes some_bytes in
        let poll_class = on_class stack (on_transport (poll stack)) in
        let same : run_command stack parse_cb callback raw f
            ≡ (callback kind raw.lun >> poll_class) f =
          ground (arith, parsed) in
        Ensures-run ((callback kind raw.lun >> poll_class) f) (λ _ f'. Held f') (λ f'. Held f') same
          (bind-Ensures (callback kind raw.lun) (λ _. poll_class) f (λ _ f'. Held f')
            (λ _ f'. Held f') (λ f'. Held f') (keeps kind raw.lun f v w c)
            (λ a f' h. class_polled f' h))

    nothing_runs :
        (f : S × Class (BulkOnly World Endpoint))
        → Idle f.1.transport
        → poll_command stack parse_cb callback f ≡ (done tt, f)
    unfolding poll_command if_command get_command
    nothing_runs f (inl h) = ground (arith, h)
    nothing_runs f (inr h) = ground (arith, h)

    status_run :
        (f : S × Class (BulkOnly World Endpoint)) (s : StatusAndResidue)
        → Held f
        → f.1.transport.cs ≡ some s
        → poll_command stack parse_cb callback f ≡ (done tt, f)
    unfolding poll_command if_command get_command has_status
    status_run f s v c = ground (arith, sliced f.1.transport v, c)

    pub poll_command-Ensures :
        (f : S × Class (BulkOnly World Endpoint))
        → Held f
        → Ensures (poll_command stack parse_cb callback f) (λ _ f'. Held f') (λ f'. Held f')
    poll_command-Ensures f v =
        let t = f.1.transport in
        let by =
          λ (r : Outcome (TransportError UsbError BulkOnlyError) (Unit {0})
                × (S × Class (BulkOnly World Endpoint)))
              (run : poll_command stack parse_cb callback f ≡ r)
              (h : Ensures r (λ _ f'. Held f') (λ f'. Held f')).
            Ensures-run r (λ _ f'. Held f') (λ f'. Held f') run h in
        elim (Option-cases t.cs) [
          | inl c ↦ elim (without_status t.state t refl v.in_state c) [
            | inl idle ↦ by (done tt, f) (nothing_runs f idle) v
            | inr awaits ↦
                by (run_command stack parse_cb callback (raw_command t) f)
                  (awaits_run parse_cb callback f v awaits c)
                  (run_command-Ensures (raw_command t) f
                    (omega (
                      arith,
                      v.base.block_some (has_block t awaits),
                      v.base.block_fits,
                      length-take (t.cbw.block_len - 0) t.cbw.block,
                    ))
                    v awaits c)
          ]
          | inr (s, c) ↦ by (done tt, f) (status_run f s v c) v
        ]
