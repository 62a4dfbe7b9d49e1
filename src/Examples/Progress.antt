-- ===== src/Examples/Progress.antt =====
-- The firmware of examples: how far a `Read` command has come, poll by poll.
use usbd_storage.Prelude.{
  ℕ, ◌-◌, ◌≤◌, ◌≡◌, refl, sym, ap, ap₂, ◌∙◌, subst, ◌⊎◌, inl, inr, none, some, List, [], ◌∷◌, ◌++◌,
  length, take, arith, append-nil, append_assoc, length-append, length-take, take_all, ◌==◌, ==_iff,
  Bool-cases,
}
use usbd_storage.Prelude.Outcome.{done}
use usbd_storage.Buffer.Contents.{contents}
use usbd_storage.Transport.{UsbStack, IsLawful}
use usbd_storage.Transport.Bbb.Types.{
  BulkOnly, Method, CommandBlockWrapper, StatusAndResidue, data_transfer_to_host,
  data_transfer_status_await,
}
use usbd_storage.Transport.Bbb.Wrapper.{csw_bytes}
use usbd_storage.Transport.Bbb.Handlers.{
  poll, poll_within, poll_state, handle_data_transfer_to_host, handle_data_transfer_status_await,
  handle_status_transfer,
}
use usbd_storage.Transport.Bbb.Invariant.{Inv, InState}
use usbd_storage.Transport.Bbb.StatusSafety.{await_none}
use usbd_storage.Transport.Bbb.Sending.{poll_is_handle}
use usbd_storage.Transport.Bbb.Flow.{owed, tail_owed, owed_in_state}
use usbd_storage.Transport.Bbb.ToHostSafety.{assert_within}
use usbd_storage.Transport.Bbb.States.{enter_state_data_transfer_status_await}
use usbd_storage.Transport.Bbb.Flow.Delivery.{IsLog, HasPackets, poll-Inv}
use usbd_storage.Examples.Reading.{Streams, poll-Streams}

-- A list that is as long as the rest of a longer one is nothing.
no_more : {A : Type 0} (xs : List A) → length xs ≡ 0 → xs ≡ []
no_more [] h = refl
no_more (x ∷ xs) h = absurd (omega arith)

module _ {World Endpoint UsbError : Type 0} (stack : UsbStack World Endpoint UsbError)
    (law : IsLawful stack) (sizes : HasPackets stack) (log : World → List ℕ)
    (logs : IsLog stack log) (base blocks : List ℕ) (cbw : CommandBlockWrapper) where
  -- All of the blocks are with the host, and the transport waits for the status.
  pub record Sent (t : BulkOnly World Endpoint) (offset : ℕ) : Type 0 where
    pub inv : Inv stack t
    pub awaits : t.state ≡ data_transfer_status_await
    pub no_status : t.cs ≡ none
    pub same_cbw : t.cbw ≡ cbw
    pub all : log t.bus ≡ base ++ blocks
    pub at_end : offset ≡ length blocks

  abbrev pub Progress : BulkOnly World Endpoint → ℕ → Type 0
  Progress t offset = Streams stack law sizes log logs base blocks cbw t offset ⊎ Sent t offset

  over_awaits :
      (k : Method World Endpoint UsbError (Unit {0})) (t : BulkOnly World Endpoint)
      → Inv stack t
      → t.state ≡ data_transfer_to_host
      → t.left_to_transfer ≡ 0
      → handle_data_transfer_to_host stack k t
        ≡ handle_data_transfer_status_await stack k
            (record t { state = data_transfer_status_await })
  unfolding handle_data_transfer_to_host enter_state_data_transfer_status_await
  over_awaits k t v h over =
      ground (arith, assert_within stack law t v.base (subst (λ x. InState x t) h v.in_state), over)

  poll_over :
      (t : BulkOnly World Endpoint)
      → Inv stack t
      → t.state ≡ data_transfer_to_host
      → t.cs ≡ none
      → t.left_to_transfer ≡ 0
      → (poll stack t).1 ≡ record t { state = data_transfer_status_await }
  poll_over t v h c over =
      let k = handle_status_transfer stack 1 in
      ap (λ r. r.1)
        (poll_is_handle stack law t h
          ∙ over_awaits k t v h over
          ∙ await_none stack k (record t { state = data_transfer_status_await }) c (inl refl))

  poll_waits :
      (t : BulkOnly World Endpoint)
      → t.state ≡ data_transfer_status_await
      → t.cs ≡ none
      → poll stack t ≡ (done tt, t)
  unfolding poll poll_within poll_state
  poll_waits t h c =
      ap (λ x. poll_state stack 1 x t) h
      ∙ await_none stack (handle_status_transfer stack 1) t c (inl h)

  poll-Sent :
      (t : BulkOnly World Endpoint) (offset : ℕ)
      → Streams stack law sizes log logs base blocks cbw t offset
      → offset ≤ length blocks
      → t.left_to_transfer ≡ 0
      → Sent (poll stack t).1 offset
  poll-Sent t offset s within over =
      let run = poll_over t s.inv s.to_host s.no_status over in
      let end : offset ≡ length blocks = omega (
        arith,
        s.left,
        ap length s.so_far,
        length-append (log t.bus) (contents t.buf),
        length-append base (take offset blocks),
        length-take offset blocks,
      ) in
      let empty : contents t.buf ≡ [] = no_more (contents t.buf) (
        omega (
          arith,
          s.left,
          ap length s.so_far,
          length-append (log t.bus) (contents t.buf),
          length-append base (take offset blocks),
          length-take offset blocks,
        )) in
      subst (λ u. Sent u offset) (sym run)
        (record {
          inv = subst (Inv stack) run (poll-Inv stack law sizes log logs t s.inv);
          awaits = refl;
          no_status = s.no_status;
          same_cbw = s.same_cbw;
          all =
              sym (append-nil (log t.bus))
              ∙ ap (λ c. log t.bus ++ c) (sym empty)
              ∙ s.so_far
              ∙ ap (λ p. base ++ p) (take_all offset blocks (omega (arith, end)));
          at_end = end;
        })

  pub poll-Progress :
      (t : BulkOnly World Endpoint) (offset : ℕ)
      → offset ≤ length blocks
      → Progress t offset
      → Progress (poll stack t).1 offset
  poll-Progress t offset within (inl s) = elim (Bool-cases (t.left_to_transfer == 0)) [
    | inl over ↦ inr (poll-Sent t offset s within ((==_iff t.left_to_transfer 0).0 over))
    | inr more ↦ inl (
        poll-Streams stack law sizes log logs base blocks cbw t offset s
          (λ e. ground (arith, more, e)))
  ]
  poll-Progress t offset within (inr s) =
      inr (subst (λ u. Sent u offset) (sym (ap (λ r. r.1) (poll_waits t s.awaits s.no_status))) s)

  -- With the status set at the end, the debt is what waits, and the CSW.
  pub end_owed :
      (t : BulkOnly World Endpoint) (s : StatusAndResidue)
      → Progress t (length blocks)
      → log t.bus ++ owed (record t { cs = some s }) ≡ base ++ (blocks ++ csw_bytes cbw.tag s)
  end_owed t s (inl p) =
      let u = record t { cs = some s } in
      let gap : t.left_to_transfer - length (contents t.buf) ≡ 0 = omega (
        arith,
        p.left,
        ap length p.so_far,
        length-append (log t.bus) (contents t.buf),
        length-append base (take (length blocks) blocks),
        length-take (length blocks) blocks,
      ) in
      ap (λ o. log t.bus ++ o)
        (owed_in_state data_transfer_to_host u p.to_host
          ∙ ap₂ (λ k c. contents t.buf ++ tail_owed (some s) k c.tag) gap p.same_cbw)
      ∙ sym (append_assoc (log t.bus) (contents t.buf) (csw_bytes cbw.tag s))
      ∙ ap (λ l. l ++ csw_bytes cbw.tag s)
          (p.so_far ∙ ap (λ l. base ++ l) (take_all (length blocks) blocks (omega arith)))
      ∙ append_assoc base blocks (csw_bytes cbw.tag s)
  end_owed t s (inr p) =
      let u = record t { cs = some s } in
      ap₂ ◌++◌ p.all (
        owed_in_state data_transfer_status_await u p.awaits
        ∙ ap (λ (c : CommandBlockWrapper). csw_bytes c.tag s) p.same_cbw)
      ∙ append_assoc base blocks (csw_bytes cbw.tag s)
