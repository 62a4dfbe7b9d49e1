-- ===== src/Transport/Bbb/Intake.antt =====
-- usbd-storage/src/transport/bbb.rs: the bytes that the bulk OUT endpoint hands over in a transfer from the
-- host.
use usbd_storage.Prelude.{
  ℕ, ◌-◌, ◌≡◌, refl, sym, ap, ◌∙◌, subst, ◌⊎◌, inl, inr, none, List, [], ◌++◌, take, arith,
  append_assoc, append-nil, take-append-drop, drop, ◌==◌, ==_iff, Bool-cases,
}
use usbd_storage.Prelude.Outcome.{Result, ok, err}
use usbd_storage.Buffer.{Buffer}
use usbd_storage.Buffer.Contents.{contents}
use usbd_storage.Transport.{UsbStack, IsLawful}
use usbd_storage.Transport.Bbb.Types.{
  BulkOnly, CommandBlockWrapper, Method, data_transfer_from_host,
  data_transfer_from_host_status_await,
}
use usbd_storage.Transport.Bbb.States.{enter_state_data_transfer_from_host_status_await}
use usbd_storage.Transport.Bbb.Handlers.{
  handle_data_transfer_from_host, handle_data_transfer_status_await, handle_status_transfer, poll,
  poll_within, poll_state,
}
use usbd_storage.Transport.Bbb.Invariant.{Inv}
use usbd_storage.Transport.Bbb.ApiSafety.{with_buf, AwaitsStatus}
use usbd_storage.Transport.Bbb.HostSafety.{moved}
use usbd_storage.Transport.Bbb.StatusSafety.{await_none}
use usbd_storage.Transport.Bbb.PollSafety.{poll-Safe}
use usbd_storage.Transport.Bbb.Receiving.{arrived, refused, full, poll-Receives, poll_is_handle}
use usbd_storage.Transport.Bbb.Reach.{Safe-Inv}
use usbd_storage.Transport.Bbb.Flow.{taken}

module _ {World Endpoint UsbError : Type 0} (stack : UsbStack World Endpoint UsbError) where
  -- `intake` is what the bulk OUT endpoint has handed over: a read adds the bytes that it fills in.
  pub record IsIntake (intake : World → List ℕ) : Type 0 where
    pub read_hands :
        (ep : Endpoint) (given bytes : List ℕ) (w w' : World) (r : Result UsbError ℕ)
        → stack.read ep given w ≡ (r, bytes, w')
        → intake w' ≡ intake w ++ take (taken r) bytes

  abbrev pub FromHost : BulkOnly World Endpoint → Type 0
  FromHost t =
      (t.state ≡ data_transfer_from_host) ⊎ (t.state ≡ data_transfer_from_host_status_await)

  pub FromHost-AwaitsStatus :
      (t : BulkOnly World Endpoint) (b : Buffer)
      → FromHost t
      → AwaitsStatus stack (with_buf stack t b)
  FromHost-AwaitsStatus t b (inl e) = inr (inl e)
  FromHost-AwaitsStatus t b (inr e) = inr (inr (inr (inr e)))

  module _ (law : IsLawful stack) (intake : World → List ℕ) (hands : IsIntake intake)
      (base : List ℕ) (cbw : CommandBlockWrapper) where
    -- Amid a transfer that began when the intake was `base`: what came is what was consumed, and then
    -- what waits.
    pub record Takes (t : BulkOnly World Endpoint) (consumed : List ℕ) : Type 0 where
      pub inv : Inv stack t
      pub from_host : FromHost t
      pub no_status : t.cs ≡ none
      pub same_cbw : t.cbw ≡ cbw
      pub so_far : intake t.bus ≡ base ++ (consumed ++ contents t.buf)

    over_awaits :
        (k : Method World Endpoint UsbError (Unit {0})) (t : BulkOnly World Endpoint)
        → t.state ≡ data_transfer_from_host
        → t.left_to_transfer ≡ 0
        → handle_data_transfer_from_host stack k t
          ≡ handle_data_transfer_status_await stack k
              (record t { state = data_transfer_from_host_status_await })
    unfolding handle_data_transfer_from_host enter_state_data_transfer_from_host_status_await
    over_awaits k t h over = ground arith

    poll_over :
        (t : BulkOnly World Endpoint)
        → t.state ≡ data_transfer_from_host
        → t.cs ≡ none
        → t.left_to_transfer ≡ 0
        → (poll stack t).1 ≡ record t { state = data_transfer_from_host_status_await }
    poll_over t h c over =
        let k = handle_status_transfer stack 1 in
        ap (λ r. r.1)
          (poll_is_handle stack law t h
            ∙ over_awaits k t h over
            ∙ await_none stack k (record t { state = data_transfer_from_host_status_await }) c
                (inr refl))

    poll_waits :
        (t : BulkOnly World Endpoint)
        → t.state ≡ data_transfer_from_host_status_await
        → t.cs ≡ none
        → (poll stack t).1 ≡ t
    unfolding poll poll_within poll_state
    poll_waits t h c =
        ap (λ r. r.1)
          (ap (λ x. poll_state stack 1 x t) h
            ∙ await_none stack (handle_status_transfer stack 1) t c (inr h))

    -- A poll to a state with the same bytes in all.
    poll_to :
        (t u : BulkOnly World Endpoint) (consumed : List ℕ)
        → Takes t consumed
        → (poll stack t).1 ≡ u
        → FromHost u
        → u.cs ≡ none
        → u.cbw ≡ t.cbw
        → (came : List ℕ) → intake u.bus ≡ intake t.bus ++ came
        → contents u.buf ≡ contents t.buf ++ came
        → Takes (poll stack t).1 consumed
    poll_to t u consumed s run h c e came taken_in waits =
        subst (λ x. Takes x consumed) (sym run)
          (record {
            inv =
                subst (Inv stack) run
                  (Safe-Inv stack law (poll stack t) (poll-Safe stack law t s.inv));
            from_host = h;
            no_status = c;
            same_cbw = e ∙ s.same_cbw;
            so_far =
                taken_in
                ∙ ap (λ l. l ++ came) s.so_far
                ∙ append_assoc base (consumed ++ contents t.buf) came
                ∙ ap (λ l. base ++ l)
                    (append_assoc consumed (contents t.buf) came
                      ∙ ap (λ l. consumed ++ l) (sym waits));
          })

    pub poll-Takes :
        (t : BulkOnly World Endpoint) (consumed : List ℕ)
        → Takes t consumed
        → Takes (poll stack t).1 consumed
    poll-Takes t consumed s = elim s.from_host [
      | inr waits ↦
          poll_to t t consumed s (poll_waits t waits s.no_status) s.from_host s.no_status refl []
            (sym (append-nil (intake t.bus))) (sym (append-nil (contents t.buf)))
      | inl h ↦ elim (Bool-cases (t.left_to_transfer == 0)) [
        | inl over ↦
            poll_to t (record t { state = data_transfer_from_host_status_await }) consumed s
              (poll_over t h s.no_status ((==_iff t.left_to_transfer 0).0 over)) (inr refl)
              s.no_status refl [] (sym (append-nil (intake t.bus)))
              (sym (append-nil (contents t.buf)))
        | inr more ↦
            elim (poll-Receives stack law t s.inv h s.no_status (λ e. ground (arith, more, e))) [
              | arrived n given bytes b w size read holds run ↦
                  poll_to t (moved stack law t b w (t.left_to_transfer - n)) consumed s
                    (ap (λ r. r.1) run) (inl h) s.no_status refl (take n bytes)
                    (hands.read_hands t.out_ep given bytes t.bus w (ok n) read) holds
              | refused e given bytes b w size read same run ↦
                  poll_to t (moved stack law t b w t.left_to_transfer) consumed s
                    (ap (λ r. r.1) run) (inl h) s.no_status refl []
                    (hands.read_hands t.out_ep given bytes t.bus w (err e) read)
                    (same ∙ sym (append-nil (contents t.buf)))
              | full b short same run ↦
                  poll_to t (moved stack law t b t.bus t.left_to_transfer) consumed s
                    (ap (λ r. r.1) run) (inl h) s.no_status refl []
                    (sym (append-nil (intake t.bus))) (same ∙ sym (append-nil (contents t.buf)))
            ]
      ]
    ]

    -- Some of the bytes that waited are consumed.
    pub consumed-Takes :
        (t : BulkOnly World Endpoint) (b : Buffer) (consumed : List ℕ) (n : ℕ)
        → Takes t consumed
        → contents b ≡ drop n (contents t.buf)
        → Inv stack (with_buf stack t b)
        → Takes (with_buf stack t b) (consumed ++ take n (contents t.buf))
    consumed-Takes t b consumed n s holds inv =
        let more = take n (contents t.buf) in
        record {
          inv = inv;
          from_host = s.from_host;
          no_status = s.no_status;
          same_cbw = s.same_cbw;
          so_far =
              s.so_far
              ∙ ap (λ l. base ++ (consumed ++ l)) (sym (take-append-drop n (contents t.buf)))
              ∙ ap (λ l. base ++ (consumed ++ (more ++ l))) (sym holds)
              ∙ ap (λ l. base ++ l) (sym (append_assoc consumed more (contents b)));
        }
