-- ===== src/Transport/Bbb/Flow/Polls.antt =====
-- usbd-storage/src/transport/bbb.rs: `poll`, and the debt of the transport.
use usbd_storage.Prelude.{
  ℕ, ◌-◌, ◌≤◌, ◌<◌, ◌≡◌, ◌≢◌, refl, sym, subst, ap, ap₂, ◌∙◌, ◌⊎◌, inl, inr, true, none, List, [],
  ◌++◌, length, arith, ◌==◌, ==_iff, Bool-cases, ltb, ltb→lt, not_ltb→le,
}
use usbd_storage.Prelude.Outcome.{done}
use usbd_storage.Buffer.{clear}
use usbd_storage.Buffer.Contents.{contents}
use usbd_storage.Transport.{UsbStack, IsLawful}
use usbd_storage.Transport.Bbb.Types.{
  BulkOnly, Method, DataDirection, out, into, not_expected, CommandBlockWrapper, command_transfer,
  command_transfer_invalid, data_transfer_no_data, data_transfer_to_host, data_transfer_from_host,
  data_transfer_status_await,
}
use usbd_storage.Transport.Bbb.Packets.{packet_size}
use usbd_storage.Transport.Bbb.States.{
  enter_state_data_transfer_from_host, enter_state_data_transfer_to_host,
  enter_state_data_transfer_no_data, enter_state_data_transfer_status_await,
}
use usbd_storage.Transport.Bbb.Handlers.{
  handle_data_transfer_to_host, handle_data_transfer_status_await, handle_cbw_invalid,
  handle_read_cbw, enter_data_transfer, start_data_transfer,
}
use usbd_storage.Transport.Bbb.ParseCases.{BlockFits}
use usbd_storage.Transport.Bbb.Invariant.{
  Base, WithinTransfer, in_any_state, in_other_state, commanded,
}
use usbd_storage.Transport.Bbb.HostSafety.{moved, moved-Base}
use usbd_storage.Transport.Bbb.ToHostSafety.{assert_within}
use usbd_storage.Transport.Bbb.Sending.{handle_sends, handle_waits}
use usbd_storage.Transport.Bbb.CbwCases.{no_packet, too_few, invalid, accepted, read_cbw-cases}
use usbd_storage.Transport.Bbb.Flow.{
  SendsOn, csw_owed, data_owed, tail_owed, owed_in_state, Untouched, same, stalled, after, Quiet,
  Pays,
}
use usbd_storage.Transport.Bbb.Flow.Sending.{OwesData, send_and_mark-Pays}
use usbd_storage.Transport.Bbb.Flow.ToHost.{csw_only}
use usbd_storage.Transport.Bbb.Flow.FromHost.{
  CameIn-Untouched, WhyNot-Untouched, await-Quietly, from_host-Quietly, no_data-Quietly,
}

module _ {World Endpoint UsbError : Type 0} (stack : UsbStack World Endpoint UsbError)
    (law : IsLawful stack) where
  module _ (k : Method World Endpoint UsbError (Unit {0})) (t : BulkOnly World Endpoint)
      (v : Base stack t) (within : WithinTransfer t) (pos : 1 ≤ packet_size stack t)
      (h : t.state ≡ data_transfer_to_host) (c : t.cs ≡ none) where
    to_host_over :
        (t.left_to_transfer == 0) ≡ true
        → handle_data_transfer_to_host stack k t
          ≡ handle_data_transfer_status_await stack k
              (record t { state = data_transfer_status_await })
    unfolding handle_data_transfer_to_host enter_state_data_transfer_status_await
    to_host_over all = ground (arith, assert_within stack law t v within, all)

    abbrev pub PaysOrQuiet : BulkOnly World Endpoint → Type 0
    PaysOrQuiet t' =
        ((contents t.buf ≢ []) × Pays stack t.in_ep t.bus t.cs (data_owed t) t')
        ⊎ Quiet stack t.bus (data_owed t) t'

    -- Without a status the data that wait are owed.
    to_host_pays :
        (t.left_to_transfer < packet_size stack t) ⊎ (packet_size stack t ≤ length (contents t.buf))
        → t.left_to_transfer ≢ 0
        → PaysOrQuiet (handle_data_transfer_to_host stack k t).1
    to_host_pays cond p =
        let owes : OwesData stack law t =
          λ b w left. owed_in_state data_transfer_to_host (moved stack law t b w left) h in
        subst PaysOrQuiet (sym (ap (λ r. r.1) (handle_sends stack law k t v within h c p cond)))
          (elim (send_and_mark-Pays stack law t (data_owed t) v within owes refl
            (subst SendsOn (sym h) tt) pos) [
              | inl paid ↦ inl paid
              | inr (empty, quiet) ↦ inr quiet
            ])

    pub to_host_none : PaysOrQuiet (handle_data_transfer_to_host stack k t).1
    to_host_none = elim (Bool-cases (t.left_to_transfer == 0)) [
      | inl all ↦
          (let t' = record t { state = data_transfer_status_await } in
            let debt = csw_only t within ((==_iff t.left_to_transfer 0).0 all) in
            inr (
              subst (λ p. Quiet stack t.bus p (handle_data_transfer_to_host stack k t).1) debt
                (subst (Quiet stack t.bus (csw_owed t)) (sym (ap (λ r. r.1) (to_host_over all))) (
                  await-Quietly stack law t' (in_other_state stack t _ (commanded h tt) v) k c
                    (inl refl)))))
      | inr more ↦ elim (Bool-cases (ltb t.left_to_transfer (packet_size stack t))) [
        | inl last ↦
            to_host_pays (inl (ltb→lt t.left_to_transfer (packet_size stack t) last))
              (λ e. ground arith)
        | inr full ↦ elim (Bool-cases (ltb (length (contents t.buf)) (packet_size stack t))) [
          | inr enough ↦
              to_host_pays (inr (not_ltb→le (length (contents t.buf)) (packet_size stack t) enough))
                (λ e. ground arith)
          | inl short ↦
              (let waits =
                  handle_waits stack law k t v within h c (λ e. ground arith)
                    (not_ltb→le t.left_to_transfer (packet_size stack t) full)
                    (ltb→lt (length (contents t.buf)) (packet_size stack t) short) in
                inr (
                  subst (Quiet stack t.bus (data_owed t)) (sym (ap (λ r. r.1) waits)) (record {
                    untouched = same t.bus;
                    still_owed = owed_in_state data_transfer_to_host t h;
                  })))
        ]
      ]
    ]

  -- A debt of nothing, with nothing written.
  abbrev pub Idle : World → BulkOnly World Endpoint → Type 0
  Idle w t' = Quiet stack w [] t'

  pub Quiet-after :
      (w w' : World) (p q : List ℕ) (t' : BulkOnly World Endpoint)
      → Untouched stack w w'
      → p ≡ q
      → Quiet stack w' p t'
      → Quiet stack w q t'
  Quiet-after w w' p q t' u e quiet = record {
    untouched = after u quiet.untouched;
    still_owed = quiet.still_owed ∙ e;
  }

  entered-Idle :
      (k : Method World Endpoint UsbError (Unit {0})) (d : DataDirection)
      (t : BulkOnly World Endpoint)
      → Base stack t
      → 1 ≤ packet_size stack t
      → t.cs ≡ none
      → 1 ≤ t.cbw.block_len
      → contents t.buf ≡ []
      → Idle t.bus (enter_data_transfer stack k d t).1
  unfolding enter_data_transfer enter_state_data_transfer_from_host
      enter_state_data_transfer_to_host enter_state_data_transfer_no_data packet_size
  entered-Idle k out t v pos c len empty =
      Quiet-after t.bus t.bus (csw_owed t) [] _ (same t.bus) (ap (λ o. tail_owed o 0 t.cbw.tag) c) (
        from_host-Quietly stack law (record t { state = data_transfer_from_host })
          (in_any_state stack t _ (λ _. len) v) k refl c)
  entered-Idle k into t v pos c len empty =
      let t' = record t { state = data_transfer_to_host } in
      elim (to_host_none k t' (in_any_state stack t _ (λ _. len) v) (omega (arith, ap length empty))
        pos refl c) [
          | inl (some_wait, paid) ↦ absurd (some_wait empty)
          | inr quiet ↦
              Quiet-after t.bus t.bus (data_owed t) [] _ (same t.bus)
                (ap₂
                  (λ x o. x ++ tail_owed o (t.left_to_transfer - length (contents t.buf)) t.cbw.tag)
                  empty c)
                quiet
        ]
  entered-Idle k not_expected t v pos c len empty =
      Quiet-after t.bus t.bus (csw_owed t) [] _ (same t.bus) (ap (λ o. tail_owed o 0 t.cbw.tag) c) (
        no_data-Quietly stack law (record t { state = data_transfer_no_data })
          (in_any_state stack t _ (λ _. len) v) k refl c)

  start-Idle :
      (k : Method World Endpoint UsbError (Unit {0})) (cbw : CommandBlockWrapper)
      (t : BulkOnly World Endpoint)
      → Base stack t
      → 1 ≤ packet_size stack t
      → t.state ≡ command_transfer
      → t.cs ≡ none
      → BlockFits cbw
      → Idle t.bus (start_data_transfer stack k cbw t).1
  unfolding start_data_transfer clear packet_size
  start-Idle k cbw t v pos h c fits =
      let t' = record t {
        cbw = cbw;
        left_to_transfer = cbw.data_transfer_len;
        buf = record t.buf { rpos = 0; wpos = 0 };
      } in
      let starts : start_data_transfer stack k cbw t
          ≡ enter_data_transfer stack k cbw.direction t' =
        ground arith in
      subst (Idle t.bus) (sym (ap (λ r. r.1) starts)) (
        entered-Idle k cbw.direction t'
          (record {
            buffer = omega arith;
            cbw_fits = v.cbw_fits;
            packet_fits = v.packet_fits;
            small = v.small;
            block_fits = fits.within;
            block_some = λ _. fits.some_bytes;
          })
          pos c fits.some_bytes refl)

  pub invalid-Idle :
      (t : BulkOnly World Endpoint)
      → t.state ≡ command_transfer_invalid
      → Idle t.bus (handle_cbw_invalid stack t).1
  unfolding handle_cbw_invalid
  invalid-Idle t h =
      let t' = record t { bus = stack.stall t.out_ep (stack.stall t.in_ep t.bus) } in
      let ends : handle_cbw_invalid stack t ≡ (done tt, t') = ground arith in
      subst (Idle t.bus) (sym (ap (λ r. r.1) ends)) (record {
        untouched = after (stalled t.in_ep t.bus) (stalled t.out_ep (stack.stall t.in_ep t.bus));
        still_owed = owed_in_state command_transfer_invalid t' h;
      })

  pub read_cbw-Idle :
      (k : Method World Endpoint UsbError (Unit {0})) (t : BulkOnly World Endpoint)
      → Base stack t
      → 1 ≤ packet_size stack t
      → t.state ≡ command_transfer
      → t.cs ≡ none
      → Idle t.bus (handle_read_cbw stack k t).1
  unfolding packet_size
  read_cbw-Idle k t v pos h c = elim (read_cbw-cases stack law t v.buffer h) [
    | no_packet x b w run why vb room kept ↦
        subst (Idle t.bus) (sym (ap (λ r. r.1) (run k))) (record {
          untouched = WhyNot-Untouched stack law t w x why;
          still_owed = owed_in_state command_transfer (record t { buf = b; bus = w }) h;
        })
    | too_few n bytes b w run why vb room holds few ↦
        subst (Idle t.bus) (sym (ap (λ r. r.1) (run k))) (record {
          untouched = CameIn-Untouched stack law t w n bytes why;
          still_owed = owed_in_state command_transfer (record t { buf = b; bus = w }) h;
        })
    | invalid n bytes b w run why vb room enough parse ↦
        (let t' = record t { buf = b; bus = w; state = command_transfer_invalid } in
          subst (Idle t.bus) (sym (ap (λ r. r.1) (run k))) (
            Quiet-after t.bus w [] [] _ (CameIn-Untouched stack law t w n bytes why) refl
              (invalid-Idle t' refl)))
    | accepted n bytes b w cbw run why vb room fits enough parse ↦
        (let t' = record t { buf = b; bus = w } in
          subst (Idle t.bus) (sym (ap (λ r. r.1) (run k))) (
            Quiet-after t.bus w [] [] _ (CameIn-Untouched stack law t w n bytes why) refl (
              start-Idle k cbw t' (moved-Base stack law t b w t.left_to_transfer v vb room) pos h c
                fits)))
  ]
