-- ===== src/Transport/Bbb/Begun.antt =====
-- usbd-storage/src/transport/bbb.rs: the state in which a command begins.
use usbd_storage.Prelude.{
  ℕ, ◌≤◌, ◌≡◌, Bool, refl, sym, ap, ◌∙◌, subst, ◌⊎◌, inl, inr, none, [], length, arith, true, false,
  ltb, ◌==◌, ◌%◌, ◌^◌, Bool-cases, if◌then◌else◌,
}
use usbd_storage.Prelude.Outcome.{Outcome, done, fail, panic, out_of_fuel}
use usbd_storage.Prelude.Proc.{Proc, ◌>>=◌, ◌>>◌, lift, fail_if, modify}
use usbd_storage.Buffer.{clear, available_read}
use usbd_storage.Buffer.Contents.{contents}
use usbd_storage.Transport.{UsbStack, IsLawful, TransportError, error}
use usbd_storage.Transport.Bbb.Types.{
  BulkOnly, BulkOnlyError, full_packet_expected, Method, State, CommandBlockWrapper, DataDirection,
  out, into, not_expected, command_transfer, data_transfer_no_data, data_transfer_to_host,
  data_transfer_from_host, data_transfer_from_host_status_await, data_transfer_status_await,
}
use usbd_storage.Transport.Bbb.Packets.{
  packet_size, read_packet, write_packet, try_write_full_packet, mark_as_transferred,
}
use usbd_storage.Transport.Bbb.States.{
  enter_state_data_transfer_status_await, enter_state_data_transfer_from_host_status_await,
  enter_state_data_transfer_from_host, enter_state_data_transfer_to_host,
  enter_state_data_transfer_no_data,
}
use usbd_storage.Transport.Bbb.Handlers.{
  has_status, handle_data_transfer_from_host, handle_data_transfer_to_host,
  handle_data_transfer_no_data, handle_data_transfer_status_await, enter_data_transfer,
  start_data_transfer,
}
use usbd_storage.Transport.Bbb.Invariant.{Base, WithinTransfer, in_any_state}
use usbd_storage.Transport.Bbb.StatusSafety.{await_none}
use usbd_storage.Transport.Bbb.ToHostSafety.{assert_within}
use usbd_storage.Transport.Bbb.ParseCases.{BlockFits}

after_ran :
    {S E A B : Type 0} (r : Outcome E A) (s s' : S) (f : A → Proc S E B) (P : S → Type 0)
    → P s'
    → ((a : A) (s'' : S) → P s'' → P (f a s'').1)
    → P (((λ (x : S). (r, s')) >>= f) s).1
after_ran (done a) s s' f P h keep = keep a s' h
after_ran (fail e) s s' f P h keep = h
after_ran panic s s' f P h keep = h
after_ran out_of_fuel s s' f P h keep = h

-- What holds after the first program, and is kept by the second, holds after both.
after_both :
    {S E A B : Type 0} (m : Proc S E A) (f : A → Proc S E B) (P : S → Type 0) (s : S)
    → P (m s).1
    → ((a : A) (s' : S) → P s' → P (f a s').1)
    → P ((m >>= f) s).1
after_both m f P s h keep = after_ran (m s).0 s (m s).1 f P h keep

-- The states in which a command of each direction begins: with all its data to come, or none.
abbrev pub BeginsIn : DataDirection → State → Type 0
BeginsIn out x = (x ≡ data_transfer_from_host) ⊎ (x ≡ data_transfer_from_host_status_await)
BeginsIn into x = (x ≡ data_transfer_to_host) ⊎ (x ≡ data_transfer_status_await)
BeginsIn not_expected x = x ≡ data_transfer_status_await

module _ {World Endpoint : Type 0} where
  -- A command has begun.
  pub record Begun (d : DataDirection) (cbw : CommandBlockWrapper) (t : BulkOnly World Endpoint)
      : Type 0 where
    pub same_cbw : t.cbw ≡ cbw
    pub begins : BeginsIn d t.state
    pub no_status : t.cs ≡ none

module _ {World Endpoint UsbError : Type 0} (stack : UsbStack World Endpoint UsbError)
    (k : Method World Endpoint UsbError (Unit {0})) where
  from_host-Begun :
      (t : BulkOnly World Endpoint)
      → t.state ≡ data_transfer_from_host
      → t.cs ≡ none
      → Begun out t.cbw (handle_data_transfer_from_host stack k t).1
  unfolding handle_data_transfer_from_host has_status
      enter_state_data_transfer_from_host_status_await read_packet mark_as_transferred
  from_host-Begun t h c = elim (Bool-cases (t.left_to_transfer == 0)) [
    | inl over ↦
        (let t' = record t { state = data_transfer_from_host_status_await } in
          let run : handle_data_transfer_from_host stack k t
              ≡ handle_data_transfer_status_await stack k t' =
            ground (arith, h, over) in
          subst (Begun out t.cbw) (sym (ap (λ r. r.1) (run ∙ await_none stack k t' c (inr refl))))
            (record { same_cbw = refl; begins = inr refl; no_status = c }))
    | inr more ↦
        (let rest : ℕ → Method World Endpoint UsbError (Unit {0}) =
            λ n. modify (mark_as_transferred stack n) in
          let run : handle_data_transfer_from_host stack k t ≡ (read_packet stack >>= rest) t =
            ground (arith, h, more, c) in
          subst (Begun out t.cbw) (sym (ap (λ r. r.1) run)) (
            after_both (read_packet stack) rest (Begun out t.cbw) t
              (record { same_cbw = refl; begins = inl h; no_status = c })
              (λ n s b. record {
                same_cbw = b.same_cbw;
                begins = b.begins;
                no_status = b.no_status;
              })))
  ]

  write-Begun :
      (t : BulkOnly World Endpoint) (cbw : CommandBlockWrapper)
      → Begun into cbw t
      → Begun into cbw (write_packet stack t).1
  unfolding write_packet
  write-Begun t cbw b = record { same_cbw = b.same_cbw; begins = b.begins; no_status = b.no_status }

  fail_if-Begun :
      (test : Bool) (e : TransportError UsbError BulkOnlyError) (t : BulkOnly World Endpoint)
      (cbw : CommandBlockWrapper)
      → Begun into cbw t
      → Begun into cbw (fail_if test e t).1
  fail_if-Begun true e t cbw b = b
  fail_if-Begun false e t cbw b = b

  packet-Begun :
      (test : Bool) (t : BulkOnly World Endpoint)
      → Begun into t.cbw t
      → Begun into t.cbw ((if test then write_packet stack else try_write_full_packet stack) t).1
  unfolding try_write_full_packet
  packet-Begun true t b = write-Begun t t.cbw b
  packet-Begun false t b =
      let short = error full_packet_expected in
      after_both (lift (available_read t.buf))
        (λ n. fail_if (ltb n (packet_size stack t)) short >> write_packet stack) (Begun into t.cbw)
        t b
        (λ n s b'.
          after_both (fail_if (ltb n (packet_size stack t)) short) (λ u. write_packet stack)
            (Begun into t.cbw) s (fail_if-Begun (ltb n (packet_size stack t)) short s t.cbw b')
            (λ u s'. write-Begun s' t.cbw))

  to_host-Begun :
      IsLawful stack
      → (t : BulkOnly World Endpoint) → Base stack t
      → WithinTransfer t
      → t.state ≡ data_transfer_to_host
      → t.cs ≡ none
      → Begun into t.cbw (handle_data_transfer_to_host stack k t).1
  unfolding handle_data_transfer_to_host has_status enter_state_data_transfer_status_await
      mark_as_transferred
  to_host-Begun law t v within h c = elim (Bool-cases (t.left_to_transfer == 0)) [
    | inl over ↦
        (let t' = record t { state = data_transfer_status_await } in
          let run : handle_data_transfer_to_host stack k t
              ≡ handle_data_transfer_status_await stack k t' =
            ground (arith, h, over, assert_within stack law t v within) in
          subst (Begun into t.cbw) (sym (ap (λ r. r.1) (run ∙ await_none stack k t' c (inl refl))))
            (record { same_cbw = refl; begins = inr refl; no_status = c }))
    | inr more ↦
        (let rest : ℕ → Method World Endpoint UsbError (Unit {0}) =
            λ n. modify (mark_as_transferred stack n) in
          let packet : Method World Endpoint UsbError ℕ =
            if ltb t.left_to_transfer (packet_size stack t % 2 ^ 32)
            then write_packet stack
            else try_write_full_packet stack in
          let run : handle_data_transfer_to_host stack k t ≡ (packet >>= rest) t =
            ground (arith, h, more, c, assert_within stack law t v within) in
          subst (Begun into t.cbw) (sym (ap (λ r. r.1) run)) (
            after_both packet rest (Begun into t.cbw) t
              (packet-Begun (ltb t.left_to_transfer (packet_size stack t % 2 ^ 32)) t
                (record { same_cbw = refl; begins = inl h; no_status = c }))
              (λ n s b. record {
                same_cbw = b.same_cbw;
                begins = b.begins;
                no_status = b.no_status;
              })))
  ]

  no_data-Begun :
      (t : BulkOnly World Endpoint)
      → t.state ≡ data_transfer_no_data
      → t.cs ≡ none
      → Begun not_expected t.cbw (handle_data_transfer_no_data stack k t).1
  unfolding handle_data_transfer_no_data enter_state_data_transfer_status_await
  no_data-Begun t h c =
      let t' = record t { state = data_transfer_status_await } in
      let run : handle_data_transfer_no_data stack k t
          ≡ handle_data_transfer_status_await stack k t' =
        ground (arith, h) in
      subst (Begun not_expected t.cbw)
        (sym (ap (λ r. r.1) (run ∙ await_none stack k t' c (inl refl))))
        (record { same_cbw = refl; begins = refl; no_status = c })

  enter-Begun :
      IsLawful stack
      → (d : DataDirection) (t : BulkOnly World Endpoint) → Base stack t
      → t.cs ≡ none
      → 1 ≤ t.cbw.block_len
      → contents t.buf ≡ []
      → Begun d t.cbw (enter_data_transfer stack k d t).1
  unfolding enter_data_transfer enter_state_data_transfer_from_host
      enter_state_data_transfer_to_host enter_state_data_transfer_no_data
  enter-Begun law out t v c len empty =
      from_host-Begun (record t { state = data_transfer_from_host }) refl c
  enter-Begun law into t v c len empty =
      to_host-Begun law (record t { state = data_transfer_to_host })
        (in_any_state stack t _ (λ _. len) v) (omega (arith, ap length empty)) refl c
  enter-Begun law not_expected t v c len empty =
      no_data-Begun (record t { state = data_transfer_no_data }) refl c

  pub start-Begun :
      IsLawful stack
      → (cbw : CommandBlockWrapper) (t : BulkOnly World Endpoint) → Base stack t
      → t.state ≡ command_transfer
      → t.cs ≡ none
      → BlockFits cbw
      → Begun cbw.direction cbw (start_data_transfer stack k cbw t).1
  unfolding start_data_transfer clear packet_size
  start-Begun law cbw t v h c fits =
      let t' = record t {
        cbw = cbw;
        left_to_transfer = cbw.data_transfer_len;
        buf = record t.buf { rpos = 0; wpos = 0 };
      } in
      let run : start_data_transfer stack k cbw t ≡ enter_data_transfer stack k cbw.direction t' =
        ground arith in
      subst (Begun cbw.direction cbw) (sym (ap (λ r. r.1) run)) (
        enter-Begun law cbw.direction t'
          (record {
            buffer = omega arith;
            cbw_fits = v.cbw_fits;
            packet_fits = v.packet_fits;
            small = v.small;
            block_fits = fits.within;
            block_some = λ _. fits.some_bytes;
          })
          c fits.some_bytes refl)
