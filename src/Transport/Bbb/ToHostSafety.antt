-- ===== src/Transport/Bbb/ToHostSafety.antt =====
-- usbd-storage/src/transport/bbb.rs: the handlers of the transfer to the host, and the invariant.
use usbd_storage.Prelude.{
  ℕ, ◌+◌, ◌-◌, ◌%◌, ◌^◌, ◌≤◌, ◌≡◌, ◌≢◌, refl, sym, ap, append-nil, ◌++◌, ltb→lt, not_ltb→le, min,
  ltb, ◌==◌, Bool-cases, Option-cases, none, length, replicate, arith, inl, inr, length-drop,
  length-append, length-replicate,
}
use usbd_storage.Prelude.Outcome.{done, fail}
use usbd_storage.Prelude.Proc.{◌>>=◌, modify}
use usbd_storage.Buffer.{Buffer}
use usbd_storage.Buffer.Contents.{IsValid, contents, capacity, length-contents, available_read-done}
use usbd_storage.Buffer.Writing.{fill_up_to-done}
use usbd_storage.Transport.{UsbStack, IsLawful, TransportError, error}
use usbd_storage.Transport.Bbb.Types.{
  BulkOnly, BulkOnlyError, Method, State, data_transfer_to_host, data_transfer_to_host_ending,
  data_transfer_status_await, fill_byte, full_packet_expected,
}
use usbd_storage.Transport.Bbb.Packets.{
  packet_size, write_packet, try_write_full_packet, mark_as_transferred,
  assert_buffer_len_not_exceeding,
}
use usbd_storage.Transport.Bbb.PacketCases.{sent, not_sent, nothing, write_packet-cases}
use usbd_storage.Transport.Bbb.States.{
  enter_state_data_transfer_status_await, enter_state_data_transfer_to_host_ending,
}
use usbd_storage.Transport.Bbb.Handlers.{
  has_status, handle_data_transfer_status_await, handle_data_transfer_to_host,
  handle_data_transfer_to_host_ending,
}
use usbd_storage.Transport.Bbb.Invariant.{
  Base, in_other_state, commanded, InState, StatusSet, WithinTransfer,
}
use usbd_storage.Transport.Bbb.StatusSafety.{
  Safe, Safe-run, SafeStatus, status_begins, status_await-Safe,
}
use usbd_storage.Transport.Bbb.HostSafety.{moved, moved-Base, moved-Inv}

module _ {World Endpoint UsbError : Type 0} (stack : UsbStack World Endpoint UsbError)
    (law : IsLawful stack) where
  -- The end of both handlers.
  abbrev pub send_and_mark : Method World Endpoint UsbError (Unit {0})
  send_and_mark = do bytes_sent ← write_packet stack; modify (mark_as_transferred stack bytes_sent)

  abbrev AllowsWithin : State → BulkOnly World Endpoint → Type 0
  AllowsWithin x t =
      (b : Buffer) (w : World) (left : ℕ)
      → length (contents b) ≤ left
      → InState x (moved stack law t b w left)

  send_and_mark-Safe :
      (t : BulkOnly World Endpoint) (x : State)
      → Base stack t
      → t.state ≡ x
      → WithinTransfer t
      → AllowsWithin x t
      → Safe stack send_and_mark t
  unfolding mark_as_transferred
  send_and_mark-Safe t x v h within allow = elim (write_packet-cases stack law t v.buffer) [
    | sent n b w run wrote bound vb holds room full ↦
        (let left = t.left_to_transfer - n % 2 ^ 32 in
          let fits : length (contents b) ≤ left = omega (
            arith,
            within,
            bound,
            ap length holds,
            length-drop n (contents t.buf),
            v.small,
            length-contents t.buf v.buffer,
            v.buffer.within,
          ) in
          Safe-run stack send_and_mark t (done tt, moved stack law t b w left) (ground (arith, run))
            (moved-Inv stack law t b w left x v vb room h (allow b w left fits)))
    | not_sent e b w run kept why full ↦
        Safe-run stack send_and_mark t (fail e, moved stack law t b w t.left_to_transfer)
          (ground (arith, run))
          (moved-Inv stack law t b w _ x v kept.valid kept.room h
            (allow b w _ (omega (arith, within, ap length kept.same))))
    | nothing b run empty kept ↦
        (let left = t.left_to_transfer - 0 % 2 ^ 32 in
          Safe-run stack send_and_mark t (done tt, moved stack law t b t.bus left)
            (ground (arith, run))
            (moved-Inv stack law t b t.bus left x v kept.valid kept.room h
              (allow b t.bus left (omega (arith, within, ap length kept.same)))))
  ]

  pub assert_within :
      (t : BulkOnly World Endpoint)
      → Base stack t
      → WithinTransfer t
      → assert_buffer_len_not_exceeding stack t ≡ (done tt, t)
  unfolding assert_buffer_len_not_exceeding
  assert_within t v within =
      ground (arith, available_read-done {E = TransportError UsbError BulkOnlyError} t.buf v.buffer)

  module _ (k : Method World Endpoint UsbError (Unit {0})) where
    -- The filler that is added, and what follows it.
    pub record Filled (t : BulkOnly World Endpoint) (b : Buffer) (gap : ℕ) : Type 0 where
      pub run : handle_data_transfer_to_host_ending stack k t ≡ send_and_mark (record t { buf = b })
      pub valid : IsValid b
      pub room : capacity b ≡ capacity t.buf
      pub holds : contents b ≡ contents t.buf ++ replicate gap fill_byte
      pub within : length (contents t.buf) + gap ≤ t.left_to_transfer
      pub enough : min t.left_to_transfer (packet_size stack t) ≤ length (contents t.buf) + gap

    pub ending_fills :
        (t : BulkOnly World Endpoint)
        → Base stack t
        → t.state ≡ data_transfer_to_host_ending
        → WithinTransfer t
        → min t.left_to_transfer (packet_size stack t) ≢ 0
        → (b : Buffer) × (gap : ℕ) × Filled t b gap
    unfolding handle_data_transfer_to_host_ending
    ending_fills t v h within p =
        let size = packet_size stack t in
        let available = length (contents t.buf) in
        let read_eq =
          available_read-done {E = TransportError UsbError BulkOnlyError} t.buf v.buffer in
        let has_to_send = min t.left_to_transfer size in
        elim (Bool-cases (ltb available has_to_send)) [
          | inr enough ↦ (
            t.buf,
            0,
            record {
              run = ground (arith, assert_within t v within, read_eq);
              valid = v.buffer;
              room = refl;
              holds = sym (append-nil (contents t.buf));
              within = omega (arith, within);
              enough = omega (arith, not_ltb→le available has_to_send enough);
            },
          )
          | inl short ↦
              (let (b, run, added) =
                  fill_up_to-done {E = TransportError UsbError BulkOnlyError} fill_byte
                    (has_to_send - available) t.buf v.buffer in
                let gap = min (capacity t.buf - available) (has_to_send - available) in
                (
                  b,
                  gap,
                  record {
                    run = ground (arith, assert_within t v within, read_eq, run);
                    valid = added.valid;
                    room = added.room;
                    holds = added.holds;
                    within = omega (arith, ltb→lt available has_to_send short);
                    enough = omega (arith, v.packet_fits, ltb→lt available has_to_send short);
                  },
                ))
        ]

  module _ (k : Method World Endpoint UsbError (Unit {0})) (safe : SafeStatus stack k) where
    to_host_ending-sends :
        (t : BulkOnly World Endpoint)
        → Base stack t
        → t.state ≡ data_transfer_to_host_ending
        → WithinTransfer t
        → StatusSet t
        → min t.left_to_transfer (packet_size stack t) ≢ 0
        → Safe stack (handle_data_transfer_to_host_ending stack k) t
    to_host_ending-sends t v h within set p =
        let (b, gap, filled) = ending_fills k t v h within p in
        let t₁ = record t { buf = b } in
        Safe-run stack (handle_data_transfer_to_host_ending stack k) t (send_and_mark t₁) filled.run
          (send_and_mark-Safe t₁ data_transfer_to_host_ending
            (moved-Base stack law t b t.bus t.left_to_transfer v filled.valid filled.room) h
            (omega (
              arith,
              filled.within,
              ap length filled.holds,
              length-append (contents t.buf) (replicate gap fill_byte),
              length-replicate gap fill_byte,
            ))
            (λ b w left fits. (fits, set)))

    pub to_host_ending-Safe :
        (t : BulkOnly World Endpoint)
        → Base stack t
        → t.state ≡ data_transfer_to_host_ending
        → WithinTransfer t
        → StatusSet t
        → Safe stack (handle_data_transfer_to_host_ending stack k) t
    unfolding handle_data_transfer_to_host_ending
    to_host_ending-Safe t v h within (s, c) =
        elim (Bool-cases (min t.left_to_transfer (packet_size stack t) == 0)) [
          | inl all ↦
              (let (t', e, next) = status_begins stack k safe t s v c (commanded h tt) in
                Safe-run stack (handle_data_transfer_to_host_ending stack k) t (k t')
                  (ground (arith, assert_within t v within, e)) next)
          | inr more ↦ to_host_ending-sends t v h within (s, c) (λ e. ground arith)
        ]

    to_host-sends :
        (t : BulkOnly World Endpoint)
        → Base stack t
        → t.state ≡ data_transfer_to_host
        → WithinTransfer t
        → t.left_to_transfer ≢ 0
        → t.cs ≡ none
        → Safe stack (handle_data_transfer_to_host stack k) t
    unfolding handle_data_transfer_to_host has_status try_write_full_packet
    to_host-sends t v h within p c =
        let handle = handle_data_transfer_to_host stack k in
        let checked = assert_within t v within in
        let read_eq =
          available_read-done {E = TransportError UsbError BulkOnlyError} t.buf v.buffer in
        let sends = send_and_mark-Safe t data_transfer_to_host v h within (λ b w left fits. fits) in
        elim (Bool-cases (ltb t.left_to_transfer (packet_size stack t % 2 ^ 32))) [
          | inl last ↦ Safe-run stack handle t (send_and_mark t) (ground (arith, checked)) sends
          | inr full ↦ elim (Bool-cases (ltb (length (contents t.buf)) (packet_size stack t))) [
            | inl short ↦
                Safe-run stack handle t (fail (error full_packet_expected), t)
                  (ground (arith, checked, read_eq))
                  (moved-Inv stack law t t.buf t.bus t.left_to_transfer _ v v.buffer refl h within)
            | inr enough ↦
                Safe-run stack handle t (send_and_mark t) (ground (arith, checked, read_eq)) sends
          ]
        ]

    pub to_host-Safe :
        (t : BulkOnly World Endpoint)
        → Base stack t
        → t.state ≡ data_transfer_to_host
        → WithinTransfer t
        → Safe stack (handle_data_transfer_to_host stack k) t
    unfolding handle_data_transfer_to_host enter_state_data_transfer_status_await
        enter_state_data_transfer_to_host_ending has_status
    to_host-Safe t v h within =
        let handle = handle_data_transfer_to_host stack k in
        let checked = assert_within t v within in
        elim (Bool-cases (t.left_to_transfer == 0)) [
          | inl all ↦
              (let t' = record t { state = data_transfer_status_await } in
                Safe-run stack handle t (handle_data_transfer_status_await stack k t')
                  (ground (arith, checked))
                  (status_await-Safe stack k safe t'
                    (record { base = in_other_state stack t _ (commanded h tt) v; in_state = tt })
                    (inl refl)))
          | inr more ↦ elim (Option-cases t.cs) [
            | inl c ↦ to_host-sends t v h within (λ e. ground arith) c
            | inr (s, c) ↦
                (let t' = record t { state = data_transfer_to_host_ending } in
                  Safe-run stack handle t (handle_data_transfer_to_host_ending stack k t')
                    (ground (arith, checked))
                    (to_host_ending-Safe t' (in_other_state stack t _ (commanded h tt) v) refl
                      within (s, c)))
          ]
        ]
