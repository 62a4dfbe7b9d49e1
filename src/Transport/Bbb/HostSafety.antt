-- ===== src/Transport/Bbb/HostSafety.antt =====
-- usbd-storage/src/transport/bbb.rs: the handlers of the transfer from the host, and the invariant.
use usbd_storage.Prelude.{
  ℕ, ◌-◌, ◌%◌, ◌^◌, ◌<◌, ◌≡◌, ◌≢◌, refl, sym, subst, ltb, ◌==◌, Bool-cases, Option-cases, ltb→lt,
  none, arith, inl, inr,
}
use usbd_storage.Prelude.Outcome.{done, fail}
use usbd_storage.Buffer.{Buffer, clear}
use usbd_storage.Buffer.Contents.{IsValid, capacity}
use usbd_storage.Transport.{UsbStack, IsLawful}
use usbd_storage.Transport.Bbb.Types.{
  BulkOnly, Method, State, data_transfer_from_host, data_transfer_from_host_ending,
  data_transfer_from_host_status_await,
}
use usbd_storage.Transport.Bbb.Packets.{packet_size, mark_as_transferred}
use usbd_storage.Transport.Bbb.PacketCases.{received, not_received, read_packet-cases}
use usbd_storage.Transport.Bbb.States.{
  enter_state_data_transfer_from_host_status_await, enter_state_data_transfer_from_host_ending,
}
use usbd_storage.Transport.Bbb.Handlers.{
  has_status, handle_data_transfer_status_await, handle_data_transfer_from_host,
  handle_data_transfer_from_host_ending,
}
use usbd_storage.Transport.Bbb.Invariant.{Base, Inv, in_other_state, commanded, InState, StatusSet}
use usbd_storage.Transport.Bbb.StatusSafety.{
  Safe, Safe-run, SafeStatus, status_begins, status_await-Safe,
}

module _ {World Endpoint UsbError : Type 0} (stack : UsbStack World Endpoint UsbError)
    (law : IsLawful stack) where
  -- The buffer and the bus change, and the count of bytes left.
  abbrev pub moved : BulkOnly World Endpoint → Buffer → World → ℕ → BulkOnly World Endpoint
  moved t b w left = record t { buf = b; bus = w; left_to_transfer = left }

  pub moved-Base :
      (t : BulkOnly World Endpoint) (b : Buffer) (w : World) (left : ℕ)
      → Base stack t
      → IsValid b
      → capacity b ≡ capacity t.buf
      → Base stack (moved t b w left)
  unfolding packet_size
  moved-Base t b w left v vb c = record {
    buffer = vb;
    cbw_fits = omega (arith, v.cbw_fits);
    packet_fits = omega (arith, v.packet_fits);
    small = omega (arith, v.small);
    block_fits = v.block_fits;
    block_some = v.block_some;
  }

  pub moved-Inv :
      (t : BulkOnly World Endpoint) (b : Buffer) (w : World) (left : ℕ) (x : State)
      → Base stack t
      → IsValid b
      → capacity b ≡ capacity t.buf
      → t.state ≡ x
      → InState x (moved t b w left)
      → Inv stack (moved t b w left)
  moved-Inv t b w left x v vb c h i = record {
    base = moved-Base t b w left v vb c;
    in_state = subst (λ y. InState y (moved t b w left)) (sym h) i;
  }

  module _ (k : Method World Endpoint UsbError (Unit {0})) (safe : SafeStatus stack k) where
    from_host_ending-reads :
        (t : BulkOnly World Endpoint)
        → Base stack t
        → t.state ≡ data_transfer_from_host_ending
        → 0 < t.left_to_transfer
        → StatusSet t
        → Safe stack (handle_data_transfer_from_host_ending stack k) t
    unfolding handle_data_transfer_from_host_ending clear mark_as_transferred packet_size
    from_host_ending-reads t v h p set =
        let t₀ = record t { buf = record t.buf { rpos = 0; wpos = 0 } } in
        let handle = handle_data_transfer_from_host_ending stack k in
        elim (read_packet-cases stack law t₀ (omega arith)) [
          | received n bytes b w run hb hn added why ↦
              (let left = t.left_to_transfer - n % 2 ^ 32 in
                Safe-run stack handle t (done tt, moved t b w left) (ground (arith, run))
                  (moved-Inv t b w left _ v added.valid added.room h set))
          | not_received x b w run kept why ↦
              Safe-run stack handle t (fail x, moved t b w t.left_to_transfer) (ground (arith, run))
                (moved-Inv t b w _ _ v kept.valid kept.room h set)
        ]

    pub from_host_ending-Safe :
        (t : BulkOnly World Endpoint)
        → Base stack t
        → t.state ≡ data_transfer_from_host_ending
        → StatusSet t
        → Safe stack (handle_data_transfer_from_host_ending stack k) t
    unfolding handle_data_transfer_from_host_ending
    from_host_ending-Safe t v h (s, c) = elim (Bool-cases (ltb 0 t.left_to_transfer)) [
      | inl more ↦ from_host_ending-reads t v h (ltb→lt _ _ more) (s, c)
      | inr all ↦
          (let (t', e, next) = status_begins stack k safe t s v c (commanded h tt) in
            Safe-run stack (handle_data_transfer_from_host_ending stack k) t (k t')
              (ground (arith, e)) next)
    ]

    from_host-reads :
        (t : BulkOnly World Endpoint)
        → Base stack t
        → t.state ≡ data_transfer_from_host
        → t.left_to_transfer ≢ 0
        → t.cs ≡ none
        → Safe stack (handle_data_transfer_from_host stack k) t
    unfolding handle_data_transfer_from_host mark_as_transferred has_status
    from_host-reads t v h p c =
        let handle = handle_data_transfer_from_host stack k in
        elim (read_packet-cases stack law t v.buffer) [
          | received n bytes b w run hb hn added why ↦
              (let left = t.left_to_transfer - n % 2 ^ 32 in
                Safe-run stack handle t (done tt, moved t b w left) (ground (arith, run))
                  (moved-Inv t b w left _ v added.valid added.room h tt))
          | not_received x b w run kept why ↦
              Safe-run stack handle t (fail x, moved t b w t.left_to_transfer) (ground (arith, run))
                (moved-Inv t b w _ _ v kept.valid kept.room h tt)
        ]

    pub from_host-Safe :
        (t : BulkOnly World Endpoint)
        → Base stack t
        → t.state ≡ data_transfer_from_host
        → Safe stack (handle_data_transfer_from_host stack k) t
    unfolding handle_data_transfer_from_host enter_state_data_transfer_from_host_ending
        enter_state_data_transfer_from_host_status_await has_status
    from_host-Safe t v h =
        let handle = handle_data_transfer_from_host stack k in
        elim (Bool-cases (t.left_to_transfer == 0)) [
          | inl all ↦
              (let t' = record t { state = data_transfer_from_host_status_await } in
                Safe-run stack handle t (handle_data_transfer_status_await stack k t')
                  (ground arith)
                  (status_await-Safe stack k safe t'
                    (record { base = in_other_state stack t _ (commanded h tt) v; in_state = tt })
                    (inr refl)))
          | inr more ↦ elim (Option-cases t.cs) [
            | inl c ↦ from_host-reads t v h (λ e. ground arith) c
            | inr (s, c) ↦
                (let t' = record t { state = data_transfer_from_host_ending } in
                  Safe-run stack handle t (handle_data_transfer_from_host_ending stack k t')
                    (ground arith)
                    (from_host_ending-Safe t' (in_other_state stack t _ (commanded h tt) v) refl
                      (s, c)))
          ]
        ]
