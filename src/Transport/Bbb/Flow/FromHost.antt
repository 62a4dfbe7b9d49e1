-- ===== src/Transport/Bbb/Flow/FromHost.antt =====
-- usbd-storage/src/transport/bbb.rs: the handlers that receive, and those without a status: none pays
-- the debt of a status.
use usbd_storage.Prelude.{
  ℕ, ◌-◌, ◌%◌, ◌^◌, ◌≤◌, ◌<◌, ◌≡◌, ◌≢◌, refl, sym, subst, ap, ◌⊎◌, inl, inr, true, false, none,
  some, List, arith, ◌==◌, Bool-cases, Option-cases, ltb, ltb→lt,
}
use usbd_storage.Prelude.Outcome.{done, fail, Result, ok, err}
use usbd_storage.Buffer.{clear}
use usbd_storage.Transport.{UsbStack, IsLawful, TransportError}
use usbd_storage.Transport.Bbb.Types.{
  BulkOnly, BulkOnlyError, Method, StatusAndResidue, data_transfer_no_data, data_transfer_from_host,
  data_transfer_from_host_ending, data_transfer_status_await, data_transfer_from_host_status_await,
}
use usbd_storage.Transport.Bbb.Packets.{packet_size, mark_as_transferred}
use usbd_storage.Transport.Bbb.PacketCases.{
  CameIn, WhyNot, received, not_received, read_packet-cases,
}
use usbd_storage.Transport.Bbb.States.{
  enter_state_data_transfer_from_host_ending, enter_state_data_transfer_from_host_status_await,
  enter_state_data_transfer_status_await,
}
use usbd_storage.Transport.Bbb.Handlers.{
  handle_data_transfer_from_host, handle_data_transfer_from_host_ending,
  handle_data_transfer_status_await, handle_data_transfer_no_data, has_status,
}
use usbd_storage.Transport.Bbb.Invariant.{Base, in_other_state, commanded}
use usbd_storage.Transport.Bbb.StatusSafety.{await_none}
use usbd_storage.Transport.Bbb.HostSafety.{moved}
use usbd_storage.Transport.Bbb.Flow.{
  csw_owed, owed_in_state, Untouched, same, was_read, Quiet, Pays, Flow,
}
use usbd_storage.Transport.Bbb.Flow.ToHost.{PaysStatus, status_begins-Pays, await-Pays}

module _ {World Endpoint UsbError : Type 0} (stack : UsbStack World Endpoint UsbError)
    (law : IsLawful stack) where
  read-Untouched :
      (ep : Endpoint) (given ys : List ℕ) (w w' : World) (r : Result UsbError ℕ)
      → stack.read ep given w ≡ (r, ys, w')
      → Untouched stack w w'
  read-Untouched ep given ys w w' r e =
      subst (Untouched stack w) (ap (λ p. p.2) e) (was_read ep given w)

  module _ (t : BulkOnly World Endpoint) (w : World) where
    pub CameIn-Untouched :
        (n : ℕ) (bytes : List ℕ) → CameIn stack t n bytes w → Untouched stack t.bus w
    CameIn-Untouched n bytes (given, ys, size, read, is) =
        read-Untouched t.out_ep given ys t.bus w (ok n) read

    pub WhyNot-Untouched :
        (x : TransportError UsbError BulkOnlyError) → WhyNot stack t x w → Untouched stack t.bus w
    WhyNot-Untouched x (inl (is, short, kept)) =
        subst (Untouched stack t.bus) (sym kept) (same t.bus)
    WhyNot-Untouched x (inr (e, given, ys, size, is, read)) =
        read-Untouched t.out_ep given ys t.bus w (err e) read

  module _ (t : BulkOnly World Endpoint) (v : Base stack t) where
    abbrev pub Quietly : BulkOnly World Endpoint → Type 0
    Quietly t' = Quiet stack t.bus (csw_owed t) t'

    from_host_ending_reads :
        (k : Method World Endpoint UsbError (Unit {0}))
        → t.state ≡ data_transfer_from_host_ending
        → 0 < t.left_to_transfer
        → Quietly (handle_data_transfer_from_host_ending stack k t).1
    unfolding handle_data_transfer_from_host_ending clear mark_as_transferred packet_size
    from_host_ending_reads k h p =
        let t₀ = record t { buf = record t.buf { rpos = 0; wpos = 0 } } in
        let handle = handle_data_transfer_from_host_ending stack k t in
        elim (read_packet-cases stack law t₀ (omega arith)) [
          | received n bytes b w run hb hn added why ↦
              (let t' = moved stack law t b w (t.left_to_transfer - n % 2 ^ 32) in
                let ends : handle ≡ (done tt, t') = ground (arith, run) in
                subst Quietly (sym (ap (λ r. r.1) ends)) (record {
                  untouched = CameIn-Untouched t₀ w n bytes why;
                  still_owed = owed_in_state data_transfer_from_host_ending t' h;
                }))
          | not_received x b w run kept why ↦
              (let t' = moved stack law t b w t.left_to_transfer in
                let ends : handle ≡ (fail x, t') = ground (arith, run) in
                subst Quietly (sym (ap (λ r. r.1) ends)) (record {
                  untouched = WhyNot-Untouched t₀ w x why;
                  still_owed = owed_in_state data_transfer_from_host_ending t' h;
                }))
        ]

    from_host_reads :
        (k : Method World Endpoint UsbError (Unit {0}))
        → t.state ≡ data_transfer_from_host
        → t.left_to_transfer ≢ 0
        → t.cs ≡ none
        → Quietly (handle_data_transfer_from_host stack k t).1
    unfolding handle_data_transfer_from_host mark_as_transferred has_status
    from_host_reads k h p c =
        let handle = handle_data_transfer_from_host stack k t in
        elim (read_packet-cases stack law t v.buffer) [
          | received n bytes b w run hb hn added why ↦
              (let t' = moved stack law t b w (t.left_to_transfer - n % 2 ^ 32) in
                let ends : handle ≡ (done tt, t') = ground (arith, run) in
                subst Quietly (sym (ap (λ r. r.1) ends)) (record {
                  untouched = CameIn-Untouched t w n bytes why;
                  still_owed = owed_in_state data_transfer_from_host t' h;
                }))
          | not_received x b w run kept why ↦
              (let t' = moved stack law t b w t.left_to_transfer in
                let ends : handle ≡ (fail x, t') = ground (arith, run) in
                subst Quietly (sym (ap (λ r. r.1) ends)) (record {
                  untouched = WhyNot-Untouched t w x why;
                  still_owed = owed_in_state data_transfer_from_host t' h;
                }))
        ]

    -- Without a status the transport waits for one.
    pub await-Quietly :
        (k : Method World Endpoint UsbError (Unit {0}))
        → t.cs ≡ none
        → (t.state ≡ data_transfer_status_await) ⊎ (t.state ≡ data_transfer_from_host_status_await)
        → Quietly (handle_data_transfer_status_await stack k t).1
    await-Quietly k c h = subst Quietly (sym (ap (λ r. r.1) (await_none stack k t c h))) (record {
      untouched = same t.bus;
      still_owed = elim h [
        | inl e ↦ owed_in_state data_transfer_status_await t e
        | inr e ↦ owed_in_state data_transfer_from_host_status_await t e
      ];
    })

    from_host_over :
        (k : Method World Endpoint UsbError (Unit {0}))
        → t.state ≡ data_transfer_from_host
        → (t.left_to_transfer == 0) ≡ true
        → handle_data_transfer_from_host stack k t
          ≡ handle_data_transfer_status_await stack k
              (record t { state = data_transfer_from_host_status_await })
    unfolding handle_data_transfer_from_host enter_state_data_transfer_from_host_status_await
    from_host_over k h all = ground (arith, all)

    from_host_ends :
        (k : Method World Endpoint UsbError (Unit {0})) (s : StatusAndResidue)
        → t.state ≡ data_transfer_from_host
        → (t.left_to_transfer == 0) ≡ false
        → t.cs ≡ some s
        → handle_data_transfer_from_host stack k t
          ≡ handle_data_transfer_from_host_ending stack k
              (record t { state = data_transfer_from_host_ending })
    unfolding handle_data_transfer_from_host enter_state_data_transfer_from_host_ending has_status
    from_host_ends k s h more c = ground (arith, more, c)

    no_data_awaits :
        (k : Method World Endpoint UsbError (Unit {0}))
        → t.state ≡ data_transfer_no_data
        → handle_data_transfer_no_data stack k t
          ≡ handle_data_transfer_status_await stack k
              (record t { state = data_transfer_status_await })
    unfolding handle_data_transfer_no_data enter_state_data_transfer_status_await
    no_data_awaits k h = ground arith

  module _ (t : BulkOnly World Endpoint) (v : Base stack t)
      (k : Method World Endpoint UsbError (Unit {0})) where
    pub from_host-Quietly :
        t.state ≡ data_transfer_from_host
        → t.cs ≡ none
        → Quietly t v (handle_data_transfer_from_host stack k t).1
    from_host-Quietly h c =
        let t' = record t { state = data_transfer_from_host_status_await } in
        elim (Bool-cases (t.left_to_transfer == 0)) [
          | inl all ↦
              subst (Quietly t v) (sym (ap (λ r. r.1) (from_host_over t v k h all)))
                (await-Quietly t' (in_other_state stack t _ (commanded h tt) v) k c (inr refl))
          | inr more ↦ from_host_reads t v k h (λ e. ground arith) c
        ]

    pub no_data-Quietly :
        t.state ≡ data_transfer_no_data
        → t.cs ≡ none
        → Quietly t v (handle_data_transfer_no_data stack k t).1
    no_data-Quietly h c = subst (Quietly t v) (sym (ap (λ r. r.1) (no_data_awaits t v k h))) (
        await-Quietly (record t { state = data_transfer_status_await })
          (in_other_state stack t _ (commanded h tt) v) k c (inl refl))

    module _ (pays : PaysStatus stack k) (pos : 1 ≤ packet_size stack t) where
      abbrev Flows : BulkOnly World Endpoint → Type 0
      Flows = Flow stack t.in_ep t.bus t.cs (csw_owed t)

      pub from_host_ending-Flow :
          (s : StatusAndResidue)
          → t.state ≡ data_transfer_from_host_ending
          → t.cs ≡ some s
          → Flows (handle_data_transfer_from_host_ending stack k t).1
      unfolding handle_data_transfer_from_host_ending
      from_host_ending-Flow s h c = elim (Bool-cases (ltb 0 t.left_to_transfer)) [
        | inl more ↦ inl (from_host_ending_reads t v k h (ltb→lt _ _ more))
        | inr all ↦
            (let (t', e, next) = status_begins-Pays stack k pays t s v c (commanded h tt) pos in
              let ends : handle_data_transfer_from_host_ending stack k t ≡ k t' =
                ground (arith, e) in
              inr (
                subst (Pays stack t.in_ep t.bus t.cs (csw_owed t)) (sym (ap (λ r. r.1) ends)) next))
      ]

  module _ (t : BulkOnly World Endpoint) (v : Base stack t)
      (k : Method World Endpoint UsbError (Unit {0})) (pays : PaysStatus stack k)
      (pos : 1 ≤ packet_size stack t) where
    pub from_host-Flow :
        t.state ≡ data_transfer_from_host
        → Flow stack t.in_ep t.bus t.cs (csw_owed t) (handle_data_transfer_from_host stack k t).1
    from_host-Flow h = elim (Option-cases t.cs) [
      | inl c ↦ inl (from_host-Quietly t v k h c)
      | inr (s, c) ↦ elim (Bool-cases (t.left_to_transfer == 0)) [
        | inl all ↦
            (let t' = record t { state = data_transfer_from_host_status_await } in
              inr (
                subst (Pays stack t.in_ep t.bus t.cs (csw_owed t))
                  (sym (ap (λ r. r.1) (from_host_over t v k h all)))
                  (await-Pays stack k pays t' s (in_other_state stack t _ (commanded h tt) v) c
                    (inr refl) (unfold packet_size in pos))))
        | inr more ↦
            (let t' = record t { state = data_transfer_from_host_ending } in
              subst (Flow stack t.in_ep t.bus t.cs (csw_owed t))
                (sym (ap (λ r. r.1) (from_host_ends t v k s h more c)))
                (from_host_ending-Flow t' (in_other_state stack t _ (commanded h tt) v) k pays
                  (unfold packet_size in pos) s refl c))
      ]
    ]

    pub await-Flow :
        (t.state ≡ data_transfer_status_await) ⊎ (t.state ≡ data_transfer_from_host_status_await)
        → Flow stack t.in_ep t.bus t.cs (csw_owed t) (handle_data_transfer_status_await stack k t).1
    await-Flow h = elim (Option-cases t.cs) [
      | inl c ↦ inl (await-Quietly t v k c h)
      | inr (s, c) ↦ inr (await-Pays stack k pays t s v c h pos)
    ]

  module _ (t : BulkOnly World Endpoint) (v : Base stack t)
      (k : Method World Endpoint UsbError (Unit {0})) (pays : PaysStatus stack k)
      (pos : 1 ≤ packet_size stack t) where
    pub no_data-Flow :
        t.state ≡ data_transfer_no_data
        → Flow stack t.in_ep t.bus t.cs (csw_owed t) (handle_data_transfer_no_data stack k t).1
    no_data-Flow h =
        let t' = record t { state = data_transfer_status_await } in
        subst (Flow stack t.in_ep t.bus t.cs (csw_owed t))
          (sym (ap (λ r. r.1) (no_data_awaits t v k h)))
          (await-Flow t' (in_other_state stack t _ (commanded h tt) v) k pays
            (unfold packet_size in pos) (inl refl))
