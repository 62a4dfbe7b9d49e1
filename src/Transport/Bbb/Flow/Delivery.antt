-- ===== src/Transport/Bbb/Flow/Delivery.antt =====
-- usbd-storage/src/transport/bbb.rs: many polls, over a bus whose bulk IN endpoint keeps a log.
use usbd_storage.Prelude.{
  ℕ, zero, suc, ◌+◌, ◌-◌, ◌≤◌, ◌≡◌, ◌≢◌, refl, sym, subst, ap, ap₂, ◌∙◌, inl, inr, some, List, [],
  ◌++◌, length, take, replicate, arith, append_assoc, append-nil, length-append, length-take, ◌==◌,
  ==_iff, Bool-cases,
}
use usbd_storage.Prelude.Outcome.{Result}
use usbd_storage.Buffer.Contents.{contents}
use usbd_storage.Transport.{UsbStack, IsLawful, CommandStatus}
use usbd_storage.Transport.Bbb.Types.{BulkOnly, StatusAndResidue, data_transfer_to_host, fill_byte}
use usbd_storage.Transport.Bbb.Wrapper.{csw_bytes}
use usbd_storage.Transport.Bbb.Packets.{packet_size}
use usbd_storage.Transport.Bbb.Handlers.{poll}
use usbd_storage.Transport.Bbb.Api.{set_status}
use usbd_storage.Transport.Bbb.Invariant.{Inv}
use usbd_storage.Transport.Bbb.PollSafety.{poll-Safe}
use usbd_storage.Transport.Bbb.ApiSafety.{set_status-sets}
use usbd_storage.Transport.Bbb.Reach.{Safe-Inv}
use usbd_storage.Transport.Bbb.Flow.{
  SendsOn, owed, data_owed, owed_in_state, taken, Untouched, same, was_read, stalled, unstalled,
  after, Pays,
}
use usbd_storage.Transport.Bbb.Flow.Sending.{empty_of_length}
use usbd_storage.Transport.Bbb.Flow.Debt.{poll-Flow, poll-Pays}

module _ {World Endpoint UsbError : Type 0} (stack : UsbStack World Endpoint UsbError) where
  -- `log` is what the bulk IN endpoint has taken over for the host: a write adds what it takes, and
  -- nothing else adds to it.
  pub record IsLog (log : World → List ℕ) : Type 0 where
    pub write_logs :
        (ep : Endpoint) (bytes : List ℕ) (w w' : World) (r : Result UsbError ℕ)
        → stack.write ep bytes w ≡ (r, w')
        → log w' ≡ log w ++ take (taken r) bytes
    pub read_logs :
        (ep : Endpoint) (given : List ℕ) (w : World) → log (stack.read ep given w).2 ≡ log w
    pub stall_logs : (ep : Endpoint) (w : World) → log (stack.stall ep w) ≡ log w
    pub unstall_logs : (ep : Endpoint) (w : World) → log (stack.unstall ep w) ≡ log w

  -- An endpoint has room for a byte at least.
  abbrev pub HasPackets : Type 0
  HasPackets = (ep : Endpoint) → 1 ≤ stack.max_packet_size ep

  -- The host keeps reading: of bytes that are offered, some are taken.
  abbrev pub IsReady : Type 0
  IsReady =
      (ep : Endpoint) (bytes : List ℕ) (w w' : World) (r : Result UsbError ℕ)
      → bytes ≢ []
      → stack.write ep bytes w ≡ (r, w')
      → 1 ≤ taken r

  abbrev pub poll_times : ℕ → BulkOnly World Endpoint → BulkOnly World Endpoint
  poll_times zero t = t
  poll_times (suc n) t = poll_times n (poll stack t).1

  abbrev pub status_and_residue : BulkOnly World Endpoint → CommandStatus → ℕ → StatusAndResidue
  status_and_residue t status data_processed = record {
    status = status;
    data_residue = t.cbw.data_transfer_len - data_processed;
  }

  -- The whole answer, when the status is set: the data that wait, the filler up to the length of the
  -- transfer, and the CSW.
  abbrev pub answer : BulkOnly World Endpoint → CommandStatus → ℕ → List ℕ
  answer t status data_processed =
      contents t.buf
      ++ (replicate (t.left_to_transfer - length (contents t.buf)) fill_byte
          ++ csw_bytes t.cbw.tag (status_and_residue t status data_processed))

  module _ (law : IsLawful stack) (sizes : HasPackets) where
    module _ (log : World → List ℕ) (logs : IsLog log) where
      Untouched-log : {w w' : World} → Untouched stack w w' → log w' ≡ log w
      Untouched-log (same w) = refl
      Untouched-log (was_read ep given w) = logs.read_logs ep given w
      Untouched-log (stalled ep w) = logs.stall_logs ep w
      Untouched-log (unstalled ep w) = logs.unstall_logs ep w
      Untouched-log (after u v) = Untouched-log v ∙ Untouched-log u

      pub poll_conserves :
          (t : BulkOnly World Endpoint)
          → Inv stack t
          → log (poll stack t).1.bus ++ owed (poll stack t).1 ≡ log t.bus ++ owed t
      unfolding packet_size
      poll_conserves t v =
          let t' = (poll stack t).1 in
          elim (poll-Flow stack law t v (sizes t.in_ep)) [
            | inl quiet ↦ ap₂ ◌++◌ (Untouched-log quiet.untouched) quiet.still_owed
            | inr pays ↦
                ap (λ l. l ++ owed t')
                  (logs.write_logs t.in_ep pays.offer t.bus t'.bus pays.result pays.wrote)
                ∙ append_assoc (log t.bus) (take (taken pays.result) pays.offer) (owed t')
                ∙ ap (λ p. log t.bus ++ p) (sym pays.paid)
          ]

      pub poll-Inv : (t : BulkOnly World Endpoint) → Inv stack t → Inv stack (poll stack t).1
      poll-Inv t v = Safe-Inv stack law (poll stack t) (poll-Safe stack law t v)

      -- On a lawful stack with a log, whose endpoints have packets of a byte at least, and in the
      -- invariant: over any number of polls, what the endpoint has taken, followed by what the
      -- transport owes in its state, is one list that does not change.
      pub polls_conserve :
          (n : ℕ) (t : BulkOnly World Endpoint)
          → Inv stack t
          → log (poll_times n t).bus ++ owed (poll_times n t) ≡ log t.bus ++ owed t
      polls_conserve zero t v = refl
      polls_conserve (suc n) t v =
          polls_conserve n (poll stack t).1 (poll-Inv t v) ∙ poll_conserves t v

      paid_off :
          (t : BulkOnly World Endpoint) → Inv stack t → owed t ≡ [] → owed (poll stack t).1 ≡ []
      unfolding packet_size
      paid_off t v e =
          let t' = (poll stack t).1 in
          elim (poll-Flow stack law t v (sizes t.in_ep)) [
            | inl quiet ↦ quiet.still_owed ∙ e
            | inr pays ↦ empty_of_length (owed t') (
                omega (
                  arith,
                  ap length (sym pays.paid ∙ e),
                  length-append (take (taken pays.result) pays.offer) (owed t'),
                ))
          ]

      stays_paid_off :
          (n : ℕ) (t : BulkOnly World Endpoint)
          → Inv stack t
          → owed t ≡ []
          → owed (poll_times n t) ≡ []
      stays_paid_off zero t v e = e
      stays_paid_off (suc n) t v e =
          stays_paid_off n (poll stack t).1 (poll-Inv t v) (paid_off t v e)

      module _ (ready : IsReady) where
        -- A poll of a debt leaves less of it.
        less_owed :
            (t : BulkOnly World Endpoint)
            → Pays stack t.in_ep t.bus t.cs (owed t) (poll stack t).1
            → length (owed (poll stack t).1) + 1 ≤ length (owed t)
        less_owed t pays =
            let t' = (poll stack t).1 in
            let n = taken pays.result in
            let some_taken : 1 ≤ n =
              ready t.in_ep pays.offer t.bus t'.bus pays.result pays.not_empty pays.wrote in
            let some_offered : length pays.offer ≢ 0 =
              λ e. pays.not_empty (empty_of_length pays.offer e) in
            omega (
              arith,
              some_offered,
              ap length pays.paid,
              length-append (take n pays.offer) (owed t'),
              length-take n pays.offer,
            )

        pub polls_pay :
            (n : ℕ) (t : BulkOnly World Endpoint) (s : StatusAndResidue)
            → Inv stack t
            → SendsOn t.state
            → t.cs ≡ some s
            → length (owed t) ≤ n
            → owed (poll_times n t) ≡ []
        unfolding packet_size
        polls_pay zero t s v on c h = empty_of_length (owed t) (omega arith)
        polls_pay (suc n) t s v on c h = elim (Bool-cases (length (owed t) == 0)) [
          | inl all ↦
              stays_paid_off (suc n) t v
                (empty_of_length (owed t) ((==_iff (length (owed t)) 0).0 all))
          | inr more ↦
              (let pays =
                  poll-Pays stack law t s v on c (λ e. ground (arith, more, ap length e))
                    (sizes t.in_ep) in
                polls_pay n (poll stack t).1 s (poll-Inv t v) pays.sends_on (pays.same_status ∙ c)
                  (omega (arith, less_owed t pays)))
        ]

        -- On a lawful stack with a log, whose endpoints have packets of a byte at least, and where
        -- every write of some bytes takes one at least: in the invariant and the state of the
        -- transfer to the host, let the status be set. After as many polls as the answer has
        -- bytes, or more, the log has gained exactly the answer: the bytes that wait, the filler
        -- up to the length of the transfer, and the CSW.
        pub answer_delivered :
            (n : ℕ) (t : BulkOnly World Endpoint) (status : CommandStatus) (data_processed : ℕ)
            → Inv stack t
            → t.state ≡ data_transfer_to_host
            → length (answer t status data_processed) ≤ n
            → log (poll_times n (set_status stack status data_processed t).1).bus
              ≡ log t.bus ++ answer t status data_processed
        answer_delivered n t status data_processed v h enough =
            let s = status_and_residue t status data_processed in
            let u = record t { cs = some s } in
            let (run, inv) = set_status-sets stack t v status data_processed (inl h) in
            let debt : owed u ≡ data_owed u = owed_in_state data_transfer_to_host u h in
            let end = poll_times n u in
            let empty : owed end ≡ [] =
              polls_pay n u s inv (subst SendsOn (sym h) tt) refl
                (omega (arith, ap length debt, enough)) in
            ap (λ r. log (poll_times n r.1).bus) run
            ∙ sym (append-nil (log end.bus))
            ∙ ap (λ o. log end.bus ++ o) (sym empty)
            ∙ polls_conserve n u inv
            ∙ ap (λ o. log t.bus ++ o) debt
