-- ===== src/Examples/Stm32Unknown.antt =====
-- examples/stm32/src/bin/stm32f411x_scsi_bbb.rs: a command that the firmware does not know, and the
-- `REQUEST SENSE` with which a host asks for the reason.
use usbd_storage.Prelude.{
  ℕ, ◌-◌, ◌≤◌, ◌≡◌, refl, sym, ap, ◌∙◌, Bool, some, List, [], ◌∷◌, ◌++◌, length, replicate,
  append_assoc, arith, inl, inr,
}
use usbd_storage.Prelude.Outcome.{done}
use usbd_storage.Buffer.Contents.{contents}
use usbd_storage.Transport.{UsbStack, IsLawful, failed}
use usbd_storage.Transport.Bbb.Types.{
  BulkOnly, State, StatusAndResidue, data_transfer_to_host, data_transfer_from_host,
  data_transfer_no_data, data_transfer_status_await, data_transfer_from_host_status_await,
  fill_byte,
}
use usbd_storage.Transport.Bbb.Wrapper.{csw_bytes}
use usbd_storage.Transport.Bbb.Invariant.{Inv}
use usbd_storage.Transport.Bbb.ApiSafety.{AwaitsStatus, set_status-sets}
use usbd_storage.Transport.Bbb.Flow.{owed, owed_in, owed_in_state}
use usbd_storage.Transport.Bbb.Flow.Delivery.{
  IsLog, HasPackets, IsReady, poll_times, polls_conserve,
}
use usbd_storage.Subclass.Command.{fail}
use usbd_storage.Subclass.Scsi.Parse.{unknown, request_sense}
use usbd_storage.Examples.Firmware
use usbd_storage.Examples.Firmware.{default_state}
use usbd_storage.Examples.ScsiData.{sense_data}
use usbd_storage.Examples.Stm32Scsi.{process_command}
use usbd_storage.Examples.Answering.{Device, with_transport, HasRoom, delivered}
use usbd_storage.Examples.Stm32Answers.{command_delivered}

-- An illegal request, 0x05, and an invalid operation code, 0x20 and 0x00.
abbrev pub illegal_request : List ℕ
illegal_request =
    0x70 ∷ 0 ∷ 0x05 ∷ 0 ∷ 0 ∷ 0 ∷ 0 ∷ 0 ∷ 0 ∷ 0 ∷ 0 ∷ 0 ∷ 0x20 ∷ 0x00 ∷ 0 ∷ 0 ∷ 0 ∷ 0 ∷ []

-- What a command that fails at once sends before its CSW: what waits and filler, in the transfer to the
-- host.
abbrev pub rest_of_data : {World Endpoint : Type 0} → State → BulkOnly World Endpoint → List ℕ
rest_of_data data_transfer_to_host t =
    contents t.buf ++ replicate (t.left_to_transfer - length (contents t.buf)) fill_byte
rest_of_data _ t = []

abbrev pub refusal : {World Endpoint : Type 0} → BulkOnly World Endpoint → List ℕ
refusal t =
    rest_of_data t.state t
    ++ csw_bytes t.cbw.tag (record { status = failed; data_residue = t.cbw.data_transfer_len })

module _ {World Endpoint UsbError : Type 0} (stack : UsbStack World Endpoint UsbError) where
  abbrev refused_with : BulkOnly World Endpoint → StatusAndResidue
  refused_with t = record { status = failed; data_residue = t.cbw.data_transfer_len - 0 }

  abbrev csw_of : BulkOnly World Endpoint → List ℕ
  csw_of t = csw_bytes t.cbw.tag (refused_with t)

  -- In a state where the bytes and the CSW are owed apart.
  in_state :
      (t : BulkOnly World Endpoint) (x : State)
      → t.state ≡ x
      → owed_in x (record t { cs = some (refused_with t) }) ≡ rest_of_data x t ++ csw_of t
      → owed (record t { cs = some (refused_with t) }) ≡ rest_of_data t.state t ++ csw_of t
  in_state t x e debt =
      owed_in_state x (record t { cs = some (refused_with t) }) e
      ∙ debt
      ∙ ap (λ y. rest_of_data y t ++ csw_of t) (sym e)

  owed-apart :
      (t : BulkOnly World Endpoint)
      → AwaitsStatus stack t
      → owed (record t { cs = some (refused_with t) }) ≡ rest_of_data t.state t ++ csw_of t
  owed-apart t (inl e) = in_state t data_transfer_to_host e (
      sym (
        append_assoc (contents t.buf)
          (replicate (t.left_to_transfer - length (contents t.buf)) fill_byte) (csw_of t)))
  owed-apart t (inr (inl e)) = in_state t data_transfer_from_host e refl
  owed-apart t (inr (inr (inl e))) = in_state t data_transfer_no_data e refl
  owed-apart t (inr (inr (inr (inl e)))) = in_state t data_transfer_status_await e refl
  owed-apart t (inr (inr (inr (inr e)))) = in_state t data_transfer_from_host_status_await e refl

  owed-refusal :
      (t : BulkOnly World Endpoint)
      → AwaitsStatus stack t
      → owed (record t { cs = some (refused_with t) }) ≡ refusal t
  owed-refusal t w =
      owed-apart t w
      ∙ ap
          (λ n.
            rest_of_data t.state t
            ++ csw_bytes t.cbw.tag (record { status = failed; data_residue = n }))
          {x = t.cbw.data_transfer_len - 0} {y = t.cbw.data_transfer_len} (omega arith)

  module _ (f : Device World Endpoint (List ℕ)) (v : Inv stack f.1.transport)
      (w : AwaitsStatus stack f.1.transport) (code : ℕ) where
    abbrev told : Device World Endpoint (List ℕ)
    told = (
      record f.0 {
        state = record f.0.state {
          sense_key = some 0x05;
          sense_key_code = some 0x20;
          sense_qualifier = some 0x00;
        };
      },
      record f.1 { transport = record f.1.transport { cs = some (refused_with f.1.transport) } },
    )

    unknown_run : process_command stack (unknown code) f ≡ (done tt, told)
    unfolding process_command Firmware.unknown_command fail
    unknown_run = ground (arith, (set_status-sets stack f.1.transport v failed 0 w).0)

  -- On a lawful stack with a log, whose endpoints have packets of a byte at least, and where every
  -- write of some bytes takes one at least: let the callback be called for a command that is
  -- `unknown`, in the invariant, where a status is awaited. After any number of polls, what the
  -- log has gained and what is still owed are together what waited and the filler, in the transfer
  -- to the host, and then the CSW of a command that has failed, with the whole length of its
  -- transfer as residue. Let the callback then be called for `REQUEST SENSE`, with any transport
  -- in the invariant and the transfer to the host, with no byte waiting and room for 18 bytes.
  -- After as many polls as there are bytes to send, or more, the log has gained exactly the sense
  -- data of an illegal request, 0x05, and an invalid operation code, 0x20 and 0x00, the filler and
  -- the CSW of a command that has passed; and the static variables are those of the start, with
  -- the state at its default.
  pub unknown_is_told :
      (law : IsLawful stack) (sizes : HasPackets stack) (log : World → List ℕ)
      (logs : IsLog stack log) (ready : IsReady stack) (f : Device World Endpoint (List ℕ))
      (code : ℕ) (desc : Bool) (alloc_len n m : ℕ) (u : BulkOnly World Endpoint)
      → let t = f.1.transport in
        Inv stack t
        → AwaitsStatus stack t
        → Inv stack u
        → u.state ≡ data_transfer_to_host
        → contents u.buf ≡ []
        → HasRoom u illegal_request
        → length (delivered u illegal_request) ≤ m
        → let failing = (process_command stack (unknown code) f).1 in
          let asked =
            (process_command stack (request_sense desc alloc_len) (with_transport failing u)).1 in
          let end = poll_times stack n failing.1.transport in
          (log end.bus ++ owed end ≡ log t.bus ++ refusal t)
          × (log (poll_times stack m asked.1.transport).bus
              ≡ log u.bus ++ delivered u illegal_request)
          × (asked.0 ≡ record f.0 { state = default_state })
  unfolding sense_data
  unknown_is_told law sizes log logs ready f code desc alloc_len n m u v w v' h empty room enough =
      let t = f.1.transport in
      let g = told f v w code in
      let now = ap (λ r. r.1) (unknown_run f v w code) in
      let (kept, sent) =
        command_delivered stack law sizes log logs ready m (with_transport g u)
          (request_sense desc alloc_len) illegal_request v' h empty refl room enough in
      let status = (set_status-sets stack t v failed 0 w).1 in
      (
        ap
              (λ (d : Device World Endpoint (List ℕ)).
                log (poll_times stack n d.1.transport).bus
                ++ owed (poll_times stack n d.1.transport))
              now
            ∙ polls_conserve stack law sizes log logs n g.1.transport status
            ∙ ap (λ o. log t.bus ++ o) (owed-refusal t w),
        ap
              (λ (d : Device World Endpoint (List ℕ)).
                log
                  (poll_times stack m
                    (process_command stack (request_sense desc alloc_len)
                      (with_transport d u)).1.1.transport).bus)
              now
            ∙ sent,
        ap
              (λ (d : Device World Endpoint (List ℕ)).
                (process_command stack (request_sense desc alloc_len) (with_transport d u)).1.0)
              now
            ∙ kept,
      )
