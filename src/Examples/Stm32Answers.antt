-- ===== src/Examples/Stm32Answers.antt =====
-- examples/stm32/src/bin/stm32f411x_scsi_bbb.rs: the commands that are answered at once.
use usbd_storage.Prelude.{
  ℕ, ◌≤◌, ◌≡◌, refl, sym, ap, ◌∙◌, subst, Option, none, some, List, [], ◌∷◌, ◌++◌, length, arith,
}
use usbd_storage.Prelude.Outcome.{done, panic, sub, slice, index}
use usbd_storage.Buffer.{Buffer, copy_from_slice}
use usbd_storage.Buffer.Contents.{contents}
use usbd_storage.Transport.{UsbStack, IsLawful, TransportError, passed}
use usbd_storage.Transport.Bbb.Types.{BulkOnlyError, data_transfer_to_host}
use usbd_storage.Transport.Bbb.Api
use usbd_storage.Transport.Bbb.Invariant.{Inv}
use usbd_storage.Transport.Bbb.ApiSafety.{with_buf}
use usbd_storage.Transport.Bbb.Flow.Delivery.{IsLog, HasPackets, IsReady, poll_times}
use usbd_storage.Subclass.Scsi.Parse.{
  ScsiCommand, unknown, inquiry, test_unit_ready, request_sense, mode_sense_6, mode_sense_10,
  read_capacity_10, read_capacity_16, read, write, read_format_capacities,
}
use usbd_storage.Examples.Firmware
use usbd_storage.Examples.Firmware.{State, Globals, default_state}
use usbd_storage.Examples.ScsiData.{
  sense_data, mode_sense_6_data, mode_sense_10_data, capacity_10, capacity_16, format_capacities,
}
use usbd_storage.Examples.Scsi
use usbd_storage.Examples.Stm32Scsi.{inquiry_data, process_command}
use usbd_storage.Examples.Answering.{
  Device, HasRoom, delivered, answer-done, request_sense-done, bytes_delivered,
}

-- What a host is to read: the last block of 200 and the 512 bytes of a block, in both forms.
abbrev pub reply : State → ScsiCommand → Option (List ℕ)
reply state (inquiry evpd page_code alloc_len) = some inquiry_data
reply state (request_sense desc alloc_len) = some (sense_data state)
reply state read_capacity_10 = some (0 ∷ 0 ∷ 0 ∷ 199 ∷ 0 ∷ 0 ∷ 2 ∷ 0 ∷ [])
reply state (read_format_capacities alloc_len) =
    some (0 ∷ 0 ∷ 0 ∷ 8 ∷ 0 ∷ 0 ∷ 0 ∷ 200 ∷ 1 ∷ 0 ∷ 2 ∷ 0 ∷ [])
reply state (mode_sense_6 dbd control page subpage alloc_len) = some mode_sense_6_data
reply state (mode_sense_10 dbd control page subpage alloc_len) = some mode_sense_10_data
reply state _ = none

-- The sense data are told once.
abbrev pub state_after : State → ScsiCommand → State
state_after state (request_sense desc alloc_len) = default_state
state_after state _ = state

module _ {E : Type 0} where
  capacity_10-done : capacity_10 {E = E} 512 200 ≡ done (0 ∷ 0 ∷ 0 ∷ 199 ∷ 0 ∷ 0 ∷ 2 ∷ 0 ∷ [])
  unfolding capacity_10 sub copy_from_slice slice
  capacity_10-done = refl

  format_capacities-done :
      format_capacities {E = E} 512 200
      ≡ done (0 ∷ 0 ∷ 0 ∷ 8 ∷ 0 ∷ 0 ∷ 0 ∷ 200 ∷ 1 ∷ 0 ∷ 2 ∷ 0 ∷ [])
  unfolding format_capacities copy_from_slice slice index
  format_capacities-done = refl

module _ {World Endpoint UsbError : Type 0} (stack : UsbStack World Endpoint UsbError) where
  -- A run of the callback that answers with `bytes`.
  pub record Answers (f : Device World Endpoint (List ℕ)) (kind : ScsiCommand) (bytes : List ℕ)
      : Type 0 where
    pub buf : Buffer
    pub run : process_command stack kind f ≡ (
      done tt,
      (
        record f.0 { state = state_after f.0.state kind },
        record f.1 {
          transport =
              (Api.set_status stack passed (length bytes) (with_buf stack f.1.transport buf)).1;
        },
      ),
    )
    pub holds : contents buf ≡ contents f.1.transport.buf ++ bytes
    pub inv : Inv stack (with_buf stack f.1.transport buf)

  module _ (f : Device World Endpoint (List ℕ)) (v : Inv stack f.1.transport)
      (h : f.1.transport.state ≡ data_transfer_to_host) where
    -- An answer that is written whole, by an arm that leaves the state as it is.
    by_answer :
        (kind : ScsiCommand) (bytes : List ℕ)
        → process_command stack kind f ≡ Firmware.answer stack bytes f
        → state_after f.0.state kind ≡ f.0.state
        → HasRoom f.1.transport bytes
        → Answers f kind bytes
    by_answer kind bytes same kept room =
        let (b, run, holds, inv) = answer-done stack f bytes v h room in
        record {
          buf = b;
          run =
              same
              ∙ run
              ∙ ap
                  (λ (s : State). (
                    done tt,
                    (
                      record f.0 { state = s },
                      record f.1 {
                        transport =
                            (Api.set_status stack passed (length bytes)
                              (with_buf stack f.1.transport b)).1;
                      },
                    ),
                  ))
                  (sym kept);
          holds = holds;
          inv = inv;
        }

    pub process_command-Answers :
        (kind : ScsiCommand) (bytes : List ℕ)
        → reply f.0.state kind ≡ some bytes
        → HasRoom f.1.transport bytes
        → Answers f kind bytes
    unfolding process_command Scsi.read_capacity_10 Scsi.read_format_capacities
    process_command-Answers (inquiry evpd page_code alloc_len) bytes e room =
        by_answer (inquiry evpd page_code alloc_len) bytes (ground (arith, e)) refl room
    process_command-Answers (request_sense desc alloc_len) bytes e room =
        let same : sense_data f.0.state ≡ bytes = ground (arith, e) in
        let (b, run, holds, inv) =
          request_sense-done stack f sense_data v h
            (subst (HasRoom f.1.transport) (sym same) room) in
        record {
          buf = b;
          run =
              run
              ∙ ap
                  (λ (p : List ℕ). (
                    done tt,
                    (
                      record f.0 { state = default_state },
                      record f.1 {
                        transport =
                            (Api.set_status stack passed (length p)
                              (with_buf stack f.1.transport b)).1;
                      },
                    ),
                  ))
                  same;
          holds = holds ∙ ap (λ p. contents f.1.transport.buf ++ p) same;
          inv = inv;
        }
    process_command-Answers read_capacity_10 bytes e room =
        by_answer read_capacity_10 bytes
          (ground (arith, e, capacity_10-done {E = TransportError UsbError BulkOnlyError})) refl
          room
    process_command-Answers (read_format_capacities alloc_len) bytes e room =
        by_answer (read_format_capacities alloc_len) bytes
          (ground (arith, e, format_capacities-done {E = TransportError UsbError BulkOnlyError}))
          refl room
    process_command-Answers (mode_sense_6 dbd control page subpage alloc_len) bytes e room =
        by_answer (mode_sense_6 dbd control page subpage alloc_len) bytes (ground (arith, e)) refl
          room
    process_command-Answers (mode_sense_10 dbd control page subpage alloc_len) bytes e room =
        by_answer (mode_sense_10 dbd control page subpage alloc_len) bytes (ground (arith, e)) refl
          room
    process_command-Answers (read_capacity_16 alloc_len) bytes e room = ground (arith, e)
    process_command-Answers test_unit_ready bytes e room = ground (arith, e)
    process_command-Answers (read lba len) bytes e room = ground (arith, e)
    process_command-Answers (write lba len) bytes e room = ground (arith, e)
    process_command-Answers (unknown code) bytes e room = ground (arith, e)

  -- On a lawful stack with a log, whose endpoints have packets of a byte at least, and where every
  -- write of some bytes takes one at least: in the invariant and the state of the transfer to the
  -- host, with no byte waiting, let the command be one that has a reply, and the reply have room
  -- in the transfer and the buffer. The call of `process_command` changes nothing of the static
  -- variables but the state of `REQUEST SENSE`, which is reset; and after as many polls as there
  -- are bytes to send, or more, the log has gained exactly the reply, the filler and the CSW of a
  -- command that has passed.
  pub command_delivered :
      (law : IsLawful stack) (sizes : HasPackets stack) (log : World → List ℕ)
      (logs : IsLog stack log) (ready : IsReady stack) (n : ℕ) (f : Device World Endpoint (List ℕ))
      (kind : ScsiCommand) (bytes : List ℕ)
      → let t = f.1.transport in
        Inv stack t
        → t.state ≡ data_transfer_to_host
        → contents t.buf ≡ []
        → reply f.0.state kind ≡ some bytes
        → HasRoom t bytes
        → length (delivered t bytes) ≤ n
        → let f' = (process_command stack kind f).1 in
          (f'.0 ≡ record f.0 { state = state_after f.0.state kind })
          × (log (poll_times stack n f'.1.transport).bus ≡ log t.bus ++ delivered t bytes)
  command_delivered law sizes log logs ready n f kind bytes v h empty e room enough =
      let a = process_command-Answers f v h kind bytes e room in
      (
        ap (λ r. r.1.0) a.run,
        ap (λ r. log (poll_times stack n r.1.1.transport).bus) a.run
            ∙ bytes_delivered stack law sizes log logs ready n f.1.transport a.buf bytes h
                (a.holds ∙ ap (λ c. c ++ bytes) empty) a.inv enough,
      )

  -- In every state of the device, and for every length, `READ CAPACITY (16)` panics, and nothing
  -- has changed.
  pub read_capacity_16_panics :
      (f : Device World Endpoint (List ℕ)) (alloc_len : ℕ)
      → process_command stack (read_capacity_16 alloc_len) f ≡ (panic, f)
  unfolding process_command Scsi.read_capacity_16 capacity_16 sub copy_from_slice slice
  read_capacity_16_panics f alloc_len = refl
