-- ===== src/Examples/Stm32Crash.antt =====
-- examples/stm32/src/bin/stm32f411x_scsi_bbb.rs: a command of the host that makes the main loop panic.
use usbd_storage.Prelude.{
  zero, suc, inl, inr, ap, ◌∙◌, ◌++◌, length-take, ℕ, ◌-◌, ◌≤◌, ◌≡◌, refl, none, List, [], ◌∷◌,
  length, take, get_or, arith, Bool, false,
}
use usbd_storage.Prelude.Outcome.{done, panic, index-done}
use usbd_storage.Bytes.{from_be_bytes}
use usbd_storage.Buffer.Contents.{contents}
use usbd_storage.Transport.{UsbStack, IsLawful, TransportError}
use usbd_storage.Transport.Bbb.Types.{
  BulkOnly, BulkOnlyError, CommandBlockWrapper, DataDirection, out, into, not_expected,
  command_transfer,
}
use usbd_storage.Transport.Bbb.Handlers.{poll}
use usbd_storage.Transport.Bbb.PollSafety.{poll-Safe}
use usbd_storage.Transport.Bbb.Reach.{Safe-Inv}
use usbd_storage.Transport.Bbb.Intake.{IsIntake}
use usbd_storage.Transport.Bbb.RoundTrip.{encode_cbw, IsWellFormed}
use usbd_storage.Transport.Bbb.Begun.{BeginsIn}
use usbd_storage.Transport.Bbb.Reassembly.{Waits, wait-Reassembles}
use usbd_storage.Transport.Bbb.CbwSent.{Brings, cbw_begins}
use usbd_storage.Transport.Bbb.Invariant.{Inv}
use usbd_storage.Transport.Bbb.ApiSafety.{AwaitsStatus}
use usbd_storage.Subclass.{run_command}
use usbd_storage.Subclass.Safety.{raw_command, awaits_run}
use usbd_storage.Subclass.Scsi.Parse.{
  read_capacity_16, be_32, parse_read_capacity_16, parse_code, parse_cb,
}
use usbd_storage.Subclass.Scsi.Class
use usbd_storage.Examples.Firmware.{Globals}
use usbd_storage.Examples.Stm32Scsi.{process_command, poll_command}
use usbd_storage.Examples.Answering.{Device}
use usbd_storage.Examples.Stm32Answers.{read_capacity_16_panics}

abbrev alloc_len_of : List ℕ → ℕ
alloc_len_of cb =
    from_be_bytes (get_or cb 10 0 ∷ get_or cb 11 0 ∷ get_or cb 12 0 ∷ get_or cb 13 0 ∷ [])

parsed_as_capacity :
    {E : Type 0} (extended : Bool) (cb : List ℕ)
    → 14 ≤ length cb
    → get_or cb 0 0 ≡ 0x9E
    → parse_cb {E = E} extended cb ≡ done (read_capacity_16 (alloc_len_of cb))
unfolding parse_cb parse_code parse_read_capacity_16 be_32
parsed_as_capacity {E = E} extended cb h code = ground (
  arith,
  code,
  index-done {E = E} cb 0 (omega arith),
  index-done {E = E} cb 10 (omega arith),
  index-done {E = E} cb 11 (omega arith),
  index-done {E = E} cb 12 (omega arith),
  index-done {E = E} cb 13 (omega arith),
)

first_of_take :
    (n : ℕ) (xs : List ℕ) → 1 ≤ n → 1 ≤ length xs → get_or (take n xs) 0 0 ≡ get_or xs 0 0
first_of_take zero xs h k = absurd (omega arith)
first_of_take (suc n) [] h k = absurd (omega arith)
first_of_take (suc n) (x ∷ xs) h k = refl

module _ {World Endpoint UsbError : Type 0} (stack : UsbStack World Endpoint UsbError) where
  capacity_16_crashes :
      (f : Device World Endpoint (List ℕ))
      → let t = f.1.transport in
        Inv stack t
        → AwaitsStatus stack t
        → t.cs ≡ none
        → 14 ≤ t.cbw.block_len
        → get_or t.cbw.block 0 0 ≡ 0x9E
        → poll_command stack f ≡ (panic, f)
  unfolding poll_command Class.poll_command run_command
  capacity_16_crashes f v w c long code =
      let t = f.1.transport in
      let cb = (raw_command stack t).bytes in
      let parsed : parse_cb {E = TransportError UsbError BulkOnlyError} false cb
          ≡ done (read_capacity_16 (alloc_len_of cb)) =
        parsed_as_capacity false cb
          (omega (arith, long, v.base.block_fits, length-take (t.cbw.block_len - 0) t.cbw.block))
          (first_of_take (t.cbw.block_len - 0) t.cbw.block (omega (arith, long))
              (omega (arith, long, v.base.block_fits))
            ∙ code) in
      awaits_run stack (parse_cb false) (λ kind lun. process_command stack kind) f v w c
      ∙ ground (arith, parsed, read_capacity_16_panics stack f (alloc_len_of cb))

  begins-AwaitsStatus :
      (d : DataDirection) (t : BulkOnly World Endpoint) → BeginsIn d t.state → AwaitsStatus stack t
  begins-AwaitsStatus out t (inl h) = inr (inl h)
  begins-AwaitsStatus out t (inr h) = inr (inr (inr (inr h)))
  begins-AwaitsStatus into t (inl h) = inl h
  begins-AwaitsStatus into t (inr h) = inr (inr (inr (inl h)))
  begins-AwaitsStatus not_expected t h = inr (inr (inr (inl h)))

  abbrev pub running :
      Globals (List ℕ) → ℕ → BulkOnly World Endpoint → Device World Endpoint (List ℕ)
  running globals interface t = (globals, record { interface = interface; transport = t })

  -- On a lawful stack with an intake: let a host lay out a CBW with its fields in range, whose
  -- command block has 14 bytes or more and the operation code of `READ CAPACITY (16)`, and send it
  -- in any packets to a transport that waits for a CBW, in the invariant and with no byte in the
  -- buffer, polls leaving it waiting until the last packet, for which the buffer has room.
  -- Whatever the static variables, the call of `poll_command` that follows the poll of the last
  -- packet panics, and has changed nothing.
  pub capacity_16_from_host_panics :
      IsLawful stack
      → (intake : World → List ℕ) → IsIntake stack intake
      → (c : CommandBlockWrapper) → IsWellFormed c
      → 14 ≤ c.block_len
      → get_or c.block 0 0 ≡ 0x9E
      → (t : BulkOnly World Endpoint) → Inv stack t
      → t.state ≡ command_transfer
      → contents t.buf ≡ []
      → (u : BulkOnly World Endpoint) → Waits stack t u
      → (front last : List ℕ) → intake u.bus ≡ intake t.bus ++ front
      → Brings stack u last
      → front ++ last ≡ encode_cbw c
      → (globals : Globals (List ℕ)) (interface : ℕ)
      → let f = running globals interface (poll stack u).1 in poll_command stack f ≡ (panic, f)
  capacity_16_from_host_panics law intake hands c fine long code t v h empty u waited front last
        came brings sent globals interface =
      let (s, next) = wait-Reassembles stack law intake hands t v h empty u waited in
      let begun =
        cbw_begins stack law intake hands c fine t v h empty u waited front last came brings sent in
      let now = begun.same_cbw in
      capacity_16_crashes (running globals interface (poll stack u).1)
        (Safe-Inv stack law (poll stack u) (poll-Safe stack law u s.inv))
        (begins-AwaitsStatus c.direction (poll stack u).1 begun.begins) begun.no_status
        (omega (arith, long, ap (λ x. x.block_len) now)) (ap (λ x. get_or x.block 0 0) now ∙ code)
