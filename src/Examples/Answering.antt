-- ===== src/Examples/Answering.antt =====
-- The firmware of examples: an answer that a callback writes whole, and its way to the host.
use usbd_storage.Prelude.{ℕ, ◌-◌, ◌≤◌, ◌≡◌, ap, ◌∙◌, inl, List, ◌++◌, length, replicate, arith}
use usbd_storage.Prelude.Outcome.{done}
use usbd_storage.Buffer.{Buffer}
use usbd_storage.Buffer.Contents.{contents, capacity}
use usbd_storage.Transport.{UsbStack, IsLawful, passed}
use usbd_storage.Transport.Bbb.Types.{BulkOnly, data_transfer_to_host, fill_byte}
use usbd_storage.Transport.Bbb.Wrapper.{csw_bytes}
use usbd_storage.Transport.Bbb.Api
use usbd_storage.Transport.Bbb.Invariant.{Inv}
use usbd_storage.Transport.Bbb.ApiSafety.{with_buf, set_status-sets}
use usbd_storage.Transport.Bbb.TryWrite.{try_write_all}
use usbd_storage.Transport.Bbb.Flow.Delivery
use usbd_storage.Transport.Bbb.Flow.Delivery.{
  IsLog, HasPackets, IsReady, poll_times, status_and_residue, answer_delivered,
}
use usbd_storage.Subclass.{Class}
use usbd_storage.Subclass.Command.{try_write_data_all, pass}
use usbd_storage.Examples.Firmware.{State, Globals, default_state, reset, answer, request_sense}

-- What a callback runs on: the static variables, and the class that its command holds.
abbrev pub Device : Type 0 → Type 0 → Type 0 → Type 0
Device World Endpoint Memory = Globals Memory × Class (BulkOnly World Endpoint)

abbrev pub with_transport :
    {World Endpoint Memory : Type 0}
    → Device World Endpoint Memory
    → BulkOnly World Endpoint
    → Device World Endpoint Memory
with_transport f t = (f.0, record f.1 { transport = t })

-- There is room for `bytes`, in the transfer and in the buffer.
pub record HasRoom {World Endpoint : Type 0} (t : BulkOnly World Endpoint) (bytes : List ℕ)
    : Type 0 where
  pub in_transfer : length bytes ≤ t.left_to_transfer - length (contents t.buf)
  pub in_buffer : length bytes ≤ capacity t.buf - length (contents t.buf)

-- An answer on its way: the data, the filler up to the length of the transfer, and the CSW of a command
-- that has passed.
abbrev pub delivered : {World Endpoint : Type 0} → BulkOnly World Endpoint → List ℕ → List ℕ
delivered t bytes =
    bytes
    ++ (replicate (t.left_to_transfer - length bytes) fill_byte
        ++ csw_bytes t.cbw.tag
            (record { status = passed; data_residue = t.cbw.data_transfer_len - length bytes }))

module _ {World Endpoint UsbError Memory : Type 0} (stack : UsbStack World Endpoint UsbError) where
  pub answer-done :
      (f : Device World Endpoint Memory) (bytes : List ℕ)
      → let t = f.1.transport in
        Inv stack t
        → t.state ≡ data_transfer_to_host
        → HasRoom t bytes
        → (b : Buffer) × (answer stack bytes f ≡ (
          done tt,
          with_transport f (Api.set_status stack passed (length bytes) (with_buf stack t b)).1,
        ))
          × (contents b ≡ contents t.buf ++ bytes)
          × Inv stack (with_buf stack t b)
  unfolding answer try_write_data_all pass
  answer-done f bytes v h room =
      let t = f.1.transport in
      let (b, run, holds, inv) = try_write_all stack t v bytes h room.in_transfer room.in_buffer in
      let (set, after) =
        set_status-sets stack (with_buf stack t b) inv passed (length bytes) (inl h) in
      (b, ground (arith, run, set), holds, inv)

  -- The same, of the `RequestSense` arm.
  pub request_sense-done :
      (f : Device World Endpoint Memory) (sense_data : State → List ℕ)
      → let t = f.1.transport in
        let bytes = sense_data f.0.state in
        Inv stack t
        → t.state ≡ data_transfer_to_host
        → HasRoom t bytes
        → (b : Buffer) × (request_sense stack sense_data f ≡ (
          done tt,
          (
            record f.0 { state = default_state },
            record f.1 {
              transport = (Api.set_status stack passed (length bytes) (with_buf stack t b)).1;
            },
          ),
        ))
          × (contents b ≡ contents t.buf ++ bytes)
          × Inv stack (with_buf stack t b)
  unfolding request_sense try_write_data_all pass reset
  request_sense-done f sense_data v h room =
      let t = f.1.transport in
      let bytes = sense_data f.0.state in
      let (b, run, holds, inv) = try_write_all stack t v bytes h room.in_transfer room.in_buffer in
      let (set, after) =
        set_status-sets stack (with_buf stack t b) inv passed (length bytes) (inl h) in
      (b, ground (arith, run, set), holds, inv)

module _ {World Endpoint UsbError : Type 0} (stack : UsbStack World Endpoint UsbError) where
  -- An answer in a transfer that has just begun.
  pub bytes_delivered :
      (law : IsLawful stack) (sizes : HasPackets stack) (log : World → List ℕ)
      (logs : IsLog stack log) (ready : IsReady stack) (n : ℕ) (t : BulkOnly World Endpoint)
      (b : Buffer) (bytes : List ℕ)
      → t.state ≡ data_transfer_to_host
      → contents b ≡ bytes
      → Inv stack (with_buf stack t b)
      → length (delivered t bytes) ≤ n
      → log
          (poll_times stack n
            (Api.set_status stack passed (length bytes) (with_buf stack t b)).1).bus
        ≡ log t.bus ++ delivered t bytes
  bytes_delivered law sizes log logs ready n t b bytes h holds inv enough =
      let s = status_and_residue stack t passed (length bytes) in
      let same : Delivery.answer stack (with_buf stack t b) passed (length bytes)
          ≡ delivered t bytes =
        ap
          (λ c. c ++ (replicate (t.left_to_transfer - length c) fill_byte ++ csw_bytes t.cbw.tag s))
          holds in
      answer_delivered stack law sizes log logs ready n (with_buf stack t b) passed (length bytes)
        inv h (omega (arith, enough, ap length same))
      ∙ ap (λ p. log t.bus ++ p) same
