-- ===== src/Transport/Bbb/Flow.antt =====
-- usbd-storage/src/transport/bbb.rs: the bytes that the transport still owes to the host, and the steps
-- in which it hands them to the bulk IN endpoint.
pub mod Sending
pub mod ToHost
pub mod FromHost
pub mod Polls
pub mod Debt
pub mod Delivery
use usbd_storage.Prelude.{
  ℕ, ◌+◌, ◌-◌, ◌≤◌, ◌≡◌, ◌≢◌, refl, sym, ap, ap₂, ◌∙◌, ◌⊎◌, Option, none, some, List, [], ◌++◌,
  length, take, drop, replicate, arith, append_assoc, take-append-drop, length-drop,
}
use usbd_storage.Prelude.Outcome.{Result, ok, err}
use usbd_storage.Buffer.Contents.{contents}
use usbd_storage.Transport.{UsbStack}
use usbd_storage.Transport.Bbb.Types.{
  BulkOnly, State, StatusAndResidue, fill_byte, command_transfer, command_transfer_invalid,
  status_transfer, data_transfer_to_host, data_transfer_to_host_ending,
}
use usbd_storage.Transport.Bbb.Wrapper.{csw_bytes}

-- Once the status is set: the filler of a short transfer, then the CSW.
abbrev pub tail_owed : Option StatusAndResidue → ℕ → ℕ → List ℕ
tail_owed none gap tag = []
tail_owed (some s) gap tag = replicate gap fill_byte ++ csw_bytes tag s

module _ {World Endpoint : Type 0} where
  abbrev pub csw_owed : BulkOnly World Endpoint → List ℕ
  csw_owed t = tail_owed t.cs 0 t.cbw.tag

  -- The data that wait, and what follows them.
  abbrev pub data_owed : BulkOnly World Endpoint → List ℕ
  data_owed t =
      contents t.buf ++ tail_owed t.cs (t.left_to_transfer - length (contents t.buf)) t.cbw.tag

  -- What is owed in each state.
  abbrev pub owed_in : State → BulkOnly World Endpoint → List ℕ
  owed_in command_transfer t = []
  owed_in command_transfer_invalid t = []
  owed_in status_transfer t = contents t.buf
  owed_in data_transfer_to_host t = data_owed t
  owed_in data_transfer_to_host_ending t = data_owed t
  owed_in _ t = csw_owed t

  abbrev pub owed : BulkOnly World Endpoint → List ℕ
  owed t = owed_in t.state t

  pub owed_in_state : (x : State) (t : BulkOnly World Endpoint) → t.state ≡ x → owed t ≡ owed_in x t
  owed_in_state x t h = ap (λ y. owed_in y t) h

-- The states that write packets.
abbrev pub SendsOn : State → Type 0
SendsOn status_transfer = Unit
SendsOn data_transfer_to_host = Unit
SendsOn data_transfer_to_host_ending = Unit
SendsOn _ = ⊥

-- How many bytes of a write are taken.
abbrev pub taken : {UsbError : Type 0} → Result UsbError ℕ → ℕ
taken (ok n) = n
taken (err e) = 0

module _ {World Endpoint UsbError : Type 0} (stack : UsbStack World Endpoint UsbError) where
  -- A bus to which nothing is written: packets are read, endpoints stalled and released.
  pub data Untouched : World → World → Type 0 where
    same : (w : World) → Untouched w w
    was_read : (ep : Endpoint) (given : List ℕ) (w : World) → Untouched w (stack.read ep given w).2
    stalled : (ep : Endpoint) (w : World) → Untouched w (stack.stall ep w)
    unstalled : (ep : Endpoint) (w : World) → Untouched w (stack.unstall ep w)
    after : {u v w : World} → Untouched u v → Untouched v w → Untouched u w

  -- From a bus `w` and a debt `p`: nothing is written and nothing paid.
  pub record Quiet (w : World) (p : List ℕ) (t' : BulkOnly World Endpoint) : Type 0 where
    pub untouched : Untouched w t'.bus
    pub still_owed : owed t' ≡ p

  -- One write of at least a byte, which offers the front of the debt, and what is taken is paid.
  pub record Pays (ep : Endpoint) (w : World) (cs : Option StatusAndResidue) (p : List ℕ)
      (t' : BulkOnly World Endpoint) : Type 0 where
    pub offer : List ℕ
    pub result : Result UsbError ℕ
    pub wrote : stack.write ep offer w ≡ (result, t'.bus)
    pub not_empty : offer ≢ []
    pub sends_on : SendsOn t'.state
    pub same_status : t'.cs ≡ cs
    pub paid : p ≡ take (taken result) offer ++ owed t'

  abbrev pub Flow :
      Endpoint → World → Option StatusAndResidue → List ℕ → BulkOnly World Endpoint → Type 0
  Flow ep w cs p t' = Quiet w p t' ⊎ Pays ep w cs p t'
