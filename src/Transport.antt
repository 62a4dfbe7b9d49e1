-- ===== src/Transport.antt =====
-- usbd-storage/src/transport.rs: what every transport shares. The functions of the usb-device crate
-- that the code calls are fields of `UsbStack`, a parameter of the development.
pub mod Bbb
use usbd_storage.Prelude.{ℕ, ◌≤◌, ◌≡◌, Bool, Option, some, List, length}
use usbd_storage.Prelude.Outcome.{Result, ok}
use usbd_storage.Prelude.Proc.{Proc}

-- `TransportError`
pub data TransportError (UsbError E : Type 0) : Type 0 where
  usb : UsbError → TransportError UsbError E
  error : E → TransportError UsbError E

-- `CommandStatus`
pub data CommandStatus : Type 0 where
  passed failed phase_error : CommandStatus

-- `status as u8`
abbrev pub status_code : CommandStatus → ℕ
status_code passed = 0x00
status_code failed = 0x01
status_code phase_error = 0x02

-- What the transport reads of a control request: whether its type is `RequestType::Class`, whether its
-- recipient is `Recipient::Interface`, and its request code.
pub record ControlRequest : Type 0 where
  pub is_class : Bool
  pub is_interface : Bool
  pub request : ℕ

-- The endpoint operations of usb-device, over everything that they act on (`World`): the two bulk
-- endpoints, the bus and the host behind it. `read` is given the slice to fill, and returns it as it
-- leaves it. `bulk` is `none` where the allocation fails, which panics.
pub record UsbStack (World Endpoint UsbError : Type 0) : Type 0 where
  pub max_packet_size : Endpoint → ℕ
  pub write : Endpoint → List ℕ → World → Result UsbError ℕ × World
  pub read : Endpoint → List ℕ → World → Result UsbError ℕ × List ℕ × World
  pub stall : Endpoint → World → World
  pub unstall : Endpoint → World → World
  pub bulk : ℕ → World → Option (Endpoint × World)
  pub accept_with : List ℕ → World → Result UsbError (Unit {0}) × World

-- What usb-device documents of them: a write takes no more than it is given, a read fills no more than
-- it is given, a slice keeps its length, and an endpoint has the packet size that it was allocated for.
pub record IsLawful {World Endpoint UsbError : Type 0} (u : UsbStack World Endpoint UsbError)
    : Type 0 where
  pub write_bound :
      (ep : Endpoint) (bytes : List ℕ) (w w' : World) (n : ℕ)
      → u.write ep bytes w ≡ (ok n, w')
      → n ≤ length bytes
  pub read_bound :
      (ep : Endpoint) (bytes ys : List ℕ) (w w' : World) (n : ℕ)
      → u.read ep bytes w ≡ (ok n, ys, w')
      → n ≤ length bytes
  pub bulk_size :
      (size : ℕ) (w w' : World) (ep : Endpoint)
      → u.bulk size w ≡ some (ep, w')
      → u.max_packet_size ep ≡ size
  pub read_keeps_length :
      (ep : Endpoint) (bytes : List ℕ) (w : World) → length (u.read ep bytes w).1 ≡ length bytes

-- The descriptor writer of usb-device: what it takes down of the interface and the endpoints.
pub record DescriptorWriter (Writer Endpoint UsbError : Type 0) : Type 0 where
  pub iad : ℕ → ℕ → ℕ → ℕ → ℕ → Proc Writer UsbError (Unit {0})
  pub interface : ℕ → ℕ → ℕ → ℕ → Proc Writer UsbError (Unit {0})
  pub endpoint : Endpoint → Proc Writer UsbError (Unit {0})

-- The trait `Transport`, of a transport `T` with errors `E`.
pub record TransportImpl (T Writer UsbError E : Type 0) : Type 0 where
  pub proto : ℕ
  pub get_endpoint_descriptors : T → Proc Writer UsbError (Unit {0})
  pub reset : T → T
  pub control_in : ControlRequest → T → T
  pub poll : Proc T (TransportError UsbError E) (Unit {0})
