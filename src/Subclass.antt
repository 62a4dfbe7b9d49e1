-- ===== src/Subclass.antt =====
-- usbd-storage/src/subclass.rs: the command that a subclass hands to its user, and what both
-- subclasses do alike. A `Command` holds its class by a mutable reference: its methods are programs over
-- the class, and the callback is one over what it captures and the class, given the command's kind and
-- LUN.
pub mod Command
pub mod Scsi
pub mod Ufi
pub mod Safety
use usbd_storage.Prelude.{ℕ, Bool, true, false, not, Option, none, some, List, if◌then◌else◌}
use usbd_storage.Prelude.Outcome.{Outcome, done, fail, panic, out_of_fuel}
use usbd_storage.Prelude.Proc.{Proc, ◌>>=◌, ◌>>◌, pure, get, lift}
use usbd_storage.Transport.{
  TransportError, ControlRequest, UsbStack, DescriptorWriter, TransportImpl,
}
use usbd_storage.Transport.Bbb.Types.{BulkOnly, BulkOnlyError, CommandBlock}
use usbd_storage.Transport.Bbb.Handlers.{has_status, poll}
use usbd_storage.Transport.Bbb.Api.{get_command}

-- lib.rs: `CLASS_MASS_STORAGE`
abbrev pub class_mass_storage : ℕ
class_mass_storage = 0x08

-- `Scsi<T>` and `Ufi<T>`: an interface number beside the transport.
pub record Class (T : Type 0) : Type 0 where
  pub interface : ℕ
  pub transport : T

abbrev pub on_transport : {T E A : Type 0} → Proc T E A → Proc (Class T) E A
on_transport p c = let (r, t) = p c.transport in (r, record c { transport = t })

-- The methods of `impl UsbClass`, by the transport's.
module _ {T Writer Endpoint UsbError E : Type 0} (impl : TransportImpl T Writer UsbError E)
    (writer : DescriptorWriter Writer Endpoint UsbError) where
  unfoldable pub get_configuration_descriptors : ℕ → Class T → Proc Writer UsbError (Unit {0})
  get_configuration_descriptors subclass c = do
    writer.iad c.interface 1 class_mass_storage subclass impl.proto
    writer.interface c.interface class_mass_storage subclass impl.proto
    impl.get_endpoint_descriptors c.transport

  unfoldable pub reset : Class T → Class T
  reset c = record c { transport = impl.reset c.transport }

  unfoldable pub control_in : ControlRequest → Class T → Class T
  control_in req c = record c { transport = impl.control_in req c.transport }

  -- An error is only logged; a panic is not caught.
  unfoldable pub class_poll : Proc (Class T) UsbError (Unit {0})
  class_poll c =
      let (r, t) = impl.poll c.transport in
      (
        elim r [ done a ↦ done tt | fail e ↦ done tt | panic ↦ panic | out_of_fuel ↦ out_of_fuel ],
        record c { transport = t },
      )

module _ {World Endpoint UsbError : Type 0} (stack : UsbStack World Endpoint UsbError) where
  abbrev pub ClassMethod : Type 0 → Type 0
  ClassMethod A = Proc (Class (BulkOnly World Endpoint)) (TransportError UsbError BulkOnlyError) A

  -- What a callback runs: a program over what it captures, `S`, and the class that its command holds.
  abbrev pub WithClass : Type 0 → Type 0 → Type 0
  WithClass S A =
      Proc (S × Class (BulkOnly World Endpoint)) (TransportError UsbError BulkOnlyError) A

  abbrev pub on_class : {S A : Type 0} → ClassMethod A → WithClass S A
  on_class p f = let (r, c) = p f.1 in (r, (f.0, c))

  -- The callback runs only where there is a command without a status.
  module _ {S Kind : Type 0}
      (parse_cb : List ℕ → Outcome (TransportError UsbError BulkOnlyError) Kind)
      (callback : Kind → ℕ → WithClass S (Unit {0})) where
    unfoldable pub run_command : CommandBlock → WithClass S (Unit {0})
    run_command raw_cb = do
      kind ← lift (parse_cb raw_cb.bytes)
      callback kind raw_cb.lun
      on_class (on_transport (poll stack))

    unfoldable pub if_command : Option CommandBlock → WithClass S (Unit {0})
    if_command none = pure tt
    if_command (some raw_cb) = do
      f ← get
      if not (has_status f.1.transport) then run_command raw_cb else pure tt

    unfoldable pub poll_command : WithClass S (Unit {0})
    poll_command = do f ← get; raw_cb ← lift (get_command stack f.1.transport); if_command raw_cb
