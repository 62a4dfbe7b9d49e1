-- ===== src/Subclass/Scsi/Class.antt =====
-- usbd-storage/src/subclass/scsi.rs: the class itself, over the Bulk Only Transport.
use usbd_storage.Prelude.{ℕ, Bool, List}
use usbd_storage.Prelude.Proc.{Proc, ◌>>=◌, pure}
use usbd_storage.Transport.{UsbStack, DescriptorWriter, TransportImpl}
use usbd_storage.Transport.Bbb.Types.{BulkOnly, BulkOnlyError}
use usbd_storage.Transport.Bbb.Api
use usbd_storage.Subclass
use usbd_storage.Subclass.{Class, WithClass}
use usbd_storage.Subclass.Scsi.Parse.{ScsiCommand, parse_cb}

abbrev pub subclass_scsi : ℕ
subclass_scsi = 0x06

module _ {World Endpoint UsbError : Type 0} (stack : UsbStack World Endpoint UsbError) where
  -- `interface` is the number that `alloc.interface()` returns.
  unfoldable pub new :
      ℕ → ℕ → ℕ → List ℕ → Proc World BulkOnlyError (Class (BulkOnly World Endpoint))
  new interface packet_size max_lun buf = do
    transport ← Api.new stack packet_size max_lun buf
    pure (record { interface = interface; transport = transport })

  unfoldable pub poll_command :
      {S : Type 0}
      → Bool
      → (ScsiCommand → ℕ → WithClass stack S (Unit {0}))
      → WithClass stack S (Unit {0})
  poll_command extended callback = Subclass.poll_command stack (parse_cb extended) callback

module _ {T Writer Endpoint UsbError E : Type 0} (impl : TransportImpl T Writer UsbError E)
    (writer : DescriptorWriter Writer Endpoint UsbError) where
  unfoldable pub get_configuration_descriptors : Class T → Proc Writer UsbError (Unit {0})
  get_configuration_descriptors = Subclass.get_configuration_descriptors impl writer subclass_scsi
