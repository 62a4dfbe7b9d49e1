-- ===== src/Subclass/Ufi/Class.antt =====
-- usbd-storage/src/subclass/ufi.rs: the class itself, over the Bulk Only Transport.
use usbd_storage.Prelude.{ℕ, List}
use usbd_storage.Prelude.Proc.{Proc, ◌>>=◌, pure}
use usbd_storage.Transport.{UsbStack, DescriptorWriter, TransportImpl}
use usbd_storage.Transport.Bbb.Types.{BulkOnly, BulkOnlyError}
use usbd_storage.Transport.Bbb.Api
use usbd_storage.Subclass
use usbd_storage.Subclass.{Class, WithClass}
use usbd_storage.Subclass.Ufi.Parse.{UfiCommand, parse_cb}

abbrev pub subclass_ufi : ℕ
subclass_ufi = 0x04

module _ {World Endpoint UsbError : Type 0} (stack : UsbStack World Endpoint UsbError) where
  -- `interface` is the number that `alloc.interface()` returns.
  unfoldable pub new : ℕ → ℕ → List ℕ → Proc World BulkOnlyError (Class (BulkOnly World Endpoint))
  new interface packet_size buf = do
    transport ← Api.new stack packet_size 0 buf
    pure (record { interface = interface; transport = transport })

  unfoldable pub poll_command :
      {S : Type 0} → (UfiCommand → ℕ → WithClass stack S (Unit {0})) → WithClass stack S (Unit {0})
  poll_command callback = Subclass.poll_command stack parse_cb callback

module _ {T Writer Endpoint UsbError E : Type 0} (impl : TransportImpl T Writer UsbError E)
    (writer : DescriptorWriter Writer Endpoint UsbError) where
  unfoldable pub get_configuration_descriptors : Class T → Proc Writer UsbError (Unit {0})
  get_configuration_descriptors = Subclass.get_configuration_descriptors impl writer subclass_ufi
