-- ===== src/Transport/Bbb/Impl.antt =====
-- usbd-storage/src/transport/bbb.rs: the Bulk Only Transport as a `Transport`.
use usbd_storage.Prelude.Proc.{Proc, ◌>>◌}
use usbd_storage.Transport.{UsbStack, DescriptorWriter, TransportImpl}
use usbd_storage.Transport.Bbb.Types.{BulkOnly, BulkOnlyError, transport_bbb}
use usbd_storage.Transport.Bbb.Api.{reset, control_in}
use usbd_storage.Transport.Bbb.Handlers.{poll}

module _ {World Endpoint UsbError Writer : Type 0} (stack : UsbStack World Endpoint UsbError)
    (writer : DescriptorWriter Writer Endpoint UsbError) where
  unfoldable pub get_endpoint_descriptors :
      BulkOnly World Endpoint → Proc Writer UsbError (Unit {0})
  get_endpoint_descriptors t = do writer.endpoint t.in_ep; writer.endpoint t.out_ep

  abbrev pub bulk_only : TransportImpl (BulkOnly World Endpoint) Writer UsbError BulkOnlyError
  bulk_only = record {
    proto = transport_bbb;
    get_endpoint_descriptors = get_endpoint_descriptors;
    reset = reset stack;
    control_in = control_in stack;
    poll = poll stack;
  }
