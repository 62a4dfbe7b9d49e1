-- ===== src/Subclass/Command.antt =====
-- usbd-storage/src/subclass.rs: the methods of `Command`, over the class that it holds.
use usbd_storage.Prelude.{ℕ, List}
use usbd_storage.Transport.{UsbStack, passed, failed, phase_error}
use usbd_storage.Transport.Bbb.Api
use usbd_storage.Subclass.{ClassMethod, on_transport}

module _ {World Endpoint UsbError : Type 0} (stack : UsbStack World Endpoint UsbError) where
  unfoldable pub read_data : List ℕ → ClassMethod stack (ℕ × List ℕ)
  read_data dst = on_transport (Api.read_data stack dst)

  unfoldable pub write_data : List ℕ → ClassMethod stack ℕ
  write_data src = on_transport (Api.write_data stack src)

  unfoldable pub try_write_data_all : List ℕ → ClassMethod stack (Unit {0})
  try_write_data_all src = on_transport (Api.try_write_data_all stack src)

  unfoldable pub pass : ℕ → ClassMethod stack (Unit {0})
  pass num_bytes_processed = on_transport (Api.set_status stack passed num_bytes_processed)

  unfoldable pub fail : ℕ → ClassMethod stack (Unit {0})
  fail num_bytes_processed = on_transport (Api.set_status stack failed num_bytes_processed)

  unfoldable pub fail_phase : ClassMethod stack (Unit {0})
  fail_phase = on_transport (Api.set_status stack phase_error 0)
