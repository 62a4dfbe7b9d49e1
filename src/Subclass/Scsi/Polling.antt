-- ===== src/Subclass/Scsi/Polling.antt =====
-- usbd-storage/src/subclass/scsi.rs: `poll_command`, for a callback that keeps the invariant.
use usbd_storage.Prelude.{ℕ, Bool, ◌≡◌, none}
use usbd_storage.Prelude.Proc.{Ensures}
use usbd_storage.Transport.{UsbStack, IsLawful, TransportError}
use usbd_storage.Transport.Bbb.Types.{BulkOnly, BulkOnlyError}
use usbd_storage.Transport.Bbb.ApiSafety.{AwaitsStatus}
use usbd_storage.Subclass.{Class, WithClass}
use usbd_storage.Subclass.Safety.{Held, poll_command-Ensures}
use usbd_storage.Subclass.Scsi.Parse.{ScsiCommand, parse_cb}
use usbd_storage.Subclass.Scsi.NoPanic.{scsi_parse_total}
use usbd_storage.Subclass.Scsi.Class.{poll_command}

module _ {World Endpoint UsbError : Type 0} (stack : UsbStack World Endpoint UsbError) where
  -- A call of the callback, for a command without a status, returns and keeps the invariant.
  abbrev pub Keeps : {S : Type 0} → (ScsiCommand → ℕ → WithClass stack S (Unit {0})) → Type 0
  Keeps {S} callback =
      (kind : ScsiCommand) (lun : ℕ) (f : S × Class (BulkOnly World Endpoint))
      → Held stack f
      → AwaitsStatus stack f.1.transport
      → f.1.transport.cs ≡ none
      → Ensures (callback kind lun f) (λ _ f'. Held stack f') (λ f'. Held stack f')

  -- On a lawful stack, let the callback return, normally or by an error, and keep the invariant,
  -- wherever the invariant holds, a status is awaited and none is set. In the invariant
  -- `poll_command` then returns, normally or by an error, and the invariant holds after it: the
  -- command block is there, of a byte at least, and is parsed, and the callback is called in no
  -- other state.
  pub scsi_poll_command-Ensures :
      {S : Type 0} (extended : Bool) (callback : ScsiCommand → ℕ → WithClass stack S (Unit {0}))
      (f : S × Class (BulkOnly World Endpoint))
      → IsLawful stack
      → Keeps callback
      → Held stack f
      → Ensures
          (poll_command stack extended callback f)
          (λ _ f'. Held stack f')
          (λ f'. Held stack f')
  unfolding poll_command
  scsi_poll_command-Ensures extended callback f law keeps v =
      poll_command-Ensures stack law (parse_cb extended)
        (λ cb h. scsi_parse_total (TransportError UsbError BulkOnlyError) extended cb h) callback
        keeps f v
