-- ===== src/Tests/Polling.antt =====
-- usbd-storage/src/subclass/scsi.rs: `poll_command` with a callback that passes every command.
use usbd_storage.Prelude.{ℕ, ◌-◌, ◌≡◌, none, some, false, arith}
use usbd_storage.Prelude.Outcome.{done}
use usbd_storage.Prelude.Proc.{Ensures, Ensures-run}
use usbd_storage.Transport.{passed}
use usbd_storage.Transport.Bbb.Types.{BulkOnly, data_transfer_to_host}
use usbd_storage.Transport.Bbb.ApiSafety.{set_status-sets}
use usbd_storage.Subclass.{Class, WithClass, on_class}
use usbd_storage.Subclass.Command.{pass}
use usbd_storage.Subclass.Safety.{Held}
use usbd_storage.Subclass.Scsi.Parse.{ScsiCommand}
use usbd_storage.Subclass.Scsi.Class.{poll_command}
use usbd_storage.Subclass.Scsi.Polling.{Keeps, scsi_poll_command-Ensures}
use usbd_storage.Tests.Bus.{Wire, bus, bus-IsLawful, at_rest, amid, amid-Inv}

abbrev pass_all : ScsiCommand → ℕ → WithClass bus (Unit {0}) (Unit {0})
pass_all kind lun = on_class bus (pass bus 0)

pass_all-Keeps : Keeps bus pass_all
unfolding pass
pass_all-Keeps = λ kind lun f v w c.
    let (run, inv) = set_status-sets bus f.1.transport v passed 0 w in
    let after : Unit {0} × Class (BulkOnly Wire ℕ) = (
      f.0,
      record f.1 {
        transport = record f.1.transport {
          cs =
              some (record {
                status = passed;
                data_residue = f.1.transport.cbw.data_transfer_len - 0;
              });
        };
      },
    ) in
    let same : pass_all kind lun f ≡ (done tt, after) = ground (arith, run) in
    Ensures-run (done tt, after) (λ _ f'. Held bus f') (λ f'. Held bus f') same inv

abbrev pending : Unit {0} × Class (BulkOnly Wire ℕ)
pending = (tt, record { interface = 0; transport = amid data_transfer_to_host none at_rest })

scsi_poll_command-Ensures_example :
    Ensures (poll_command bus false pass_all pending) (λ _ f'. Held bus f') (λ f'. Held bus f')
scsi_poll_command-Ensures_example =
    scsi_poll_command-Ensures bus false pass_all pending bus-IsLawful pass_all-Keeps
      (amid-Inv data_transfer_to_host none at_rest (omega arith))
