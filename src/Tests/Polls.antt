-- ===== src/Tests/Polls.antt =====
-- usbd-storage/src/transport/bbb.rs: many polls, on a transport amid a command.
use usbd_storage.Prelude.{ℕ, ◌≡◌, refl, none, some, [], ◌∷◌, ◌++◌, replicate, arith}
use usbd_storage.Transport.{passed}
use usbd_storage.Transport.Bbb.Types.{
  BulkOnly, StatusAndResidue, data_transfer_to_host, data_transfer_to_host_ending,
}
use usbd_storage.Transport.Bbb.Wrapper.{csw_bytes}
use usbd_storage.Transport.Bbb.Api.{set_status}
use usbd_storage.Transport.Bbb.Flow.{owed}
use usbd_storage.Transport.Bbb.Flow.Delivery.{poll_times, polls_conserve, answer_delivered}
use usbd_storage.Tests.Bus.{
  Wire, bus, bus-IsLawful, bus-IsLog, bus-HasPackets, bus-IsReady, outgoing, at_rest, amid,
  amid-Inv,
}

abbrev read_out : StatusAndResidue
read_out = record { status = passed; data_residue = 36 }

abbrev ending : BulkOnly Wire ℕ
ending = amid data_transfer_to_host_ending (some read_out) at_rest

polls_conserve_example :
    outgoing (poll_times bus 3 ending).bus ++ owed (poll_times bus 3 ending)
    ≡ outgoing at_rest ++ owed ending
polls_conserve_example =
    polls_conserve bus bus-IsLawful bus-HasPackets outgoing bus-IsLog 3 ending (
      amid-Inv data_transfer_to_host_ending (some read_out) at_rest (omega arith, (read_out, refl)))

abbrev reading : BulkOnly Wire ℕ
reading = amid data_transfer_to_host none at_rest

-- Four bytes wait, 36 are filled in, and the CSW has 13.
answer_delivered_example :
    outgoing (poll_times bus 53 (set_status bus passed 4 reading).1).bus
    ≡ (1 ∷ 2 ∷ 3 ∷ 4 ∷ []) ++ (replicate 36 0xFF ++ csw_bytes 7 read_out)
unfolding csw_bytes
answer_delivered_example =
    answer_delivered bus bus-IsLawful bus-HasPackets outgoing bus-IsLog bus-IsReady 53 reading
      passed 4 (amid-Inv data_transfer_to_host none at_rest (omega arith)) refl (omega arith)
