-- ===== src/Tests/Firmware.antt =====
-- The firmware of examples, at concrete inputs: a small disk, and packets of 8 bytes.
use usbd_storage.Prelude.{
  false, ℕ, ◌<◌, ◌≡◌, ◌⊎◌, inl, refl, none, List, [], ◌∷◌, ◌++◌, replicate, arith,
}
use usbd_storage.Prelude.Outcome.{done, sub, slice, splice}
use usbd_storage.Buffer
use usbd_storage.Buffer.Contents.{contents}
use usbd_storage.Buffer.{Buffer, available_read, make_room, available_write, copy_from_slice}
use usbd_storage.Transport.{passed, failed}
use usbd_storage.Transport.Bbb.Types.{
  BulkOnly, StatusAndResidue, data_transfer_to_host, data_transfer_from_host,
}
use usbd_storage.Transport.Bbb.Wrapper.{csw_bytes}
use usbd_storage.Transport.Bbb.Packets.{packet_size, allowed_to_append_to_data_transfer}
use usbd_storage.Transport.Bbb.Api
use usbd_storage.Transport.Bbb.Api.{set_status}
use usbd_storage.Transport.Bbb.ApiSafety.{with_buf}
use usbd_storage.Transport.Bbb.Handlers.{poll}
use usbd_storage.Transport.Bbb.Invariant.{Inv}
use usbd_storage.Transport.Bbb.Flow.{owed}
use usbd_storage.Transport.Bbb.Flow.Delivery.{poll_times}
use usbd_storage.Subclass.Scsi.Parse.{unknown, request_sense, read_capacity_10}
use usbd_storage.Subclass.Command.{write_data}
use usbd_storage.Examples.Firmware.{default_state, mul, add, advance}
use usbd_storage.Examples.Scsi.{read, send_blocks}
use usbd_storage.Examples.Stm32Scsi.{process_command, write_blocks}
use usbd_storage.Examples.Stm32Writing.{write_blocks_stores}
use usbd_storage.Examples.Filler.{FillsAll, send_filler-FillsAll}
use usbd_storage.Examples.Answering.{Device, with_transport}
use usbd_storage.Examples.Stm32Unknown.{unknown_is_told}
use usbd_storage.Examples.Stm32Answers.{command_delivered}
use usbd_storage.Examples.Served.{Serves, here, polled, called, read_transfers}
use usbd_storage.Tests.Bus.{
  Wire, bus, bus-IsLawful, bus-IsLog, bus-HasPackets, bus-IsReady, outgoing, at_rest, amid,
  amid-Inv,
}

-- A command that asks for 8 bytes.
abbrev asked : BulkOnly Wire ℕ
asked = record (amid data_transfer_to_host none at_rest) {
  buf = record { inner = replicate 32 0; rpos = 0; wpos = 0 };
  cbw = record (amid data_transfer_to_host none at_rest).cbw { data_transfer_len = 8 };
  left_to_transfer = 8;
}

asked-Inv : Inv bus asked
unfolding packet_size
asked-Inv = record {
  base = record {
    buffer = omega arith;
    cbw_fits = omega arith;
    packet_fits = omega arith;
    small = omega arith;
    block_fits = omega arith;
    block_some = λ _. omega arith;
  };
  in_state = omega arith;
}

abbrev disk : Device Wire ℕ (List ℕ)
disk = (
  record { state = default_state; memory = 0 ∷ 1 ∷ 2 ∷ 3 ∷ 4 ∷ 5 ∷ 6 ∷ 7 ∷ 8 ∷ 9 ∷ 10 ∷ 11 ∷ [] },
  record { interface = 0; transport = asked },
)

abbrev all_passed : StatusAndResidue
all_passed = record { status = passed; data_residue = 0 }

command_delivered_example :
    let f' = (process_command bus read_capacity_10 disk).1 in
    (f'.0 ≡ disk.0)
    × (outgoing (poll_times bus 21 f'.1.transport).bus
        ≡ (0 ∷ 0 ∷ 0 ∷ 199 ∷ 0 ∷ 0 ∷ 2 ∷ 0 ∷ []) ++ csw_bytes 7 all_passed)
unfolding csw_bytes
command_delivered_example =
    command_delivered bus bus-IsLawful bus-HasPackets outgoing bus-IsLog bus-IsReady 21 disk
      read_capacity_10 (0 ∷ 0 ∷ 0 ∷ 199 ∷ 0 ∷ 0 ∷ 2 ∷ 0 ∷ []) asked-Inv refl refl refl
      (record { in_transfer = omega arith; in_buffer = omega arith }) (omega arith)

-- Blocks of four bytes.
abbrev read_block : Device Wire ℕ (List ℕ) → Device Wire ℕ (List ℕ)
read_block f = (read bus 4 (λ (m : List ℕ). m) 1 2 f).1

abbrev served : Device Wire ℕ (List ℕ)
served = with_transport (read_block disk) (poll bus (read_block disk).1.transport).1

read_is_served : Serves bus 4 (λ (m : List ℕ). m) 1 2 disk served
read_is_served = polled (called (here disk) (λ e. absurd (omega (arith, e))))

all_handed_over : served.0.state.storage_offset ≡ 8
unfolding read send_blocks mul add slice advance write_data Api.write_data
    allowed_to_append_to_data_transfer available_read sub Buffer.write make_room available_write
    copy_from_slice
all_handed_over = refl

read_transfers_example :
    let h = read_block served in
    let t = poll_times bus 3 h.1.transport in
    (h.0.state.storage_offset ≡ 0)
    × (outgoing t.bus ++ owed t ≡ (4 ∷ 5 ∷ 6 ∷ 7 ∷ 8 ∷ 9 ∷ 10 ∷ 11 ∷ []) ++ csw_bytes 7 all_passed)
unfolding csw_bytes
read_transfers_example =
    read_transfers bus 4 (λ (m : List ℕ). m) 1 2 bus-IsLawful bus-HasPackets outgoing bus-IsLog disk
      (record { within = omega arith; small = omega arith }) served 3 asked-Inv refl refl refl refl
      refl read_is_served all_handed_over

-- Two blocks of 512 bytes, to the second of which four bytes are on their way.
abbrev two_blocks : List ℕ
two_blocks = replicate 1024 0

abbrev receiving : BulkOnly Wire ℕ
receiving = amid data_transfer_from_host none at_rest

abbrev written_disk : Device Wire ℕ (List ℕ)
written_disk = (
  record { state = default_state; memory = two_blocks },
  record { interface = 0; transport = receiving },
)

write_blocks_stores_example :
    (b : Buffer) × (contents b ≡ [])
    × Inv bus (with_buf bus receiving b)
    × (((4 < 512)
          × (write_blocks bus 1 1 written_disk ≡ (
            done tt,
            (
              record {
                state = record default_state { storage_offset = 4 };
                memory = splice two_blocks 512 (1 ∷ 2 ∷ 3 ∷ 4 ∷ []);
              },
              record { interface = 0; transport = with_buf bus receiving b },
            ),
          )))
        ⊎ ((◌≡◌ {A = ℕ} 4 512)
            × (write_blocks bus 1 1 written_disk ≡ (
              done tt,
              (
                record {
                  state = default_state;
                  memory = splice two_blocks 512 (1 ∷ 2 ∷ 3 ∷ 4 ∷ []);
                },
                record {
                  interface = 0;
                  transport = (set_status bus passed 512 (with_buf bus receiving b)).1;
                },
              ),
            ))))
write_blocks_stores_example =
    write_blocks_stores bus 1 1 written_disk (record { within = omega arith; small = omega arith })
      (omega arith) (amid-Inv data_transfer_from_host none at_rest tt) (inl refl)

abbrev floppy : Device Wire ℕ Unit
floppy =
    (record { state = default_state; memory = tt }, record { interface = 0; transport = asked })

send_filler-FillsAll_example : FillsAll bus [] 9 floppy 8
send_filler-FillsAll_example =
    send_filler-FillsAll bus [] 9 floppy asked-Inv refl (omega arith) (omega arith)

-- A command that asks for the 18 bytes of sense data.
abbrev asks_for_reason : BulkOnly Wire ℕ
asks_for_reason = record asked {
  cbw = record asked.cbw { data_transfer_len = 18 };
  left_to_transfer = 18;
}

asks_for_reason-Inv : Inv bus asks_for_reason
unfolding packet_size
asks_for_reason-Inv = record {
  base = record {
    buffer = omega arith;
    cbw_fits = omega arith;
    packet_fits = omega arith;
    small = omega arith;
    block_fits = omega arith;
    block_some = λ _. omega arith;
  };
  in_state = omega arith;
}

unknown_is_told_example :
    let failing = (process_command bus (unknown 0x42) disk).1 in
    let answered =
      (process_command bus (request_sense false 18) (with_transport failing asks_for_reason)).1 in
    let end = poll_times bus 2 failing.1.transport in
    (outgoing end.bus ++ owed end
      ≡ replicate 8 0xFF ++ csw_bytes 7 (record { status = failed; data_residue = 8 }))
    × (outgoing (poll_times bus 31 answered.1.transport).bus
        ≡ (0x70 ∷ 0 ∷ 0x05 ∷ 0 ∷ 0 ∷ 0 ∷ 0 ∷ 0 ∷ 0 ∷ 0 ∷ 0 ∷ 0 ∷ 0x20 ∷ 0x00 ∷ 0 ∷ 0 ∷ 0 ∷ 0 ∷ [])
          ++ csw_bytes 7 all_passed)
    × (answered.0 ≡ disk.0)
unfolding csw_bytes
unknown_is_told_example =
    unknown_is_told bus bus-IsLawful bus-HasPackets outgoing bus-IsLog bus-IsReady disk 0x42 false
      18 2 31 asks_for_reason asked-Inv (inl refl) asks_for_reason-Inv refl refl
      (record { in_transfer = omega arith; in_buffer = omega arith }) (omega arith)
