-- ===== src/Tests/Storing.antt =====
-- examples/stm32/src/bin/stm32f411x_scsi_bbb.rs and examples/rp2040/src/bin/rp2040_scsi_bbb.rs: a `Write`
-- command, at a concrete input.
use usbd_storage.Prelude.{
  ℕ, ◌+◌, ◌-◌, ◌≡◌, ◌⊎◌, refl, ap, inl, none, some, List, [], ◌∷◌, replicate, length,
  length-replicate, arith,
}
use usbd_storage.Prelude.Outcome.{sub, slice, splice}
use usbd_storage.Buffer.{available_read, available_write, make_room, write_all}
use usbd_storage.Buffer.Contents.{contents}
use usbd_storage.Transport.{passed}
use usbd_storage.Transport.Bbb.Types.{BulkOnly, data_transfer_from_host}
use usbd_storage.Transport.Bbb.Packets.{packet_size, read_packet, read_closure, mark_as_transferred}
use usbd_storage.Transport.Bbb.Handlers.{
  poll, poll_within, poll_state, handle_data_transfer_from_host, has_status,
}
use usbd_storage.Transport.Bbb.Invariant.{Inv}
use usbd_storage.Examples.Firmware.{default_state}
use usbd_storage.Examples.Answering.{Device, with_transport}
use usbd_storage.Examples.Stm32Scsi.{write_blocks}
use usbd_storage.Examples.Written.{here, polled, called}
use usbd_storage.Examples.Stm32Written.{Writes, Stores, InMemory, write_transfers, write_completes}
use usbd_storage.Transport.Bbb.Intake.{Takes, poll-Takes}
use usbd_storage.Examples.Rp2040Scsi
use usbd_storage.Examples.Rp2040Scsi.{Flash, Disk}
use usbd_storage.Examples.Rp2040Blocks.{IsFlash}
use usbd_storage.Examples.Rp2040Writing.{TakesAll, receive_blocks-TakesAll}
use usbd_storage.Examples.Rp2040Written
use usbd_storage.Examples.Rp2040Written.{
  IsDisk, WrittenPart, WrittenWhole, write_programs, write_programs_all,
}
use usbd_storage.Tests.Bus.{Wire, bus, bus-IsLawful, bus-IsIntake, handed, at_rest, amid}

-- Two packets are on their way.
abbrev two_packets : Wire
two_packets = record at_rest { incoming = (1 ∷ 2 ∷ 3 ∷ 4 ∷ []) ∷ (5 ∷ 6 ∷ 7 ∷ 8 ∷ []) ∷ [] }

abbrev opened : BulkOnly Wire ℕ
opened = record (amid data_transfer_from_host none two_packets) {
  buf = record { inner = replicate 32 0; rpos = 0; wpos = 0 };
  left_to_transfer = 512;
}

opened-Inv : Inv bus opened
unfolding packet_size
opened-Inv = record {
  base = record {
    buffer = omega arith;
    cbw_fits = omega arith;
    packet_fits = omega arith;
    small = omega arith;
    block_fits = omega arith;
    block_some = λ _. omega arith;
  };
  in_state = tt;
}

abbrev blank_disk : Device Wire ℕ (List ℕ)
blank_disk = (
  record { state = default_state; memory = replicate 1024 0 },
  record { interface = 0; transport = opened },
)

abbrev one_packet : Device Wire ℕ (List ℕ)
one_packet = with_transport blank_disk (poll bus opened).1

no_status_yet : (poll bus opened).1.cs ≡ none
unfolding poll poll_within poll_state read_packet write_all make_room available_write sub
    packet_size slice read_closure available_read handle_data_transfer_from_host has_status
    mark_as_transferred
no_status_yet = refl

one_written : Writes bus 1 1 blank_disk (write_blocks bus 1 1 one_packet).1
one_written = called (polled (here blank_disk) refl) no_status_yet tt

in_memory : InMemory bus 1 1 blank_disk.0.memory
in_memory = record { within = omega arith; small = omega arith }

write_transfers_example :
    Stores bus 1 1 bus-IsLawful handed bus-IsIntake blank_disk in_memory
      (write_blocks bus 1 1 one_packet).1
write_transfers_example =
    write_transfers bus 1 1 bus-IsLawful handed bus-IsIntake blank_disk in_memory opened-Inv
      (inl refl) refl refl refl (omega arith) (write_blocks bus 1 1 one_packet).1 one_written

-- A whole block is on its way, in one packet of 512 bytes.
abbrev whole_block : Wire
whole_block = record at_rest { incoming = replicate 512 7 ∷ [] }

abbrev wide : BulkOnly Wire ℕ
wide = record opened {
  in_ep = 511;
  out_ep = 511;
  buf = record { inner = replicate 512 0; rpos = 0; wpos = 0 };
  bus = whole_block;
}

wide-Inv : Inv bus wide
unfolding packet_size
wide-Inv = record {
  base = record {
    buffer = omega arith;
    cbw_fits = omega (arith, length-replicate {A = ℕ} 512 0);
    packet_fits = omega (arith, length-replicate {A = ℕ} 512 0);
    small = omega (arith, length-replicate {A = ℕ} 512 0);
    block_fits = omega arith;
    block_some = λ _. omega arith;
  };
  in_state = tt;
}

abbrev wide_disk : Device Wire ℕ (List ℕ)
wide_disk = (
  record { state = default_state; memory = replicate 1024 0 },
  record { interface = 0; transport = wide },
)

all_handed_in : ((poll bus wide).1.cs ≡ none) × (length (handed (poll bus wide).1.bus) ≡ 512)
unfolding poll poll_within poll_state read_packet write_all make_room available_write sub
    packet_size slice read_closure available_read handle_data_transfer_from_host has_status
    mark_as_transferred
all_handed_in = (refl, refl)

write_completes_example :
    (write_blocks bus 1 1 (with_transport wide_disk (poll bus wide).1)).1.1.transport.cs
    ≡ some (record { status = passed; data_residue = 0 })
write_completes_example =
    write_completes bus 1 1 bus-IsLawful handed bus-IsIntake wide_disk in_memory wide-Inv (inl refl)
      refl refl refl (omega arith) (with_transport wide_disk (poll bus wide).1)
      (polled (here wide_disk) refl) all_handed_in.0 (omega (arith, all_handed_in.1))

-- A flash memory of two blocks.
abbrev flash : Flash (List ℕ)
flash = record {
  address = 0x100000;
  filesystem = λ s. s;
  flash_range_erase_and_program = λ address bytes s. splice s (address - 0x100000) bytes;
}

flash-IsFlash : IsFlash flash
flash-IsFlash = record {
  aligned = omega arith;
  programs = λ start bytes s sector whole within.
      ap (λ k. splice s k bytes) {x = 0x100000 + start - 0x100000} {y = start} (omega arith);
}

abbrev blank_flash : Device Wire ℕ (Disk (List ℕ))
blank_flash = (
  record {
    state = default_state;
    memory = record { write_buffer = replicate 4096 0; flash = replicate 8192 0 };
  },
  record { interface = 0; transport = opened },
)

blank_flash-IsDisk : IsDisk bus flash 5 1 1 blank_flash.0.memory
blank_flash-IsDisk = record {
  buffer = length-replicate {A = ℕ} 4096 0;
  within = omega (arith, length-replicate {A = ℕ} 8192 0);
  small = omega (arith, length-replicate {A = ℕ} 8192 0);
}

abbrev flash_packet : Device Wire ℕ (Disk (List ℕ))
flash_packet = with_transport blank_flash (poll bus opened).1

four_wait : length (contents (poll bus opened).1.buf) ≡ 4
unfolding poll poll_within poll_state read_packet write_all make_room available_write sub
    packet_size slice read_closure available_read handle_data_transfer_from_host has_status
    mark_as_transferred
four_wait = refl

-- What one poll leaves.
packet_taken : Takes bus bus-IsLawful handed bus-IsIntake [] opened.cbw (poll bus opened).1 []
packet_taken = poll-Takes bus bus-IsLawful handed bus-IsIntake [] opened.cbw opened [] (record {
  inv = opened-Inv;
  from_host = inl refl;
  no_status = refl;
  same_cbw = refl;
  so_far = refl;
})

receive_blocks-TakesAll_example : TakesAll bus flash 1 5 flash_packet
receive_blocks-TakesAll_example =
    receive_blocks-TakesAll bus flash 1 flash-IsFlash 5 flash_packet
      (record {
        buffer = blank_flash-IsDisk.buffer;
        within = omega (arith, four_wait, blank_flash-IsDisk.within);
        small = blank_flash-IsDisk.small;
      })
      packet_taken.inv packet_taken.from_host (omega (arith, four_wait))

programmed_once :
    Rp2040Written.Writes bus flash 5 1 1 blank_flash
      (Rp2040Scsi.write_blocks bus flash 5 1 1 flash_packet).1
programmed_once =
    called (polled (here blank_flash) refl) no_status_yet
      (record { within = omega (arith, four_wait); fuel_enough = omega (arith, four_wait) })

write_programs_example :
    let g = (Rp2040Scsi.write_blocks bus flash 5 1 1 flash_packet).1 in
    WrittenPart bus flash 5 1 1 bus-IsLawful handed bus-IsIntake flash-IsFlash blank_flash
      blank_flash-IsDisk g
    ⊎ WrittenWhole bus flash 5 1 1 bus-IsLawful handed bus-IsIntake flash-IsFlash blank_flash
        blank_flash-IsDisk g
write_programs_example =
    write_programs bus flash 5 1 1 bus-IsLawful handed bus-IsIntake flash-IsFlash blank_flash
      blank_flash-IsDisk opened-Inv (inl refl) refl refl refl (omega arith)
      (Rp2040Scsi.write_blocks bus flash 5 1 1 flash_packet).1 programmed_once

-- A whole block of the flash memory is on its way, in one packet.
abbrev wider : BulkOnly Wire ℕ
wider = record opened {
  in_ep = 4095;
  out_ep = 4095;
  buf = record { inner = replicate 4096 0; rpos = 0; wpos = 0 };
  bus = record at_rest { incoming = replicate 4096 7 ∷ [] };
}

wider-Inv : Inv bus wider
unfolding packet_size
wider-Inv = record {
  base = record {
    buffer = omega arith;
    cbw_fits = omega (arith, length-replicate {A = ℕ} 4096 0);
    packet_fits = omega (arith, length-replicate {A = ℕ} 4096 0);
    small = omega (arith, length-replicate {A = ℕ} 4096 0);
    block_fits = omega arith;
    block_some = λ _. omega arith;
  };
  in_state = tt;
}

abbrev wide_flash : Device Wire ℕ (Disk (List ℕ))
wide_flash = (blank_flash.0, record { interface = 0; transport = wider })

abbrev wide_packet : Device Wire ℕ (Disk (List ℕ))
wide_packet = with_transport wide_flash (poll bus wider).1

whole_flash-IsDisk : IsDisk bus flash 4097 1 1 wide_flash.0.memory
whole_flash-IsDisk = record {
  buffer = length-replicate {A = ℕ} 4096 0;
  within = omega (arith, length-replicate {A = ℕ} 8192 0);
  small = omega (arith, length-replicate {A = ℕ} 8192 0);
}

block_came :
    ((poll bus wider).1.cs ≡ none)
    × (length (handed (poll bus wider).1.bus) ≡ 4096)
    × (length (contents (poll bus wider).1.buf) ≡ 4096)
unfolding poll poll_within poll_state read_packet write_all make_room available_write sub
    packet_size slice read_closure available_read handle_data_transfer_from_host has_status
    mark_as_transferred
block_came = (refl, refl, refl)

write_programs_all_example :
    WrittenWhole bus flash 4097 1 1 bus-IsLawful handed bus-IsIntake flash-IsFlash wide_flash
      whole_flash-IsDisk
      (Rp2040Scsi.write_blocks bus flash 4097 1 1 wide_packet).1
write_programs_all_example =
    write_programs_all bus flash 4097 1 1 bus-IsLawful handed bus-IsIntake flash-IsFlash wide_flash
      whole_flash-IsDisk wider-Inv (inl refl) refl refl refl (omega arith) wide_packet
      (polled (here wide_flash) refl) block_came.0
      (record { within = omega (arith, block_came.2); fuel_enough = omega (arith, block_came.2) })
      (omega (arith, block_came.1))
