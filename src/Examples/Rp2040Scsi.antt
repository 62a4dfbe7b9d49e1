-- ===== src/Examples/Rp2040Scsi.antt =====
-- examples/rp2040/src/bin/rp2040_scsi_bbb.rs: a disk of 256 blocks in the flash memory, which is written a
-- block at a time.
use usbd_storage.Prelude.{
  ℕ, zero, suc, ◌+◌, ◌-◌, ◌%◌, not, ◌&&◌, List, [], ◌∷◌, length, false, ltb, ◌==◌, if◌then◌else◌,
}
use usbd_storage.Prelude.Outcome.{sub, slice, splice, out_of_fuel}
use usbd_storage.Prelude.Proc.{◌>>=◌, ◌>>◌, pure, get, lift, modify}
use usbd_storage.Transport.{UsbStack}
use usbd_storage.Subclass.{on_class}
use usbd_storage.Subclass.Command.{read_data, pass}
use usbd_storage.Subclass.Scsi.Parse.{
  ScsiCommand, unknown, inquiry, test_unit_ready, request_sense, mode_sense_6, mode_sense_10,
  read_capacity_10, read_capacity_16, read, write, read_format_capacities,
}
use usbd_storage.Subclass.Scsi.Class
use usbd_storage.Examples.Firmware
use usbd_storage.Examples.Firmware.{mul, add, Program, answer, advance, complete, unknown_command}
use usbd_storage.Examples.ScsiData.{sense_data, mode_sense_6_data, mode_sense_10_data}
use usbd_storage.Examples.Scsi
use usbd_storage.Examples.Scsi.{complete_if_all}

abbrev pub block_size : ℕ
block_size = 4096

abbrev pub blocks : ℕ
blocks = 256

-- "UNKNOWN ", "RP2040 USB Flash" and "1.23"
abbrev pub inquiry_data : List ℕ
inquiry_data =
    0x00 ∷ 0x80 ∷ 0x04 ∷ 0x02 ∷ 0x20 ∷ 0x00 ∷ 0x00 ∷ 0x00 ∷ 85 ∷ 78 ∷ 75 ∷ 78 ∷ 79 ∷ 87 ∷ 78 ∷ 32
    ∷ 82 ∷ 80 ∷ 50 ∷ 48 ∷ 52 ∷ 48 ∷ 32 ∷ 85 ∷ 83 ∷ 66 ∷ 32 ∷ 70 ∷ 108 ∷ 97 ∷ 115 ∷ 104 ∷ 49 ∷ 46
    ∷ 50 ∷ 51 ∷ []

-- The flash memory, by the rp2040-flash crate: `address` is where `FILESYSTEM` begins in it.
pub record Flash (F : Type 0) : Type 0 where
  pub address : ℕ
  pub filesystem : F → List ℕ
  pub flash_range_erase_and_program : ℕ → List ℕ → F → F

-- `WRITE_BUFFER`, and the flash memory.
pub record Disk (F : Type 0) : Type 0 where
  pub write_buffer : List ℕ
  pub flash : F

module _ {World Endpoint UsbError : Type 0} (stack : UsbStack World Endpoint UsbError) {F : Type 0}
    (device : Flash F) where
  -- `start & !0xfff` is the start of the block. The sum, of 32 bits in the source, is written without its
  -- overflow: the address is below 2 ^ 24, and a start below 1 MiB where the blocks lie in the file system.
  unfoldable pub program_block : ℕ → Disk F → Disk F
  program_block start disk = record disk {
    flash =
        device.flash_range_erase_and_program (device.address + (start - start % 0x1000))
          disk.write_buffer disk.flash;
  }

  -- The `loop` of the `Write` arm: `fuel` bounds its turns.
  unfoldable pub receive_blocks : ℕ → ℕ → Program stack (Disk F) (Unit {0})
  receive_blocks zero lba = lift out_of_fuel
  receive_blocks (suc fuel) lba =
      let next_turn = receive_blocks fuel lba in
      do
        f ← get
        first ← lift (mul block_size lba)
        start ← lift (add first f.0.state.storage_offset)
        let block_offset = start % block_size
        rest ← lift (sub block_size block_offset)
        end ← lift (add start rest)
        let write_buffer = f.0.memory.write_buffer
        old ← lift (slice write_buffer block_offset (length write_buffer))
        (count, bytes) ← on_class stack (read_data stack old)
        modify λ g. (
          record g.0 {
            memory = record g.0.memory { write_buffer = splice write_buffer block_offset bytes };
          },
          g.1,
        )
        advance stack count
        f' ← get
        if ltb 0 count && (f'.0.state.storage_offset % block_size == 0)
            then ((modify λ g. (record g.0 { memory = program_block start g.0.memory }, g.1))
                >> next_turn)
            else pure tt

  unfoldable pub write_blocks : ℕ → ℕ → ℕ → Program stack (Disk F) (Unit {0})
  write_blocks fuel lba len = do
    f ← get
    size ← lift (mul len block_size)
    if not (f.0.state.storage_offset == size)
        then (receive_blocks fuel lba >> complete_if_all stack block_size len)
        else complete stack

  unfoldable pub process_command : ℕ → ScsiCommand → Program stack (Disk F) (Unit {0})
  process_command fuel test_unit_ready = on_class stack (pass stack 0)
  process_command fuel (inquiry evpd page_code alloc_len) = answer stack inquiry_data
  process_command fuel (request_sense desc alloc_len) = Firmware.request_sense stack sense_data
  process_command fuel read_capacity_10 = Scsi.read_capacity_10 stack block_size blocks
  process_command fuel (read_capacity_16 alloc_len) = Scsi.read_capacity_16 stack block_size blocks
  process_command fuel (read_format_capacities alloc_len) =
      Scsi.read_format_capacities stack block_size blocks
  process_command fuel (read lba len) =
      Scsi.read stack block_size (λ disk. device.filesystem disk.flash) lba len
  process_command fuel (write lba len) = write_blocks fuel lba len
  process_command fuel (mode_sense_6 dbd control page subpage alloc_len) =
      answer stack mode_sense_6_data
  process_command fuel (mode_sense_10 dbd control page subpage alloc_len) =
      answer stack mode_sense_10_data
  process_command fuel (unknown code) = unknown_command stack

  -- The main loop's call of `poll_command`; an error that it returns is logged.
  unfoldable pub poll_command : ℕ → Program stack (Disk F) (Unit {0})
  poll_command fuel = Class.poll_command stack false λ kind lun. process_command fuel kind
