-- ===== src/Examples/Stm32Scsi.antt =====
-- examples/stm32/src/bin/stm32f411x_scsi_bbb.rs: a disk of 200 blocks in memory.
use usbd_storage.Prelude.{ℕ, not, List, [], ◌∷◌, false, ◌==◌, if◌then◌else◌}
use usbd_storage.Prelude.Outcome.{slice, splice}
use usbd_storage.Prelude.Proc.{◌>>=◌, ◌>>◌, get, lift, modify}
use usbd_storage.Transport.{UsbStack}
use usbd_storage.Subclass.{on_class}
use usbd_storage.Subclass.Command.{read_data, pass}
use usbd_storage.Subclass.Scsi.Parse.{
  ScsiCommand, unknown, inquiry, test_unit_ready, request_sense, mode_sense_6, mode_sense_10,
  read_capacity_10, read_capacity_16, read, write, read_format_capacities,
}
use usbd_storage.Subclass.Scsi.Class
use usbd_storage.Examples.Firmware
use usbd_storage.Examples.Firmware.{mul, add, Program, answer, advance, complete, unknown_command}
use usbd_storage.Examples.ScsiData.{sense_data, mode_sense_6_data, mode_sense_10_data}
use usbd_storage.Examples.Scsi
use usbd_storage.Examples.Scsi.{complete_if_all}

abbrev pub block_size : ℕ
block_size = 512

abbrev pub blocks : ℕ
blocks = 200

-- "UNKNOWN ", "STM32 USB Flash " and "1.23"
abbrev pub inquiry_data : List ℕ
inquiry_data =
    0x00 ∷ 0x80 ∷ 0x04 ∷ 0x02 ∷ 0x20 ∷ 0x00 ∷ 0x00 ∷ 0x00 ∷ 85 ∷ 78 ∷ 75 ∷ 78 ∷ 79 ∷ 87 ∷ 78 ∷ 32
    ∷ 83 ∷ 84 ∷ 77 ∷ 51 ∷ 50 ∷ 32 ∷ 85 ∷ 83 ∷ 66 ∷ 32 ∷ 70 ∷ 108 ∷ 97 ∷ 115 ∷ 104 ∷ 32 ∷ 49 ∷ 46
    ∷ 50 ∷ 51 ∷ []

module _ {World Endpoint UsbError : Type 0} (stack : UsbStack World Endpoint UsbError) where
  -- The memory is `STORAGE`. A `read_data` that fails has not touched its slice.
  unfoldable pub receive_blocks : ℕ → ℕ → Program stack (List ℕ) (Unit {0})
  receive_blocks lba len = do
    f ← get
    first ← lift (mul block_size lba)
    start ← lift (add first f.0.state.storage_offset)
    size ← lift (mul block_size len)
    end ← lift (add first size)
    old ← lift (slice f.0.memory start end)
    (count, bytes) ← on_class stack (read_data stack old)
    modify λ g. (record g.0 { memory = splice f.0.memory start bytes }, g.1)
    advance stack count
    complete_if_all stack block_size len

  unfoldable pub write_blocks : ℕ → ℕ → Program stack (List ℕ) (Unit {0})
  write_blocks lba len = do
    f ← get
    size ← lift (mul len block_size)
    if not (f.0.state.storage_offset == size) then receive_blocks lba len else complete stack

  unfoldable pub process_command : ScsiCommand → Program stack (List ℕ) (Unit {0})
  process_command test_unit_ready = on_class stack (pass stack 0)
  process_command (inquiry evpd page_code alloc_len) = answer stack inquiry_data
  process_command (request_sense desc alloc_len) = Firmware.request_sense stack sense_data
  process_command read_capacity_10 = Scsi.read_capacity_10 stack block_size blocks
  process_command (read_capacity_16 alloc_len) = Scsi.read_capacity_16 stack block_size blocks
  process_command (read_format_capacities alloc_len) =
      Scsi.read_format_capacities stack block_size blocks
  process_command (read lba len) = Scsi.read stack block_size (λ storage. storage) lba len
  process_command (write lba len) = write_blocks lba len
  process_command (mode_sense_6 dbd control page subpage alloc_len) = answer stack mode_sense_6_data
  process_command (mode_sense_10 dbd control page subpage alloc_len) =
      answer stack mode_sense_10_data
  process_command (unknown code) = unknown_command stack

  -- The main loop's call of `poll_command`; an error that it returns is logged.
  unfoldable pub poll_command : Program stack (List ℕ) (Unit {0})
  poll_command = Class.poll_command stack false λ kind lun. process_command kind
