-- ===== src/Examples/Stm32Ufi.antt =====
-- examples/stm32/src/bin/stm32f411x_ufi_bbb.rs: a floppy disk that is not written, the front of which is
-- the image `FAT`, a file of the build. `fuel` bounds the turns of the loop that sends the filler.
use usbd_storage.Prelude.{ℕ, zero, suc, not, List, [], ◌∷◌, replicate, ltb, ◌==◌, if◌then◌else◌}
use usbd_storage.Prelude.Outcome.{slice, out_of_fuel}
use usbd_storage.Prelude.Proc.{◌>>=◌, ◌>>◌, pure, get, lift}
use usbd_storage.Transport.{UsbStack}
use usbd_storage.Subclass.{on_class}
use usbd_storage.Subclass.Command.{write_data, pass}
use usbd_storage.Subclass.Ufi.Parse.{
  UfiCommand, inquiry, test_unit_ready, prevent_allow_medium_removal, read_capacity, request_sense,
  mode_sense, start_stop, read, write,
}
use usbd_storage.Subclass.Ufi.Class
use usbd_storage.Examples.Firmware
use usbd_storage.Examples.Firmware.{
  State, unwrap_or, mul, add, Program, answer, advance, complete, unknown_command,
}

abbrev pub block_size : ℕ
block_size = 512

abbrev pub dump_max_lba : ℕ
dump_max_lba = 0xCE

-- "Foo Bar0" three times, and "1.23"
abbrev pub inquiry_data : List ℕ
inquiry_data =
    0x00 ∷ 0b10000000 ∷ 0 ∷ 0x01 ∷ 0x1F ∷ 0 ∷ 0 ∷ 0 ∷ 70 ∷ 111 ∷ 111 ∷ 32 ∷ 66 ∷ 97 ∷ 114 ∷ 48 ∷ 70
    ∷ 111 ∷ 111 ∷ 32 ∷ 66 ∷ 97 ∷ 114 ∷ 48 ∷ 70 ∷ 111 ∷ 111 ∷ 32 ∷ 66 ∷ 97 ∷ 114 ∷ 48 ∷ 49 ∷ 46 ∷ 50
    ∷ 51 ∷ []

abbrev pub capacity_data : List ℕ
capacity_data = 0x00 ∷ 0x00 ∷ 0x0b ∷ 0x3f ∷ 0x00 ∷ 0x00 ∷ 0x02 ∷ 0x00 ∷ []

abbrev pub mode_sense_data : List ℕ
mode_sense_data = 0x00 ∷ 0x46 ∷ 0x02 ∷ 0x80 ∷ 0x00 ∷ 0x00 ∷ 0x00 ∷ 0x00 ∷ []

unfoldable pub sense_data : State → List ℕ
sense_data state =
    0x70
    ∷ 0x00
    ∷ unwrap_or state.sense_key 0
    ∷ 0x00
    ∷ 0x00
    ∷ 0x00
    ∷ 0x00
    ∷ 0x0A
    ∷ 0x00
    ∷ 0x00
    ∷ 0x00
    ∷ 0x00
    ∷ unwrap_or state.sense_key_code 0
    ∷ unwrap_or state.sense_qualifier 0
    ∷ 0x00
    ∷ 0x00
    ∷ 0x00
    ∷ 0x00
    ∷ []

module _ {World Endpoint UsbError : Type 0} (stack : UsbStack World Endpoint UsbError)
    (fat : List ℕ) where
  abbrev pub filler : List ℕ
  filler = replicate block_size 0xF6

  unfoldable pub send_filler : ℕ → Program stack Unit (Unit {0})
  send_filler zero = lift out_of_fuel
  send_filler (suc fuel) =
      let next_turn = send_filler fuel in
      do
        count ← on_class stack (write_data stack filler)
        advance stack count
        if count == 0 then pure tt else next_turn

  unfoldable pub send_dump : ℕ → ℕ → Program stack Unit (Unit {0})
  send_dump lba len = do
    f ← get
    first ← lift (mul block_size lba)
    start ← lift (add first f.0.state.storage_offset)
    size ← lift (mul block_size len)
    end ← lift (add first size)
    bytes ← lift (slice fat start end)
    count ← on_class stack (write_data stack bytes)
    advance stack count

  unfoldable pub read_blocks : ℕ → ℕ → ℕ → Program stack Unit (Unit {0})
  read_blocks fuel lba len = do
    f ← get
    size ← lift (mul len block_size)
    if not (f.0.state.storage_offset == size)
        then (if ltb lba dump_max_lba then send_dump lba len else send_filler fuel)
        else complete stack

  unfoldable pub process_command : ℕ → UfiCommand → Program stack Unit (Unit {0})
  process_command fuel (inquiry alloc_len) = answer stack inquiry_data
  process_command fuel (start_stop start load_eject) = on_class stack (pass stack 0)
  process_command fuel test_unit_ready = on_class stack (pass stack 0)
  process_command fuel (prevent_allow_medium_removal prevent) = on_class stack (pass stack 0)
  process_command fuel read_capacity = answer stack capacity_data
  process_command fuel (request_sense alloc_len) = Firmware.request_sense stack sense_data
  process_command fuel (mode_sense control page alloc_len) = answer stack mode_sense_data
  process_command fuel (write lba len verify) = on_class stack (pass stack 0)
  process_command fuel (read lba len) = read_blocks fuel lba len
  process_command fuel _ = unknown_command stack

  -- The main loop's call of `poll_command`; an error that it returns is logged.
  unfoldable pub poll_command : ℕ → Program stack Unit (Unit {0})
  poll_command fuel = Class.poll_command stack λ kind lun. process_command fuel kind
