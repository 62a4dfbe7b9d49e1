-- ===== src/Examples/Scsi.antt =====
-- The firmware of examples: the arms of `process_command` that its two SCSI programs have word for word in
-- common, over the constants `BLOCK_SIZE` and `BLOCKS`. The line numbers of the map are those of
-- examples/stm32/src/bin/stm32f411x_scsi_bbb.rs.
use usbd_storage.Prelude.{ℕ, not, List, ◌==◌, if◌then◌else◌}
use usbd_storage.Prelude.Outcome.{slice}
use usbd_storage.Prelude.Proc.{◌>>=◌, pure, get, lift}
use usbd_storage.Transport.{UsbStack}
use usbd_storage.Subclass.{on_class}
use usbd_storage.Subclass.Command.{write_data}
use usbd_storage.Examples.Firmware.{mul, add, Program, answer, advance, complete}
use usbd_storage.Examples.ScsiData.{capacity_10, capacity_16, format_capacities}

module _ {World Endpoint UsbError : Type 0} (stack : UsbStack World Endpoint UsbError)
    {Memory : Type 0} (block_size blocks : ℕ) where
  unfoldable pub read_capacity_10 : Program stack Memory (Unit {0})
  read_capacity_10 = do bytes ← lift (capacity_10 block_size blocks); answer stack bytes

  unfoldable pub read_capacity_16 : Program stack Memory (Unit {0})
  read_capacity_16 = do bytes ← lift (capacity_16 block_size blocks); answer stack bytes

  unfoldable pub read_format_capacities : Program stack Memory (Unit {0})
  read_format_capacities = do bytes ← lift (format_capacities block_size blocks); answer stack bytes

module _ {World Endpoint UsbError : Type 0} (stack : UsbStack World Endpoint UsbError)
    {Memory : Type 0} (block_size : ℕ) where
  -- `filesystem` is the static variable that holds the blocks.
  unfoldable pub send_blocks : (Memory → List ℕ) → ℕ → ℕ → Program stack Memory (Unit {0})
  send_blocks filesystem lba len = do
    f ← get
    first ← lift (mul block_size lba)
    start ← lift (add first f.0.state.storage_offset)
    size ← lift (mul block_size len)
    end ← lift (add first size)
    bytes ← lift (slice (filesystem f.0.memory) start end)
    count ← on_class stack (write_data stack bytes)
    advance stack count

  unfoldable pub read : (Memory → List ℕ) → ℕ → ℕ → Program stack Memory (Unit {0})
  read filesystem lba len = do
    f ← get
    size ← lift (mul len block_size)
    if not (f.0.state.storage_offset == size)
        then send_blocks filesystem lba len
        else complete stack

  -- `if state.storage_offset == (len * BLOCK_SIZE) as usize { … }`
  unfoldable pub complete_if_all : ℕ → Program stack Memory (Unit {0})
  complete_if_all len = do
    f ← get
    size ← lift (mul len block_size)
    if f.0.state.storage_offset == size then complete stack else pure tt
