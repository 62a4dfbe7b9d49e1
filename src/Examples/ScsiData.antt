-- ===== src/Examples/ScsiData.antt =====
-- The firmware of examples: the data that its two SCSI programs answer with, word for word in common, over
-- the constants `BLOCK_SIZE` and `BLOCKS`. The line numbers of the map are those of
-- examples/stm32/src/bin/stm32f411x_scsi_bbb.rs.
use usbd_storage.Prelude.{ℕ, List, [], ◌∷◌, replicate}
use usbd_storage.Prelude.Outcome.{Outcome, done, ◌>>=◌, index, sub, splice}
use usbd_storage.Bytes.{to_be_bytes}
use usbd_storage.Buffer.{copy_from_slice}
use usbd_storage.Examples.Firmware.{State, unwrap_or}

unfoldable pub sense_data : State → List ℕ
sense_data state =
    0x70
    ∷ 0x00
    ∷ unwrap_or state.sense_key 0
    ∷ 0x00
    ∷ 0x00
    ∷ 0x00
    ∷ 0x00
    ∷ 0x00
    ∷ 0x00
    ∷ 0x00
    ∷ 0x00
    ∷ 0x00
    ∷ unwrap_or state.sense_key_code 0
    ∷ unwrap_or state.sense_qualifier 0
    ∷ 0x00
    ∷ 0x00
    ∷ 0x00
    ∷ 0x00
    ∷ []

abbrev pub mode_sense_6_data : List ℕ
mode_sense_6_data = 0x03 ∷ 0x00 ∷ 0x00 ∷ 0x00 ∷ []

abbrev pub mode_sense_10_data : List ℕ
mode_sense_10_data = 0x00 ∷ 0x06 ∷ 0x00 ∷ 0x00 ∷ 0x00 ∷ 0x00 ∷ 0x00 ∷ 0x00 ∷ []

module _ {E : Type 0} (block_size blocks : ℕ) where
  unfoldable pub capacity_10 : Outcome E (List ℕ)
  capacity_10 = do
    last ← sub blocks 1
    bytes ← copy_from_slice (replicate 8 0) 0 4 (to_be_bytes 4 last)
    copy_from_slice bytes 4 8 (to_be_bytes 4 block_size)

  -- The slice of eight bytes is given the four bytes of a `u32`.
  unfoldable pub capacity_16 : Outcome E (List ℕ)
  capacity_16 = do
    last ← sub blocks 1
    bytes ← copy_from_slice (replicate 16 0) 0 8 (to_be_bytes 4 last)
    copy_from_slice bytes 8 12 (to_be_bytes 4 block_size)

  unfoldable pub format_capacities : Outcome E (List ℕ)
  format_capacities = do
    bytes ← copy_from_slice (replicate 12 0) 0 4 (0x00 ∷ 0x00 ∷ 0x00 ∷ 0x08 ∷ [])
    bytes ← copy_from_slice bytes 4 8 (to_be_bytes 4 blocks)
    let block_length_be = to_be_bytes 4 block_size
    b₁ ← index block_length_be 1
    b₂ ← index block_length_be 2
    b₃ ← index block_length_be 3
    done (splice bytes 8 (0x01 ∷ b₁ ∷ b₂ ∷ b₃ ∷ []))
