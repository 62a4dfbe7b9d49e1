-- ===== src/Subclass/Scsi/Parse.antt =====
-- usbd-storage/src/subclass/scsi.rs: the command blocks that the subclass knows.
-- `extended` is the feature `extended_addressing`, which adds two operation codes and widens the fields
-- of `read` and `write`; their values are the same.
use usbd_storage.Prelude.{
  ℕ, bit_and, Bool, not, ◌&&◌, List, [], ◌∷◌, length, leb, ◌==◌, if◌then◌else◌,
}
use usbd_storage.Prelude.Outcome.{Outcome, done, ◌>>=◌, ◌>>◌, index, assert}
use usbd_storage.Bytes.{from_be_bytes, shr}

abbrev pub test_unit_ready_code : ℕ
test_unit_ready_code = 0x00

abbrev pub request_sense_code : ℕ
request_sense_code = 0x03

abbrev pub inquiry_code : ℕ
inquiry_code = 0x12

abbrev pub mode_sense_6_code : ℕ
mode_sense_6_code = 0x1A

abbrev pub mode_sense_10_code : ℕ
mode_sense_10_code = 0x5A

abbrev pub read_10_code : ℕ
read_10_code = 0x28

abbrev pub read_16_code : ℕ
read_16_code = 0x88

abbrev pub read_capacity_10_code : ℕ
read_capacity_10_code = 0x25

abbrev pub read_capacity_16_code : ℕ
read_capacity_16_code = 0x9E

abbrev pub write_10_code : ℕ
write_10_code = 0x2A

abbrev pub write_16_code : ℕ
write_16_code = 0x8A

abbrev pub read_format_capacities_code : ℕ
read_format_capacities_code = 0x23

pub data PageControl : Type 0 where
  current_values changeable_values default_values saved_values : PageControl

pub data ScsiCommand : Type 0 where
  unknown : ℕ → ScsiCommand
  inquiry : Bool → ℕ → ℕ → ScsiCommand
  test_unit_ready : ScsiCommand
  request_sense : Bool → ℕ → ScsiCommand
  mode_sense_6 : Bool → PageControl → ℕ → ℕ → ℕ → ScsiCommand
  mode_sense_10 : Bool → PageControl → ℕ → ℕ → ℕ → ScsiCommand
  read_capacity_10 : ScsiCommand
  read_capacity_16 : ℕ → ScsiCommand
  read : ℕ → ℕ → ScsiCommand
  write : ℕ → ℕ → ScsiCommand
  read_format_capacities : ℕ → ScsiCommand

-- `PageControl::try_from_primitive(n).unwrap_or(PageControl::CurrentValues)`
unfoldable pub page_control : ℕ → PageControl
page_control n =
    if n == 0b00
    then current_values
    else if n == 0b01
    then changeable_values
    else if n == 0b10
    then default_values
    else if n == 0b11
    then saved_values
    else current_values

-- `(x & mask) != 0`
unfoldable pub has_bit : ℕ → ℕ → Bool
has_bit x mask = not (bit_and x mask == 0)

module _ {E : Type 0} where
  -- `uN::from_be_bytes([cb[i], …])`, of two, four and eight bytes
  unfoldable pub be_16 : List ℕ → ℕ → ℕ → Outcome E ℕ
  be_16 cb i j = do a ← index cb i; b ← index cb j; done (from_be_bytes (a ∷ b ∷ []))

  unfoldable pub be_32 : List ℕ → ℕ → ℕ → ℕ → ℕ → Outcome E ℕ
  be_32 cb i j k l = do
    a ← index cb i
    b ← index cb j
    c ← index cb k
    d ← index cb l
    done (from_be_bytes (a ∷ b ∷ c ∷ d ∷ []))

  unfoldable pub be_64 : List ℕ → Outcome E ℕ
  be_64 cb = do
    a ← index cb 2
    b ← index cb 3
    c ← index cb 4
    d ← index cb 5
    e ← index cb 6
    f ← index cb 7
    g ← index cb 8
    h ← index cb 9
    done (from_be_bytes (a ∷ b ∷ c ∷ d ∷ e ∷ f ∷ g ∷ h ∷ []))

  unfoldable pub parse_inquiry : List ℕ → Outcome E ScsiCommand
  parse_inquiry cb = do
    flags ← index cb 1
    page_code ← index cb 2
    alloc_len ← be_16 cb 3 4
    done (inquiry (has_bit flags 0b00000001) page_code alloc_len)

  unfoldable pub parse_request_sense : List ℕ → Outcome E ScsiCommand
  parse_request_sense cb = do
    flags ← index cb 1
    alloc_len ← index cb 4
    done (request_sense (has_bit flags 0b00000001) alloc_len)

  unfoldable pub parse_read_capacity_16 : List ℕ → Outcome E ScsiCommand
  parse_read_capacity_16 cb = do alloc_len ← be_32 cb 10 11 12 13; done (read_capacity_16 alloc_len)

  unfoldable pub parse_lba_10 : (ℕ → ℕ → ScsiCommand) → List ℕ → Outcome E ScsiCommand
  parse_lba_10 command cb = do lba ← be_32 cb 2 3 4 5; len ← be_16 cb 7 8; done (command lba len)

  unfoldable pub parse_lba_16 : (ℕ → ℕ → ScsiCommand) → List ℕ → Outcome E ScsiCommand
  parse_lba_16 command cb = do lba ← be_64 cb; len ← be_32 cb 10 11 12 13; done (command lba len)

  unfoldable pub parse_mode_sense_6 : List ℕ → Outcome E ScsiCommand
  parse_mode_sense_6 cb = do
    flags ← index cb 1
    page ← index cb 2
    subpage_code ← index cb 3
    alloc_len ← index cb 4
    done (
        mode_sense_6 (has_bit flags 0b00001000) (page_control (shr page 6))
          (bit_and page 0b00111111) subpage_code alloc_len)

  unfoldable pub parse_mode_sense_10 : List ℕ → Outcome E ScsiCommand
  parse_mode_sense_10 cb = do
    flags ← index cb 1
    page ← index cb 2
    subpage_code ← index cb 3
    alloc_len ← be_16 cb 7 8
    done (
        mode_sense_10 (has_bit flags 0b00001000) (page_control (shr page 6))
          (bit_and page 0b00111111) subpage_code alloc_len)

  unfoldable pub parse_read_format_capacities : List ℕ → Outcome E ScsiCommand
  parse_read_format_capacities cb = do
    alloc_len ← be_16 cb 7 8
    done (read_format_capacities alloc_len)

  -- The `match` on the operation code and the length, arm by arm.
  unfoldable pub parse_code : Bool → ℕ → List ℕ → Outcome E ScsiCommand
  parse_code extended code cb =
      let has = λ (n : ℕ). leb n (length cb) in
      if code == test_unit_ready_code
      then done test_unit_ready
      else if code == inquiry_code && has 5
      then parse_inquiry cb
      else if code == request_sense_code && has 5
      then parse_request_sense cb
      else if code == read_capacity_10_code
      then done read_capacity_10
      else if code == read_capacity_16_code && has 14
      then parse_read_capacity_16 cb
      else if code == read_10_code && has 9
      then parse_lba_10 read cb
      else if extended && (code == read_16_code && has 14)
      then parse_lba_16 read cb
      else if code == write_10_code && has 9
      then parse_lba_10 write cb
      else if extended && (code == write_16_code && has 14)
      then parse_lba_16 write cb
      else if code == mode_sense_6_code && has 5
      then parse_mode_sense_6 cb
      else if code == mode_sense_10_code && has 9
      then parse_mode_sense_10 cb
      else if code == read_format_capacities_code && has 9
      then parse_read_format_capacities cb
      else done (unknown code)

  unfoldable pub parse_cb : Bool → List ℕ → Outcome E ScsiCommand
  parse_cb extended cb = do
    assert (not (length cb == 0))
    code ← index cb 0
    parse_code extended code cb
