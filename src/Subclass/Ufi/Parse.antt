-- ===== src/Subclass/Ufi/Parse.antt =====
-- usbd-storage/src/subclass/ufi.rs: the command blocks that the subclass knows. The code checks no
-- length.
use usbd_storage.Prelude.{ℕ, bit_and, Bool, true, false, not, List, ltb, ◌==◌, if◌then◌else◌}
use usbd_storage.Prelude.Outcome.{Outcome, done, ◌>>=◌, index, slice}
use usbd_storage.Bytes.{from_be_bytes, shr}

abbrev pub format_unit_code : ℕ
format_unit_code = 0x04

abbrev pub inquiry_code : ℕ
inquiry_code = 0x12

abbrev pub mode_select_code : ℕ
mode_select_code = 0x55

abbrev pub mode_sense_code : ℕ
mode_sense_code = 0x5A

abbrev pub prevent_allow_medium_removal_code : ℕ
prevent_allow_medium_removal_code = 0x1E

abbrev pub read_10_code : ℕ
read_10_code = 0x28

abbrev pub read_12_code : ℕ
read_12_code = 0xA8

abbrev pub read_capacity_code : ℕ
read_capacity_code = 0x25

abbrev pub read_format_capacities_code : ℕ
read_format_capacities_code = 0x23

abbrev pub request_sense_code : ℕ
request_sense_code = 0x03

abbrev pub rezero_unit_code : ℕ
rezero_unit_code = 0x01

abbrev pub seek_10_code : ℕ
seek_10_code = 0x2B

abbrev pub send_diagnostic_code : ℕ
send_diagnostic_code = 0x1D

abbrev pub start_stop_code : ℕ
start_stop_code = 0x1B

abbrev pub test_unit_ready_code : ℕ
test_unit_ready_code = 0x00

abbrev pub verify_code : ℕ
verify_code = 0x2F

abbrev pub write_10_code : ℕ
write_10_code = 0x2A

abbrev pub write_12_code : ℕ
write_12_code = 0xAA

abbrev pub write_and_verify_code : ℕ
write_and_verify_code = 0x2E

pub data UfiCommand : Type 0 where
  unknown : UfiCommand
  format_unit : ℕ → ℕ → UfiCommand
  inquiry : ℕ → UfiCommand
  test_unit_ready : UfiCommand
  prevent_allow_medium_removal : Bool → UfiCommand
  read_capacity : UfiCommand
  request_sense : ℕ → UfiCommand
  mode_sense : ℕ → ℕ → ℕ → UfiCommand
  mode_select : ℕ → UfiCommand
  start_stop : Bool → Bool → UfiCommand
  read : ℕ → ℕ → UfiCommand
  write : ℕ → ℕ → Bool → UfiCommand
  read_format_capacities : ℕ → UfiCommand
  rezero_unit : UfiCommand
  seek : ℕ → UfiCommand
  send_diagnostic : Bool → UfiCommand
  verify : ℕ → ℕ → UfiCommand

module _ {E : Type 0} where
  -- `uN::from_be_bytes(cb[start..end].try_into().unwrap())`, of `end - start` bytes
  unfoldable pub be_slice : List ℕ → ℕ → ℕ → Outcome E ℕ
  be_slice cb start end = do bytes ← slice cb start end; done (from_be_bytes bytes)

  unfoldable pub with_byte : (ℕ → UfiCommand) → List ℕ → ℕ → Outcome E UfiCommand
  with_byte command cb i = do b ← index cb i; done (command b)

  unfoldable pub with_slice : (ℕ → UfiCommand) → List ℕ → ℕ → ℕ → Outcome E UfiCommand
  with_slice command cb start end = do n ← be_slice cb start end; done (command n)

  unfoldable pub with_lba : (ℕ → ℕ → UfiCommand) → List ℕ → ℕ → ℕ → Outcome E UfiCommand
  with_lba command cb start end = do
    lba ← be_slice cb 2 6
    len ← be_slice cb start end
    done (command lba len)

  unfoldable pub parse_mode_sense : List ℕ → Outcome E UfiCommand
  parse_mode_sense cb = do
    page ← index cb 2
    param_list_len ← be_slice cb 7 9
    done (mode_sense (shr page 6) (bit_and page 0b00111111) param_list_len)

  unfoldable pub parse_format_unit : List ℕ → Outcome E UfiCommand
  parse_format_unit cb = do
    track ← index cb 2
    parameter_list_len ← be_slice cb 7 9
    done (format_unit track parameter_list_len)

  -- The `match` on the operation code, arm by arm.
  unfoldable pub parse_code : ℕ → List ℕ → Outcome E UfiCommand
  parse_code code cb =
      if code == request_sense_code
      then with_byte request_sense cb 4
      else if code == inquiry_code
      then with_byte inquiry cb 4
      else if code == test_unit_ready_code
      then done test_unit_ready
      else if code == read_capacity_code
      then done read_capacity
      else if code == prevent_allow_medium_removal_code
      then with_byte (λ b. prevent_allow_medium_removal (not (b == 0))) cb 4
      else if code == mode_sense_code
      then parse_mode_sense cb
      else if code == read_10_code
      then with_lba read cb 7 9
      else if code == read_12_code
      then with_lba read cb 6 10
      else if code == write_10_code
      then with_lba (λ lba len. write lba len false) cb 7 9
      else if code == write_12_code
      then with_lba (λ lba len. write lba len false) cb 6 10
      else if code == write_and_verify_code
      then with_lba (λ lba len. write lba len true) cb 7 9
      else if code == format_unit_code
      then parse_format_unit cb
      else if code == mode_select_code
      then with_slice mode_select cb 7 9
      else if code == read_format_capacities_code
      then with_slice read_format_capacities cb 7 9
      else if code == rezero_unit_code
      then done rezero_unit
      else if code == seek_10_code
      then with_slice seek cb 2 6
      else if code == send_diagnostic_code
      then with_byte (λ b. send_diagnostic (ltb 0 (bit_and b 4))) cb 1
      else if code == start_stop_code
      then with_byte (λ b. start_stop (ltb 0 (bit_and b 1)) (b == 2)) cb 4
      else if code == verify_code
      then with_lba verify cb 7 9
      else done unknown

  unfoldable pub parse_cb : List ℕ → Outcome E UfiCommand
  parse_cb cb = do code ← index cb 0; parse_code code cb
