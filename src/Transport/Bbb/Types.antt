-- ===== src/Transport/Bbb/Types.antt =====
-- usbd-storage/src/transport/bbb.rs: constants, errors, states and the transport itself.
use usbd_storage.Prelude.{ℕ, Bool, ◌==◌, Option, List, [], ◌∷◌}
use usbd_storage.Prelude.Proc.{Proc}
use usbd_storage.Bytes.{to_le_bytes}
use usbd_storage.Buffer.{Buffer}
use usbd_storage.Transport.{TransportError, CommandStatus}

abbrev pub transport_bbb : ℕ
transport_bbb = 0x50

abbrev pub class_specific_bulk_only_mass_storage_reset : ℕ
class_specific_bulk_only_mass_storage_reset = 0xFF

abbrev pub class_specific_get_max_lun : ℕ
class_specific_get_max_lun = 0xFE

abbrev pub cbw_signature_le : List ℕ
cbw_signature_le = to_le_bytes 4 0x43425355

abbrev pub csw_signature_le : List ℕ
csw_signature_le = to_le_bytes 4 0x53425355

abbrev pub cbw_len : ℕ
cbw_len = 31

abbrev pub csw_len : ℕ
csw_len = 13

abbrev pub fill_byte : ℕ
fill_byte = 0xFF

pub data InvalidCbwError : Type 0 where
  invalid_cbw : InvalidCbwError

pub data BulkOnlyError : Type 0 where
  io_buffer_overflow invalid_max_lun invalid_state full_packet_expected : BulkOnlyError
  buffer_too_small transfer_length_exceeded : BulkOnlyError

-- `CommandBlock`
pub record CommandBlock : Type 0 where
  pub bytes : List ℕ
  pub lun : ℕ

pub data State : Type 0 where
  command_transfer command_transfer_invalid data_transfer_no_data status_transfer : State
  data_transfer_to_host data_transfer_to_host_ending data_transfer_from_host : State
  data_transfer_from_host_status_await data_transfer_from_host_ending : State
  data_transfer_status_await : State

pub data DataDirection : Type 0 where
  out into not_expected : DataDirection

-- `cs`: the status that the user has set, with the residue.
pub record StatusAndResidue : Type 0 where
  pub status : CommandStatus
  pub data_residue : ℕ

pub record CommandBlockWrapper : Type 0 where
  pub tag : ℕ
  pub data_transfer_len : ℕ
  pub direction : DataDirection
  pub lun : ℕ
  pub block_len : ℕ
  pub block : List ℕ

-- `Default::default()`
abbrev pub default_cbw : CommandBlockWrapper
default_cbw = record {
  tag = 0;
  data_transfer_len = 0;
  direction = not_expected;
  lun = 0;
  block_len = 0;
  block = 0 ∷ 0 ∷ 0 ∷ 0 ∷ 0 ∷ 0 ∷ 0 ∷ 0 ∷ 0 ∷ 0 ∷ 0 ∷ 0 ∷ 0 ∷ 0 ∷ 0 ∷ 0 ∷ [];
}

-- `bus` is what lies behind the two endpoints.
pub record BulkOnly (World Endpoint : Type 0) : Type 0 where
  pub in_ep : Endpoint
  pub out_ep : Endpoint
  pub buf : Buffer
  pub state : State
  pub cbw : CommandBlockWrapper
  pub cs : Option StatusAndResidue
  pub max_lun : ℕ
  pub left_to_transfer : ℕ
  pub bus : World

-- `&mut self` methods that return a `BulkOnlyTransportResult`
abbrev pub Method : Type 0 → Type 0 → Type 0 → Type 0 → Type 0
Method World Endpoint UsbError A =
    Proc (BulkOnly World Endpoint) (TransportError UsbError BulkOnlyError) A

-- The position of a state in its declaration, for the tests by `matches!` and `assert_matches!`.
abbrev pub state_index : State → ℕ
state_index command_transfer = 0
state_index command_transfer_invalid = 1
state_index data_transfer_no_data = 2
state_index status_transfer = 3
state_index data_transfer_to_host = 4
state_index data_transfer_to_host_ending = 5
state_index data_transfer_from_host = 6
state_index data_transfer_from_host_status_await = 7
state_index data_transfer_from_host_ending = 8
state_index data_transfer_status_await = 9

-- `matches!(s, a)`
abbrev pub matches : State → State → Bool
matches s a = state_index s == state_index a
