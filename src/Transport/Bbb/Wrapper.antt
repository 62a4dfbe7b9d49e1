-- ===== src/Transport/Bbb/Wrapper.antt =====
-- usbd-storage/src/transport/bbb.rs: the Command Block Wrapper as it is parsed, and the Command Status
-- Wrapper as it is built.
use usbd_storage.Prelude.{
  ℕ, ◌^◌, bit_and, not, ◌&&◌, Option, none, some, List, [], ◌∷◌, ◌++◌, length, ltb, leb, ◌==◌,
  if◌then◌else◌,
}
use usbd_storage.Prelude.Outcome.{Outcome, done, fail, ◌>>=◌, ◌>>◌, index, slice}
use usbd_storage.Bytes.{from_le_bytes as le_value, to_le_bytes}
use usbd_storage.Transport.{status_code}
use usbd_storage.Transport.Bbb.Types.{
  CommandBlockWrapper, StatusAndResidue, DataDirection, out, into, not_expected, InvalidCbwError,
  invalid_cbw, csw_signature_le,
}

-- `bytes.try_into().map_err(|_| InvalidCbwError)?` into an array of `n` bytes
unfoldable pub exactly : ℕ → List ℕ → Outcome InvalidCbwError (List ℕ)
exactly n bytes = if length bytes == n then done bytes else fail invalid_cbw

abbrev pub min_cb_len : ℕ
min_cb_len = 1

abbrev pub max_cb_len : ℕ
max_cb_len = 16

unfoldable pub data_direction : ℕ → ℕ → DataDirection
data_direction data_transfer_len flags =
    if not (data_transfer_len == 0)
    then (if ltb 0 (bit_and flags (2 ^ 7)) then into else out)
    else not_expected

unfoldable pub from_le_bytes : List ℕ → Outcome InvalidCbwError CommandBlockWrapper
from_le_bytes value = do
  block_len ← index value 10
  if leb min_cb_len block_len && leb block_len max_cb_len then done tt else fail invalid_cbw
  tag ← slice value 0 4
  tag ← exactly 4 tag
  data_transfer_len ← slice value 4 8
  data_transfer_len ← exactly 4 data_transfer_len
  flags ← index value 8
  block ← slice value 11 (length value)
  block ← exactly 16 block
  lun ← index value 9
  done (record {
    tag = le_value tag;
    data_transfer_len = le_value data_transfer_len;
    direction = data_direction (le_value data_transfer_len) flags;
    lun = bit_and lun 0b00001111;
    block_len = block_len;
    block = block;
  })

-- `build_csw`: 4 bytes of signature, the tag, the residue and the status.
unfoldable pub csw_bytes : ℕ → StatusAndResidue → List ℕ
csw_bytes tag s =
    csw_signature_le
    ++ (to_le_bytes 4 tag ++ (to_le_bytes 4 s.data_residue ++ (status_code s.status ∷ [])))

unfoldable pub build_csw : CommandBlockWrapper → Option StatusAndResidue → Option (List ℕ)
build_csw cbw none = none
build_csw cbw (some s) = some (csw_bytes cbw.tag s)
