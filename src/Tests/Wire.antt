-- ===== src/Tests/Wire.antt =====
-- usbd-storage/src/transport/bbb.rs: the wrappers, with concrete fields.
use usbd_storage.Prelude.{ℕ, ◌≡◌, refl, List, ◌∷◌, length, take, drop, replicate, arith}
use usbd_storage.Prelude.Outcome.{done}
use usbd_storage.Transport.{phase_error}
use usbd_storage.Transport.Bbb.Types.{CommandBlockWrapper, StatusAndResidue, into, csw_signature_le}
use usbd_storage.Transport.Bbb.Wrapper.{csw_bytes}
use usbd_storage.Transport.Bbb.ParseCases.{parse_raw}
use usbd_storage.Transport.Bbb.RoundTrip.{
  encode_cbw, IsWellFormed, cbw_round_trip, decode_csw, csw_round_trip,
}
use usbd_storage.Transport.Bbb.Range.{from_le_bytes-IsWellFormed}

abbrev pub read_command : CommandBlockWrapper
read_command = record {
  tag = 0xDEADBEEF;
  data_transfer_len = 512;
  direction = into;
  lun = 3;
  block_len = 10;
  block = 0x28 ∷ replicate 15 1;
}

pub read_command-IsWellFormed : IsWellFormed read_command
read_command-IsWellFormed = record {
  tag_u32 = omega arith;
  len_u32 = omega arith;
  direction_fits = λ e. absurd (omega arith);
  lun_nibble = omega arith;
  block_len_low = omega arith;
  block_len_high = omega arith;
  block_whole = refl;
}

cbw_round_trip_example : parse_raw (encode_cbw read_command) ≡ done read_command
cbw_round_trip_example = cbw_round_trip read_command read_command-IsWellFormed

abbrev read_value : List ℕ
read_value = take 27 (drop 4 (encode_cbw read_command))

from_le_bytes-IsWellFormed_example : IsWellFormed read_command
from_le_bytes-IsWellFormed_example =
    from_le_bytes-IsWellFormed read_value read_command refl (omega arith)
      (cbw_round_trip read_command read_command-IsWellFormed)

abbrev answer : StatusAndResidue
answer = record { status = phase_error; data_residue = 70000 }

csw_round_trip_example :
    (length (csw_bytes 0xDEADBEEF answer) ≡ 13)
    × (decode_csw (csw_bytes 0xDEADBEEF answer) ≡ record {
      signature = csw_signature_le;
      tag = 0xDEADBEEF;
      data_residue = 70000;
      status = 2;
    })
csw_round_trip_example = csw_round_trip 0xDEADBEEF answer (omega arith) (omega arith)
