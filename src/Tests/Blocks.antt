-- ===== src/Tests/Blocks.antt =====
-- usbd-storage/src/subclass/scsi.rs and usbd-storage/src/subclass/ufi.rs on command blocks.
use usbd_storage.Prelude.{◌≡◌, [], ◌∷◌, true, false, arith}
use usbd_storage.Prelude.Outcome.{done, panic}
use usbd_storage.Subclass.Scsi.Parse.{ScsiCommand, unknown, read, write, parse_cb}
use usbd_storage.Subclass.Scsi.NoPanic.{scsi_parse_total}
use usbd_storage.Subclass.Scsi.RoundTrip.{encode, encode_16, scsi_round_trip, scsi_round_trip_16}
use usbd_storage.Subclass.Ufi.Parse.{UfiCommand, parse_cb as parse_ufi}
use usbd_storage.Subclass.Ufi.Lengths.{ufi_parse_panics, ufi_parse_parses}
use usbd_storage.Subclass.Ufi.Geometry.{Located, geometry-Located}

-- READ (10) cut short after its address.
scsi_parse_total_example :
    (c : ScsiCommand) × (parse_cb {E = ⊥} false (0x28 ∷ 0 ∷ 0 ∷ 0 ∷ 1 ∷ []) ≡ done c)
scsi_parse_total_example = scsi_parse_total ⊥ false (0x28 ∷ 0 ∷ 0 ∷ 0 ∷ 1 ∷ []) (omega arith)

scsi_round_trip_example :
    parse_cb {E = ⊥} false (encode (write 123456 789)) ≡ done (write 123456 789)
scsi_round_trip_example = scsi_round_trip ⊥ false (write 123456 789) (omega arith, omega arith)

scsi_round_trip_16_example :
    (parse_cb {E = ⊥} true (encode_16 0x88 5000000000 70000) ≡ done (read 5000000000 70000))
    × (parse_cb {E = ⊥} true (encode_16 0x8A 5000000000 70000) ≡ done (write 5000000000 70000))
    × (parse_cb {E = ⊥} false (encode_16 0x88 5000000000 70000) ≡ done (unknown 0x88))
    × (parse_cb {E = ⊥} false (encode_16 0x8A 5000000000 70000) ≡ done (unknown 0x8A))
scsi_round_trip_16_example = scsi_round_trip_16 ⊥ 5000000000 70000 (omega arith) (omega arith)

-- INQUIRY with a command block of one byte, as a host may send it.
ufi_parse_panics_example : parse_ufi {E = ⊥} (0x12 ∷ []) ≡ panic
ufi_parse_panics_example = ufi_parse_panics 0x12 [] (omega arith)

ufi_parse_parses_example :
    (c : UfiCommand) × (parse_ufi {E = ⊥} (0x12 ∷ 0 ∷ 0 ∷ 0 ∷ 36 ∷ []) ≡ done c)
ufi_parse_parses_example = ufi_parse_parses 0x12 (0 ∷ 0 ∷ 0 ∷ 36 ∷ []) (omega arith)

-- A disk of 18 sectors a track, and two heads.
geometry-Located_example : Located ⊥ 1000 18 2
geometry-Located_example = geometry-Located ⊥ 1000 18 2 (omega arith) (omega arith)
