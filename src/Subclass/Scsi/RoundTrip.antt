-- ===== src/Subclass/Scsi/RoundTrip.antt =====
-- usbd-storage/src/subclass/scsi.rs: the parser against the command descriptor blocks as a host writes
-- them, from the layouts of SPC, SBC and MMC.
use usbd_storage.Prelude.{
  ℕ, ◌+◌, ◌*◌, ◌^◌, ◌<◌, ◌≡◌, refl, ◌∙◌, bit_and, Bool, true, false, List, [], ◌∷◌, ◌++◌, arith,
}
use usbd_storage.Prelude.Outcome.{done, index}
use usbd_storage.Bytes.{from_be_bytes, to_be_bytes, shr, low_six_bits}
use usbd_storage.Subclass.Scsi.Parse.{
  ScsiCommand, unknown, inquiry, test_unit_ready, request_sense, mode_sense_6, mode_sense_10,
  read_capacity_10, read_capacity_16, read, write, read_format_capacities, PageControl,
  current_values, changeable_values, default_values, saved_values, page_control, has_bit, be_16,
  be_32, be_64, parse_inquiry, parse_request_sense, parse_read_capacity_16, parse_lba_10,
  parse_lba_16, parse_mode_sense_6, parse_mode_sense_10, parse_read_format_capacities, parse_code,
  parse_cb,
}

abbrev pub flag : ℕ → Bool → ℕ
flag mask true = mask
flag mask false = 0

abbrev pub page_code_bits : PageControl → ℕ
page_code_bits current_values = 0
page_code_bits changeable_values = 1
page_code_bits default_values = 2
page_code_bits saved_values = 3

-- The block of a command, with zeros where the parser does not look.
abbrev pub encode : ScsiCommand → List ℕ
encode (unknown code) = code ∷ []
encode (inquiry evpd page_code alloc_len) =
    0x12 ∷ flag 1 evpd ∷ page_code ∷ (to_be_bytes 2 alloc_len ++ (0 ∷ []))
encode test_unit_ready = 0x00 ∷ 0 ∷ 0 ∷ 0 ∷ 0 ∷ 0 ∷ []
encode (request_sense desc alloc_len) = 0x03 ∷ flag 1 desc ∷ 0 ∷ 0 ∷ alloc_len ∷ 0 ∷ []
encode (mode_sense_6 dbd pc page_code subpage_code alloc_len) =
    0x1A ∷ flag 8 dbd ∷ (page_code_bits pc * 64 + page_code) ∷ subpage_code ∷ alloc_len ∷ 0 ∷ []
encode (mode_sense_10 dbd pc page_code subpage_code alloc_len) =
    0x5A
    ∷ flag 8 dbd
    ∷ (page_code_bits pc * 64 + page_code)
    ∷ subpage_code
    ∷ 0
    ∷ 0
    ∷ 0
    ∷ (to_be_bytes 2 alloc_len ++ (0 ∷ []))
encode read_capacity_10 = 0x25 ∷ 0 ∷ 0 ∷ 0 ∷ 0 ∷ 0 ∷ 0 ∷ 0 ∷ 0 ∷ 0 ∷ []
encode (read_capacity_16 alloc_len) =
    0x9E ∷ 0x10 ∷ 0 ∷ 0 ∷ 0 ∷ 0 ∷ 0 ∷ 0 ∷ 0 ∷ 0 ∷ (to_be_bytes 4 alloc_len ++ (0 ∷ 0 ∷ []))
encode (read lba len) = 0x28 ∷ 0 ∷ (to_be_bytes 4 lba ++ (0 ∷ (to_be_bytes 2 len ++ (0 ∷ []))))
encode (write lba len) = 0x2A ∷ 0 ∷ (to_be_bytes 4 lba ++ (0 ∷ (to_be_bytes 2 len ++ (0 ∷ []))))
encode (read_format_capacities alloc_len) =
    0x23 ∷ 0 ∷ 0 ∷ 0 ∷ 0 ∷ 0 ∷ 0 ∷ (to_be_bytes 2 alloc_len ++ (0 ∷ []))

-- The fields fit their places; `unknown` is not a block that a host writes.
abbrev pub Fits : ScsiCommand → Type 0
Fits (unknown code) = ⊥
Fits (inquiry evpd page_code alloc_len) = (page_code < 2 ^ 8) × (alloc_len < 2 ^ 16)
Fits test_unit_ready = Unit
Fits (request_sense desc alloc_len) = alloc_len < 2 ^ 8
Fits (mode_sense_6 dbd pc page_code subpage_code alloc_len) =
    (page_code < 2 ^ 6) × (subpage_code < 2 ^ 8) × (alloc_len < 2 ^ 8)
Fits (mode_sense_10 dbd pc page_code subpage_code alloc_len) =
    (page_code < 2 ^ 6) × (subpage_code < 2 ^ 8) × (alloc_len < 2 ^ 16)
Fits read_capacity_10 = Unit
Fits (read_capacity_16 alloc_len) = alloc_len < 2 ^ 32
Fits (read lba len) = (lba < 2 ^ 32) × (len < 2 ^ 16)
Fits (write lba len) = (lba < 2 ^ 32) × (len < 2 ^ 16)
Fits (read_format_capacities alloc_len) = alloc_len < 2 ^ 16

be_16_back : (n : ℕ) → n < 2 ^ 16 → from_be_bytes (to_be_bytes 2 n) ≡ n
be_16_back n h = omega arith

be_32_back : (n : ℕ) → n < 2 ^ 32 → from_be_bytes (to_be_bytes 4 n) ≡ n
be_32_back n h = omega arith

flag_back_1 : (b : Bool) → has_bit (flag 1 b) 1 ≡ b
unfolding has_bit
flag_back_1 true = refl
flag_back_1 false = refl

flag_back_8 : (b : Bool) → has_bit (flag 8 b) 8 ≡ b
unfolding has_bit
flag_back_8 true = refl
flag_back_8 false = refl

page_back :
    (pc : PageControl) (n : ℕ)
    → n < 64
    → (page_control (shr (page_code_bits pc * 64 + n) 6) ≡ pc)
      × (bit_and (page_code_bits pc * 64 + n) 63 ≡ n)
unfolding page_control
page_back pc n h =
    (ground arith, low_six_bits (page_code_bits pc * 64 + n) (ground arith) ∙ ground arith)

module _ (E : Type 0) (extended : Bool) where
  -- With either setting of `extended_addressing`, the block that a host writes for a command other
  -- than `unknown`, with its fields in range, is parsed to that command. A read or write is in its
  -- 10-byte form.
  pub scsi_round_trip : (c : ScsiCommand) → Fits c → parse_cb {E = E} extended (encode c) ≡ done c
  unfolding parse_cb parse_code index be_16 be_32 parse_inquiry parse_request_sense
      parse_read_capacity_16 parse_lba_10 parse_mode_sense_6 parse_mode_sense_10
      parse_read_format_capacities
  scsi_round_trip (unknown code) h = absurd h
  scsi_round_trip (inquiry evpd page_code alloc_len) h =
      ground (arith, flag_back_1 evpd, be_16_back alloc_len h.1)
  scsi_round_trip test_unit_ready h = refl
  scsi_round_trip (request_sense desc alloc_len) h = ground (arith, flag_back_1 desc)
  scsi_round_trip (mode_sense_6 dbd pc page_code subpage_code alloc_len) h =
      ground (arith, flag_back_8 dbd, page_back pc page_code h.0)
  scsi_round_trip (mode_sense_10 dbd pc page_code subpage_code alloc_len) h =
      ground (arith, flag_back_8 dbd, page_back pc page_code h.0, be_16_back alloc_len h.2)
  scsi_round_trip read_capacity_10 h = refl
  scsi_round_trip (read_capacity_16 alloc_len) h = ground (arith, be_32_back alloc_len h)
  scsi_round_trip (read lba len) h = ground (arith, be_32_back lba h.0, be_16_back len h.1)
  scsi_round_trip (write lba len) h = ground (arith, be_32_back lba h.0, be_16_back len h.1)
  scsi_round_trip (read_format_capacities alloc_len) h = ground (arith, be_16_back alloc_len h)

-- READ (16) and WRITE (16), under the feature.
abbrev pub encode_16 : ℕ → ℕ → ℕ → List ℕ
encode_16 code lba len = code ∷ 0 ∷ (to_be_bytes 8 lba ++ (to_be_bytes 4 len ++ (0 ∷ 0 ∷ [])))

be_64_back : (n : ℕ) → n < 2 ^ 64 → from_be_bytes (to_be_bytes 8 n) ≡ n
be_64_back n h = omega arith

-- With `extended_addressing` the 16-byte blocks of a read and of a write are parsed to their
-- 64-bit address and 32-bit length; without it they are unknown.
pub scsi_round_trip_16 :
    (E : Type 0) (lba len : ℕ)
    → lba < 2 ^ 64
    → len < 2 ^ 32
    → (parse_cb {E = E} true (encode_16 0x88 lba len) ≡ done (read lba len))
      × (parse_cb {E = E} true (encode_16 0x8A lba len) ≡ done (write lba len))
      × (parse_cb {E = E} false (encode_16 0x88 lba len) ≡ done (unknown 0x88))
      × (parse_cb {E = E} false (encode_16 0x8A lba len) ≡ done (unknown 0x8A))
unfolding parse_cb parse_code index be_32 be_64 parse_lba_16
scsi_round_trip_16 E lba len h k = (
  ground (arith, be_64_back lba h, be_32_back len k),
  ground (arith, be_64_back lba h, be_32_back len k),
  refl,
  refl,
)
