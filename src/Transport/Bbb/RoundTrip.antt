-- ===== src/Transport/Bbb/RoundTrip.antt =====
-- usbd-storage/src/transport/bbb.rs: the wrappers as the two sides of the wire see them. The host's side
-- is written here, from the layout of the USB Mass Storage Bulk-Only Transport, sections 5.1 and 5.2.
use usbd_storage.Prelude.{
  ℕ, ◌^◌, ◌≤◌, ◌<◌, ◌≡◌, ◌≢◌, refl, ap, ◌∙◌, List, ◌∷◌, ◌++◌, length, take, drop, get_or, arith,
  take_all, length-take, ◌%◌,
}
use usbd_storage.Prelude.Outcome.{done}
use usbd_storage.Bytes.{from_le_bytes as le_value, to_le_bytes, from-to_le_u32, low_nibble}
use usbd_storage.Transport.{status_code}
use usbd_storage.Transport.Bbb.Types.{
  CommandBlockWrapper, StatusAndResidue, DataDirection, out, into, not_expected, cbw_signature_le,
  csw_signature_le,
}
use usbd_storage.Transport.Bbb.Wrapper.{data_direction, csw_bytes}
use usbd_storage.Transport.Bbb.ParseCases.{parse_raw, from_le_bytes-done}

-- bmCBWFlags
abbrev pub flags_of : DataDirection → ℕ
flags_of into = 0x80
flags_of _ = 0x00

-- A CBW as the host lays it out.
abbrev pub encode_cbw : CommandBlockWrapper → List ℕ
encode_cbw c =
    cbw_signature_le
    ++ (to_le_bytes 4 c.tag
        ++ (to_le_bytes 4 c.data_transfer_len
            ++ (flags_of c.direction ∷ c.lun ∷ c.block_len ∷ c.block)))

-- A direction goes with a length: no data is expected exactly where the length is 0.
abbrev pub DirectionFits : DataDirection → ℕ → Type 0
DirectionFits not_expected n = n ≡ 0
DirectionFits _ n = n ≢ 0

pub record IsWellFormed (c : CommandBlockWrapper) : Type 0 where
  pub tag_u32 : c.tag < 2 ^ 32
  pub len_u32 : c.data_transfer_len < 2 ^ 32
  pub direction_fits : DirectionFits c.direction c.data_transfer_len
  pub lun_nibble : c.lun < 16
  pub block_len_low : 1 ≤ c.block_len
  pub block_len_high : c.block_len ≤ 16
  pub block_whole : length c.block ≡ 16

direction_read : (d : DataDirection) (n : ℕ) → DirectionFits d n → data_direction n (flags_of d) ≡ d
unfolding data_direction
direction_read out n h = ground arith
direction_read into n h = ground arith
direction_read not_expected n h = ground arith

-- A CBW with its fields in range, and a direction that is "not expected" exactly where its length
-- is 0, encoded as the host lays it out, is parsed to itself.
pub cbw_round_trip : (c : CommandBlockWrapper) → IsWellFormed c → parse_raw (encode_cbw c) ≡ done c
cbw_round_trip c w =
    from_le_bytes-done value (omega (arith, length-take 16 c.block)) (ground arith)
    ∙ ground (
      arith,
      from-to_le_u32 c.tag w.tag_u32,
      from-to_le_u32 c.data_transfer_len w.len_u32,
      direction_read c.direction c.data_transfer_len w.direction_fits,
      low_nibble c.lun (omega arith),
      lun_kept,
      block_kept,
    )
  where
    value : List ℕ
    value = take 27 (drop 4 (encode_cbw c))

    lun_kept : c.lun % 16 ≡ c.lun
    lun_kept = omega arith

    block_kept : take 16 (take 16 c.block) ≡ c.block
    block_kept =
        ap (take 16) (take_all 16 c.block (omega arith)) ∙ take_all 16 c.block (omega arith)

-- What a host reads of the 13 bytes of a CSW: the signature, the tag, the residue and the status.
pub record CswFields : Type 0 where
  pub signature : List ℕ
  pub tag : ℕ
  pub data_residue : ℕ
  pub status : ℕ

abbrev pub decode_csw : List ℕ → CswFields
decode_csw bytes = record {
  signature = take 4 bytes;
  tag = le_value (take 4 (drop 4 bytes));
  data_residue = le_value (take 4 (drop 8 bytes));
  status = get_or bytes 12 0;
}

-- For a tag and a residue of 32 bits the CSW has 13 bytes, and a host reads in them the signature,
-- the tag, the residue and the status code.
pub csw_round_trip :
    (tag : ℕ) (s : StatusAndResidue)
    → tag < 2 ^ 32
    → s.data_residue < 2 ^ 32
    → (length (csw_bytes tag s) ≡ 13)
      × (decode_csw (csw_bytes tag s) ≡ record {
        signature = csw_signature_le;
        tag = tag;
        data_residue = s.data_residue;
        status = status_code s.status;
      })
unfolding csw_bytes
csw_round_trip tag s h k =
    (refl, ground (arith, from-to_le_u32 tag h, from-to_le_u32 s.data_residue k))
