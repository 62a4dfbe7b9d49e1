-- ===== src/Transport/Bbb/Range.antt =====
-- usbd-storage/src/transport/bbb.rs: the ranges of the fields that `from_le_bytes` parses.
use usbd_storage.Prelude.{
  ℕ, zero, suc, ◌^◌, ◌<◌, ◌≡◌, sym, ◌∙◌, subst, inl, inr, Bool-cases, List, [], ◌∷◌, length, take,
  drop, get_or, arith, length-take, length-drop, true,
}
use usbd_storage.Prelude.Outcome.{done}
use usbd_storage.Bytes.{IsBytes, from_le_bytes as le_value, low_nibble}
use usbd_storage.Transport.Bbb.Types.{CommandBlockWrapper}
use usbd_storage.Transport.Bbb.Wrapper.{data_direction, from_le_bytes}
use usbd_storage.Transport.Bbb.ParseCases.{
  wrapper_of, block_len_ok, from_le_bytes-done, from_le_bytes-fail,
}
use usbd_storage.Transport.Bbb.RoundTrip.{IsWellFormed, DirectionFits}

take-IsBytes : (n : ℕ) (bs : List ℕ) → IsBytes bs → IsBytes (take n bs)
take-IsBytes zero bs h = tt
take-IsBytes (suc n) [] h = tt
take-IsBytes (suc n) (b ∷ bs) (h, hs) = (h, take-IsBytes n bs hs)

drop-IsBytes : (n : ℕ) (bs : List ℕ) → IsBytes bs → IsBytes (drop n bs)
drop-IsBytes zero bs h = h
drop-IsBytes (suc n) [] h = tt
drop-IsBytes (suc n) (b ∷ bs) (h, hs) = drop-IsBytes n bs hs

byte_bound : (bs : List ℕ) (i : ℕ) → IsBytes bs → get_or bs i 0 < 256
byte_bound [] i h = omega arith
byte_bound (b ∷ bs) zero (h, hs) = h
byte_bound (b ∷ bs) (suc i) (h, hs) = byte_bound bs i hs

le_value_bound : (bs : List ℕ) → length bs ≡ 4 → IsBytes bs → le_value bs < 2 ^ 32
le_value_bound (a ∷ b ∷ c ∷ d ∷ []) h (ha, (hb, (hc, (hd, _)))) = omega (arith, ha, hb, hc, hd)
le_value_bound [] h hs = absurd (omega (arith, h))
le_value_bound (a ∷ []) h hs = absurd (omega (arith, h))
le_value_bound (a ∷ b ∷ []) h hs = absurd (omega (arith, h))
le_value_bound (a ∷ b ∷ c ∷ []) h hs = absurd (omega (arith, h))
le_value_bound (a ∷ b ∷ c ∷ d ∷ e ∷ bs) h hs = absurd (omega (arith, h))

data_direction-DirectionFits : (n flags : ℕ) → DirectionFits (data_direction n flags) n
unfolding data_direction
data_direction-DirectionFits n flags = ground arith

wrapper_of-IsWellFormed :
    (value : List ℕ)
    → length value ≡ 27
    → IsBytes value
    → block_len_ok (get_or value 10 0) ≡ true
    → IsWellFormed (wrapper_of value)
wrapper_of-IsWellFormed value h bytes ok = record {
  tag_u32 =
      le_value_bound (take 4 value) (omega (arith, h, length-take 4 value))
        (take-IsBytes 4 value bytes);
  len_u32 =
      le_value_bound (take 4 (drop 4 value))
        (omega (arith, h, length-take 4 (drop 4 value), length-drop 4 value))
        (take-IsBytes 4 (drop 4 value) (drop-IsBytes 4 value bytes));
  direction_fits =
      data_direction-DirectionFits (le_value (take 4 (drop 4 value))) (get_or value 8 0);
  lun_nibble = omega (arith, low_nibble (get_or value 9 0) (byte_bound value 9 bytes));
  block_len_low = ground (arith, ok);
  block_len_high = ground (arith, ok);
  block_whole = omega (arith, h, length-take 16 (drop 11 value), length-drop 11 value);
}

-- Where the 27 bytes behind the signature are parsed to a CBW, its fields are in range: the tag
-- and the length have 32 bits, the direction is "not expected" exactly where the length is 0, the
-- LUN is at most 15, and the command block has a length from 1 to 16 in a field of 16 bytes.
pub from_le_bytes-IsWellFormed :
    (value : List ℕ) (c : CommandBlockWrapper)
    → length value ≡ 27
    → IsBytes value
    → from_le_bytes value ≡ done c
    → IsWellFormed c
from_le_bytes-IsWellFormed value c h bytes run =
    elim (Bool-cases (block_len_ok (get_or value 10 0))) [
      | inl ok ↦
          (let same : wrapper_of value ≡ c =
              ground (arith, sym (from_le_bytes-done value h ok) ∙ run) in
            subst IsWellFormed same (wrapper_of-IsWellFormed value h bytes ok))
      | inr bad ↦ ground (arith, sym (from_le_bytes-fail value h bad) ∙ run)
    ]
