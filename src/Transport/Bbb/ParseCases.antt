-- ===== src/Transport/Bbb/ParseCases.antt =====
-- usbd-storage/src/transport/bbb.rs: what an attempt to parse a CBW does.
use usbd_storage.Prelude.{
  ℕ, if◌then◌else◌, bit_and, get_or, ◌+◌, ◌-◌, ◌≤◌, ◌≡◌, refl, ap, min, leb, ◌&&◌, Bool, true,
  false, Bool-cases, le→leb, inl, inr, List, length, take, drop, replicate, arith, length-take,
  length-drop,
}
use usbd_storage.Prelude.Outcome.{Outcome, done, fail, splice, index-done}
use usbd_storage.Bytes.{starts_with, from_le_bytes as le_value}
use usbd_storage.Buffer.{Buffer}
use usbd_storage.Buffer.Contents.{
  IsValid, contents, capacity, length-contents, available_read-done, slice-done, consume-IsValid,
  length-splice,
}
use usbd_storage.Buffer.Reading.{read-done}
use usbd_storage.Transport.Bbb.Types.{
  BulkOnly, CommandBlockWrapper, InvalidCbwError, invalid_cbw, cbw_signature_le,
}
use usbd_storage.Transport.Bbb.Copies.{cbw_closure}
use usbd_storage.Transport.Bbb.Wrapper.{exactly, data_direction, from_le_bytes}
use usbd_storage.Transport.Bbb.Handlers.{try_parse_cbw}

-- The length that a CBW names of its command block.
pub record BlockFits (cbw : CommandBlockWrapper) : Type 0 where
  pub some_bytes : 1 ≤ cbw.block_len
  pub within : cbw.block_len ≤ length cbw.block

-- A value of the 27 bytes behind the signature is parsed, or refused, without a panic. What is parsed
-- names a byte of its command block at least, and no more than there are.
pub data ParseCases (value : List ℕ) : Type 0 where
  parsed :
      (cbw : CommandBlockWrapper)
      → from_le_bytes value ≡ done cbw
      → BlockFits cbw
      → ParseCases value
  refused : from_le_bytes value ≡ fail invalid_cbw → ParseCases value

exactly-done : (n : ℕ) (bytes : List ℕ) → length bytes ≡ n → exactly n bytes ≡ done bytes
unfolding exactly
exactly-done n bytes h = ground arith

-- The fields, by their places behind the signature: the tag, the length, the flags, the LUN, the length
-- of the command block, and the block.
abbrev pub wrapper_of : List ℕ → CommandBlockWrapper
wrapper_of value = record {
  tag = le_value (take 4 value);
  data_transfer_len = le_value (take 4 (drop 4 value));
  direction = data_direction (le_value (take 4 (drop 4 value))) (get_or value 8 0);
  lun = bit_and (get_or value 9 0) 15;
  block_len = get_or value 10 0;
  block = take 16 (drop 11 value);
}

abbrev pub block_len_ok : ℕ → Bool
block_len_ok n = leb 1 n && leb n 16

pub from_le_bytes-done :
    (value : List ℕ)
    → length value ≡ 27
    → block_len_ok (get_or value 10 0) ≡ true
    → from_le_bytes value ≡ done (wrapper_of value)
unfolding from_le_bytes
from_le_bytes-done value h k = ground (
  arith,
  k,
  index-done {E = InvalidCbwError} value 10 (omega arith),
  index-done {E = InvalidCbwError} value 9 (omega arith),
  index-done {E = InvalidCbwError} value 8 (omega arith),
  slice-done {E = InvalidCbwError} value 0 4 (omega arith) (omega arith),
  slice-done {E = InvalidCbwError} value 4 8 (omega arith) (omega arith),
  slice-done {E = InvalidCbwError} value 11 (length value) (omega arith) (omega arith),
  ap (λ n. take (n - 11) (drop 11 value)) h,
  exactly-done 4 (take 4 value) (omega (arith, length-take 4 value)),
  exactly-done 4 (take 4 (drop 4 value))
      (omega (arith, length-take 4 (drop 4 value), length-drop 4 value)),
  exactly-done 16 (take 16 (drop 11 value))
      (omega (arith, length-take 16 (drop 11 value), length-drop 11 value)),
)

pub from_le_bytes-fail :
    (value : List ℕ)
    → length value ≡ 27
    → block_len_ok (get_or value 10 0) ≡ false
    → from_le_bytes value ≡ fail invalid_cbw
unfolding from_le_bytes
from_le_bytes-fail value h k =
    ground (arith, k, index-done {E = InvalidCbwError} value 10 (omega arith))

pub from_le_bytes-cases : (value : List ℕ) → length value ≡ 27 → ParseCases value
from_le_bytes-cases value h = elim (Bool-cases (block_len_ok (get_or value 10 0))) [
  | inl k ↦ parsed (wrapper_of value) (from_le_bytes-done value h k) (record {
    some_bytes = ground (arith, k);
    within = ground (arith, k, length-take 16 (drop 11 value), length-drop 11 value);
  })
  | inr k ↦ refused (from_le_bytes-fail value h k)
]

-- The 31 bytes of a CBW, its signature included.
abbrev pub parse_raw : List ℕ → Outcome InvalidCbwError CommandBlockWrapper
parse_raw raw =
    if starts_with raw cbw_signature_le
    then from_le_bytes (take 27 (drop 4 raw))
    else fail invalid_cbw

closure_copies :
    (bytes : List ℕ)
    → 31 ≤ length bytes
    → cbw_closure bytes (replicate 31 0) ≡ (done 31, bytes, take 31 bytes)
unfolding cbw_closure
closure_copies bytes h =
    ground (arith, slice-done {E = ⊥} bytes 0 31 (omega arith) h, length-take 31 bytes)

abbrev consumed : Buffer → Buffer
consumed b = record b { inner = splice b.inner b.rpos (contents b); rpos = b.rpos + 31 }

module _ {World Endpoint : Type 0} where
  -- Of a valid buffer with at least 31 waiting bytes, `try_parse_cbw` takes the first 31, returns
  -- what the test of the signature and the parser make of them, and leaves a valid buffer of the
  -- same capacity. Nothing but the buffer changes.
  pub try_parse_cbw-run :
      (t : BulkOnly World Endpoint)
      → IsValid t.buf
      → 31 ≤ length (contents t.buf)
      → (b : Buffer) × (try_parse_cbw t
          ≡ (parse_raw (take 31 (contents t.buf)), record t { buf = b }))
        × IsValid b
        × (capacity b ≡ capacity t.buf)
  unfolding try_parse_cbw
  try_parse_cbw-run t v h = (
    consumed t.buf,
    ground (
      arith,
      available_read-done {E = InvalidCbwError} t.buf v,
      le→leb 31 (length (contents t.buf)) h,
      read-done cbw_closure t.buf (replicate 31 0) v 31 (contents t.buf) (take 31 (contents t.buf))
          (closure_copies (contents t.buf) h),
      ap
          (λ n. record t.buf {
            inner = splice t.buf.inner t.buf.rpos (contents t.buf);
            rpos = t.buf.rpos + n;
          })
          {x = min 31 (length (contents t.buf))} {y = 31} (omega arith),
      slice-done {E = InvalidCbwError} (take 31 (contents t.buf)) 4
          (length (take 31 (contents t.buf))) (omega (arith, length-take 31 (contents t.buf)))
          (omega arith),
      ap (λ n. take (n - 4) (drop 4 (take 31 (contents t.buf))))
          {x = length (take 31 (contents t.buf))} {y = 31}
          (omega (arith, length-take 31 (contents t.buf))),
    ),
    consume-IsValid t.buf 31 (contents t.buf) v refl h,
    length-splice t.buf.inner t.buf.rpos (contents t.buf)
        (omega (arith, v.order, v.within, length-contents t.buf v)),
  )
