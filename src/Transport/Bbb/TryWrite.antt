-- ===== src/Transport/Bbb/TryWrite.antt =====
-- usbd-storage/src/transport/bbb.rs: `try_write_data_all`, branch by branch.
use usbd_storage.Prelude.{
  ℕ, ◌+◌, ◌-◌, ◌≤◌, ◌<◌, ◌≡◌, refl, ap, ◌∙◌, subst, ltb, lt→ltb, le→not_ltb, Bool-cases, ltb→lt,
  not_ltb→le, ◌⊎◌, inl, inr, List, ◌++◌, length, drop, arith, length-append, take-append_exact,
}
use usbd_storage.Prelude.Outcome.{done, fail, splice}
use usbd_storage.Buffer.{Buffer}
use usbd_storage.Buffer.Contents.{contents, capacity, slice-done, length-splice}
use usbd_storage.Buffer.Filling.{write_all_overflow, write_all_runs}
use usbd_storage.Transport.{UsbStack, TransportError, error}
use usbd_storage.Transport.Bbb.Types.{
  BulkOnly, BulkOnlyError, data_transfer_to_host, io_buffer_overflow, transfer_length_exceeded,
}
use usbd_storage.Transport.Bbb.Copies.{write_all_closure}
use usbd_storage.Transport.Bbb.Api.{try_write_data_all}
use usbd_storage.Transport.Bbb.Invariant.{Inv, InState}
use usbd_storage.Transport.Bbb.ApiSafety.{with_buf, with_buf-Inv, allowed}

closure_writes :
    {W E : Type 0} (src bytes : List ℕ) (w : W)
    → length bytes ≡ length src
    → write_all_closure {E = E} src bytes w ≡ (done (length src), splice bytes 0 src, w)
unfolding write_all_closure
closure_writes {E} src bytes w h =
    ground (arith, slice-done {E = E} bytes 0 (length src) (omega arith) (omega arith))

module _ {World Endpoint UsbError : Type 0} (stack : UsbStack World Endpoint UsbError)
    (t : BulkOnly World Endpoint) (v : Inv stack t) (src : List ℕ) where
  abbrev Error : Type 0
  Error = TransportError UsbError BulkOnlyError

  abbrev room : ℕ
  room = capacity t.buf - length (contents t.buf)

  abbrev left : ℕ
  left = t.left_to_transfer - length (contents t.buf)

  -- In the transfer to the host, where both the rest of the transfer and the buffer have room for all
  -- of `src`, exactly `src` is appended.
  pub try_write_all :
      t.state ≡ data_transfer_to_host
      → length src ≤ left
      → length src ≤ room
      → (b : Buffer) × (try_write_data_all stack src t ≡ (done tt, with_buf stack t b))
        × (contents b ≡ contents t.buf ++ src)
        × Inv stack (with_buf stack t b)
  unfolding try_write_data_all
  try_write_all h hl hr =
      let f = write_all_closure {E = Error} src in
      let (bytes, size, taken, failed) =
        write_all_runs (length src) (error io_buffer_overflow) f t.buf t.bus v.base.buffer hr in
      let (b, run, added) =
        taken (length src) (splice bytes 0 src) t.bus (closure_writes src bytes t.bus size)
          (length-splice bytes 0 src (omega arith) ∙ size) (omega arith) in
      let holds : contents b ≡ contents t.buf ++ src =
        added.holds
        ∙ ap (λ r. contents t.buf ++ r)
            (take-append_exact (length src) src (drop (0 + length src) bytes) refl) in
      let within : length (contents t.buf) ≤ t.left_to_transfer =
        subst (λ x. InState x t) h v.in_state in
      (
        b,
        ground (arith, allowed stack t v, le→not_ltb left (length src) hl, run),
        holds,
        with_buf-Inv stack t b _ v.base added.valid added.room h
            (omega (arith, within, ap length holds, length-append (contents t.buf) src)),
      )

  -- More than the host has asked for is refused, and nothing changes.
  pub try_write_exceeds :
      t.state ≡ data_transfer_to_host
      → left < length src
      → try_write_data_all stack src t ≡ (fail (error transfer_length_exceeded), t)
  unfolding try_write_data_all
  try_write_exceeds h more = ground (arith, allowed stack t v, lt→ltb left (length src) more)

  -- More than the buffer has room for is refused, and the bytes that wait are kept.
  pub try_write_overflows :
      t.state ≡ data_transfer_to_host
      → length src ≤ left
      → room < length src
      → (b : Buffer) × (try_write_data_all stack src t
          ≡ (fail (error io_buffer_overflow), with_buf stack t b))
        × (contents b ≡ contents t.buf)
        × Inv stack (with_buf stack t b)
  unfolding try_write_data_all
  try_write_overflows h hl hr =
      let f = write_all_closure {E = Error} src in
      let (b, run, kept) =
        write_all_overflow (length src) (error io_buffer_overflow) f t.buf t.bus v.base.buffer hr in
      (
        b,
        ground (arith, allowed stack t v, le→not_ltb left (length src) hl, run),
        kept.same,
        with_buf-Inv stack t b _ v.base kept.valid kept.room h
            (omega (arith, subst (λ x. InState x t) h v.in_state, ap length kept.same)),
      )

  -- In the invariant and the state of the transfer to the host, `try_write_data_all` appends all
  -- of `src` to the waiting bytes exactly where the rest of the transfer and the buffer have room
  -- for it. Where the rest of the transfer has not, it returns `TransferLengthExceeded`, where
  -- only the buffer has not, `IoBufferOverflow`, and the waiting bytes stay as they are. Nothing
  -- but the buffer changes, and the invariant is kept.
  pub try_write_all_or_nothing :
      t.state ≡ data_transfer_to_host
      → (b : Buffer) × Inv stack (with_buf stack t b)
        × (((length src ≤ left)
              × (length src ≤ room)
              × (try_write_data_all stack src t ≡ (done tt, with_buf stack t b))
              × (contents b ≡ contents t.buf ++ src))
            ⊎ (((left < length src)
                  × (try_write_data_all stack src t
                      ≡ (fail (error transfer_length_exceeded), with_buf stack t b))
                  × (contents b ≡ contents t.buf))
                ⊎ ((length src ≤ left)
                    × (room < length src)
                    × (try_write_data_all stack src t
                        ≡ (fail (error io_buffer_overflow), with_buf stack t b))
                    × (contents b ≡ contents t.buf))))
  try_write_all_or_nothing h = elim (Bool-cases (ltb left (length src))) [
    | inl more ↦
        (let l = ltb→lt left (length src) more in
          (t.buf, v, inr (inl (l, try_write_exceeds h l, refl))))
    | inr fits ↦
        (let l = not_ltb→le left (length src) fits in
          elim (Bool-cases (ltb room (length src))) [
            | inl over ↦
                (let r = ltb→lt room (length src) over in
                  let (b, run, same, inv) = try_write_overflows h l r in
                  (b, inv, inr (inr (l, r, run, same))))
            | inr enough ↦
                (let r = not_ltb→le room (length src) enough in
                  let (b, run, holds, inv) = try_write_all h l r in
                  (b, inv, inl (l, r, run, holds)))
          ])
  ]
