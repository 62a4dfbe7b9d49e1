-- ===== src/Transport/Bbb/ApiSafety.antt =====
-- usbd-storage/src/transport/bbb.rs: the public methods, and the invariant.
use usbd_storage.Prelude.{
  ℕ, ◌+◌, ◌-◌, ◌%◌, ◌^◌, ◌≤◌, ◌≡◌, ◌≢◌, refl, sym, ap, ◌∙◌, subst, min, some, List, ◌++◌, length,
  take, drop, arith, ◌⊎◌, inl, inr, length-take, length-append, take-take_le,
}
use usbd_storage.Prelude.Outcome.{done, fail, splice}
use usbd_storage.Buffer.{Buffer}
use usbd_storage.Buffer.Contents.{
  IsValid, contents, capacity, length-contents, available_read-done, slice-done, contents-consume,
  consume-IsValid, length-splice,
}
use usbd_storage.Buffer.Reading.{read-done}
use usbd_storage.Buffer.Writing.{write-done}
use usbd_storage.Transport.{UsbStack, TransportError, error, CommandStatus}
use usbd_storage.Transport.Bbb.Types.{
  BulkOnly, BulkOnlyError, State, data_transfer_no_data, data_transfer_to_host,
  data_transfer_from_host, data_transfer_from_host_status_await, data_transfer_status_await,
  invalid_state, StatusAndResidue,
}
use usbd_storage.Transport.Bbb.Copies.{read_data_closure}
use usbd_storage.Transport.Bbb.Packets.{packet_size, allowed_to_append_to_data_transfer}
use usbd_storage.Transport.Bbb.Api.{set_status, read_data, write_data}
use usbd_storage.Transport.Bbb.Invariant.{Base, Inv, InState}

pub closure_takes :
    (bytes dst : List ℕ)
    → let n = min (length dst) (length bytes) in
      read_data_closure bytes dst ≡ (done n, bytes, take n bytes ++ drop n dst)
unfolding read_data_closure
closure_takes bytes dst =
    let n = min (length dst) (length bytes) in
    ground (
      arith,
      slice-done {E = ⊥} bytes 0 n (omega arith) (omega arith),
      slice-done {E = ⊥} dst 0 n (omega arith) (omega arith),
      ap (λ k. take n bytes ++ drop k dst) {x = 0 + length (take n bytes)} {y = n}
          (omega (arith, length-take n bytes)),
    )

module _ {World Endpoint UsbError : Type 0} (stack : UsbStack World Endpoint UsbError) where
  abbrev pub with_buf : BulkOnly World Endpoint → Buffer → BulkOnly World Endpoint
  with_buf t b = record t { buf = b }

  -- Only the buffer changes, and the state promises no more than a bound on what it holds.
  pub with_buf-Inv :
      (t : BulkOnly World Endpoint) (b : Buffer) (x : State)
      → Base stack t
      → IsValid b
      → capacity b ≡ capacity t.buf
      → t.state ≡ x
      → InState x (with_buf t b)
      → Inv stack (with_buf t b)
  unfolding packet_size
  with_buf-Inv t b x v vb c h i = record {
    base = record {
      buffer = vb;
      cbw_fits = omega (arith, v.cbw_fits);
      packet_fits = omega (arith, v.packet_fits);
      small = omega (arith, v.small);
      block_fits = v.block_fits;
      block_some = v.block_some;
    };
    in_state = subst (λ y. InState y (with_buf t b)) (sym h) i;
  }

  -- The states in which a status may be set.
  abbrev pub AwaitsStatus : BulkOnly World Endpoint → Type 0
  AwaitsStatus t =
      (t.state ≡ data_transfer_to_host)
      ⊎ ((t.state ≡ data_transfer_from_host)
          ⊎ ((t.state ≡ data_transfer_no_data)
              ⊎ ((t.state ≡ data_transfer_status_await)
                  ⊎ (t.state ≡ data_transfer_from_host_status_await))))

  module _ (t : BulkOnly World Endpoint) (v : Inv stack t) where
    status-Inv : (s : StatusAndResidue) → AwaitsStatus t → Inv stack (record t { cs = some s })
    unfolding packet_size
    status-Inv s h = record {
      base = record {
        buffer = v.base.buffer;
        cbw_fits = v.base.cbw_fits;
        packet_fits = v.base.packet_fits;
        small = v.base.small;
        block_fits = v.base.block_fits;
        block_some = v.base.block_some;
      };
      in_state = unchanged h;
    }
      where
        unchanged : AwaitsStatus t → InState t.state (record t { cs = some s })
        unchanged (inl e) =
            subst (λ x. InState x (record t { cs = some s })) (sym e)
              (subst (λ x. InState x t) e v.in_state)
        unchanged (inr (inl e)) = subst (λ x. InState x (record t { cs = some s })) (sym e) tt
        unchanged (inr (inr (inl e))) = subst (λ x. InState x (record t { cs = some s })) (sym e) tt
        unchanged (inr (inr (inr (inl e)))) =
            subst (λ x. InState x (record t { cs = some s })) (sym e) tt
        unchanged (inr (inr (inr (inr e)))) =
            subst (λ x. InState x (record t { cs = some s })) (sym e) tt

    pub allowed :
        allowed_to_append_to_data_transfer stack t
        ≡ (done (t.left_to_transfer - length (contents t.buf)), t)
    unfolding allowed_to_append_to_data_transfer
    allowed = ground (
      arith,
      available_read-done {E = TransportError UsbError BulkOnlyError} t.buf v.base.buffer,
      mod_small,
    )
      where
        mod_small : length (contents t.buf) % 2 ^ 32 ≡ length (contents t.buf)
        mod_small =
            omega (arith, v.base.small, length-contents t.buf v.base.buffer, v.base.buffer.within)

    -- The room that `write_data` may fill: by the transfer and by the buffer.
    abbrev pub writable : List ℕ → ℕ
    writable src =
        min (capacity t.buf - length (contents t.buf))
          (min (length src) (t.left_to_transfer - length (contents t.buf)))

    -- As below, with the room of the buffer.
    pub write_data-run :
        (src : List ℕ)
        → t.state ≡ data_transfer_to_host
        → (b : Buffer) × (write_data stack src t ≡ (done (writable src), with_buf t b))
          × (contents b ≡ contents t.buf ++ take (writable src) src)
          × (capacity b ≡ capacity t.buf)
          × Inv stack (with_buf t b)
    unfolding write_data
    write_data-run src h =
        let m = min (length src) (t.left_to_transfer - length (contents t.buf)) in
        let (b, run, added) =
          write-done {E = TransportError UsbError BulkOnlyError} (take m src) t.buf v.base.buffer in
        let same : min (capacity t.buf - length (contents t.buf)) (length (take m src))
            ≡ writable src =
          omega (arith, length-take m src) in
        let holds : contents b ≡ contents t.buf ++ take (writable src) src =
          added.holds
          ∙ ap (λ n. contents t.buf ++ take n (take m src)) same
          ∙ ap (λ r. contents t.buf ++ r) (take-take_le (writable src) m src (omega arith)) in
        let within : length (contents t.buf) ≤ t.left_to_transfer =
          subst (λ x. InState x t) h v.in_state in
        (
          b,
          ground (
            arith,
            allowed,
            run,
            same,
            slice-done {E = TransportError UsbError BulkOnlyError} src 0 m (omega arith)
                (omega arith),
            ap (λ n. take n src) {x = m - 0} {y = m} (omega arith),
          ),
          holds,
          added.room,
          with_buf-Inv t b data_transfer_to_host v.base added.valid added.room h (
              omega (
                arith,
                within,
                ap length holds,
                length-append (contents t.buf) (take (writable src) src),
                length-take (writable src) src,
              )),
        )

    -- In the invariant and the state of the transfer to the host, with a status set or not,
    -- `write_data` appends to the waiting bytes as many bytes of `src` as the rest of the transfer
    -- and the buffer both have room for, and returns their number. Nothing but the buffer changes,
    -- and the invariant is kept.
    pub write_data-appends :
        (src : List ℕ)
        → t.state ≡ data_transfer_to_host
        → (b : Buffer) × (write_data stack src t ≡ (done (writable src), with_buf t b))
          × (contents b ≡ contents t.buf ++ take (writable src) src)
          × Inv stack (with_buf t b)
    write_data-appends src h =
        let (b, run, holds, room, inv) = write_data-run src h in (b, run, holds, inv)

    -- In any other state it changes nothing.
    pub write_data-refused :
        (src : List ℕ)
        → t.state ≢ data_transfer_to_host
        → write_data stack src t ≡ (fail (error invalid_state), t)
    unfolding write_data
    write_data-refused src h = ground arith

    -- In the invariant and a state of the transfer from the host, `read_data` copies the oldest
    -- waiting bytes to the front of `dst`, as many as it takes, returns their number, leaves the
    -- rest of `dst` alone, and removes exactly those bytes. Nothing but the buffer changes, and
    -- the invariant is kept.
    pub read_data-takes :
        (dst : List ℕ)
        → (t.state ≡ data_transfer_from_host) ⊎ (t.state ≡ data_transfer_from_host_status_await)
        → let n = min (length dst) (length (contents t.buf)) in
          (b : Buffer) × (read_data stack dst t
            ≡ (done (n, take n (contents t.buf) ++ drop n dst), with_buf t b))
          × (contents b ≡ drop n (contents t.buf))
          × Inv stack (with_buf t b)
    unfolding read_data
    read_data-takes dst h =
        let n = min (length dst) (length (contents t.buf)) in
        let b = record t.buf {
          inner = splice t.buf.inner t.buf.rpos (contents t.buf);
          rpos = t.buf.rpos + n;
        } in
        let room : capacity b ≡ capacity t.buf =
          length-splice t.buf.inner t.buf.rpos (contents t.buf)
            (omega (arith, v.base.buffer, length-contents t.buf v.base.buffer)) in
        let valid : IsValid b =
          consume-IsValid t.buf n (contents t.buf) v.base.buffer refl (omega arith) in
        (
          b,
          ground (
            arith,
            read-done read_data_closure t.buf dst v.base.buffer n (contents t.buf) _
                (closure_takes (contents t.buf) dst),
            ap
                (λ k. record t.buf {
                  inner = splice t.buf.inner t.buf.rpos (contents t.buf);
                  rpos = t.buf.rpos + k;
                })
                {x = min n (length (contents t.buf))} {y = n} (omega arith),
          ),
          contents-consume t.buf n (contents t.buf) v.base.buffer refl (omega arith),
          elim h [
            | inl e ↦ with_buf-Inv t b _ v.base valid room e tt
            | inr e ↦ with_buf-Inv t b _ v.base valid room e tt
          ],
        )

    -- In the invariant and a state in which a status may be set, `set_status` records it with the
    -- residue, which is the length of the transfer less what was processed, and 0 where more was
    -- processed. Nothing else changes, and the invariant is kept.
    pub set_status-sets :
        (status : CommandStatus) (data_processed : ℕ)
        → AwaitsStatus t
        → let s : StatusAndResidue = record {
          status = status;
          data_residue = t.cbw.data_transfer_len - data_processed;
        } in
          (set_status stack status data_processed t ≡ (done tt, record t { cs = some s }))
          × Inv stack (record t { cs = some s })
    unfolding set_status packet_size
    set_status-sets status data_processed h =
        let s : StatusAndResidue = record {
          status = status;
          data_residue = t.cbw.data_transfer_len - data_processed;
        } in
        (ground arith, status-Inv s h)
