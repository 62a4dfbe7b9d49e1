-- ===== src/Examples/Stm32Writing.antt =====
-- examples/stm32/src/bin/stm32f411x_scsi_bbb.rs: the `Write` arm, which takes the bytes that wait to the
-- memory.
use usbd_storage.Prelude.{
  ℕ, ◌+◌, ◌-◌, ◌*◌, ◌≤◌, ◌<◌, ◌≡◌, ◌≢◌, false, sym, ap, ap₂, ◌∙◌, min, ◌⊎◌, inl, inr, List, ◌++◌,
  length, take, drop, arith, append_assoc, length-append, length-take, length-drop, drop-take,
  drop-drop, take-append-drop, ◌==◌, ==_iff, Bool-cases,
}
use usbd_storage.Prelude.Outcome.{done, slice, splice}
use usbd_storage.Buffer.{Buffer}
use usbd_storage.Buffer.Contents.{contents}
use usbd_storage.Transport.{UsbStack, passed}
use usbd_storage.Transport.Bbb.Types.{data_transfer_from_host, data_transfer_from_host_status_await}
use usbd_storage.Transport.Bbb.Api
use usbd_storage.Transport.Bbb.Invariant.{Inv}
use usbd_storage.Transport.Bbb.ApiSafety.{with_buf, read_data-takes, set_status-sets}
use usbd_storage.Transport.Bbb.Intake.{FromHost-AwaitsStatus}
use usbd_storage.Subclass.Command.{read_data, pass}
use usbd_storage.Examples.Firmware.{mul, add, advance, complete}
use usbd_storage.Examples.Scsi.{complete_if_all}
use usbd_storage.Examples.Stm32Scsi.{block_size, receive_blocks, write_blocks}
use usbd_storage.Examples.Answering.{Device}
use usbd_storage.Examples.Reading.{InRange}

-- A slice whose front alone is overwritten.
front_overwritten :
    (fs ys : List ℕ) (start k : ℕ)
    → length ys ≤ k
    → start + k ≤ length fs
    → splice fs start (ys ++ drop (length ys) (take k (drop start fs))) ≡ splice fs start ys
front_overwritten fs ys start k h within =
    let n = length ys in
    let rest = drop n (take k (drop start fs)) in
    let size : length (ys ++ rest) ≡ k = omega (
      arith,
      h,
      within,
      length-append ys rest,
      length-drop n (take k (drop start fs)),
      length-take k (drop start fs),
      length-drop start fs,
    ) in
    ap (λ l. take start fs ++ l)
      (append_assoc ys rest (drop (start + length (ys ++ rest)) fs)
        ∙ ap (λ l. ys ++ l)
            (ap₂ ◌++◌ (drop-take n k (drop start fs)) (
                ap (λ j. drop j fs) {x = start + length (ys ++ rest)} {y = start + n + (k - n)}
                  (omega (arith, h, size))
                ∙ sym (drop-drop (start + n) (k - n) fs)
                ∙ ap (λ l. drop (k - n) l) (sym (drop-drop start n fs)))
              ∙ take-append-drop (k - n) (drop n (drop start fs))
              ∙ drop-drop start n fs))

pub not_equal : (m n : ℕ) → (m == n) ≡ false → m ≢ n
not_equal m n h e = ground (arith, h, e)

module _ {World Endpoint UsbError : Type 0} (stack : UsbStack World Endpoint UsbError)
    (lba len : ℕ) where
  -- How many of the bytes that wait belong to the blocks.
  abbrev pub stored : Device World Endpoint (List ℕ) → ℕ
  stored f = min (len * block_size - f.0.state.storage_offset) (length (contents f.1.transport.buf))

  -- They follow those that the memory has of the blocks.
  abbrev pub memory_after : Device World Endpoint (List ℕ) → List ℕ
  memory_after f =
      splice f.0.memory (block_size * lba + f.0.state.storage_offset)
        (take (stored f) (contents f.1.transport.buf))

  -- In the invariant and a state of the transfer from the host, with an offset below the length of
  -- the blocks, which lie in a memory of fewer than 2 ^ 32 bytes: the `Write` arm takes as many
  -- waiting bytes as the blocks still lack to the memory, at the offset, and changes no other byte
  -- of it. They leave the buffer, nothing else of the transport changes but the status, and the
  -- invariant is kept with the buffer. Where the blocks lack more, the offset grows by the count;
  -- otherwise the command is passed with the length of the blocks, and the offset is 0.
  pub write_blocks_stores :
      (f : Device World Endpoint (List ℕ))
      → InRange block_size f.0.memory lba len
      → f.0.state.storage_offset < len * block_size
      → let t = f.1.transport in
        Inv stack t
        → (t.state ≡ data_transfer_from_host) ⊎ (t.state ≡ data_transfer_from_host_status_await)
        → let offset = f.0.state.storage_offset + stored f in
          (b : Buffer) × (contents b ≡ drop (stored f) (contents t.buf))
          × Inv stack (with_buf stack t b)
          × (((offset < len * block_size)
                × (write_blocks stack lba len f ≡ (
                  done tt,
                  (
                    record {
                      state = record f.0.state { storage_offset = offset };
                      memory = memory_after f;
                    },
                    record f.1 { transport = with_buf stack t b },
                  ),
                )))
              ⊎ ((offset ≡ len * block_size)
                  × (write_blocks stack lba len f ≡ (
                    done tt,
                    (
                      record {
                        state = record f.0.state { storage_offset = 0 };
                        memory = memory_after f;
                      },
                      record f.1 {
                        transport =
                            (Api.set_status stack passed (len * block_size) (with_buf stack t b)).1;
                      },
                    ),
                  ))))
  unfolding write_blocks receive_blocks mul add slice advance complete complete_if_all read_data
      pass
  write_blocks_stores f range more v h =
      let t = f.1.transport in
      let c = contents t.buf in
      let offset = f.0.state.storage_offset in
      let start = block_size * lba + offset in
      let size = len * block_size in
      let k = size - offset in
      let n = stored f in
      let old = take k (drop start f.0.memory) in
      let (b, run, holds, inv) = read_data-takes stack t v old h in
      let old_size : length old ≡ k = omega (
        arith,
        range.within,
        length-take k (drop start f.0.memory),
        length-drop start f.0.memory,
      ) in
      let same : min (length old) (length c) ≡ n = omega (arith, old_size) in
      let takes : Api.read_data stack old t
          ≡ (done (n, take n c ++ drop n old), with_buf stack t b) =
        run ∙ ap (λ m. (done (m, take m c ++ drop m old), with_buf stack t b)) same in
      let front : length (take n c) ≡ n = omega (arith, length-take n c) in
      let kept : splice f.0.memory start (take n c ++ drop n old) ≡ memory_after f =
        ap (λ m. splice f.0.memory start (take n c ++ drop m old)) (sym front)
        ∙ front_overwritten f.0.memory (take n c) start k (omega (arith, front))
            (omega (arith, range.within)) in
      let cut : take (block_size * lba + block_size * len - start) (drop start f.0.memory) ≡ old =
        ap (λ j. take j (drop start f.0.memory)) {x = block_size * lba + block_size * len - start}
          {y = k} (omega arith) in
      let (set, after) =
        set_status-sets stack (with_buf stack t b) inv passed size
          (FromHost-AwaitsStatus stack t b h) in
      (
        b,
        holds ∙ ap (λ m. drop m c) same,
        inv,
        elim (Bool-cases (offset + n == size)) [
          | inl all ↦ inr (
            (==_iff (offset + n) size).0 all,
            ground (arith, range.within, range.small, cut, takes, kept, set, all),
          )
          | inr part ↦ inl (
            omega (arith, not_equal (offset + n) size part),
            ground (arith, range.within, range.small, cut, takes, kept, part),
          )
        ],
      )
