-- ===== src/Examples/Rp2040Writing.antt =====
-- examples/rp2040/src/bin/rp2040_scsi_bbb.rs: the loop of the `Write` arm, which takes all bytes that wait.
use usbd_storage.Prelude.{
  ℕ, zero, suc, ◌+◌, ◌%◌, ◌≤◌, ◌<◌, ◌≡◌, refl, sym, ap, ◌∙◌, inl, inr, [], length, drop, arith,
  length-drop, take_all, drop_all, ◌==◌, ==_iff, Bool-cases, if◌then◌else◌,
}
use usbd_storage.Prelude.Outcome.{done, splice}
use usbd_storage.Buffer.{Buffer}
use usbd_storage.Buffer.Contents.{contents}
use usbd_storage.Transport.{UsbStack}
use usbd_storage.Transport.Bbb.Invariant.{Inv}
use usbd_storage.Transport.Bbb.ApiSafety.{with_buf}
use usbd_storage.Transport.Bbb.Intake.{FromHost}
use usbd_storage.Examples.Rp2040Scsi.{block_size, Flash, Disk, program_block, receive_blocks}
use usbd_storage.Examples.Answering.{Device}
use usbd_storage.Examples.Stm32Writing.{not_equal}
use usbd_storage.Examples.Slices.{written_in_parts}
use usbd_storage.Examples.Rp2040Blocks.{
  IsFlash, overlaid, same_rest, goes_on, stops, length-buffered, part_stored, block_stored,
  length-programmed, length-overlaid,
}
use usbd_storage.Examples.Rp2040Turn.{at, waiting, moved_on, Fits, turn, disk_after, one_turn}

module _ {World Endpoint UsbError F : Type 0} (stack : UsbStack World Endpoint UsbError)
    (device : Flash F) (lba : ℕ) where
  -- All bytes that waited have been taken to the disk, where it was written up to.
  pub record TakesAll (fuel : ℕ) (f : Device World Endpoint (Disk F)) : Type 0 where
    pub buf : Buffer
    pub disk : Disk F
    pub run :
        receive_blocks stack device fuel lba f
        ≡ (done tt, moved_on stack f buf disk (length (waiting f)))
    pub empty : contents buf ≡ []
    pub inv : Inv stack (with_buf stack f.1.transport buf)
    pub buffer : length disk.write_buffer ≡ block_size
    pub same_length :
        length (device.filesystem disk.flash) ≡ length (device.filesystem f.0.memory.flash)
    pub stored :
        overlaid device disk (at lba f + length (waiting f))
        ≡ splice (overlaid device f.0.memory (at lba f)) (at lba f) (waiting f)

  last_turn :
      (f : Device World Endpoint (Disk F)) (fuel : ℕ)
      → Fits device lba f
      → Inv stack f.1.transport
      → FromHost stack f.1.transport
      → at lba f % block_size + turn lba f < block_size
      → TakesAll (suc fuel) f
  last_turn f fuel fits v h part =
      let (b, holds, inv, run) = one_turn stack device lba f fuel fits v h in
      let all : turn lba f ≡ length (waiting f) = omega (arith, part) in
      record {
        buf = b;
        disk = disk_after device lba f;
        run =
            run
            ∙ ap
                (λ c.
                  if c
                  then receive_blocks stack device fuel lba (
                      moved_on stack f b
                        (program_block stack device (at lba f) (disk_after device lba f))
                        (turn lba f))
                  else (done tt, moved_on stack f b (disk_after device lba f) (turn lba f)))
                (stops (at lba f) f.0.state.storage_offset (turn lba f)
                  (same_rest lba f.0.state.storage_offset) part)
            ∙ ap (λ k. (done tt, moved_on stack f b (disk_after device lba f) k)) all;
        empty = holds ∙ drop_all (turn lba f) (waiting f) (omega (arith, all));
        inv = inv;
        buffer =
            length-buffered device f.0.memory fits.buffer (at lba f) (turn lba f) (waiting f)
              (omega arith) (omega arith);
        same_length = refl;
        stored =
            ap (λ k. overlaid device (disk_after device lba f) (at lba f + k)) (sym all)
            ∙ part_stored device f.0.memory fits.buffer (at lba f) (turn lba f) (waiting f)
                (omega arith) (omega arith) (omega (arith, fits.within)) part
            ∙ ap (splice (overlaid device f.0.memory (at lba f)) (at lba f))
                (take_all (turn lba f) (waiting f) (omega (arith, all)));
      }

  moved_twice :
      (f : Device World Endpoint (Disk F)) (b b' : Buffer) (disk disk' : Disk F)
      (count rest all : ℕ)
      → count + rest ≡ all
      → moved_on stack (moved_on stack f b disk count) b' disk' rest ≡ moved_on stack f b' disk' all
  moved_twice f b b' disk disk' count rest all e =
      ap
        (λ (k : ℕ). (
          record { state = record f.0.state { storage_offset = k }; memory = disk' },
          record f.1 { transport = with_buf stack f.1.transport b' },
        ))
        {x = f.0.state.storage_offset + count + rest} {y = f.0.state.storage_offset + all}
        (omega (arith, e))

  -- What is stored after a whole block goes behind it.
  stored_behind :
      IsFlash device
      → (f : Device World Endpoint (Disk F)) → Fits device lba f
      → at lba f % block_size + turn lba f ≡ block_size
      → (b : Buffer) → contents b ≡ drop (turn lba f) (waiting f)
      → (disk : Disk F)
      → let g =
          moved_on stack f b
            (program_block stack device (at lba f) (disk_after device lba f))
            (turn lba f) in
        overlaid device disk (at lba g + length (waiting g))
          ≡ splice (overlaid device g.0.memory (at lba g)) (at lba g) (waiting g)
        → overlaid device disk (at lba f + length (waiting f))
          ≡ splice (overlaid device f.0.memory (at lba f)) (at lba f) (waiting f)
  stored_behind flash f fits full b holds disk stored =
      let c = waiting f in
      let n = turn lba f in
      let disk' = program_block stack device (at lba f) (disk_after device lba f) in
      let g = moved_on stack f b disk' n in
      let there : at lba g ≡ at lba f + n = omega arith in
      let within : at lba f + n ≤ length (device.filesystem f.0.memory.flash) =
        omega (arith, fits.within) in
      ap (overlaid device disk) {x = at lba f + length c} {y = at lba g + length (waiting g)}
        (omega (arith, there, ap length holds, length-drop n c))
      ∙ stored
      ∙ ap (λ k. splice (overlaid device disk' k) k (waiting g)) there
      ∙ ap (λ l. splice (overlaid device disk' (at lba f + n)) (at lba f + n) l) holds
      ∙ ap (λ l. splice l (at lba f + n) (drop n c))
          (block_stored device f.0.memory fits.buffer (at lba f) n c (omega arith) (omega arith)
            stack flash within full)
      ∙ written_in_parts (overlaid device f.0.memory (at lba f)) c (at lba f) n (omega arith) (
          omega (
            arith,
            within,
            length-overlaid device f.0.memory fits.buffer (at lba f) n c (omega arith) (omega arith)
                (omega (arith, within)),
          ))

  full_turn :
      IsFlash device
      → (f : Device World Endpoint (Disk F)) (fuel : ℕ) → Fits device lba f
      → Inv stack f.1.transport
      → FromHost stack f.1.transport
      → at lba f % block_size + turn lba f ≡ block_size
      → ((g : Device World Endpoint (Disk F))
          → Fits device lba g
          → Inv stack g.1.transport
          → FromHost stack g.1.transport
          → length (waiting g) < fuel
          → TakesAll fuel g)
      → length (waiting f) < suc fuel
      → TakesAll (suc fuel) f
  unfolding program_block
  full_turn flash f fuel fits v h full next enough =
      let c = waiting f in
      let n = turn lba f in
      let disk' = program_block stack device (at lba f) (disk_after device lba f) in
      let (b, holds, inv, run) = one_turn stack device lba f fuel fits v h in
      let g = moved_on stack f b disk' n in
      let left : n + length (waiting g) ≡ length c =
        omega (arith, ap length holds, length-drop n c) in
      let there : at lba g ≡ at lba f + n = omega arith in
      let same_length : length (device.filesystem disk'.flash)
          ≡ length (device.filesystem f.0.memory.flash) =
        length-programmed device f.0.memory fits.buffer (at lba f) n c (omega arith) (omega arith)
          stack flash (omega (arith, fits.within)) full in
      let rest =
        next g
          (record {
            buffer =
                length-buffered device f.0.memory fits.buffer (at lba f) n c (omega arith)
                  (omega arith);
            within = omega (arith, left, there, same_length, fits.within);
            small = omega (arith, same_length, fits.small);
          })
          inv h (omega (arith, left, full, enough)) in
      record {
        buf = rest.buf;
        disk = rest.disk;
        run =
            run
            ∙ ap
                (λ c.
                  if c
                  then receive_blocks stack device fuel lba g
                  else (done tt, moved_on stack f b (disk_after device lba f) n))
                (goes_on (at lba f) f.0.state.storage_offset n
                  (same_rest lba f.0.state.storage_offset) full)
            ∙ rest.run
            ∙ ap (λ d. (done tt, d))
                (moved_twice f b rest.buf disk' rest.disk n (length (waiting g)) (length c) left);
        empty = rest.empty;
        inv = rest.inv;
        buffer = rest.buffer;
        same_length = rest.same_length ∙ same_length;
        stored = stored_behind flash f fits full b holds rest.disk rest.stored;
      }

  -- With a flash memory that programs whole sectors, in the invariant and a state of the transfer
  -- from the host, where what waits fits into the file system behind the offset, the file system
  -- is of 4096 bytes less than 2 ^ 32 at most, and the write buffer is of a block: with more fuel
  -- than bytes wait the loop ends normally. Nothing waits then, the offset has grown by the number
  -- of the bytes, the flash memory with the write buffer over it has them where it was written up
  -- to, and the invariant holds.
  pub receive_blocks-TakesAll :
      IsFlash device
      → (fuel : ℕ) (f : Device World Endpoint (Disk F)) → Fits device lba f
      → Inv stack f.1.transport
      → FromHost stack f.1.transport
      → length (waiting f) < fuel
      → TakesAll fuel f
  receive_blocks-TakesAll flash zero f fits v h enough = absurd (omega (arith, enough))
  receive_blocks-TakesAll flash (suc fuel) f fits v h enough =
      elim (Bool-cases (at lba f % block_size + turn lba f == block_size)) [
        | inl full ↦
            full_turn flash f fuel fits v h
              ((==_iff (at lba f % block_size + turn lba f) block_size).0 full)
              (λ g. receive_blocks-TakesAll flash fuel g) enough
        | inr part ↦
            last_turn f fuel fits v h
              (omega (arith, not_equal (at lba f % block_size + turn lba f) block_size part))
      ]
