-- ===== src/Examples/Rp2040Blocks.antt =====
-- examples/rp2040/src/bin/rp2040_scsi_bbb.rs: a block of the flash memory, which is written as soon as the
-- buffer for it is full.
use usbd_storage.Prelude.{
  true, false, ℕ, ◌+◌, ◌-◌, ◌*◌, ◌%◌, ◌≤◌, ◌<◌, ◌≡◌, sym, ap, ◌∙◌, inl, inr, List, ◌++◌, length,
  take, drop, arith, append_assoc, length-append, length-take, length-drop, take_all,
  take-append_exact, ltb, ◌==◌, Bool-cases, ◌&&◌,
}
use usbd_storage.Prelude.Outcome.{splice}
use usbd_storage.Buffer.Contents.{length-splice}
use usbd_storage.Transport.{UsbStack}
use usbd_storage.Examples.Rp2040Scsi.{block_size, Flash, Disk, program_block}
use usbd_storage.Examples.Slices.{splice-splice, untouched}

-- The start of the block at `start`.
abbrev pub block_start : ℕ → ℕ
block_start start = start - start % block_size

-- A turn that takes `n` of the bytes of a block from `start` on, where the block lacks more, or no more.
pub inside_offset : (start n : ℕ) → start % 4096 + n < 4096 → (start + n) % 4096 ≡ start % 4096 + n
inside_offset start n h = omega (arith, h)

pub inside_start :
    (start n : ℕ) → start % 4096 + n < 4096 → block_start (start + n) ≡ block_start start
inside_start start n h = omega (arith, h)

pub full_offset : (start n : ℕ) → start % 4096 + n ≡ 4096 → (start + n) % 4096 ≡ 0
full_offset start n h = omega (arith, h)

pub same_rest : (lba offset : ℕ) → offset % 4096 ≡ (4096 * lba + offset) % 4096
same_rest lba offset = omega arith

pub full_length : (start n : ℕ) → start % 4096 + n ≡ 4096 → block_start start + 4096 ≡ start + n
full_length start n h = omega (arith, h)

pub goes_on :
    (start offset n : ℕ)
    → offset % 4096 ≡ start % 4096
    → start % 4096 + n ≡ 4096
    → (ltb 0 n && ((offset + n) % 4096 == 0)) ≡ true
goes_on start offset n same full =
    let some_bytes : 1 ≤ n = omega (arith, full) in
    let whole : (offset + n) % 4096 ≡ 0 = omega (arith, same, full) in
    ground (arith, some_bytes, whole)

pub stops :
    (start offset n : ℕ)
    → offset % 4096 ≡ start % 4096
    → start % 4096 + n < 4096
    → (ltb 0 n && ((offset + n) % 4096 == 0)) ≡ false
stops start offset n same part = elim (Bool-cases (ltb 0 n)) [
  | inl some_bytes ↦
      (let positive : 1 ≤ n = ground (arith, some_bytes) in
        let rest : 1 ≤ (offset + n) % 4096 = omega (arith, same, part, positive) in
        ground (arith, some_bytes, rest))
  | inr nothing ↦ ground (arith, nothing)
]

-- A buffer whose bytes from `o` on begin with `ys`.
front_of_splice :
    (wb ys rest : List ℕ) (o : ℕ)
    → o ≤ length wb
    → take (o + length ys) (splice wb o (ys ++ rest)) ≡ take o wb ++ ys
front_of_splice wb ys rest o h =
    let tail = drop (o + length (ys ++ rest)) wb in
    ap (take (o + length ys)) (
      ap (λ l. take o wb ++ l) (append_assoc ys rest tail)
      ∙ sym (append_assoc (take o wb) ys (rest ++ tail)))
    ∙ take-append_exact (o + length ys) (take o wb ++ ys) (rest ++ tail)
        (omega (arith, h, length-append (take o wb) ys, length-take o wb))

module _ {F : Type 0} (device : Flash F) where
  -- The documented behaviour of `flash_range_erase_and_program`, on ranges of whole sectors, and where the
  -- linker places `FILESYSTEM`.
  pub record IsFlash : Type 0 where
    pub aligned : device.address % 0x1000 ≡ 0
    pub programs :
        (start : ℕ) (bytes : List ℕ) (s : F)
        → (device.address + start) % 0x1000 ≡ 0
        → length bytes % 0x1000 ≡ 0
        → start + length bytes ≤ length (device.filesystem s)
        → device.filesystem (device.flash_range_erase_and_program (device.address + start) bytes s)
          ≡ splice (device.filesystem s) start bytes

  -- The disk that has been written up to `start`: the flash memory, over which lies the part of the block
  -- under way that waits in the buffer.
  abbrev pub overlaid : Disk F → ℕ → List ℕ
  overlaid disk start =
      splice (device.filesystem disk.flash) (block_start start)
        (take (start % block_size) disk.write_buffer)

  -- Nothing waits at the start of a block.
  pub overlaid_whole :
      (disk : Disk F) (start : ℕ)
      → start % block_size ≡ 0
      → overlaid disk start ≡ device.filesystem disk.flash
  overlaid_whole disk start whole =
      ap (λ k. splice (device.filesystem disk.flash) (block_start start) (take k disk.write_buffer))
        whole
      ∙ sym (untouched (device.filesystem disk.flash) (block_start start))

  -- `n` bytes of `c` are put into the buffer.
  abbrev pub buffered : Disk F → ℕ → ℕ → List ℕ → Disk F
  buffered disk start n c =
      let o = start % block_size in
      let old = take (length disk.write_buffer - o) (drop o disk.write_buffer) in
      record disk { write_buffer = splice disk.write_buffer o (take n c ++ drop n old) }

  module _ (disk : Disk F) (size : length disk.write_buffer ≡ block_size) (start n : ℕ) (c : List ℕ)
      (enough : n ≤ length c) (room : start % block_size + n ≤ block_size) where
    pub size_of_old :
        length (
          take
            (length disk.write_buffer - start % block_size)
            (drop (start % block_size) disk.write_buffer))
        ≡ block_size - start % block_size
    size_of_old = omega (
      arith,
      size,
      length-take (length disk.write_buffer - start % block_size)
          (drop (start % block_size) disk.write_buffer),
      length-drop (start % block_size) disk.write_buffer,
    )

    pub size_of_taken : length (take n c) ≡ n
    size_of_taken = omega (arith, enough, length-take n c)

    pub length-buffered : length (buffered disk start n c).write_buffer ≡ block_size
    length-buffered =
        let o = start % block_size in
        let old = take (length disk.write_buffer - o) (drop o disk.write_buffer) in
        length-splice disk.write_buffer o (take n c ++ drop n old) (
          omega (
            arith,
            size,
            room,
            size_of_old,
            size_of_taken,
            length-append (take n c) (drop n old),
            length-drop n old,
          ))
        ∙ size

    front_of_buffered :
        take (start % block_size + n) (buffered disk start n c).write_buffer
        ≡ take (start % block_size) disk.write_buffer ++ take n c
    front_of_buffered =
        let o = start % block_size in
        let old = take (length disk.write_buffer - o) (drop o disk.write_buffer) in
        ap (λ k. take (o + k) (buffered disk start n c).write_buffer) (sym size_of_taken)
        ∙ front_of_splice disk.write_buffer (take n c) (drop n old) o (omega (arith, size))

    -- The bytes go to the disk where it was written up to.
    written_on :
        start ≤ length (device.filesystem disk.flash)
        → splice (overlaid disk start) start (take n c)
          ≡ splice
              (device.filesystem disk.flash)
              (block_start start)
              (take (start % block_size + n) (buffered disk start n c).write_buffer)
    written_on within =
        let o = start % block_size in
        let fs = device.filesystem disk.flash in
        let pending = take o disk.write_buffer in
        let pending_size : length pending ≡ o =
          omega (arith, size, length-take o disk.write_buffer) in
        ap (λ k. splice (overlaid disk start) k (take n c)) {x = start}
          {y = block_start start + length pending} (omega (arith, pending_size))
        ∙ splice-splice fs pending (take n c) (block_start start)
            (omega (arith, pending_size, within))
        ∙ ap (splice fs (block_start start)) (sym front_of_buffered)

    pub length-overlaid :
        start ≤ length (device.filesystem disk.flash)
        → length (overlaid disk start) ≡ length (device.filesystem disk.flash)
    length-overlaid within =
        length-splice (device.filesystem disk.flash) (block_start start)
          (take (start % block_size) disk.write_buffer)
          (omega (arith, size, within, length-take (start % block_size) disk.write_buffer))

    pub part_stored :
        start ≤ length (device.filesystem disk.flash)
        → start % block_size + n < block_size
        → overlaid (buffered disk start n c) (start + n)
          ≡ splice (overlaid disk start) start (take n c)
    part_stored within part =
        ap
          (λ k.
            splice (device.filesystem disk.flash) k
              (take ((start + n) % block_size) (buffered disk start n c).write_buffer))
          (inside_start start n part)
        ∙ ap
            (λ k.
              splice (device.filesystem disk.flash) (block_start start)
                (take k (buffered disk start n c).write_buffer))
            (inside_offset start n part)
        ∙ sym (written_on within)

    module _ {World Endpoint UsbError : Type 0} (stack : UsbStack World Endpoint UsbError)
        (flash : IsFlash) (within : start + n ≤ length (device.filesystem disk.flash))
        (full : start % block_size + n ≡ block_size) where
      abbrev after : Disk F
      after = program_block stack device start (buffered disk start n c)

      programmed :
          device.filesystem after.flash
          ≡ splice
              (device.filesystem disk.flash)
              (block_start start)
              (buffered disk start n c).write_buffer
      unfolding program_block
      programmed =
          flash.programs (block_start start) (buffered disk start n c).write_buffer disk.flash
            (omega (arith, flash.aligned)) (omega (arith, length-buffered))
            (omega (arith, length-buffered, within, full))

      pub length-programmed :
          length (device.filesystem after.flash) ≡ length (device.filesystem disk.flash)
      length-programmed =
          ap length programmed
          ∙ length-splice (device.filesystem disk.flash) (block_start start)
              (buffered disk start n c).write_buffer (omega (arith, length-buffered, within, full))

      pub block_stored : overlaid after (start + n) ≡ splice (overlaid disk start) start (take n c)
      unfolding program_block
      block_stored =
          let wb = (buffered disk start n c).write_buffer in
          let fs' = device.filesystem after.flash in
          ap (λ k. splice fs' (block_start (start + n)) (take k wb)) (full_offset start n full)
          ∙ sym (untouched fs' (block_start (start + n)))
          ∙ programmed
          ∙ ap (splice (device.filesystem disk.flash) (block_start start))
              (sym (take_all (start % block_size + n) wb (omega (arith, length-buffered, full))))
          ∙ sym (written_on (omega (arith, within)))
