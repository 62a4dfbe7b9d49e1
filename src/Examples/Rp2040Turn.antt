-- ===== src/Examples/Rp2040Turn.antt =====
-- examples/rp2040/src/bin/rp2040_scsi_bbb.rs: one turn of the loop of the `Write` arm.
use usbd_storage.Prelude.{
  ℕ, suc, ◌+◌, ◌-◌, ◌*◌, ◌%◌, ◌^◌, ◌≤◌, ◌<◌, ◌≡◌, ap, ◌∙◌, min, inl, inr, List, ◌++◌, length, take,
  drop, arith, ltb, ◌==◌, Bool-cases, ◌&&◌, if◌then◌else◌,
}
use usbd_storage.Prelude.Outcome.{done, slice, sub}
use usbd_storage.Buffer.{Buffer}
use usbd_storage.Buffer.Contents.{contents}
use usbd_storage.Transport.{UsbStack}
use usbd_storage.Transport.Bbb.Api
use usbd_storage.Transport.Bbb.Invariant.{Inv}
use usbd_storage.Transport.Bbb.ApiSafety.{with_buf, read_data-takes}
use usbd_storage.Transport.Bbb.Intake.{FromHost}
use usbd_storage.Subclass.Command.{read_data}
use usbd_storage.Examples.Firmware.{mul, add, advance}
use usbd_storage.Examples.Rp2040Scsi.{block_size, Flash, Disk, program_block, receive_blocks}
use usbd_storage.Examples.Answering.{Device}
use usbd_storage.Examples.Rp2040Blocks.{buffered, size_of_old}

module _ {World Endpoint F : Type 0} where
  abbrev pub at : ℕ → Device World Endpoint (Disk F) → ℕ
  at lba f = block_size * lba + f.0.state.storage_offset

  abbrev pub waiting : Device World Endpoint (Disk F) → List ℕ
  waiting f = contents f.1.transport.buf

  -- The bytes of a turn: those that wait, up to the end of the block.
  abbrev pub turn : ℕ → Device World Endpoint (Disk F) → ℕ
  turn lba f = min (block_size - at lba f % block_size) (length (waiting f))

module _ {World Endpoint F : Type 0} (device : Flash F) (lba : ℕ) where
  -- What waits fits behind what has been written, in a memory of fewer than 2 ^ 32 bytes.
  pub record Fits (f : Device World Endpoint (Disk F)) : Type 0 where
    pub buffer : length f.0.memory.write_buffer ≡ block_size
    pub within : at lba f + length (waiting f) ≤ length (device.filesystem f.0.memory.flash)
    pub small : length (device.filesystem f.0.memory.flash) + block_size < 2 ^ 32

  abbrev pub disk_after : Device World Endpoint (Disk F) → Disk F
  disk_after f = buffered device f.0.memory (at lba f) (turn lba f) (waiting f)

module _ {World Endpoint UsbError F : Type 0} (stack : UsbStack World Endpoint UsbError) where
  abbrev pub moved_on :
      Device World Endpoint (Disk F) → Buffer → Disk F → ℕ → Device World Endpoint (Disk F)
  moved_on f b disk count = (
    record {
      state = record f.0.state { storage_offset = f.0.state.storage_offset + count };
      memory = disk;
    },
    record f.1 { transport = with_buf stack f.1.transport b },
  )

module _ {World Endpoint UsbError F : Type 0} (stack : UsbStack World Endpoint UsbError)
    (device : Flash F) (lba : ℕ) where
  pub one_turn :
      (f : Device World Endpoint (Disk F)) (fuel : ℕ)
      → Fits device lba f
      → Inv stack f.1.transport
      → FromHost stack f.1.transport
      → (b : Buffer) × (contents b ≡ drop (turn lba f) (waiting f))
        × Inv stack (with_buf stack f.1.transport b)
        × (receive_blocks stack device (suc fuel) lba f ≡ (
            if ltb 0 (turn lba f) && ((f.0.state.storage_offset + turn lba f) % block_size == 0)
            then receive_blocks stack device fuel lba (
                moved_on stack f b
                  (program_block stack device (at lba f) (disk_after device lba f))
                  (turn lba f))
            else (done tt, moved_on stack f b (disk_after device lba f) (turn lba f))))
  unfolding receive_blocks mul add sub slice advance read_data
  one_turn f fuel fits v h =
      let t = f.1.transport in
      let c = contents t.buf in
      let n = turn lba f in
      let o = at lba f % block_size in
      let wb = f.0.memory.write_buffer in
      let old = take (length wb - o) (drop o wb) in
      let (b, run, holds, inv) = read_data-takes stack t v old h in
      let same : min (length old) (length c) ≡ n = omega (
        arith,
        size_of_old device f.0.memory fits.buffer (at lba f) n c (omega arith) (omega arith),
      ) in
      let takes : Api.read_data stack old t
          ≡ (done (n, take n c ++ drop n old), with_buf stack t b) =
        run ∙ ap (λ m. (done (m, take m c ++ drop m old), with_buf stack t b)) same in
      (
        b,
        holds ∙ ap (λ m. drop m c) same,
        inv,
        elim (Bool-cases (ltb 0 n && ((f.0.state.storage_offset + n) % block_size == 0))) [
          | inl more ↦ ground (arith, fits.within, fits.small, fits.buffer, takes, more)
          | inr over ↦ ground (arith, fits.within, fits.small, fits.buffer, takes, over)
        ],
      )
