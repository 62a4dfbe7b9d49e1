-- ===== src/Examples/Rp2040Written.antt =====
-- examples/rp2040/src/bin/rp2040_scsi_bbb.rs: a whole `Write` command, of polls and calls of the callback in
-- any order.
use usbd_storage.Prelude.{
  refl, ℕ, ◌+◌, ◌-◌, ◌*◌, ◌^◌, ◌≤◌, ◌<◌, ◌≡◌, sym, ap, ◌∙◌, ◌⊎◌, inl, inr, none, some, List, [],
  ◌++◌, length, arith, take_all, drop_all, ◌==◌, ==_iff, Bool-cases,
}
use usbd_storage.Prelude.Outcome.{done, splice}
use usbd_storage.Buffer.{Buffer}
use usbd_storage.Buffer.Contents.{contents}
use usbd_storage.Transport.{UsbStack, IsLawful, passed}
use usbd_storage.Transport.Bbb.Api
use usbd_storage.Transport.Bbb.Invariant.{Inv}
use usbd_storage.Transport.Bbb.ApiSafety.{with_buf, set_status-sets}
use usbd_storage.Transport.Bbb.Intake.{IsIntake, FromHost, FromHost-AwaitsStatus}
use usbd_storage.Subclass.Command.{pass}
use usbd_storage.Examples.Firmware.{mul, complete}
use usbd_storage.Examples.Scsi.{complete_if_all}
use usbd_storage.Examples.Rp2040Scsi.{block_size, Flash, Disk, receive_blocks, write_blocks}
use usbd_storage.Examples.Answering.{Device}
use usbd_storage.Examples.Rp2040Blocks.{IsFlash, overlaid, overlaid_whole, length-overlaid}
use usbd_storage.Examples.Rp2040Turn.{at, waiting, moved_on}
use usbd_storage.Examples.Rp2040Writing.{receive_blocks-TakesAll}
use usbd_storage.Examples.Written
use usbd_storage.Examples.Written.{Took, IsArm, called}
use usbd_storage.Examples.Written.Runs.{command-Stores, command_completes}
use usbd_storage.Examples.Stm32Writing.{not_equal}

module _ {World Endpoint UsbError F : Type 0} (stack : UsbStack World Endpoint UsbError)
    (device : Flash F) (fuel lba len : ℕ) where
  abbrev pub size : ℕ
  size = len * block_size

  -- The host sends no more than the blocks, and the fuel is enough for what waits.
  pub record InCommand (f : Device World Endpoint (Disk F)) : Type 0 where
    pub within : f.0.state.storage_offset + length (waiting f) ≤ size
    pub fuel_enough : length (waiting f) < fuel

  pub record IsDisk (disk : Disk F) : Type 0 where
    pub buffer : length disk.write_buffer ≡ block_size
    pub within : block_size * lba + size ≤ length (device.filesystem disk.flash)
    pub small : length (device.filesystem disk.flash) + block_size < 2 ^ 32

  -- The flash memory, over which lies what waits in the buffer.
  abbrev pub disk_at : Disk F → ℕ → List ℕ
  disk_at disk k = overlaid device disk (block_size * lba + k)

  ends :
      (f : Device World Endpoint (Disk F)) (b : Buffer) (disk : Disk F) (n : ℕ)
      → receive_blocks stack device fuel lba f ≡ (done tt, moved_on stack f b disk n)
      → f.0.state.storage_offset < size
      → f.0.state.storage_offset + n ≤ size
      → size < 2 ^ 32
      → Inv stack (with_buf stack f.1.transport b)
      → FromHost stack f.1.transport
      → ((f.0.state.storage_offset + n < size)
          × (write_blocks stack device fuel lba len f ≡ (done tt, moved_on stack f b disk n)))
        ⊎ ((f.0.state.storage_offset + n ≡ size)
            × (write_blocks stack device fuel lba len f ≡ (
              done tt,
              (
                record { state = record f.0.state { storage_offset = 0 }; memory = disk },
                record f.1 {
                  transport = (Api.set_status stack passed size (with_buf stack f.1.transport b)).1;
                },
              ),
            )))
  unfolding write_blocks mul complete_if_all complete pass
  ends f b disk n run part within small inv h =
      let offset = f.0.state.storage_offset + n in
      let (set, after) =
        set_status-sets stack (with_buf stack f.1.transport b) inv passed size
          (FromHost-AwaitsStatus stack f.1.transport b h) in
      elim (Bool-cases (offset == size)) [
        | inl all ↦ inr ((==_iff offset size).0 all, ground (arith, part, small, run, all, set))
        | inr more ↦ inl (
          omega (arith, within, not_equal offset size more),
          ground (arith, part, small, run, more),
        )
      ]

  write_blocks-Took :
      IsFlash device
      → (f : Device World Endpoint (Disk F)) → IsDisk f.0.memory
      → InCommand f
      → f.0.state.storage_offset < size
      → Inv stack f.1.transport
      → FromHost stack f.1.transport
      → Took stack
          (write_blocks stack device fuel lba len)
          InCommand
          IsDisk
          disk_at
          (block_size * lba)
          size
          f
  write_blocks-Took flash f good allowed part v h =
      let c = waiting f in
      let all =
        receive_blocks-TakesAll stack device lba flash fuel f
          (record {
            buffer = good.buffer;
            within = omega (arith, good.within, allowed.within);
            small = good.small;
          })
          v h allowed.fuel_enough in
      record {
        buf = all.buf;
        memory = all.disk;
        count = length c;
        enough = omega arith;
        greedy = inl refl;
        good = record {
          buffer = all.buffer;
          within = omega (arith, all.same_length, good.within);
          small = omega (arith, all.same_length, good.small);
        };
        holds = all.empty ∙ sym (drop_all (length c) c (omega arith));
        inv = all.inv;
        stored =
            ap (overlaid device all.disk)
              {x = block_size * lba + (f.0.state.storage_offset + length c)}
              {y = at lba f + length c} (omega arith)
            ∙ all.stored
            ∙ ap (splice (disk_at f.0.memory f.0.state.storage_offset) (at lba f))
                (sym (take_all (length c) c (omega arith)));
        ends =
            ends f all.buf all.disk (length c) all.run part allowed.within
              (omega (arith, good.within, good.small)) all.inv h;
      }

  write_blocks-IsArm :
      IsFlash device
      → IsArm stack
          (write_blocks stack device fuel lba len)
          InCommand
          IsDisk
          disk_at
          (block_size * lba)
          size
  write_blocks-IsArm flash = record {
    within = λ m k good small. omega (
      arith,
      good.within,
      length-overlaid device m good.buffer (block_size * lba + k) 0 [] (omega arith) (omega arith)
          (omega (arith, good.within, small)),
    );
    takes = write_blocks-Took flash;
  }

  abbrev pub Writes : Device World Endpoint (Disk F) → Device World Endpoint (Disk F) → Type 0
  Writes = Written.Writes stack (write_blocks stack device fuel lba len) InCommand

  module _ (law : IsLawful stack) (intake : World → List ℕ) (hands : IsIntake stack intake)
      (flash : IsFlash device) (f : Device World Endpoint (Disk F)) (good : IsDisk f.0.memory) where
    -- Amid the command, the flash memory and the buffer for a block together have them.
    pub record WrittenPart (g : Device World Endpoint (Disk F)) : Type 0 where
      pub bytes : List ℕ
      pub going :
          Written.Going stack
            (write_blocks stack device fuel lba len)
            InCommand
            IsDisk
            disk_at
            (block_size * lba)
            size
            law
            intake
            hands
            f
            g
            bytes
      pub stored :
          disk_at g.0.memory (length bytes)
          ≡ splice (device.filesystem f.0.memory.flash) (block_size * lba) bytes

    -- At the end of the command, the flash memory has the bytes that came first.
    pub record WrittenWhole (g : Device World Endpoint (Disk F)) : Type 0 where
      pub bytes : List ℕ
      pub whole : length bytes ≡ size
      pub came :
          intake g.1.transport.bus
          ≡ intake f.1.transport.bus ++ (bytes ++ contents g.1.transport.buf)
      pub flashed :
          device.filesystem g.0.memory.flash
          ≡ splice (device.filesystem f.0.memory.flash) (block_size * lba) bytes
      pub status :
          g.1.transport.cs
          ≡ some (record {
            status = passed;
            data_residue = f.1.transport.cbw.data_transfer_len - size;
          })
      pub offset : g.0.state.storage_offset ≡ 0

    -- On a lawful stack with an intake, and with a flash memory that programs whole sectors: let a
    -- device begin a transfer from the host, in the invariant, with no status, no byte waiting, an
    -- offset of 0, and one block at least, let the blocks lie in the file system, which is of 4096
    -- bytes less than 2 ^ 32 at most, and let the write buffer be of a block. Let polls and calls
    -- of the `Write` arm follow in any order, until a status is set, each call with more fuel than
    -- bytes wait and no more bytes waiting than the blocks lack. Whenever one stops, either the
    -- bytes that were taken are fewer than the blocks, and the flash memory with the write buffer
    -- over it has them at the address of the blocks, the rest being as at the start; or they are
    -- as many as the blocks, the flash memory is that of the start with exactly those bytes at the
    -- address of the blocks, the command has passed and the offset is 0. In both cases the intake
    -- has gained them and then the ones that wait.
    pub write_programs :
        Inv stack f.1.transport
        → FromHost stack f.1.transport
        → f.1.transport.cs ≡ none
        → contents f.1.transport.buf ≡ []
        → f.0.state.storage_offset ≡ 0
        → 1 ≤ len
        → (g : Device World Endpoint (Disk F)) → Writes f g
        → WrittenPart g ⊎ WrittenWhole g
    write_programs v h c empty start some_blocks g run =
        let s =
          command-Stores stack (write_blocks stack device fuel lba len) InCommand IsDisk disk_at
            (block_size * lba) size law intake hands f (write_blocks-IsArm flash) good v h c empty
            start (omega (arith, some_blocks)) g run in
        let stored : disk_at g.0.memory (length s.bytes)
            ≡ splice (device.filesystem f.0.memory.flash) (block_size * lba) s.bytes =
          s.stored
          ∙ ap (λ m. splice m (block_size * lba) s.bytes)
              (overlaid_whole device f.0.memory (block_size * lba + 0) (omega arith)) in
        elim s.phase [
          | inl going ↦ inl (record { bytes = s.bytes; going = going; stored = stored })
          | inr over ↦ inr (record {
            bytes = s.bytes;
            whole = over.whole;
            came = over.came;
            flashed =
                sym (
                  overlaid_whole device g.0.memory (block_size * lba + length s.bytes)
                    (omega (arith, over.whole)))
                ∙ stored;
            status = over.status;
            offset = over.offset;
          })
        ]

    -- With the stack, the flash memory, the start of the device and the blocks of
    -- `write_programs`: let polls and calls of the `Write` arm follow in any order, and set no
    -- status, each call with more fuel than bytes wait and no more bytes waiting than the blocks
    -- lack. Where that is so once more, and the intake has gained as many bytes as the blocks, or
    -- more, the next call of the arm leaves the flash memory of the start with exactly the bytes
    -- that came at the address of the blocks, passes the command with the rest of the length of
    -- its transfer as residue, and sets the offset to 0.
    pub write_programs_all :
        Inv stack f.1.transport
        → FromHost stack f.1.transport
        → f.1.transport.cs ≡ none
        → contents f.1.transport.buf ≡ []
        → f.0.state.storage_offset ≡ 0
        → 1 ≤ len
        → (g : Device World Endpoint (Disk F)) → Writes f g
        → g.1.transport.cs ≡ none
        → InCommand g
        → length (intake f.1.transport.bus) + size ≤ length (intake g.1.transport.bus)
        → WrittenWhole (write_blocks stack device fuel lba len g).1
    write_programs_all v h c empty start some_blocks g run amid allowed all =
        let g' = (write_blocks stack device fuel lba len g).1 in
        let passes =
          command_completes stack (write_blocks stack device fuel lba len) InCommand IsDisk disk_at
            (block_size * lba) size law intake hands f (write_blocks-IsArm flash) good v h c empty
            start (omega (arith, some_blocks)) g run amid allowed all in
        elim (write_programs v h c empty start some_blocks g' (called run amid allowed)) [
          | inl part ↦ ground (arith, passes, part.going.takes.no_status)
          | inr whole ↦ whole
        ]
