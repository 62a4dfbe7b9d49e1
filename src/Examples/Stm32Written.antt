-- ===== src/Examples/Stm32Written.antt =====
-- examples/stm32/src/bin/stm32f411x_scsi_bbb.rs: a whole `Write` command, of polls and calls of the callback
-- in any order.
use usbd_storage.Prelude.{
  ℕ, min, leb, leb→le, Bool-cases, ◌⊎◌, inl, inr, some, ◌-◌, ◌+◌, ◌*◌, ◌≤◌, ◌<◌, ◌≡◌, refl, none,
  List, [], length, take, arith, length-take,
}
use usbd_storage.Buffer.Contents.{contents, length-splice}
use usbd_storage.Transport.{UsbStack, IsLawful, passed}
use usbd_storage.Transport.Bbb.Invariant.{Inv}
use usbd_storage.Transport.Bbb.Intake.{IsIntake, FromHost}
use usbd_storage.Examples.Stm32Scsi.{block_size, write_blocks}
use usbd_storage.Examples.Answering.{Device}
use usbd_storage.Examples.Reading.{InRange}
use usbd_storage.Examples.Stm32Writing.{stored, memory_after, write_blocks_stores}
use usbd_storage.Examples.Written
use usbd_storage.Examples.Written.{IsArm, Going}
use usbd_storage.Examples.Written.Runs.{command-Stores, command_completes}

-- The lesser of what is left and what waits.
all_or_rest :
    (size offset waiting : ℕ)
    → offset < size
    → (min (size - offset) waiting ≡ waiting) ⊎ (offset + min (size - offset) waiting ≡ size)
all_or_rest size offset waiting h = elim (Bool-cases (leb waiting (size - offset))) [
  | inl enough ↦ inl (omega (arith, leb→le waiting (size - offset) enough))
  | inr short ↦ inr (ground (arith, short, h))
]

module _ {World Endpoint UsbError : Type 0} (stack : UsbStack World Endpoint UsbError)
    (lba len : ℕ) where
  abbrev pub Anywhere : Device World Endpoint (List ℕ) → Type 0
  Anywhere g = Unit

  abbrev pub InMemory : List ℕ → Type 0
  InMemory m = InRange block_size m lba len

  -- The memory is the disk.
  abbrev pub disk : List ℕ → ℕ → List ℕ
  disk m k = m

  abbrev pub Writes : Device World Endpoint (List ℕ) → Device World Endpoint (List ℕ) → Type 0
  Writes = Written.Writes stack (write_blocks stack lba len) Anywhere

  stored-InMemory :
      (f : Device World Endpoint (List ℕ))
      → InMemory f.0.memory
      → f.0.state.storage_offset < len * block_size
      → InMemory (memory_after stack lba len f)
  stored-InMemory f range part =
      let n = stored stack lba len f in
      let same : length (memory_after stack lba len f) ≡ length f.0.memory =
        length-splice f.0.memory (block_size * lba + f.0.state.storage_offset)
          (take n (contents f.1.transport.buf))
          (omega (arith, range.within, part, length-take n (contents f.1.transport.buf))) in
      record {
        within = omega (arith, same, range.within);
        small = omega (arith, same, range.small);
      }

  write_blocks-IsArm :
      IsArm stack
        (write_blocks stack lba len)
        Anywhere
        InMemory
        disk
        (block_size * lba)
        (len * block_size)
  write_blocks-IsArm = record {
    within = λ m k range small. range.within;
    takes = λ f range allowed part v h.
        let (b, holds, inv, ends) = write_blocks_stores stack lba len f range part v h in
        record {
          buf = b;
          memory = memory_after stack lba len f;
          count = stored stack lba len f;
          enough = omega arith;
          greedy =
              all_or_rest (len * block_size) f.0.state.storage_offset
                (length (contents f.1.transport.buf)) part;
          good = stored-InMemory f range part;
          holds = holds;
          inv = inv;
          stored = refl;
          ends = ends;
        };
  }

  module _ (law : IsLawful stack) (intake : World → List ℕ) (hands : IsIntake stack intake)
      (f : Device World Endpoint (List ℕ)) (range : InMemory f.0.memory) where
    abbrev pub Stores : Device World Endpoint (List ℕ) → Type 0
    Stores =
        Written.Stores stack (write_blocks stack lba len) Anywhere InMemory disk (block_size * lba)
          (len * block_size) law intake hands f

    -- On a lawful stack with an intake: let a device begin a transfer from the host, in the
    -- invariant, with no status, no byte waiting, an offset of 0, and one block at least, and let
    -- the blocks that the command names lie in a memory of fewer than 2 ^ 32 bytes. Let polls and
    -- calls of the `Write` arm follow in any order, until a status is set. Whenever one stops, the
    -- memory is that of the start with some bytes at the address of the blocks, and the intake has
    -- gained exactly those bytes and then the ones that wait. Either they are fewer than the
    -- blocks, the offset is their number, no status is set and the invariant holds; or they are as
    -- many as the blocks, the offset is 0, the command has passed with the rest of the length of
    -- its transfer as residue, and the invariant holds.
    pub write_transfers :
        Inv stack f.1.transport
        → FromHost stack f.1.transport
        → f.1.transport.cs ≡ none
        → contents f.1.transport.buf ≡ []
        → f.0.state.storage_offset ≡ 0
        → 1 ≤ len
        → (g : Device World Endpoint (List ℕ)) → Writes f g
        → Stores g
    write_transfers v h c empty start some_blocks =
        command-Stores stack (write_blocks stack lba len) Anywhere InMemory disk (block_size * lba)
          (len * block_size) law intake hands f write_blocks-IsArm range v h c empty start
          (omega (arith, some_blocks))

    -- On a lawful stack with an intake: let a device begin a transfer from the host, in the
    -- invariant, with no status, no byte waiting, an offset of 0, and one block at least, and let
    -- the blocks that the command names lie in a memory of fewer than 2 ^ 32 bytes. Let polls and
    -- calls of the `Write` arm follow in any order, and set no status; and let the intake have
    -- gained as many bytes as the blocks, or more. Then the next call of the arm passes the
    -- command, with the rest of the length of its transfer as residue.
    pub write_completes :
        Inv stack f.1.transport
        → FromHost stack f.1.transport
        → f.1.transport.cs ≡ none
        → contents f.1.transport.buf ≡ []
        → f.0.state.storage_offset ≡ 0
        → 1 ≤ len
        → (g : Device World Endpoint (List ℕ)) → Writes f g
        → g.1.transport.cs ≡ none
        → length (intake f.1.transport.bus) + len * block_size ≤ length (intake g.1.transport.bus)
        → (write_blocks stack lba len g).1.1.transport.cs
          ≡ some (record {
            status = passed;
            data_residue = f.1.transport.cbw.data_transfer_len - len * block_size;
          })
    write_completes v h c empty start some_blocks g run amid =
        command_completes stack (write_blocks stack lba len) Anywhere InMemory disk
          (block_size * lba) (len * block_size) law intake hands f write_blocks-IsArm range v h c
          empty start (omega (arith, some_blocks)) g run amid tt
