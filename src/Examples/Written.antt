-- ===== src/Examples/Written.antt =====
-- The firmware of examples: a whole `Write` command, of polls and calls of the callback in any order, for any
-- `Write` arm that takes some of the bytes that wait to the disk.
pub mod Runs
use usbd_storage.Prelude.{
  ℕ, ◌+◌, ◌-◌, ◌≤◌, ◌<◌, ◌≡◌, refl, sym, ap, ◌∙◌, subst, ◌⊎◌, inl, inr, none, some, List, [], ◌++◌,
  length, take, drop, arith, append_assoc, append-nil, length-append, length-take, take-append-drop,
}
use usbd_storage.Prelude.Outcome.{done, splice}
use usbd_storage.Buffer.{Buffer}
use usbd_storage.Buffer.Contents.{contents}
use usbd_storage.Transport.{UsbStack, IsLawful, passed}
use usbd_storage.Transport.Bbb.Types.{BulkOnly}
use usbd_storage.Transport.Bbb.Api
use usbd_storage.Transport.Bbb.Handlers.{poll}
use usbd_storage.Transport.Bbb.Invariant.{Inv}
use usbd_storage.Transport.Bbb.ApiSafety.{with_buf, set_status-sets}
use usbd_storage.Transport.Bbb.Intake.{IsIntake, FromHost, FromHost-AwaitsStatus, Takes, poll-Takes}
use usbd_storage.Examples.Firmware.{Program}
use usbd_storage.Examples.Answering.{Device, with_transport}
use usbd_storage.Examples.Slices.{splice-splice, untouched}

abbrev pub done_with :
    {World Endpoint Memory : Type 0}
    → Device World Endpoint Memory
    → ℕ
    → Memory
    → BulkOnly World Endpoint
    → Device World Endpoint Memory
done_with f offset memory t = (
  record { state = record f.0.state { storage_offset = offset }; memory = memory },
  record f.1 { transport = t },
)

module _ {World Endpoint UsbError Memory : Type 0} (stack : UsbStack World Endpoint UsbError) where
  -- `arm` writes `size` bytes; it may be called where `Allowed` holds.
  module _ (arm : Program stack Memory (Unit {0}))
      (Allowed : Device World Endpoint Memory → Type 0) where
    -- What happens until a status is set, in any order.
    pub data Writes : Device World Endpoint Memory → Device World Endpoint Memory → Type 0 where
      here : (f : Device World Endpoint Memory) → Writes f f
      polled :
          {f g : Device World Endpoint Memory}
          → Writes f g
          → g.1.transport.cs ≡ none
          → Writes f (with_transport g (poll stack g.1.transport).1)
      called :
          {f g : Device World Endpoint Memory}
          → Writes f g
          → g.1.transport.cs ≡ none
          → Allowed g
          → Writes f (arm g).1

    -- `disk` is what a memory holds when a given number of bytes has been written.
    module _ (Good : Memory → Type 0) (disk : Memory → ℕ → List ℕ) (start size : ℕ) where
      -- A call that has taken the oldest `count` of the bytes that wait: all, or as many as are left.
      pub record Took (f : Device World Endpoint Memory) : Type 0 where
        pub buf : Buffer
        pub memory : Memory
        pub count : ℕ
        pub enough : count ≤ length (contents f.1.transport.buf)
        pub greedy :
            (count ≡ length (contents f.1.transport.buf))
            ⊎ (f.0.state.storage_offset + count ≡ size)
        pub good : Good memory
        pub holds : contents buf ≡ drop count (contents f.1.transport.buf)
        pub inv : Inv stack (with_buf stack f.1.transport buf)
        pub stored :
            disk memory (f.0.state.storage_offset + count)
            ≡ splice
                (disk f.0.memory f.0.state.storage_offset)
                (start + f.0.state.storage_offset)
                (take count (contents f.1.transport.buf))
        pub ends :
            ((f.0.state.storage_offset + count < size)
              × (arm f ≡ (
                done tt,
                done_with f
                    (f.0.state.storage_offset + count)
                    memory
                    (with_buf stack f.1.transport buf),
              )))
            ⊎ ((f.0.state.storage_offset + count ≡ size)
                × (arm f ≡ (
                  done tt,
                  done_with f 0 memory
                      (Api.set_status stack passed size (with_buf stack f.1.transport buf)).1,
                )))

      pub record IsArm : Type 0 where
        pub within : (m : Memory) (k : ℕ) → Good m → k ≤ size → start + size ≤ length (disk m k)
        pub takes :
            (f : Device World Endpoint Memory)
            → Good f.0.memory
            → Allowed f
            → f.0.state.storage_offset < size
            → Inv stack f.1.transport
            → FromHost stack f.1.transport
            → Took f

      module _ (law : IsLawful stack) (intake : World → List ℕ) (hands : IsIntake stack intake)
          (f : Device World Endpoint Memory) where
        -- The end of the command: it has passed, and the offset is 0 for the next.
        pub record Over (g : Device World Endpoint Memory) (bytes : List ℕ) : Type 0 where
          pub status :
              g.1.transport.cs
              ≡ some (record {
                status = passed;
                data_residue = f.1.transport.cbw.data_transfer_len - size;
              })
          pub inv : Inv stack g.1.transport
          pub came :
              intake g.1.transport.bus
              ≡ intake f.1.transport.bus ++ (bytes ++ contents g.1.transport.buf)
          pub whole : length bytes ≡ size
          pub offset : g.0.state.storage_offset ≡ 0

        pub record Going (g : Device World Endpoint Memory) (bytes : List ℕ) : Type 0 where
          pub takes :
              Takes stack law intake hands
                (intake f.1.transport.bus)
                f.1.transport.cbw
                g.1.transport
                bytes
          pub offset : g.0.state.storage_offset ≡ length bytes
          pub part : length bytes < size

        -- The disk has `bytes` from `start` on, and nothing else in it has changed.
        pub record Stores (g : Device World Endpoint Memory) : Type 0 where
          pub bytes : List ℕ
          pub good : Good g.0.memory
          pub stored : disk g.0.memory (length bytes) ≡ splice (disk f.0.memory 0) start bytes
          pub phase : Going g bytes ⊎ Over g bytes
