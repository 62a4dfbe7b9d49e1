-- ===== src/Examples/Served.antt =====
-- The firmware of examples: a whole `Read` command, of polls and calls of the callback in any order.
use usbd_storage.Prelude.{
  ℕ, ◌+◌, ◌-◌, ◌*◌, ◌≤◌, ◌≡◌, ◌≢◌, refl, sym, ap, ◌∙◌, subst, inl, inr, none, some, List, [], ◌++◌,
  length, take, drop, arith, length-take, length-drop,
}
use usbd_storage.Prelude.Outcome.{done}
use usbd_storage.Buffer.Contents.{contents}
use usbd_storage.Transport.{UsbStack, IsLawful, passed}
use usbd_storage.Transport.Bbb.Types.{CommandBlockWrapper, StatusAndResidue, data_transfer_to_host}
use usbd_storage.Transport.Bbb.Wrapper.{csw_bytes}
use usbd_storage.Transport.Bbb.Handlers.{poll}
use usbd_storage.Transport.Bbb.Invariant.{Inv}
use usbd_storage.Transport.Bbb.ApiSafety.{AwaitsStatus, set_status-sets}
use usbd_storage.Transport.Bbb.Flow.{owed}
use usbd_storage.Transport.Bbb.Flow.Delivery.{IsLog, HasPackets, poll_times, polls_conserve}
use usbd_storage.Subclass.Command.{pass}
use usbd_storage.Examples.Firmware.{mul, complete}
use usbd_storage.Examples.Scsi.{read}
use usbd_storage.Examples.Answering.{Device, with_transport}
use usbd_storage.Examples.Reading.{Streams, blocks_at, InRange, moved_on, read-FileStreams}
use usbd_storage.Examples.Progress.{Progress, poll-Progress, end_owed}

module _ {World Endpoint UsbError Memory : Type 0} (stack : UsbStack World Endpoint UsbError)
    (block_size : ℕ) (filesystem : Memory → List ℕ) (lba len : ℕ) where
  -- What happens between the first call of the callback and the last, in any order.
  pub data Serves : Device World Endpoint Memory → Device World Endpoint Memory → Type 0 where
    here : (f : Device World Endpoint Memory) → Serves f f
    polled :
        {f g : Device World Endpoint Memory}
        → Serves f g
        → Serves f (with_transport g (poll stack g.1.transport).1)
    called :
        {f g : Device World Endpoint Memory}
        → Serves f g
        → g.0.state.storage_offset ≢ len * block_size
        → Serves f (read stack block_size filesystem lba len g).1

  module _ (law : IsLawful stack) (sizes : HasPackets stack) (log : World → List ℕ)
      (logs : IsLog stack log) where
    module _ (f : Device World Endpoint Memory)
        (range : InRange block_size (filesystem f.0.memory) lba len) where
      -- What holds all the while.
      pub record Reads (g : Device World Endpoint Memory) : Type 0 where
        pub same_memory : g.0.memory ≡ f.0.memory
        pub within : g.0.state.storage_offset ≤ len * block_size
        pub progress :
            Progress stack law sizes log logs
              (log f.1.transport.bus)
              (blocks_at block_size (filesystem f.0.memory) lba len)
              f.1.transport.cbw
              g.1.transport
              g.0.state.storage_offset

      length-blocks :
          length (blocks_at block_size (filesystem f.0.memory) lba len) ≡ len * block_size
      length-blocks = omega (
        arith,
        range.within,
        length-take (len * block_size) (drop (block_size * lba) (filesystem f.0.memory)),
        length-drop (block_size * lba) (filesystem f.0.memory),
      )

      call-Reads :
          (g : Device World Endpoint Memory)
          → Reads g
          → g.0.state.storage_offset ≢ len * block_size
          → Reads (read stack block_size filesystem lba len g).1
      call-Reads g r more =
          let blocks = λ (m : Memory). blocks_at block_size (filesystem m) lba len in
          elim r.progress [
            | inl s ↦
                (let (b, count, bound, run, s') =
                    read-FileStreams stack law sizes log logs (log f.1.transport.bus)
                      f.1.transport.cbw block_size filesystem lba len g
                      (subst (λ m. InRange block_size (filesystem m) lba len) (sym r.same_memory)
                        range)
                      (omega (arith, r.within, more))
                      (subst
                        (λ m.
                          Streams stack law sizes log logs (log f.1.transport.bus) (blocks m)
                            f.1.transport.cbw g.1.transport g.0.state.storage_offset)
                        (sym r.same_memory) s) in
                  subst Reads (sym (ap (λ x. x.1) run)) (record {
                    same_memory = r.same_memory;
                    within = bound;
                    progress = inl (
                        subst
                          (λ m.
                            Streams stack law sizes log logs (log f.1.transport.bus) (blocks m)
                              f.1.transport.cbw
                              (moved_on stack law sizes log logs (log f.1.transport.bus)
                                f.1.transport.cbw block_size filesystem lba len g b
                                count).1.transport
                              (g.0.state.storage_offset + count))
                          r.same_memory s');
                  }))
            | inr s ↦ absurd (more (s.at_end ∙ length-blocks))
          ]

      Serves-Reads : (g : Device World Endpoint Memory) → Reads f → Serves f g → Reads g
      Serves-Reads g start (here _) = start
      Serves-Reads _ start (polled {g = g} s) =
          let r = Serves-Reads g start s in
          record {
            same_memory = r.same_memory;
            within = r.within;
            progress =
                poll-Progress stack law sizes log logs (log f.1.transport.bus)
                  (blocks_at block_size (filesystem f.0.memory) lba len) f.1.transport.cbw
                  g.1.transport g.0.state.storage_offset (omega (arith, r.within, length-blocks))
                  r.progress;
          }
      Serves-Reads _ start (called {g = g} s more) = call-Reads g (Serves-Reads g start s) more

      awaits_status :
          (g : Device World Endpoint Memory) → Reads g → AwaitsStatus stack g.1.transport
      awaits_status g r = elim r.progress [
        | inl s ↦ inl s.to_host
        | inr s ↦ inr (inr (inr (inl s.awaits)))
      ]

      Reads-Inv : (g : Device World Endpoint Memory) → Reads g → Inv stack g.1.transport
      Reads-Inv g r = elim r.progress [ inl s ↦ s.inv | inr s ↦ s.inv ]

      same_cbw :
          (g : Device World Endpoint Memory) → Reads g → g.1.transport.cbw ≡ f.1.transport.cbw
      same_cbw g r = elim r.progress [ inl s ↦ s.same_cbw | inr s ↦ s.same_cbw ]

      -- The last call: the status of the command, which the transport takes.
      last_call :
          (g : Device World Endpoint Memory)
          → Reads g
          → g.0.state.storage_offset ≡ len * block_size
          → let s : StatusAndResidue = record {
            status = passed;
            data_residue = f.1.transport.cbw.data_transfer_len - len * block_size;
          } in
            read stack block_size filesystem lba len g ≡ (
              done tt,
              (
                record g.0 { state = record g.0.state { storage_offset = 0 } },
                record g.1 { transport = record g.1.transport { cs = some s } },
              ),
            )
      unfolding read mul complete pass
      last_call g r end =
          let (run, inv) =
            set_status-sets stack g.1.transport (Reads-Inv g r) passed (len * block_size)
              (awaits_status g r) in
          ground (arith, range.within, range.small, end, run, same_cbw g r)

      -- On a lawful stack with a log, whose endpoints have packets of a byte at least: let a
      -- device begin a transfer to the host, in the invariant, with no status, no byte waiting, an
      -- offset of 0, and a transfer that is as long as the blocks that the command asks for, which
      -- lie in a file system of fewer than 2 ^ 32 bytes. Let polls, and calls of the `Read` arm
      -- while the offset is not that length, follow in any order, until it is. Then one more call
      -- sets the offset to 0, and after any number of polls, what the log has gained and what is
      -- still owed are together exactly those blocks and the CSW of a command that has passed.
      pub read_transfers :
          (g : Device World Endpoint Memory) (n : ℕ)
          → Inv stack f.1.transport
          → f.1.transport.state ≡ data_transfer_to_host
          → f.1.transport.cs ≡ none
          → contents f.1.transport.buf ≡ []
          → f.1.transport.left_to_transfer ≡ len * block_size
          → f.0.state.storage_offset ≡ 0
          → Serves f g
          → g.0.state.storage_offset ≡ len * block_size
          → let h = (read stack block_size filesystem lba len g).1 in
            let t = poll_times stack n h.1.transport in
            (h.0.state.storage_offset ≡ 0)
            × (log t.bus ++ owed t
                ≡ log f.1.transport.bus
                  ++ (blocks_at block_size (filesystem f.0.memory) lba len
                      ++ csw_bytes f.1.transport.cbw.tag (record {
                        status = passed;
                        data_residue = f.1.transport.cbw.data_transfer_len - len * block_size;
                      })))
      read_transfers g n v h c empty left start served end =
          let base = log f.1.transport.bus in
          let blocks = blocks_at block_size (filesystem f.0.memory) lba len in
          let s : StatusAndResidue = record {
            status = passed;
            data_residue = f.1.transport.cbw.data_transfer_len - len * block_size;
          } in
          let t = g.1.transport in
          let first : Reads f = record {
            same_memory = refl;
            within = omega (arith, start);
            progress = inl (record {
              inv = v;
              to_host = h;
              no_status = c;
              same_cbw = refl;
              so_far =
                  ap (λ l. base ++ l) empty
                  ∙ ap (λ k. base ++ take k blocks) {x = 0} {y = f.0.state.storage_offset}
                      (omega (arith, start));
              left = omega (arith, left, length-blocks);
            });
          } in
          let r = Serves-Reads g first served in
          let run = last_call g r end in
          let inv =
            (set_status-sets stack t (Reads-Inv g r) passed (len * block_size)
              (awaits_status g r)).1 in
          let ended =
            subst (λ o. Progress stack law sizes log logs base blocks f.1.transport.cbw t o)
              (end ∙ sym length-blocks) r.progress in
          (
            ap (λ x. x.1.0.state.storage_offset) run,
            ap
                  (λ x.
                    log (poll_times stack n x.1.1.transport).bus
                    ++ owed (poll_times stack n x.1.1.transport))
                  run
                ∙ polls_conserve stack law sizes log logs n (record t { cs = some s })
                    (subst
                      (λ (c : CommandBlockWrapper). Inv stack (record t {
                        cs = some (record {
                          status = passed;
                          data_residue = c.data_transfer_len - len * block_size;
                        });
                      }))
                      (same_cbw g r) inv)
                ∙ end_owed stack law sizes log logs base blocks f.1.transport.cbw t s ended,
          )
