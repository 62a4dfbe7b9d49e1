-- ===== src/Examples/Written/Runs.antt =====
-- The firmware of examples: the polls and the calls of a `Write` arm, one after the other.
use usbd_storage.Prelude.{
  ℕ, ◌+◌, ◌-◌, ◌≤◌, ◌≡◌, refl, sym, ap, ◌∙◌, subst, inl, inr, none, some, List, [], ◌++◌, length,
  take, arith, append-nil, length-append, length-take,
}
use usbd_storage.Prelude.Outcome.{splice}
use usbd_storage.Buffer.Contents.{contents}
use usbd_storage.Transport.{UsbStack, IsLawful, passed}
use usbd_storage.Transport.Bbb.Types.{BulkOnly}
use usbd_storage.Transport.Bbb.Api
use usbd_storage.Transport.Bbb.Handlers.{poll}
use usbd_storage.Transport.Bbb.Invariant.{Inv}
use usbd_storage.Transport.Bbb.ApiSafety.{with_buf, set_status-sets}
use usbd_storage.Transport.Bbb.Intake.{
  IsIntake, FromHost, FromHost-AwaitsStatus, Takes, poll-Takes, consumed-Takes,
}
use usbd_storage.Examples.Firmware.{Program}
use usbd_storage.Examples.Answering.{Device, with_transport}
use usbd_storage.Examples.Slices.{splice-splice, untouched}
use usbd_storage.Examples.Written
use usbd_storage.Examples.Written.{Over, Going, IsArm, Took, done_with, here, polled, called}

module _ {World Endpoint UsbError Memory : Type 0} (stack : UsbStack World Endpoint UsbError)
    (arm : Program stack Memory (Unit {0})) (Allowed : Device World Endpoint Memory → Type 0)
    (Good : Memory → Type 0) (disk : Memory → ℕ → List ℕ) (start size : ℕ) (law : IsLawful stack)
    (intake : World → List ℕ) (hands : IsIntake stack intake)
    (f : Device World Endpoint Memory) where
  abbrev IsTaken : BulkOnly World Endpoint → List ℕ → Type 0
  IsTaken = Takes stack law intake hands (intake f.1.transport.bus) f.1.transport.cbw

  abbrev Writes : Device World Endpoint Memory → Device World Endpoint Memory → Type 0
  Writes = Written.Writes stack arm Allowed

  abbrev IsOver : Device World Endpoint Memory → List ℕ → Type 0
  IsOver = Over stack arm Allowed Good disk start size law intake hands f

  abbrev IsGoing : Device World Endpoint Memory → List ℕ → Type 0
  IsGoing = Going stack arm Allowed Good disk start size law intake hands f

  abbrev Stores : Device World Endpoint Memory → Type 0
  Stores = Written.Stores stack arm Allowed Good disk start size law intake hands f

  passed-IsOver :
      (g : Device World Endpoint Memory) (memory : Memory) (u : BulkOnly World Endpoint)
      (bytes : List ℕ)
      → IsTaken u bytes
      → length bytes ≡ size
      → IsOver (done_with g 0 memory (Api.set_status stack passed size u).1) bytes
  passed-IsOver g memory u bytes s whole =
      let (set, after) =
        set_status-sets stack u s.inv passed size
          (FromHost-AwaitsStatus stack u u.buf s.from_host) in
      let now = ap (λ r. r.1) set in
      record {
        status =
            ap (λ u. u.cs) now
            ∙ ap (λ c. some (record { status = passed; data_residue = c.data_transfer_len - size }))
                s.same_cbw;
        inv = subst (Inv stack) (sym now) after;
        came =
            ap (λ u. intake u.bus) now
            ∙ s.so_far
            ∙ ap (λ l. intake f.1.transport.bus ++ (bytes ++ l))
                (sym (ap (λ u. contents u.buf) now));
        whole = whole;
        offset = refl;
      }

  module _ (sound : IsArm stack arm Allowed Good disk start size) (good : Good f.0.memory) where
    -- What a call takes goes behind what the disk has.
    called_on :
        (g : Device World Endpoint Memory) (bytes : List ℕ)
        → disk g.0.memory (length bytes) ≡ splice (disk f.0.memory 0) start bytes
        → IsGoing g bytes
        → (call : Took stack arm Allowed Good disk start size g)
        → let more = take call.count (contents g.1.transport.buf) in
          (length (bytes ++ more) ≡ g.0.state.storage_offset + call.count)
          × (disk call.memory (length (bytes ++ more))
              ≡ splice (disk f.0.memory 0) start (bytes ++ more))
    called_on g bytes stored s call =
        let c = contents g.1.transport.buf in
        let more = take call.count c in
        let all : length (bytes ++ more) ≡ g.0.state.storage_offset + call.count =
          omega
            (arith, s.offset, length-append bytes more, length-take call.count c, call.enough) in
        let room : start + length bytes ≤ length (disk f.0.memory 0) =
          omega (arith, sound.within f.0.memory 0 good (omega arith), s.part) in
        (
          all,
          ap (disk call.memory) all
              ∙ call.stored
              ∙ ap (λ k. splice (disk g.0.memory k) (start + k) more) s.offset
              ∙ ap (λ m. splice m (start + length bytes) more) stored
              ∙ splice-splice (disk f.0.memory 0) bytes more start room,
        )

    call-Stores :
        (g : Device World Endpoint Memory) (bytes : List ℕ)
        → Good g.0.memory
        → disk g.0.memory (length bytes) ≡ splice (disk f.0.memory 0) start bytes
        → Allowed g
        → IsGoing g bytes
        → Stores (arm g).1
    call-Stores g bytes fine stored allowed s =
        let t = g.1.transport in
        let call =
          sound.takes g fine allowed (omega (arith, s.offset, s.part)) s.takes.inv
            s.takes.from_host in
        let bytes' = bytes ++ take call.count (contents t.buf) in
        let (all, stored') = called_on g bytes stored s call in
        let taken : IsTaken (with_buf stack t call.buf) bytes' =
          consumed-Takes stack law intake hands (intake f.1.transport.bus) f.1.transport.cbw t
            call.buf bytes call.count s.takes call.holds call.inv in
        elim call.ends [
          | inl (part, run) ↦ subst Stores (sym (ap (λ r. r.1) run)) (record {
            bytes = bytes';
            good = call.good;
            stored = stored';
            phase =
                inl (record { takes = taken; offset = sym all; part = omega (arith, all, part) });
          })
          | inr (whole, run) ↦ subst Stores (sym (ap (λ r. r.1) run)) (record {
            bytes = bytes';
            good = call.good;
            stored = stored';
            phase = inr (
                passed-IsOver g call.memory (with_buf stack t call.buf) bytes' taken (all ∙ whole));
          })
        ]

    poll-Stores :
        (g : Device World Endpoint Memory)
        → Stores g
        → g.1.transport.cs ≡ none
        → Stores (with_transport g (poll stack g.1.transport).1)
    poll-Stores g q amid = elim q.phase [
      | inl going ↦ record {
        bytes = q.bytes;
        good = q.good;
        stored = q.stored;
        phase = inl (record {
          takes =
              poll-Takes stack law intake hands (intake f.1.transport.bus) f.1.transport.cbw
                g.1.transport q.bytes going.takes;
          offset = going.offset;
          part = going.part;
        });
      }
      | inr over ↦ ground (arith, amid, over.status)
    ]

    run-Stores : (g : Device World Endpoint Memory) → Stores f → Writes f g → Stores g
    run-Stores g s (here f) = s
    run-Stores g s (polled {f = f} {g = h} before amid) = poll-Stores h (run-Stores h s before) amid
    run-Stores g s (called {f = f} {g = h} before amid allowed) =
        let q = run-Stores h s before in
        elim q.phase [
          | inl going ↦ call-Stores h q.bytes q.good q.stored allowed going
          | inr over ↦ ground (arith, amid, over.status)
        ]

    pub command-Stores :
        Inv stack f.1.transport
        → FromHost stack f.1.transport
        → f.1.transport.cs ≡ none
        → contents f.1.transport.buf ≡ []
        → f.0.state.storage_offset ≡ 0
        → 1 ≤ size
        → (g : Device World Endpoint Memory) → Writes f g
        → Stores g
    command-Stores v h c empty offset some_bytes g run =
        run-Stores g
          (record {
            bytes = [];
            good = good;
            stored = untouched (disk f.0.memory 0) start;
            phase = inl (record {
              takes = record {
                inv = v;
                from_host = h;
                no_status = c;
                same_cbw = refl;
                so_far =
                    sym (append-nil (intake f.1.transport.bus))
                    ∙ ap (λ l. intake f.1.transport.bus ++ l) (sym empty);
              };
              offset = offset;
              part = omega (arith, some_bytes);
            });
          })
          run

    -- The call that takes the last byte passes the command.
    last_call :
        (g : Device World Endpoint Memory) (bytes : List ℕ)
        → Good g.0.memory
        → Allowed g
        → IsGoing g bytes
        → size ≤ length bytes + length (contents g.1.transport.buf)
        → (arm g).1.1.transport.cs
          ≡ some (record {
            status = passed;
            data_residue = f.1.transport.cbw.data_transfer_len - size;
          })
    last_call g bytes fine allowed s all =
        let t = g.1.transport in
        let call =
          sound.takes g fine allowed (omega (arith, s.offset, s.part)) s.takes.inv
            s.takes.from_host in
        let more = take call.count (contents t.buf) in
        let taken : IsTaken (with_buf stack t call.buf) (bytes ++ more) =
          consumed-Takes stack law intake hands (intake f.1.transport.bus) f.1.transport.cbw t
            call.buf bytes call.count s.takes call.holds call.inv in
        elim call.ends [
          | inl (part, run) ↦ elim call.greedy [
            | inl every ↦ absurd (omega (arith, part, s.offset, all, every))
            | inr whole ↦ absurd (omega (arith, part, whole))
          ]
          | inr (whole, run) ↦
              (let whole' : length (bytes ++ more) ≡ size = omega (
                arith,
                whole,
                s.offset,
                length-append bytes more,
                length-take call.count (contents t.buf),
                call.enough,
              ) in
                ap (λ r. r.1.1.transport.cs) run
                ∙ (passed-IsOver g call.memory (with_buf stack t call.buf) (bytes ++ more) taken
                    whole').status)
        ]

    pub command_completes :
        Inv stack f.1.transport
        → FromHost stack f.1.transport
        → f.1.transport.cs ≡ none
        → contents f.1.transport.buf ≡ []
        → f.0.state.storage_offset ≡ 0
        → 1 ≤ size
        → (g : Device World Endpoint Memory) → Writes f g
        → g.1.transport.cs ≡ none
        → Allowed g
        → length (intake f.1.transport.bus) + size ≤ length (intake g.1.transport.bus)
        → (arm g).1.1.transport.cs
          ≡ some (record {
            status = passed;
            data_residue = f.1.transport.cbw.data_transfer_len - size;
          })
    command_completes v h c empty offset some_bytes g run amid allowed all =
        let s = command-Stores v h c empty offset some_bytes g run in
        elim s.phase [
          | inr over ↦ ground (arith, amid, over.status)
          | inl going ↦ last_call g s.bytes s.good allowed going (
              omega (
                arith,
                all,
                ap length going.takes.so_far,
                length-append (intake f.1.transport.bus) (s.bytes ++ contents g.1.transport.buf),
                length-append s.bytes (contents g.1.transport.buf),
              ))
        ]
