-- ===== src/Transport/Bbb/Reassembly.antt =====
-- usbd-storage/src/transport/bbb.rs: a CBW that comes in any number of packets.
use usbd_storage.Prelude.{
  ℕ, ◌≤◌, ◌<◌, ◌≡◌, refl, sym, ap, ◌∙◌, subst, inl, inr, List, [], ◌++◌, length, take, arith,
  append_assoc, append-nil,
}
use usbd_storage.Prelude.Outcome.{ok, err, done, fail}
use usbd_storage.Buffer.Contents.{contents}
use usbd_storage.Transport.{UsbStack, IsLawful, TransportError}
use usbd_storage.Transport.Bbb.Types.{
  BulkOnly, BulkOnlyError, CommandBlockWrapper, DataDirection, out, into, not_expected, invalid_cbw,
  command_transfer, command_transfer_invalid, State,
}
use usbd_storage.Transport.Bbb.Handlers.{
  poll, poll_within, poll_state, handle_cbw_invalid, handle_read_cbw, handle_status_transfer,
}
use usbd_storage.Transport.Bbb.PacketCases.{CameIn, WhyNot}
use usbd_storage.Transport.Bbb.ParseCases.{parse_raw}
use usbd_storage.Transport.Bbb.CbwCases.{no_packet, too_few, invalid, accepted, read_cbw-cases}
use usbd_storage.Transport.Bbb.Invariant.{Inv, InState}
use usbd_storage.Transport.Bbb.HostSafety.{moved-Base}
use usbd_storage.Transport.Bbb.PollSafety.{poll-Safe}
use usbd_storage.Transport.Bbb.Reach.{Safe-Inv}
use usbd_storage.Transport.Bbb.Intake.{IsIntake}
use usbd_storage.Transport.Bbb.Begun.{BeginsIn, Begun, start-Begun}

begins_outside : (d : DataDirection) (x : State) → BeginsIn d x → x ≡ command_transfer → ⊥
begins_outside out x (inl e) h = ground (arith, e, h)
begins_outside out x (inr e) h = ground (arith, e, h)
begins_outside into x (inl e) h = ground (arith, e, h)
begins_outside into x (inr e) h = ground (arith, e, h)
begins_outside not_expected x e h = ground (arith, e, h)

module _ {World Endpoint UsbError : Type 0} (stack : UsbStack World Endpoint UsbError) where
  -- Polls that leave the transport waiting for a CBW.
  pub data Waits : BulkOnly World Endpoint → BulkOnly World Endpoint → Type 0 where
    here : (t : BulkOnly World Endpoint) → Waits t t
    polled :
        {t u : BulkOnly World Endpoint}
        → Waits t u
        → (poll stack u).1.state ≡ command_transfer
        → Waits t (poll stack u).1

  pub poll_reads :
      (t : BulkOnly World Endpoint)
      → t.state ≡ command_transfer
      → poll stack t ≡ handle_read_cbw stack (handle_status_transfer stack 1) t
  unfolding poll poll_within poll_state
  poll_reads t h = ap (λ x. poll_state stack 1 x t) h

  module _ (law : IsLawful stack) (intake : World → List ℕ) (hands : IsIntake stack intake)
      (base : List ℕ) where
    -- Fewer bytes than a CBW have come, and wait.
    pub record Collects (t : BulkOnly World Endpoint) : Type 0 where
      pub inv : Inv stack t
      pub waits : t.state ≡ command_transfer
      pub so_far : intake t.bus ≡ base ++ contents t.buf
      pub few : length (contents t.buf) < 31

    -- What a poll makes of what has come, and of the packet that comes with it.
    pub data Reassembles (t : BulkOnly World Endpoint) : Type 0 where
      still : Collects (poll stack t).1 → Reassembles t
      refused :
          (bytes : List ℕ) (w : World)
          → intake w ≡ base ++ (contents t.buf ++ bytes)
          → 31 ≤ length (contents t.buf ++ bytes)
          → parse_raw (take 31 (contents t.buf ++ bytes)) ≡ fail invalid_cbw
          → (poll stack t).1.state ≡ command_transfer_invalid
          → Reassembles t
      begun :
          (bytes : List ℕ) (w : World) (cbw : CommandBlockWrapper)
          → intake w ≡ base ++ (contents t.buf ++ bytes)
          → 31 ≤ length (contents t.buf ++ bytes)
          → parse_raw (take 31 (contents t.buf ++ bytes)) ≡ done cbw
          → Begun cbw.direction cbw (poll stack t).1
          → Reassembles t

    failed_read :
        (t : BulkOnly World Endpoint) (x : TransportError UsbError BulkOnlyError) (w : World)
        → WhyNot stack t x w
        → intake w ≡ intake t.bus
    failed_read t x w (inl (is, short, same)) = ap intake same
    failed_read t x w (inr (e, given, ys, size, is, read)) =
        hands.read_hands t.out_ep given ys t.bus w (err e) read ∙ append-nil (intake t.bus)

    came_in :
        (t : BulkOnly World Endpoint) (n : ℕ) (bytes : List ℕ) (w : World)
        → CameIn stack t n bytes w
        → intake t.bus ≡ base ++ contents t.buf
        → intake w ≡ base ++ (contents t.buf ++ bytes)
    came_in t n bytes w (given, ys, size, read, is) so_far =
        hands.read_hands t.out_ep given ys t.bus w (ok n) read
        ∙ ap (λ l. intake t.bus ++ l) (sym is)
        ∙ ap (λ l. l ++ bytes) so_far
        ∙ append_assoc base (contents t.buf) bytes

    stays_invalid :
        (t : BulkOnly World Endpoint)
        → t.state ≡ command_transfer_invalid
        → (handle_cbw_invalid stack t).1.state ≡ command_transfer_invalid
    unfolding handle_cbw_invalid
    stays_invalid t h = ground (arith, h)

    poll-Reassembles : (t : BulkOnly World Endpoint) → Collects t → Reassembles t
    poll-Reassembles t s =
        let k = handle_status_transfer stack 1 in
        let (c, none_left) = subst (λ x. InState x t) s.waits s.inv.in_state in
        let safe : Inv stack (poll stack t).1 =
          Safe-Inv stack law (poll stack t) (poll-Safe stack law t s.inv) in
        let reads = poll_reads t s.waits in
        elim (read_cbw-cases stack law t s.inv.base.buffer s.waits) [
          | no_packet x b w run why vb room kept ↦
              (let now = ap (λ r. r.1) (reads ∙ run k) in
                still (
                  subst Collects (sym now) (record {
                    inv = subst (Inv stack) now safe;
                    waits = s.waits;
                    so_far = failed_read t x w why ∙ s.so_far ∙ ap (λ l. base ++ l) (sym kept);
                    few = omega (arith, ap length kept, s.few);
                  })))
          | too_few n bytes b w run why vb room holds few ↦
              (let now = ap (λ r. r.1) (reads ∙ run k) in
                still (
                  subst Collects (sym now) (record {
                    inv = subst (Inv stack) now safe;
                    waits = s.waits;
                    so_far = came_in t n bytes w why s.so_far ∙ ap (λ l. base ++ l) (sym holds);
                    few = few;
                  })))
          | invalid n bytes b w run why vb room enough parse ↦
              refused bytes w (came_in t n bytes w why s.so_far) enough parse (
                ap (λ r. r.1.state) (reads ∙ run k)
                ∙ stays_invalid (record t { buf = b; bus = w; state = command_transfer_invalid })
                    refl)
          | accepted n bytes b w cbw run why vb room fits enough parse ↦
              begun bytes w cbw (came_in t n bytes w why s.so_far) enough parse (
                subst (Begun cbw.direction cbw) (sym (ap (λ r. r.1) (reads ∙ run k))) (
                  start-Begun stack k law cbw (record t { buf = b; bus = w })
                    (moved-Base stack law t b w t.left_to_transfer s.inv.base vb room) s.waits c
                    fits))
        ]

    wait-Collects : (t u : BulkOnly World Endpoint) → Collects t → Waits t u → Collects u
    wait-Collects t u s (here x) = s
    wait-Collects t u s (polled {u = v} before on) =
        elim (poll-Reassembles v (wait-Collects t v s before)) [
          | still c ↦ c
          | refused bytes w came enough parse state ↦ ground (arith, on, state)
          | begun bytes w cbw came enough parse b ↦
              absurd (begins_outside cbw.direction (poll stack v).1.state b.begins on)
        ]

  -- On a lawful stack with an intake: from a transport that waits for a CBW, in the invariant and
  -- with no byte in the buffer, and after any polls that leave it waiting, the bytes that the
  -- intake has gained are those in the buffer, and fewer than 31. The next poll leaves it waiting
  -- in the same way; or, with its packet, there are 31 bytes or more, and the first 31 are no CBW,
  -- and the state is that of an invalid one; or they are a CBW, which is that of the transport
  -- then, no status is set, and the state is one in which a command of its direction begins.
  pub wait-Reassembles :
      (law : IsLawful stack) (intake : World → List ℕ) (hands : IsIntake stack intake)
      (t : BulkOnly World Endpoint)
      → Inv stack t
      → t.state ≡ command_transfer
      → contents t.buf ≡ []
      → (u : BulkOnly World Endpoint) → Waits t u
      → Collects law intake hands (intake t.bus) u × Reassembles law intake hands (intake t.bus) u
  wait-Reassembles law intake hands t v h empty u waited =
      let c =
        wait-Collects law intake hands (intake t.bus) t u
          (record {
            inv = v;
            waits = h;
            so_far = sym (append-nil (intake t.bus)) ∙ ap (λ l. intake t.bus ++ l) (sym empty);
            few = omega (arith, ap length empty);
          })
          waited in
      (c, poll-Reassembles law intake hands (intake t.bus) u c)
