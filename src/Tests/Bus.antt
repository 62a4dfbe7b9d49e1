-- ===== src/Tests/Bus.antt =====
-- A bus for the tests of usbd-storage/src/transport/bbb.rs: packets from the host wait in a queue, and
-- those to the host are taken whole.
use usbd_storage.Prelude.{
  ℕ, zero, suc, ◌+◌, ◌≤◌, ◌≡◌, ◌≢◌, refl, sym, ap, subst, ◌∙◌, take, drop, take_all, List, [], ◌∷◌,
  ◌++◌, length, leb, Option, none, some, replicate, arith, append-nil, take-append_exact,
  if◌then◌else◌, Bool-cases, inl, inr, leb→le, le→leb,
}
use usbd_storage.Prelude.Outcome.{Result, ok, err, splice}
use usbd_storage.Buffer.Contents.{length-splice}
use usbd_storage.Transport.{UsbStack, IsLawful}
use usbd_storage.Transport.Bbb.Types.{
  BulkOnly, CommandBlockWrapper, StatusAndResidue, State, default_cbw,
}
use usbd_storage.Transport.Bbb.Packets.{packet_size}
use usbd_storage.Transport.Bbb.Invariant.{Inv, InState}
use usbd_storage.Transport.Bbb.Intake.{IsIntake}
use usbd_storage.Transport.Bbb.Flow.{taken}
use usbd_storage.Transport.Bbb.Flow.Delivery.{IsLog, HasPackets, IsReady}

pub data BusError : Type 0 where
  would_block buffer_overflow : BusError

pub record Wire : Type 0 where
  pub incoming : List (List ℕ)
  pub outgoing : List ℕ
  pub handed : List ℕ

-- A packet that does not fit stays where it is.
abbrev receive : List (List ℕ) → List ℕ → Wire → Result BusError ℕ × List ℕ × Wire
receive [] bytes w = (err would_block, bytes, w)
receive (p ∷ ps) bytes w =
    if leb (length p) (length bytes)
    then (ok (length p), splice bytes 0 p, record w { incoming = ps; handed = w.handed ++ p })
    else (err buffer_overflow, bytes, w)

abbrev bulk : ℕ → Wire → Option (ℕ × Wire)
bulk zero w = none
bulk (suc n) w = some (n, w)

-- An endpoint is its packet size, less one.
abbrev pub bus : UsbStack Wire ℕ BusError
bus = record {
  max_packet_size = λ ep. suc ep;
  write = λ ep bytes w. (ok (length bytes), record w { outgoing = w.outgoing ++ bytes });
  read = λ ep bytes w. receive w.incoming bytes w;
  stall = λ ep w. w;
  unstall = λ ep w. w;
  bulk = bulk;
  accept_with = λ bytes w. (ok tt, record w { outgoing = w.outgoing ++ bytes });
}

receive_bound :
    (ps : List (List ℕ)) (bytes ys : List ℕ) (w w' : Wire) (n : ℕ)
    → receive ps bytes w ≡ (ok n, ys, w')
    → n ≤ length bytes
receive_bound [] bytes ys w w' n h = ground arith
receive_bound (p ∷ ps) bytes ys w w' n h = ground arith

length-receive :
    (ps : List (List ℕ)) (bytes : List ℕ) (w : Wire) → length (receive ps bytes w).1 ≡ length bytes
length-receive [] bytes w = refl
length-receive (p ∷ ps) bytes w = elim (Bool-cases (leb (length p) (length bytes))) [
  | inl h ↦
      ground (arith, h, length-splice bytes 0 p (omega (arith, leb→le (length p) (length bytes) h)))
  | inr h ↦ ground (arith, h)
]

size_of_bulk : (size : ℕ) (w w' : Wire) (ep : ℕ) → bulk size w ≡ some (ep, w') → suc ep ≡ size
size_of_bulk zero w w' ep h = ground arith
size_of_bulk (suc n) w w' ep h = ground arith

pub bus-IsLawful : IsLawful bus
bus-IsLawful = record {
  write_bound = λ ep bytes w w' n h. ground arith;
  read_bound = λ ep bytes ys w w' n h. receive_bound w.incoming bytes ys w w' n h;
  bulk_size = λ size w w' ep h. size_of_bulk size w w' ep h;
  read_keeps_length = λ ep bytes w. length-receive w.incoming bytes w;
}

receive_log :
    (ps : List (List ℕ)) (bytes : List ℕ) (w : Wire) → (receive ps bytes w).2.outgoing ≡ w.outgoing
receive_log [] bytes w = refl
receive_log (p ∷ ps) bytes w = elim (Bool-cases (leb (length p) (length bytes))) [
  | inl h ↦ ground (arith, h)
  | inr h ↦ ground (arith, h)
]

abbrev pub outgoing : Wire → List ℕ
outgoing w = w.outgoing

pub bus-IsLog : IsLog bus outgoing
bus-IsLog = record {
  write_logs = λ ep bytes w w' r h.
      sym (ap (λ p. p.1.outgoing) h)
      ∙ ap (λ l. w.outgoing ++ l) (sym (take_all (length bytes) bytes (omega arith)))
      ∙ ap (λ p. w.outgoing ++ take (taken p.0) bytes) h;
  read_logs = λ ep given w. receive_log w.incoming given w;
  stall_logs = λ ep w. refl;
  unstall_logs = λ ep w. refl;
}

pub bus-HasPackets : HasPackets bus
bus-HasPackets = λ ep. omega arith

some_length : (bytes : List ℕ) → bytes ≢ [] → 1 ≤ length bytes
some_length [] h = absurd (h refl)
some_length (b ∷ bytes) h = omega arith

pub bus-IsReady : IsReady bus
bus-IsReady = λ ep bytes w w' r some_bytes h.
    subst (λ (p : Result BusError ℕ × Wire). 1 ≤ taken p.0) h (some_length bytes some_bytes)

abbrev pub handed : Wire → List ℕ
handed w = w.handed

receive_hands :
    (ps : List (List ℕ)) (given bytes : List ℕ) (w w' : Wire) (r : Result BusError ℕ)
    → receive ps given w ≡ (r, bytes, w')
    → w'.handed ≡ w.handed ++ take (taken r) bytes
receive_hands [] given bytes w w' r h =
    subst (λ (p : Result BusError ℕ × List ℕ × Wire). p.2.handed ≡ w.handed ++ take (taken p.0) p.1)
      h (sym (append-nil w.handed))
receive_hands (p ∷ ps) given bytes w w' r h =
    subst (λ (p : Result BusError ℕ × List ℕ × Wire). p.2.handed ≡ w.handed ++ take (taken p.0) p.1)
      h
      (elim (Bool-cases (leb (length p) (length given))) [
        | inl fits ↦
            ground (arith, fits, take-append_exact (length p) p (drop (0 + length p) given) refl)
        | inr short ↦ ground (arith, short, append-nil w.handed)
      ])

pub receive-fits :
    (p : List ℕ) (ps : List (List ℕ)) (bytes : List ℕ) (w : Wire)
    → length p ≤ length bytes
    → receive (p ∷ ps) bytes w
      ≡ (ok (length p), splice bytes 0 p, record w { incoming = ps; handed = w.handed ++ p })
receive-fits p ps bytes w h = ground (arith, le→leb (length p) (length bytes) h)

pub bus-IsIntake : IsIntake bus handed
bus-IsIntake = record {
  read_hands = λ ep given bytes w w' r h. receive_hands w.incoming given bytes w w' r h;
}

abbrev pub at_rest : Wire
at_rest = record { incoming = []; outgoing = []; handed = [] }

-- A command of 40 bytes to the host: INQUIRY.
abbrev pub inquiry_cbw : CommandBlockWrapper
inquiry_cbw = record default_cbw { tag = 7; data_transfer_len = 40; block_len = 6 }

-- A transport amid a command, with a storage of 32 bytes, of which four wait, and packets of 8 bytes.
abbrev pub amid : State → Option StatusAndResidue → Wire → BulkOnly Wire ℕ
amid state cs wire = record {
  in_ep = 7;
  out_ep = 7;
  buf = record { inner = 0 ∷ 1 ∷ 2 ∷ 3 ∷ 4 ∷ replicate 27 0; rpos = 1; wpos = 5 };
  state = state;
  cbw = inquiry_cbw;
  cs = cs;
  max_lun = 0;
  left_to_transfer = 40;
  bus = wire;
}

pub amid-Inv :
    (state : State) (cs : Option StatusAndResidue) (wire : Wire)
    → InState state (amid state cs wire)
    → Inv bus (amid state cs wire)
unfolding packet_size
amid-Inv state cs wire h = record {
  base = record {
    buffer = omega arith;
    cbw_fits = omega arith;
    packet_fits = omega arith;
    small = omega arith;
    block_fits = omega arith;
    block_some = λ _. omega arith;
  };
  in_state = h;
}
