-- ===== src/Tests/Cbw.antt =====
-- usbd-storage/src/transport/bbb.rs: a CBW in packets, of which one has come; and what the firmware of
-- examples/stm32/src/bin/stm32f411x_scsi_bbb.rs makes of its command.
use usbd_storage.Prelude.{
  ℕ, ◌+◌, ◌≡◌, refl, ap, subst, none, List, [], ◌∷◌, ◌++◌, length, take, drop, replicate, arith,
  take-append_exact,
}
use usbd_storage.Prelude.Outcome.{panic, sub, slice, splice}
use usbd_storage.Buffer.{available_read, available_write, make_room, write_all}
use usbd_storage.Transport.Bbb.Types.{CommandBlockWrapper, BulkOnly, into, command_transfer}
use usbd_storage.Transport.Bbb.Packets.{packet_size, read_packet, read_closure}
use usbd_storage.Transport.Bbb.Handlers.{poll, poll_within, poll_state, handle_read_cbw}
use usbd_storage.Transport.Bbb.Invariant.{Inv}
use usbd_storage.Transport.Bbb.Reassembly.{
  Waits, Collects, Reassembles, here, polled, wait-Reassembles,
}
use usbd_storage.Transport.Bbb.RoundTrip.{encode_cbw, IsWellFormed}
use usbd_storage.Transport.Bbb.Begun.{Begun}
use usbd_storage.Transport.Bbb.CbwSent.{Brings, cbw_begins}
use usbd_storage.Examples.Firmware.{Globals, default_state}
use usbd_storage.Examples.Stm32Scsi.{poll_command}
use usbd_storage.Examples.Stm32Crash.{running, capacity_16_from_host_panics}
use usbd_storage.Tests.Wire.{read_command}
use usbd_storage.Tests.Bus.{
  receive-fits, Wire, bus, bus-IsLawful, bus-IsIntake, handed, at_rest, amid,
}

abbrev cbw_packets : Wire
cbw_packets = record at_rest {
  incoming =
      (0x55 ∷ 0x53 ∷ 0x42 ∷ 0x43 ∷ 7 ∷ 0 ∷ 0 ∷ 0 ∷ [])
      ∷ (40 ∷ 0 ∷ 0 ∷ 0 ∷ 0x80 ∷ 0 ∷ 6 ∷ 0x12 ∷ [])
      ∷ [];
}

abbrev between_commands : BulkOnly Wire ℕ
between_commands = record (amid command_transfer none cbw_packets) {
  buf = record { inner = replicate 32 0; rpos = 0; wpos = 0 };
  left_to_transfer = 0;
}

between_commands-Inv : Inv bus between_commands
unfolding packet_size
between_commands-Inv = record {
  base = record {
    buffer = omega arith;
    cbw_fits = omega arith;
    packet_fits = omega arith;
    small = omega arith;
    block_fits = omega arith;
    block_some = λ _. omega arith;
  };
  in_state = (refl, refl);
}

one_came : (poll bus between_commands).1.state ≡ command_transfer
unfolding poll poll_within poll_state handle_read_cbw read_packet write_all make_room
    available_write sub packet_size slice read_closure available_read
one_came = refl

wait-Reassembles_example :
    let t = (poll bus between_commands).1 in
    Collects bus bus-IsLawful handed bus-IsIntake [] t
    × Reassembles bus bus-IsLawful handed bus-IsIntake [] t
wait-Reassembles_example =
    wait-Reassembles bus bus-IsLawful handed bus-IsIntake between_commands between_commands-Inv refl
      refl (poll bus between_commands).1 (polled (here between_commands) one_came)

-- READ CAPACITY (16)
abbrev ask_capacity : CommandBlockWrapper
ask_capacity = record read_command { block_len = 16; block = 0x9E ∷ 0x10 ∷ replicate 14 0 }

ask_capacity-IsWellFormed : IsWellFormed ask_capacity
ask_capacity-IsWellFormed = record {
  tag_u32 = omega arith;
  len_u32 = omega arith;
  direction_fits = λ e. absurd (omega arith);
  lun_nibble = omega arith;
  block_len_low = omega arith;
  block_len_high = omega arith;
  block_whole = refl;
}

-- Its CBW in two packets, the first of 16 bytes.
abbrev first_packet : List ℕ
first_packet = take 16 (encode_cbw ask_capacity)

abbrev last_packet : List ℕ
last_packet = drop 16 (encode_cbw ask_capacity)

abbrev idle_device : BulkOnly Wire ℕ
idle_device = record between_commands {
  in_ep = 15;
  out_ep = 15;
  bus = record at_rest { incoming = first_packet ∷ last_packet ∷ [] };
}

idle_device-Inv : Inv bus idle_device
unfolding packet_size
idle_device-Inv = record {
  base = record {
    buffer = omega arith;
    cbw_fits = omega arith;
    packet_fits = omega arith;
    small = omega arith;
    block_fits = omega arith;
    block_some = λ _. omega arith;
  };
  in_state = (refl, refl);
}

abbrev half : BulkOnly Wire ℕ
half = record idle_device {
  buf = record { inner = first_packet ++ replicate 16 0; rpos = 0; wpos = 16 };
  bus = record at_rest { incoming = last_packet ∷ []; handed = first_packet };
}

polled_once : (poll bus idle_device).1 ≡ half
unfolding poll poll_within poll_state handle_read_cbw read_packet write_all make_room
    available_write sub packet_size slice read_closure available_read
polled_once = refl

half-Waits : Waits bus idle_device half
half-Waits =
    subst (Waits bus idle_device) polled_once
      (polled (here idle_device) (ap (λ u. u.state) polled_once))

half-Brings : Brings bus half last_packet
unfolding packet_size
half-Brings = record {
  room = omega arith;
  reads = λ given size. (
    splice given 0 last_packet,
    record half.bus { incoming = []; handed = first_packet ++ last_packet },
    receive-fits last_packet [] given half.bus (omega (arith, size)),
    take-append_exact (length last_packet) last_packet (drop (0 + length last_packet) given) refl,
  );
}

cbw_begins_example : Begun into ask_capacity (poll bus half).1
cbw_begins_example =
    cbw_begins bus bus-IsLawful handed bus-IsIntake ask_capacity ask_capacity-IsWellFormed
      idle_device idle_device-Inv refl refl half half-Waits first_packet last_packet refl
      half-Brings refl

abbrev globals : Globals (List ℕ)
globals = record { state = default_state; memory = [] }

capacity_16_from_host_panics_example :
    poll_command bus (running bus globals 0 (poll bus half).1)
    ≡ (panic, running bus globals 0 (poll bus half).1)
capacity_16_from_host_panics_example =
    capacity_16_from_host_panics bus bus-IsLawful handed bus-IsIntake ask_capacity
      ask_capacity-IsWellFormed (omega arith) refl idle_device idle_device-Inv refl refl half
      half-Waits first_packet last_packet refl half-Brings refl globals 0
