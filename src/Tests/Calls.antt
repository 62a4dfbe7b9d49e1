-- ===== src/Tests/Calls.antt =====
-- usbd-storage/src/transport/bbb.rs: the calls, on a transport amid a command.
use usbd_storage.Prelude.{
  length, ap, drop, ℕ, ◌≤◌, ◌<◌, ◌≡◌, refl, ◌⊎◌, inl, none, some, List, [], ◌∷◌, ◌++◌, replicate,
  arith,
}
use usbd_storage.Prelude.Outcome.{sub, slice, done, fail}
use usbd_storage.Buffer.{Buffer, write_all, make_room, available_write, available_read}
use usbd_storage.Buffer.Contents.{contents}
use usbd_storage.Transport.{error, passed}
use usbd_storage.Transport.Bbb.Types.{
  BulkOnly, StatusAndResidue, status_transfer, io_buffer_overflow, transfer_length_exceeded,
  data_transfer_to_host, data_transfer_to_host_ending, data_transfer_from_host,
}
use usbd_storage.Transport.Bbb.Handlers.{poll, poll_within, poll_state, handle_read_cbw}
use usbd_storage.Transport.Bbb.Packets.{packet_size, read_packet, read_closure}
use usbd_storage.Transport.Bbb.Api.{new, read_data, write_data, try_write_data_all}
use usbd_storage.Transport.Bbb.Invariant.{Inv, StatusEntered, enter_status}
use usbd_storage.Transport.Bbb.StatusSafety.{Safe}
use usbd_storage.Transport.Bbb.PollSafety.{poll-Safe}
use usbd_storage.Transport.Bbb.ApiSafety.{
  with_buf, with_buf-Inv, write_data-appends, read_data-takes,
}
use usbd_storage.Transport.Bbb.TryWrite.{try_write_all_or_nothing}
use usbd_storage.Transport.Bbb.Reach.{
  wrote, polled, Reach, here, next, fresh, new-Inv, reach_poll-Safe,
}
use usbd_storage.Buffer.Writing.{SameBytes}
use usbd_storage.Transport.Bbb.Receiving.{Receives, poll-Receives}
use usbd_storage.Transport.Bbb.CswSending.{CswMoves, poll_sends_csw}
use usbd_storage.Transport.Bbb.Wrapper.{csw_bytes}
use usbd_storage.Transport.Bbb.Sending.{PollSends, poll_sends}
use usbd_storage.Transport.Bbb.Stuck.{poll_overflows}
use usbd_storage.Tests.Bus.{Wire, bus, bus-IsLawful, at_rest, amid, amid-Inv}

abbrev sending : BulkOnly Wire ℕ
sending = amid data_transfer_to_host none at_rest

sending-Inv : Inv bus sending
sending-Inv = amid-Inv data_transfer_to_host none at_rest (omega arith)

abbrev receiving : BulkOnly Wire ℕ
receiving = amid data_transfer_from_host none (record at_rest { incoming = (5 ∷ 6 ∷ 7 ∷ []) ∷ [] })

receiving-Inv : Inv bus receiving
receiving-Inv =
    amid-Inv data_transfer_from_host none (record at_rest { incoming = (5 ∷ 6 ∷ 7 ∷ []) ∷ [] }) tt

abbrev answer : StatusAndResidue
answer = record { status = passed; data_residue = 4 }

-- The status is set before all of the 40 bytes are sent.
abbrev ending : BulkOnly Wire ℕ
ending = amid data_transfer_to_host_ending (some answer) at_rest

ending-Inv : Inv bus ending
ending-Inv =
    amid-Inv data_transfer_to_host_ending (some answer) at_rest (omega arith, (answer, refl))

poll-Safe_example : Safe bus (poll bus) ending
poll-Safe_example = poll-Safe bus bus-IsLawful ending ending-Inv

abbrev after_write : BulkOnly Wire ℕ
after_write = (write_data bus (10 ∷ 11 ∷ 12 ∷ []) sending).1

abbrev after_poll : BulkOnly Wire ℕ
after_poll = (poll bus after_write).1

written_then_polled : Reach bus sending after_poll
written_then_polled =
    next (next here (wrote sending after_write (10 ∷ 11 ∷ 12 ∷ []) refl refl))
      (polled after_write after_poll refl)

reach_poll-Safe_example : Inv bus after_poll × Safe bus (poll bus) after_poll
reach_poll-Safe_example =
    reach_poll-Safe bus bus-IsLawful sending after_poll sending-Inv written_then_polled

new-Inv_example :
    (new bus 64 1 (replicate 64 0) at_rest
      ≡ (done (fresh bus 63 63 at_rest 1 (replicate 64 0)), at_rest))
    × Inv bus (fresh bus 63 63 at_rest 1 (replicate 64 0))
new-Inv_example =
    new-Inv bus bus-IsLawful 64 1 (replicate 64 0) at_rest at_rest at_rest 63 63 (omega arith)
      (omega arith) (omega arith) (omega arith) refl refl

write_data-appends_example :
    (b : Buffer) × (write_data bus (10 ∷ 11 ∷ 12 ∷ []) sending ≡ (done 3, with_buf bus sending b))
    × (contents b ≡ 1 ∷ 2 ∷ 3 ∷ 4 ∷ 10 ∷ 11 ∷ 12 ∷ [])
    × Inv bus (with_buf bus sending b)
write_data-appends_example = write_data-appends bus sending sending-Inv (10 ∷ 11 ∷ 12 ∷ []) refl

read_data-takes_example :
    (b : Buffer) × (read_data bus (0 ∷ 0 ∷ 0 ∷ []) receiving
      ≡ (done (3, 1 ∷ 2 ∷ 3 ∷ []), with_buf bus receiving b))
    × (contents b ≡ 4 ∷ [])
    × Inv bus (with_buf bus receiving b)
read_data-takes_example = read_data-takes bus receiving receiving-Inv (0 ∷ 0 ∷ 0 ∷ []) (inl refl)

enter_status_example : (t' : BulkOnly Wire ℕ) × StatusEntered bus ending t' answer
enter_status_example = enter_status bus ending answer ending-Inv.base refl tt

-- 30 bytes are within the transfer, but the buffer has room for 28.
abbrev many : List ℕ
many = replicate 30 7

try_write_all_or_nothing_example :
    (b : Buffer) × Inv bus (with_buf bus sending b)
    × (((30 ≤ 36)
          × (30 ≤ 28)
          × (try_write_data_all bus many sending ≡ (done tt, with_buf bus sending b))
          × (contents b ≡ contents sending.buf ++ many))
        ⊎ (((36 < 30)
              × (try_write_data_all bus many sending
                  ≡ (fail (error transfer_length_exceeded), with_buf bus sending b))
              × (contents b ≡ contents sending.buf))
            ⊎ ((30 ≤ 36)
                × (28 < 30)
                × (try_write_data_all bus many sending
                    ≡ (fail (error io_buffer_overflow), with_buf bus sending b))
                × (contents b ≡ contents sending.buf))))
try_write_all_or_nothing_example = try_write_all_or_nothing bus sending sending-Inv many refl

-- 20 bytes wait, for packets of 8.
abbrev loaded_buffer : Buffer
loaded_buffer = record { inner = replicate 32 9; rpos = 0; wpos = 20 }

abbrev loaded : BulkOnly Wire ℕ
loaded = with_buf bus sending loaded_buffer

loaded-Inv : Inv bus loaded
loaded-Inv =
    with_buf-Inv bus sending loaded_buffer data_transfer_to_host sending-Inv.base (omega arith) refl
      refl (omega arith)

poll_sends_example : PollSends bus bus-IsLawful loaded
poll_sends_example =
    poll_sends bus bus-IsLawful loaded loaded-Inv refl refl (λ e. absurd (omega arith))

-- A CBW on its way in packets of 8 bytes, to a buffer of 31.
abbrev three_packets : Wire
three_packets = record {
  incoming =
      (0x55 ∷ 0x53 ∷ 0x42 ∷ 0x43 ∷ replicate 4 0)
      ∷ replicate 8 0
      ∷ replicate 8 0
      ∷ (1 ∷ replicate 6 0)
      ∷ [];
  outgoing = [];
  handed = [];
}

abbrev short : BulkOnly Wire ℕ
short = fresh bus 7 7 three_packets 0 (replicate 31 0)

-- Three packets are received; the fourth is left on the bus.
abbrev three_received : BulkOnly Wire ℕ
three_received = record short {
  buf = record { inner = 0x55 ∷ 0x53 ∷ 0x42 ∷ 0x43 ∷ replicate 27 0; rpos = 0; wpos = 24 };
  bus = record {
    incoming = (1 ∷ replicate 6 0) ∷ [];
    outgoing = [];
    handed = 0x55 ∷ 0x53 ∷ 0x42 ∷ 0x43 ∷ replicate 20 0;
  };
}

polled_thrice : (poll bus (poll bus (poll bus short).1).1).1 ≡ three_received
unfolding poll poll_within poll_state handle_read_cbw read_packet write_all make_room
    available_write sub packet_size slice read_closure available_read
polled_thrice = refl

poll_overflows_example :
    (b : Buffer) × (poll bus three_received
      ≡ (fail (error io_buffer_overflow), with_buf bus three_received b))
    × SameBytes three_received.buf b
unfolding packet_size
poll_overflows_example = poll_overflows bus three_received refl (omega arith) (omega arith)

poll-Receives_example : Receives bus bus-IsLawful receiving (poll bus receiving)
poll-Receives_example =
    poll-Receives bus bus-IsLawful receiving receiving-Inv refl refl (λ e. absurd (omega arith))

-- Four bytes of the CSW are sent.
abbrev answering_buffer : Buffer
answering_buffer = record { inner = csw_bytes 7 answer ++ replicate 19 0; rpos = 4; wpos = 13 }

abbrev answering : BulkOnly Wire ℕ
answering = with_buf bus (amid status_transfer (some answer) at_rest) answering_buffer

answering-Inv : Inv bus answering
unfolding csw_bytes packet_size
answering-Inv = record {
  base = record {
    buffer = omega arith;
    cbw_fits = omega arith;
    packet_fits = omega arith;
    small = omega arith;
    block_fits = omega arith;
    block_some = λ _. omega arith;
  };
  in_state = (answer, 4, refl, refl);
}

poll_sends_csw_example :
    (s : StatusAndResidue) × (k : ℕ) × (some answer ≡ some s)
    × (contents answering_buffer ≡ drop k (csw_bytes 7 s))
    × CswMoves bus bus-IsLawful answering (poll bus answering)
unfolding csw_bytes
poll_sends_csw_example =
    poll_sends_csw bus bus-IsLawful answering answering-Inv refl
      (λ e. absurd (omega (arith, ap length e)))
