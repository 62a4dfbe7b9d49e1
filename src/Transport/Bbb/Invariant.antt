-- ===== src/Transport/Bbb/Invariant.antt =====
-- usbd-storage/src/transport/bbb.rs: the invariant of the transport between two calls, and the step
-- that puts the CSW in the buffer.
use usbd_storage.Prelude.{
  ℕ, ◌^◌, ◌≤◌, ◌<◌, ◌≡◌, refl, sym, subst, ◌∙◌, none, some, length, drop, arith, take_all,
}
use usbd_storage.Prelude.Outcome.{done}
use usbd_storage.Buffer.{clear}
use usbd_storage.Buffer.Contents.{IsValid, contents, capacity}
use usbd_storage.Buffer.Writing.{write-done}
use usbd_storage.Transport.{UsbStack, TransportError}
use usbd_storage.Transport.Bbb.Types.{
  BulkOnly, BulkOnlyError, State, command_transfer, command_transfer_invalid, status_transfer,
  data_transfer_to_host, data_transfer_to_host_ending, data_transfer_from_host_ending,
  StatusAndResidue, cbw_len,
}
use usbd_storage.Transport.Bbb.Wrapper.{csw_bytes, build_csw}
use usbd_storage.Transport.Bbb.Packets.{packet_size}
use usbd_storage.Transport.Bbb.States.{enter_state_status_transfer}

module _ {World Endpoint : Type 0} where
  abbrev pub StatusSet : BulkOnly World Endpoint → Type 0
  StatusSet t = (s : StatusAndResidue) × (t.cs ≡ some s)

  abbrev pub WithinTransfer : BulkOnly World Endpoint → Type 0
  WithinTransfer t = length (contents t.buf) ≤ t.left_to_transfer

  -- What each state promises.
  abbrev pub InState : State → BulkOnly World Endpoint → Type 0
  InState command_transfer t = (t.cs ≡ none) × (t.left_to_transfer ≡ 0)
  InState command_transfer_invalid t = t.cs ≡ none
  InState status_transfer t =
      (s : StatusAndResidue) × (k : ℕ) × (t.cs ≡ some s)
      × (contents t.buf ≡ drop k (csw_bytes t.cbw.tag s))
  InState data_transfer_to_host t = WithinTransfer t
  InState data_transfer_to_host_ending t = WithinTransfer t × StatusSet t
  InState data_transfer_from_host_ending t = StatusSet t
  InState _ t = Unit

-- A command was received, and its answer is not over.
abbrev pub Commanded : State → Type 0
Commanded command_transfer = ⊥
Commanded command_transfer_invalid = ⊥
Commanded _ = Unit

pub commanded : {x y : State} → x ≡ y → Commanded y → Commanded x
commanded h on = subst Commanded (sym h) on

module _ {World Endpoint UsbError : Type 0} (stack : UsbStack World Endpoint UsbError) where
  -- What holds in every state. A `usize` has 32 bits or more, and no storage is longer.
  pub record Base (t : BulkOnly World Endpoint) : Type 0 where
    pub buffer : IsValid t.buf
    pub cbw_fits : cbw_len ≤ capacity t.buf
    pub packet_fits : packet_size stack t ≤ capacity t.buf
    pub small : capacity t.buf < 2 ^ 32
    pub block_fits : t.cbw.block_len ≤ length t.cbw.block
    pub block_some : Commanded t.state → 1 ≤ t.cbw.block_len

  pub record Inv (t : BulkOnly World Endpoint) : Type 0 where
    pub base : Base t
    pub in_state : InState t.state t

  pub in_any_state :
      (t : BulkOnly World Endpoint) (x : State)
      → (Commanded x → 1 ≤ t.cbw.block_len)
      → Base t
      → Base (record t { state = x })
  unfolding packet_size
  in_any_state t x some_bytes v = record {
    buffer = v.buffer;
    cbw_fits = v.cbw_fits;
    packet_fits = v.packet_fits;
    small = v.small;
    block_fits = v.block_fits;
    block_some = some_bytes;
  }

  pub in_other_state :
      (t : BulkOnly World Endpoint) (x : State)
      → Commanded t.state
      → Base t
      → Base (record t { state = x })
  in_other_state t x on v = in_any_state t x (λ _. v.block_some on) v

  -- The buffer is emptied and the CSW put in.
  pub record StatusEntered (t t' : BulkOnly World Endpoint) (s : StatusAndResidue) : Type 0 where
    pub run : enter_state_status_transfer stack t ≡ (done tt, t')
    pub only_buffer : t' ≡ record t { buf = t'.buf; state = status_transfer }
    pub holds : contents t'.buf ≡ csw_bytes t.cbw.tag s
    pub inv : Inv t'

  pub length-csw_bytes : (tag : ℕ) (s : StatusAndResidue) → length (csw_bytes tag s) ≡ 13
  unfolding csw_bytes
  length-csw_bytes tag s = refl

  -- With a status set, and a buffer that is valid and holds a CBW and a packet,
  -- `enter_state_status_transfer` does not panic. It leaves exactly the 13 bytes of the CSW
  -- waiting, changes nothing but the buffer and the state, and ends in the invariant.
  pub enter_status :
      (t : BulkOnly World Endpoint) (s : StatusAndResidue)
      → Base t
      → t.cs ≡ some s
      → Commanded t.state
      → (t' : BulkOnly World Endpoint) × StatusEntered t t' s
  unfolding enter_state_status_transfer build_csw clear packet_size
  enter_status t s v h on =
      let csw = csw_bytes t.cbw.tag s in
      let (b, run, added) =
        write-done {E = TransportError UsbError BulkOnlyError} csw (clear t.buf) (omega arith) in
      let all : contents b ≡ csw =
        added.holds ∙ take_all _ csw (omega (arith, length-csw_bytes t.cbw.tag s, v.cbw_fits)) in
      (
        record t { buf = b; state = status_transfer },
        record {
          run = ground (arith, h, run);
          only_buffer = refl;
          holds = all;
          inv = record {
            base = record {
              buffer = added.valid;
              cbw_fits = omega (arith, added.room, v.cbw_fits);
              packet_fits = omega (arith, added.room, v.packet_fits);
              small = omega (arith, added.room, v.small);
              block_fits = v.block_fits;
              block_some = λ _. v.block_some on;
            };
            in_state = (s, 0, h, all);
          };
        },
      )
