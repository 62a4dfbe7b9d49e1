-- ===== src/Examples/Reading.antt =====
-- The firmware of examples: the blocks that the `Read` arm of the two SCSI programs hands to the transport,
-- and their way to the host.
use usbd_storage.Prelude.{
  ℕ, ◌+◌, ◌-◌, ◌*◌, ◌^◌, ◌≤◌, ◌<◌, ◌≡◌, ◌≢◌, refl, sym, ap, ap₂, ◌∙◌, subst, none, List, ◌++◌,
  length, take, drop, arith, append_assoc, append-nil, length-append, length-take, length-drop,
  drop-drop, drop-take, take_add,
}
use usbd_storage.Prelude.Outcome.{done, slice}
use usbd_storage.Buffer.{Buffer}
use usbd_storage.Buffer.Contents.{contents}
use usbd_storage.Transport.{UsbStack, IsLawful}
use usbd_storage.Transport.Bbb.Types.{BulkOnly, CommandBlockWrapper, data_transfer_to_host}
use usbd_storage.Transport.Bbb.Handlers.{poll}
use usbd_storage.Transport.Bbb.HostSafety.{moved}
use usbd_storage.Transport.Bbb.Invariant.{Inv}
use usbd_storage.Transport.Bbb.ApiSafety.{with_buf, writable, write_data-appends}
use usbd_storage.Transport.Bbb.Sending.{waits, sends, taken, refused, idle, offered, poll_sends}
use usbd_storage.Transport.Bbb.Flow.{owed, tail_owed, owed_in_state}
use usbd_storage.Transport.Bbb.Flow.Delivery.{IsLog, HasPackets, poll_conserves, poll-Inv}
use usbd_storage.Subclass.Command.{write_data}
use usbd_storage.Examples.Firmware.{mul, add, advance}
use usbd_storage.Examples.Scsi.{read, send_blocks}
use usbd_storage.Examples.Answering.{Device}

module _ {World Endpoint UsbError : Type 0} (stack : UsbStack World Endpoint UsbError)
    (law : IsLawful stack) (sizes : HasPackets stack) (log : World → List ℕ)
    (logs : IsLog stack log) (base blocks : List ℕ) (cbw : CommandBlockWrapper) where
  -- Amid a transfer of `blocks`, which began when the log was `base`: what the endpoint has taken and
  -- what waits are the first `offset` bytes.
  pub record Streams (t : BulkOnly World Endpoint) (offset : ℕ) : Type 0 where
    pub inv : Inv stack t
    pub to_host : t.state ≡ data_transfer_to_host
    pub no_status : t.cs ≡ none
    pub same_cbw : t.cbw ≡ cbw
    pub so_far : log t.bus ++ contents t.buf ≡ base ++ take offset blocks
    pub left : length (log t.bus) + t.left_to_transfer ≡ length base + length blocks

  owed_streaming :
      (t : BulkOnly World Endpoint)
      → t.state ≡ data_transfer_to_host
      → t.cs ≡ none
      → owed t ≡ contents t.buf
  owed_streaming t h c =
      owed_in_state data_transfer_to_host t h
      ∙ ap
          (λ cs.
            contents t.buf ++ tail_owed cs (t.left_to_transfer - length (contents t.buf)) t.cbw.tag)
          c
      ∙ append-nil (contents t.buf)

  -- A poll that leaves the state, the status, and the sum of what is sent and what is left.
  poll_to :
      (t u : BulkOnly World Endpoint) (offset : ℕ)
      → Streams t offset
      → (poll stack t).1 ≡ u
      → u.state ≡ data_transfer_to_host
      → u.cs ≡ none
      → u.cbw ≡ t.cbw
      → length (log u.bus) + u.left_to_transfer ≡ length (log t.bus) + t.left_to_transfer
      → Streams (poll stack t).1 offset
  poll_to t u offset s run h c e l =
      subst (λ x. Streams x offset) (sym run)
        (record {
          inv = subst (Inv stack) run (poll-Inv stack law sizes log logs t s.inv);
          to_host = h;
          no_status = c;
          same_cbw = e ∙ s.same_cbw;
          so_far =
              ap (λ o. log u.bus ++ o) (sym (owed_streaming u h c))
              ∙ ap (λ x. log x.bus ++ owed x) (sym run)
              ∙ poll_conserves stack law sizes log logs t s.inv
              ∙ ap (λ o. log t.bus ++ o) (owed_streaming t s.to_host s.no_status)
              ∙ s.so_far;
          left = l ∙ s.left;
        })

  pub poll-Streams :
      (t : BulkOnly World Endpoint) (offset : ℕ)
      → Streams t offset
      → t.left_to_transfer ≢ 0
      → Streams (poll stack t).1 offset
  poll-Streams t offset s more = elim (poll_sends stack law t s.inv s.to_host s.no_status more) [
    | waits full short run ↦
        poll_to t t offset s (ap (λ r. r.1) run) s.to_host s.no_status refl refl
    | sends cond (taken n b w wrote bound holds run) ↦
        poll_to t (moved stack law t b w (t.left_to_transfer - n)) offset s (ap (λ r. r.1) run)
          s.to_host s.no_status refl
          (omega (
            arith,
            bound,
            law.write_bound t.in_ep (offered stack law t) t.bus w n wrote,
            ap length (logs.write_logs t.in_ep (offered stack law t) t.bus w _ wrote),
            length-append (log t.bus) (take n (offered stack law t)),
            length-take n (offered stack law t),
          ))
    | sends cond (refused e b w wrote kept run) ↦
        poll_to t (moved stack law t b w t.left_to_transfer) offset s (ap (λ r. r.1) run) s.to_host
          s.no_status refl
          (ap (λ l. length l + t.left_to_transfer)
            (logs.write_logs t.in_ep (offered stack law t) t.bus w _ wrote
              ∙ append-nil (log t.bus)))
    | sends cond (idle b empty kept run) ↦
        poll_to t (moved stack law t b t.bus t.left_to_transfer) offset s (ap (λ r. r.1) run)
          s.to_host s.no_status refl refl
  ]

-- What `Read { lba, len }` asks for, in a file system of fewer than 2 ^ 32 bytes.
abbrev pub blocks_at : ℕ → List ℕ → ℕ → ℕ → List ℕ
blocks_at block_size filesystem lba len =
    take (len * block_size) (drop (block_size * lba) filesystem)

pub record InRange (block_size : ℕ) (filesystem : List ℕ) (lba len : ℕ) : Type 0 where
  pub within : block_size * lba + len * block_size ≤ length filesystem
  pub small : length filesystem < 2 ^ 32

module _ {World Endpoint UsbError Memory : Type 0} (stack : UsbStack World Endpoint UsbError)
    (law : IsLawful stack) (sizes : HasPackets stack) (log : World → List ℕ)
    (logs : IsLog stack log) (base : List ℕ) (cbw : CommandBlockWrapper) (block_size : ℕ)
    (filesystem : Memory → List ℕ) (lba len : ℕ) where
  abbrev pub FileStreams : Device World Endpoint Memory → Type 0
  FileStreams f =
      Streams stack law sizes log logs base (blocks_at block_size (filesystem f.0.memory) lba len)
        cbw f.1.transport f.0.state.storage_offset

  abbrev pub moved_on : Device World Endpoint Memory → Buffer → ℕ → Device World Endpoint Memory
  moved_on f b count = (
    record f.0 { state = record f.0.state { storage_offset = f.0.state.storage_offset + count } },
    record f.1 { transport = with_buf stack f.1.transport b },
  )

  pub read-FileStreams :
      (f : Device World Endpoint Memory)
      → InRange block_size (filesystem f.0.memory) lba len
      → f.0.state.storage_offset < len * block_size
      → FileStreams f
      → (b : Buffer) × (count : ℕ) × (f.0.state.storage_offset + count ≤ len * block_size)
        × (read stack block_size filesystem lba len f ≡ (done tt, moved_on f b count))
        × FileStreams (moved_on f b count)
  unfolding read send_blocks mul add slice advance write_data
  read-FileStreams f range more s =
      let t = f.1.transport in
      let offset = f.0.state.storage_offset in
      let fs = filesystem f.0.memory in
      let size = len * block_size in
      let blocks = blocks_at block_size fs lba len in
      let rest = drop offset blocks in
      let (b, run, holds, inv) = write_data-appends stack t s.inv rest s.to_host in
      let count = writable stack t s.inv rest in
      let bound : offset + count ≤ size =
        omega (arith, length-drop offset blocks, length-take size (drop (block_size * lba) fs)) in
      let comm : block_size * len ≡ size = grind arith in
      let cut : take (block_size * lba + block_size * len - (block_size * lba + offset))
            (drop (block_size * lba + offset) fs)
          ≡ rest =
        ap₂ take {x = block_size * lba + block_size * len - (block_size * lba + offset)}
          {y = size - offset} (omega (arith, comm)) (sym (drop-drop (block_size * lba) offset fs))
        ∙ sym (drop-take offset size (drop (block_size * lba) fs)) in
      (
        b,
        count,
        bound,
        ground (arith, range.within, range.small, comm, cut, run),
        record {
          inv = inv;
          to_host = s.to_host;
          no_status = s.no_status;
          same_cbw = s.same_cbw;
          so_far =
              ap (λ c. log t.bus ++ c) holds
              ∙ sym (append_assoc (log t.bus) (contents t.buf) (take count rest))
              ∙ ap (λ p. p ++ take count rest) s.so_far
              ∙ append_assoc base (take offset blocks) (take count rest)
              ∙ ap (λ p. base ++ p) (sym (take_add offset count blocks));
          left = s.left;
        },
      )
