-- ===== src/Transport/Bbb/Sending.antt =====
-- usbd-storage/src/transport/bbb.rs: one poll of the transfer to the host, packet by packet.
use usbd_storage.Prelude.{
  ℕ, ◌-◌, ◌%◌, ◌^◌, ◌≤◌, ◌<◌, ◌≡◌, ◌≢◌, sym, ap, ◌∙◌, subst, ltb, ltb→lt, not_ltb→le, Bool-cases,
  min, ◌⊎◌, inl, inr, none, List, [], length, take, drop, arith,
}
use usbd_storage.Prelude.Outcome.{Outcome, done, fail, ok, err}
use usbd_storage.Buffer.{Buffer}
use usbd_storage.Buffer.Contents.{contents, length-contents, available_read-done}
use usbd_storage.Transport.{UsbStack, IsLawful, TransportError, usb, error}
use usbd_storage.Transport.Bbb.Types.{
  BulkOnly, BulkOnlyError, Method, data_transfer_to_host, full_packet_expected,
}
use usbd_storage.Transport.Bbb.Packets.{packet_size, try_write_full_packet, mark_as_transferred}
use usbd_storage.Transport.Bbb.PacketCases.{sent, not_sent, nothing, write_packet-cases}
use usbd_storage.Transport.Bbb.Handlers.{
  has_status, handle_data_transfer_to_host, handle_status_transfer, poll_state, poll_within, poll,
}
use usbd_storage.Transport.Bbb.Invariant.{Base, Inv, InState}
use usbd_storage.Transport.Bbb.HostSafety.{moved}
use usbd_storage.Transport.Bbb.ToHostSafety.{send_and_mark, assert_within}

module _ {World Endpoint UsbError : Type 0} (stack : UsbStack World Endpoint UsbError)
    (law : IsLawful stack) where
  -- The bytes that a poll offers to the endpoint.
  abbrev pub offered : BulkOnly World Endpoint → List ℕ
  offered t = take (min (packet_size stack t) (length (contents t.buf))) (contents t.buf)

  -- The ways in which a run that sends a packet ends.
  pub data Sends (t : BulkOnly World Endpoint)
      (r : Outcome (TransportError UsbError BulkOnlyError) (Unit {0}) × BulkOnly World Endpoint)
      : Type 0 where
    taken :
        (n : ℕ) (b : Buffer) (w : World)
        → stack.write t.in_ep (offered t) t.bus ≡ (ok n, w)
        → n ≤ t.left_to_transfer
        → contents b ≡ drop n (contents t.buf)
        → r ≡ (done tt, moved stack law t b w (t.left_to_transfer - n))
        → Sends t r
    refused :
        (e : UsbError) (b : Buffer) (w : World)
        → stack.write t.in_ep (offered t) t.bus ≡ (err e, w)
        → contents b ≡ contents t.buf
        → r ≡ (fail (usb e), moved stack law t b w t.left_to_transfer)
        → Sends t r
    idle :
        (b : Buffer)
        → contents t.buf ≡ []
        → contents b ≡ []
        → r ≡ (done tt, moved stack law t b t.bus t.left_to_transfer)
        → Sends t r

  send_and_mark-Sends :
      (t : BulkOnly World Endpoint)
      → Base stack t
      → length (contents t.buf) ≤ t.left_to_transfer
      → Sends t (send_and_mark stack law t)
  unfolding mark_as_transferred
  send_and_mark-Sends t v within = elim (write_packet-cases stack law t v.buffer) [
    | sent n b w run wrote bound vb holds room full ↦
        taken n b w wrote (omega (arith, bound, within)) holds (
          ground (arith, run)
          ∙ ap (λ k. (done tt, moved stack law t b w k)) {x = t.left_to_transfer - n % 2 ^ 32}
              {y = t.left_to_transfer - n}
              (omega (arith, bound, v.small, length-contents t.buf v.buffer, v.buffer.within)))
    | not_sent x b w run kept why full ↦
        (let (e, is, wrote) = why in refused e b w wrote kept.same (ground (arith, run, is)))
    | nothing b run empty kept ↦ idle b empty (kept.same ∙ empty) (ground (arith, run))
  ]

  -- What a poll does: it waits for a full packet, where the rest of the transfer fills one, or it sends
  -- one, which is a full one or the last.
  pub data PollSends (t : BulkOnly World Endpoint) : Type 0 where
    waits :
        packet_size stack t ≤ t.left_to_transfer
        → length (contents t.buf) < packet_size stack t
        → poll stack t ≡ (fail (error full_packet_expected), t)
        → PollSends t
    sends :
        (t.left_to_transfer < packet_size stack t) ⊎ (packet_size stack t ≤ length (contents t.buf))
        → Sends t (poll stack t)
        → PollSends t

  pub handle_sends :
      (k : Method World Endpoint UsbError (Unit {0})) (t : BulkOnly World Endpoint)
      → Base stack t
      → length (contents t.buf) ≤ t.left_to_transfer
      → t.state ≡ data_transfer_to_host
      → t.cs ≡ none
      → t.left_to_transfer ≢ 0
      → (t.left_to_transfer < packet_size stack t) ⊎ (packet_size stack t ≤ length (contents t.buf))
      → handle_data_transfer_to_host stack k t ≡ send_and_mark stack law t
  unfolding handle_data_transfer_to_host has_status try_write_full_packet
  handle_sends k t v within h c p cond =
      let checked = assert_within stack law t v within in
      let read_eq =
        available_read-done {E = TransportError UsbError BulkOnlyError} t.buf v.buffer in
      let size : packet_size stack t % 2 ^ 32 ≡ packet_size stack t =
        omega (arith, v.packet_fits, v.small) in
      elim (Bool-cases (ltb t.left_to_transfer (packet_size stack t))) [
        | inl last ↦ ground (arith, checked, size)
        | inr full ↦ elim cond [
          | inl less ↦
              absurd (omega (arith, not_ltb→le t.left_to_transfer (packet_size stack t) full))
          | inr enough ↦ ground (arith, checked, size, read_eq)
        ]
      ]

  pub handle_waits :
      (k : Method World Endpoint UsbError (Unit {0})) (t : BulkOnly World Endpoint)
      → Base stack t
      → length (contents t.buf) ≤ t.left_to_transfer
      → t.state ≡ data_transfer_to_host
      → t.cs ≡ none
      → t.left_to_transfer ≢ 0
      → packet_size stack t ≤ t.left_to_transfer
      → length (contents t.buf) < packet_size stack t
      → handle_data_transfer_to_host stack k t ≡ (fail (error full_packet_expected), t)
  unfolding handle_data_transfer_to_host has_status try_write_full_packet
  handle_waits k t v within h c p full short =
      let checked = assert_within stack law t v within in
      let read_eq =
        available_read-done {E = TransportError UsbError BulkOnlyError} t.buf v.buffer in
      let size : packet_size stack t % 2 ^ 32 ≡ packet_size stack t =
        omega (arith, v.packet_fits, v.small) in
      ground (arith, checked, size, read_eq)

  pub poll_is_handle :
      (t : BulkOnly World Endpoint)
      → t.state ≡ data_transfer_to_host
      → poll stack t ≡ handle_data_transfer_to_host stack (handle_status_transfer stack 1) t
  unfolding poll poll_within poll_state
  poll_is_handle t h = ap (λ x. poll_state stack 1 x t) h

  -- On a lawful stack, in the invariant and the state of the transfer to the host, with no status
  -- set and bytes left to transfer: if a full packet is left but does not wait, `poll` returns
  -- `FullPacketExpected` and nothing changes. Otherwise, a full packet waits or the rest of the
  -- transfer is shorter than one, and `poll` offers the oldest waiting bytes, at most a packet, to
  -- the endpoint. As many bytes as it takes leave the front of the waiting ones and are subtracted
  -- from the count of those left, which is no smaller; an error is returned and keeps both; and
  -- where no byte waits nothing is offered and both stay.
  pub poll_sends :
      (t : BulkOnly World Endpoint)
      → Inv stack t
      → t.state ≡ data_transfer_to_host
      → t.cs ≡ none
      → t.left_to_transfer ≢ 0
      → PollSends t
  poll_sends t v h c p =
      let k = handle_status_transfer stack 1 in
      let within : length (contents t.buf) ≤ t.left_to_transfer =
        subst (λ x. InState x t) h v.in_state in
      let by_send =
        λ (cond : (t.left_to_transfer < packet_size stack t)
            ⊎ (packet_size stack t ≤ length (contents t.buf))).
          sends cond (
            subst (Sends t) (sym (poll_is_handle t h ∙ handle_sends k t v.base within h c p cond))
              (send_and_mark-Sends t v.base within)) in
      elim (Bool-cases (ltb t.left_to_transfer (packet_size stack t))) [
        | inl last ↦ by_send (inl (ltb→lt t.left_to_transfer (packet_size stack t) last))
        | inr full ↦ elim (Bool-cases (ltb (length (contents t.buf)) (packet_size stack t))) [
          | inl short ↦
              (let f = not_ltb→le t.left_to_transfer (packet_size stack t) full in
                let s = ltb→lt (length (contents t.buf)) (packet_size stack t) short in
                waits f s (poll_is_handle t h ∙ handle_waits k t v.base within h c p f s))
          | inr enough ↦
              by_send (inr (not_ltb→le (length (contents t.buf)) (packet_size stack t) enough))
        ]
      ]
