-- ===== src/Transport/Bbb/CswSending.antt =====
-- usbd-storage/src/transport/bbb.rs: one poll of the status transfer, while the CSW is not all sent.
use usbd_storage.Prelude.{ℕ, suc, ◌≡◌, ◌≢◌, sym, subst, ap, some, List, [], length, drop, arith}
use usbd_storage.Prelude.Outcome.{Outcome, done, fail, ok, err}
use usbd_storage.Buffer.{Buffer}
use usbd_storage.Buffer.Contents.{contents, available_read-done}
use usbd_storage.Transport.{UsbStack, IsLawful, TransportError, usb}
use usbd_storage.Transport.Bbb.Types.{BulkOnly, BulkOnlyError, StatusAndResidue, status_transfer}
use usbd_storage.Transport.Bbb.Wrapper.{csw_bytes}
use usbd_storage.Transport.Bbb.PacketCases.{sent, not_sent, nothing, write_packet-cases}
use usbd_storage.Transport.Bbb.Handlers.{handle_status_transfer, poll_state, poll_within, poll}
use usbd_storage.Transport.Bbb.Invariant.{Base, Inv, InState}
use usbd_storage.Transport.Bbb.HostSafety.{moved}
use usbd_storage.Transport.Bbb.Sending.{offered}

module _ {World Endpoint UsbError : Type 0} (stack : UsbStack World Endpoint UsbError)
    (law : IsLawful stack) where
  -- What a run that sends a part of the CSW leaves, where the endpoint takes bytes and where it fails.
  pub data CswMoves (t : BulkOnly World Endpoint)
      (r : Outcome (TransportError UsbError BulkOnlyError) (Unit {0}) × BulkOnly World Endpoint)
      : Type 0 where
    taken :
        (n : ℕ) (b : Buffer) (w : World)
        → stack.write t.in_ep (offered stack law t) t.bus ≡ (ok n, w)
        → contents b ≡ drop n (contents t.buf)
        → r ≡ (done tt, moved stack law t b w t.left_to_transfer)
        → CswMoves t r
    refused :
        (e : UsbError) (b : Buffer) (w : World)
        → stack.write t.in_ep (offered stack law t) t.bus ≡ (err e, w)
        → contents b ≡ contents t.buf
        → r ≡ (fail (usb e), moved stack law t b w t.left_to_transfer)
        → CswMoves t r

  handle-CswMoves :
      (fuel : ℕ) (t : BulkOnly World Endpoint)
      → Base stack t
      → t.state ≡ status_transfer
      → contents t.buf ≢ []
      → CswMoves t (handle_status_transfer stack (suc fuel) t)
  unfolding handle_status_transfer
  handle-CswMoves fuel t v h more =
      let read_eq =
        available_read-done {E = TransportError UsbError BulkOnlyError} t.buf v.buffer in
      let some_left : length (contents t.buf) ≢ 0 = λ e. more (empty (contents t.buf) e) in
      elim (write_packet-cases stack law t v.buffer) [
        | sent n b w run wrote bound vb rest room full ↦
            taken n b w wrote rest (ground (arith, read_eq, run))
        | not_sent x b w run kept why full ↦
            (let (e, is, wrote) = why in
              refused e b w wrote kept.same (ground (arith, read_eq, run, is)))
        | nothing b run none_left kept ↦ absurd (more none_left)
      ]
    where
      empty : (xs : List ℕ) → length xs ≡ 0 → xs ≡ []
      empty xs e = ground arith

  -- On a lawful stack, in the invariant and the state of the status transfer, with bytes waiting:
  -- a status is set, the bytes that wait are an end of the CSW with the tag of the command and
  -- that status, and `poll` offers the front of them, at most a packet, to the endpoint. As many
  -- bytes as it takes leave the waiting ones; an error is returned and keeps them.
  pub poll_sends_csw :
      (t : BulkOnly World Endpoint)
      → Inv stack t
      → t.state ≡ status_transfer
      → contents t.buf ≢ []
      → (s : StatusAndResidue) × (k : ℕ) × (t.cs ≡ some s)
        × (contents t.buf ≡ drop k (csw_bytes t.cbw.tag s))
        × CswMoves t (poll stack t)
  unfolding poll poll_within poll_state
  poll_sends_csw t v h more =
      let (s, k, c, holds) = subst (λ x. InState x t) h v.in_state in
      (
        s,
        k,
        c,
        holds,
        subst (CswMoves t) (sym (ap (λ x. poll_state stack 1 x t) h))
            (handle-CswMoves 0 t v.base h more),
      )
