-- ===== src/Transport/Bbb/Flow/Sending.antt =====
-- usbd-storage/src/transport/bbb.rs: what one written packet takes off the debt of the transport.
use usbd_storage.Prelude.{
  ℕ, ◌-◌, ◌%◌, ◌^◌, ◌≤◌, ◌≡◌, ◌≢◌, refl, sym, ap, ap₂, ◌∙◌, subst, ◌⊎◌, inl, inr, min, List, [],
  ◌∷◌, ◌++◌, length, take, drop, arith, append_assoc, take-append-drop, length-drop, length-take,
  take-take_le, Option,
}
use usbd_storage.Prelude.Outcome.{done, fail, ok, err}
use usbd_storage.Buffer.{Buffer}
use usbd_storage.Buffer.Contents.{contents, length-contents}
use usbd_storage.Transport.{UsbStack, IsLawful}
use usbd_storage.Transport.Bbb.Types.{BulkOnly, StatusAndResidue}
use usbd_storage.Transport.Bbb.Packets.{packet_size, mark_as_transferred}
use usbd_storage.Transport.Bbb.PacketCases.{sent, not_sent, nothing, write_packet-cases}
use usbd_storage.Transport.Bbb.Invariant.{Base, WithinTransfer}
use usbd_storage.Transport.Bbb.HostSafety.{moved}
use usbd_storage.Transport.Bbb.ToHostSafety.{send_and_mark}
use usbd_storage.Transport.Bbb.Flow.{SendsOn, data_owed, owed, tail_owed, same, Quiet, Pays}

pub empty_of_length : (xs : List ℕ) → length xs ≡ 0 → xs ≡ []
empty_of_length [] h = refl
empty_of_length (x ∷ xs) h = absurd (omega arith)

pub offer_some : (size : ℕ) (c : List ℕ) → 1 ≤ size → c ≢ [] → take (min size (length c)) c ≢ []
offer_some size c pos full empty =
    full (empty_of_length c (omega (arith, ap length empty, length-take (min size (length c)) c)))

-- Bytes that leave the front of the waiting ones, and the transfer, leave what follows alone.
pub pay_front :
    (c c' : List ℕ) (n left : ℕ) (cs : Option StatusAndResidue) (tag : ℕ)
    → c' ≡ drop n c
    → n ≤ length c
    → c ++ tail_owed cs (left - length c) tag
      ≡ take n c ++ (c' ++ tail_owed cs (left - n - length c') tag)
pay_front c c' n left cs tag e h =
    ap₂ (λ x g. x ++ tail_owed cs g tag)
      (sym (take-append-drop n c) ∙ ap (λ x. take n c ++ x) (sym e))
      (omega (arith, length-drop n c, ap length e))
    ∙ append_assoc (take n c) c' (tail_owed cs (left - n - length c') tag)

module _ {World Endpoint UsbError : Type 0} (stack : UsbStack World Endpoint UsbError)
    (law : IsLawful stack) where
  -- The state is one of the transfer to the host.
  abbrev pub OwesData : BulkOnly World Endpoint → Type 0
  OwesData t =
      (b : Buffer) (w : World) (left : ℕ)
      → owed (moved stack law t b w left) ≡ data_owed (moved stack law t b w left)

  module _ (t : BulkOnly World Endpoint) (p : List ℕ) (v : Base stack t) (within : WithinTransfer t)
      (owes : OwesData t) (e : p ≡ data_owed t) (on : SendsOn t.state) where
    abbrev after_send : BulkOnly World Endpoint
    after_send = (send_and_mark stack law t).1

    kept_owed :
        (b : Buffer) (w : World)
        → contents b ≡ contents t.buf
        → p ≡ owed (moved stack law t b w t.left_to_transfer)
    kept_owed b w h =
        e
        ∙ ap (λ c. c ++ tail_owed t.cs (t.left_to_transfer - length c) t.cbw.tag) (sym h)
        ∙ sym (owes b w t.left_to_transfer)

    -- A packet is offered, or there is no byte to offer.
    pub send_and_mark-Pays :
        1 ≤ packet_size stack t
        → ((contents t.buf ≢ []) × Pays stack t.in_ep t.bus t.cs p after_send)
          ⊎ ((contents t.buf ≡ []) × Quiet stack t.bus p after_send)
    unfolding mark_as_transferred
    send_and_mark-Pays pos = elim (write_packet-cases stack law t v.buffer) [
      | sent n b w run wrote bound vb holds room full ↦
          (let size = min (packet_size stack t) (length (contents t.buf)) in
            let left = t.left_to_transfer - n in
            let ends : send_and_mark stack law t ≡ (done tt, moved stack law t b w left) =
              ground (arith, run)
              ∙ ap (λ k. (done tt, moved stack law t b w k)) {x = t.left_to_transfer - n % 2 ^ 32}
                  {y = left}
                  (omega
                    (arith, bound, v.small, length-contents t.buf v.buffer, v.buffer.within)) in
            inl (
              full,
              subst (Pays stack t.in_ep t.bus t.cs p) (sym (ap (λ r. r.1) ends)) (record {
                offer = take size (contents t.buf);
                result = ok n;
                wrote = wrote;
                sends_on = on;
                same_status = refl;
                not_empty = offer_some (packet_size stack t) (contents t.buf) pos full;
                paid =
                    e
                    ∙ pay_front (contents t.buf) (contents b) n t.left_to_transfer t.cs t.cbw.tag
                        holds (omega arith)
                    ∙ ap₂ (λ x y. x ++ y) (sym (take-take_le n size (contents t.buf) bound))
                        (sym (owes b w left));
              }),
            ))
      | not_sent x b w run kept why full ↦
          (let (err_e, is, wrote) = why in
            let size = min (packet_size stack t) (length (contents t.buf)) in
            let ends : send_and_mark stack law t
                ≡ (fail x, moved stack law t b w t.left_to_transfer) =
              ground (arith, run) in
            inl (
              full,
              subst (Pays stack t.in_ep t.bus t.cs p) (sym (ap (λ r. r.1) ends)) (record {
                offer = take size (contents t.buf);
                result = err err_e;
                wrote = wrote;
                sends_on = on;
                same_status = refl;
                not_empty = offer_some (packet_size stack t) (contents t.buf) pos full;
                paid = kept_owed b w kept.same;
              }),
            ))
      | nothing b run empty kept ↦
          (let ends : send_and_mark stack law t
                ≡ (done tt, moved stack law t b t.bus t.left_to_transfer) =
              ground (arith, run) in
            inr (
              empty,
              subst (Quiet stack t.bus p) (sym (ap (λ r. r.1) ends)) (record {
                untouched = same t.bus;
                still_owed = sym (kept_owed b t.bus kept.same);
              }),
            ))
    ]
