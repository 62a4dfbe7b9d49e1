-- ===== src/Transport/Bbb/CbwSent.antt =====
-- usbd-storage/src/transport/bbb.rs: a CBW that a host lays out and sends in packets.
use usbd_storage.Prelude.{
  ℕ, ◌+◌, ◌≤◌, ◌≡◌, refl, sym, ap, ◌∙◌, subst, inl, inr, List, [], ◌++◌, length, take, drop, arith,
  take_all, drop-append_exact,
}
use usbd_storage.Prelude.Outcome.{Outcome, Result, ok, done}
use usbd_storage.Buffer.Contents.{contents, capacity}
use usbd_storage.Transport.{UsbStack, IsLawful, TransportError}
use usbd_storage.Transport.Bbb.Types.{
  BulkOnly, BulkOnlyError, CommandBlockWrapper, InvalidCbwError, command_transfer,
}
use usbd_storage.Transport.Bbb.Packets.{packet_size}
use usbd_storage.Transport.Bbb.Handlers.{poll, handle_status_transfer}
use usbd_storage.Transport.Bbb.PacketCases.{CameIn, WhyNot}
use usbd_storage.Transport.Bbb.ParseCases.{parse_raw}
use usbd_storage.Transport.Bbb.RoundTrip.{encode_cbw, IsWellFormed, cbw_round_trip}
use usbd_storage.Transport.Bbb.CbwCases.{no_packet, too_few, invalid, accepted, read_cbw-cases}
use usbd_storage.Transport.Bbb.Invariant.{Inv, InState}
use usbd_storage.Transport.Bbb.HostSafety.{moved-Base}
use usbd_storage.Transport.Bbb.Intake.{IsIntake}
use usbd_storage.Transport.Bbb.Flow.{taken}
use usbd_storage.Transport.Bbb.Begun.{Begun, start-Begun}
use usbd_storage.Transport.Bbb.Reassembly.{Waits, poll_reads, wait-Reassembles}

length-encode_cbw : (c : CommandBlockWrapper) → IsWellFormed c → length (encode_cbw c) ≡ 31
length-encode_cbw c w = omega (arith, w.block_whole)

-- What is parsed, or `c`.
abbrev parsed_or :
    CommandBlockWrapper → Outcome InvalidCbwError CommandBlockWrapper → CommandBlockWrapper
parsed_or c (done cbw) = cbw
parsed_or c _ = c

parse_of_sent :
    (c : CommandBlockWrapper)
    → IsWellFormed c
    → (all : List ℕ) → all ≡ encode_cbw c
    → parse_raw (take 31 all) ≡ done c
parse_of_sent c w all e =
    ap parse_raw (take_all 31 all (omega (arith, length-encode_cbw c w, ap length e)) ∙ e)
    ∙ cbw_round_trip c w

module _ {World Endpoint UsbError : Type 0} (stack : UsbStack World Endpoint UsbError) where
  -- The next packet is `last`, and the buffer has room for one.
  pub record Brings (u : BulkOnly World Endpoint) (last : List ℕ) : Type 0 where
    pub room : length (contents u.buf) + packet_size stack u ≤ capacity u.buf
    pub reads :
        (given : List ℕ)
        → length given ≡ packet_size stack u
        → (ys : List ℕ) × (w : World) × (stack.read u.out_ep given u.bus
            ≡ (ok (length last), ys, w))
          × (take (length last) ys ≡ last)

  no_failure :
      (u : BulkOnly World Endpoint) (last : List ℕ)
      → Brings u last
      → (x : TransportError UsbError BulkOnlyError) (w : World) → WhyNot stack u x w
      → ⊥
  no_failure u last b x w (inl (is, short, same)) = omega (arith, b.room, short)
  no_failure u last b x w (inr (e, given, ys, size, is, read)) =
      let (ys', w', read', front) = b.reads given size in ground (arith, read, read')

  came_last :
      (u : BulkOnly World Endpoint) (last : List ℕ)
      → Brings u last
      → (n : ℕ) (bytes : List ℕ) (w : World) → CameIn stack u n bytes w
      → bytes ≡ last
  came_last u last b n bytes w (given, ys, size, read, is) =
      let (ys', w', read', front) = b.reads given size in
      let same : take n ys ≡ take (length last) ys' =
        ap (λ (p : Result UsbError ℕ × List ℕ × World). take (taken p.0) p.1) (sym read ∙ read') in
      is ∙ same ∙ front

  last_packet-Begun :
      IsLawful stack
      → (c : CommandBlockWrapper) → IsWellFormed c
      → (u : BulkOnly World Endpoint) → Inv stack u
      → u.state ≡ command_transfer
      → (last : List ℕ) → Brings u last
      → contents u.buf ++ last ≡ encode_cbw c
      → Begun c.direction c (poll stack u).1
  last_packet-Begun law c fine u v h last brings sent =
      let k = handle_status_transfer stack 1 in
      let (no_status, none_left) = subst (λ x. InState x u) h v.in_state in
      elim (read_cbw-cases stack law u v.base.buffer h) [
        | no_packet x b w run why vb room kept ↦ absurd (no_failure u last brings x w why)
        | too_few n bytes b w run why vb room holds few ↦ absurd (
            omega (
              arith,
              few,
              length-encode_cbw c fine,
              ap length (
                  holds
                  ∙ ap (λ l. contents u.buf ++ l) (came_last u last brings n bytes w why)
                  ∙ sent),
            ))
        | invalid n bytes b w run why vb room enough parse ↦
            (let all =
                ap (λ l. contents u.buf ++ l) (came_last u last brings n bytes w why) ∙ sent in
              ground (arith, sym parse ∙ parse_of_sent c fine (contents u.buf ++ bytes) all))
        | accepted n bytes b w cbw run why vb room fits enough parse ↦
            (let all =
                ap (λ l. contents u.buf ++ l) (came_last u last brings n bytes w why) ∙ sent in
              let same : cbw ≡ c =
                ap (parsed_or c) (sym parse ∙ parse_of_sent c fine (contents u.buf ++ bytes) all) in
              let now = ap (λ r. r.1) (poll_reads stack u h ∙ run k) in
              subst (λ x. Begun x.direction x (poll stack u).1) same
                (subst (Begun cbw.direction cbw) (sym now) (
                  start-Begun stack k law cbw (record u { buf = b; bus = w })
                    (moved-Base stack law u b w u.left_to_transfer v.base vb room) h no_status
                    fits)))
      ]

  -- On a lawful stack with an intake: let a transport wait for a CBW, in the invariant and with no
  -- byte in the buffer, and let polls that leave it waiting bring the front of a CBW that a host
  -- lays out, with its fields in range. Where the next packet is the rest of it, and the buffer
  -- has room for a packet, the next poll records that CBW as the command, with no status set, and
  -- enters a state in which a command of its direction begins.
  pub cbw_begins :
      IsLawful stack
      → (intake : World → List ℕ) → IsIntake stack intake
      → (c : CommandBlockWrapper) → IsWellFormed c
      → (t : BulkOnly World Endpoint) → Inv stack t
      → t.state ≡ command_transfer
      → contents t.buf ≡ []
      → (u : BulkOnly World Endpoint) → Waits stack t u
      → (front last : List ℕ) → intake u.bus ≡ intake t.bus ++ front
      → Brings u last
      → front ++ last ≡ encode_cbw c
      → Begun c.direction c (poll stack u).1
  cbw_begins law intake hands c fine t v h empty u waited front last came brings sent =
      let (s, next) = wait-Reassembles stack law intake hands t v h empty u waited in
      let base = intake t.bus in
      let same : contents u.buf ≡ front =
        sym (drop-append_exact (length base) base (contents u.buf) refl)
        ∙ ap (drop (length base)) (sym s.so_far ∙ came)
        ∙ drop-append_exact (length base) base front refl in
      last_packet-Begun law c fine u s.inv s.waits last brings (ap (λ l. l ++ last) same ∙ sent)
