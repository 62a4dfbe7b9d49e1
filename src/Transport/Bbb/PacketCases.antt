-- ===== src/Transport/Bbb/PacketCases.antt =====
-- usbd-storage/src/transport/bbb.rs: how a packet from the host, or to it, can come out.
use usbd_storage.Prelude.{
  ℕ, ◌+◌, ◌-◌, ◌≤◌, ◌<◌, ◌≡◌, ◌≢◌, ◌⊎◌, refl, sym, ap, ◌∙◌, min, inl, inr, Bool-cases, ltb, ltb→lt,
  not_ltb→le, List, [], ◌∷◌, length, take, drop, arith, length-take,
}
use usbd_storage.Prelude.Outcome.{done, fail, Result, ok, err, splice}
use usbd_storage.Buffer.{Buffer, Closure}
use usbd_storage.Buffer.Contents.{
  IsValid, contents, capacity, length-contents, contents-consume, consume-IsValid, length-splice,
}
use usbd_storage.Buffer.Writing.{SameBytes, Appends}
use usbd_storage.Buffer.Reading.{read-done, read-fail}
use usbd_storage.Buffer.Filling.{Taken, Failed, write_all_overflow, write_all_runs}
use usbd_storage.Transport.{TransportError, usb, error, UsbStack, IsLawful}
use usbd_storage.Transport.Bbb.Types.{BulkOnly, BulkOnlyError, io_buffer_overflow}
use usbd_storage.Transport.Bbb.Packets.{
  packet_size, read_closure, read_packet, write_closure, write_packet,
}

module _ {World Endpoint UsbError : Type 0} (stack : UsbStack World Endpoint UsbError) where
  -- The endpoint filled the front of a slice of one packet, its `n` bytes are `bytes`.
  abbrev pub CameIn : BulkOnly World Endpoint → ℕ → List ℕ → World → Type 0
  CameIn t n bytes w =
      (given ys : List ℕ) × (length given ≡ packet_size stack t)
      × (stack.read t.out_ep given t.bus ≡ (ok n, ys, w))
      × (bytes ≡ take n ys)

  -- There was no room for a packet, or the endpoint failed.
  abbrev pub WhyNot :
      BulkOnly World Endpoint → TransportError UsbError BulkOnlyError → World → Type 0
  WhyNot t x w =
      ((x ≡ error io_buffer_overflow)
        × (capacity t.buf - length (contents t.buf) < packet_size stack t)
        × (w ≡ t.bus))
      ⊎ ((e : UsbError) × (given ys : List ℕ) × (length given ≡ packet_size stack t)
          × (x ≡ usb e)
          × (stack.read t.out_ep given t.bus ≡ (err e, ys, w)))

  -- A read fills the buffer by what came, or fails and keeps its bytes.
  pub data ReadCases (t : BulkOnly World Endpoint) : Type 0 where
    received :
        (n : ℕ) (bytes : List ℕ) (b : Buffer) (w : World)
        → read_packet stack t ≡ (done n, record t { buf = b; bus = w })
        → length bytes ≡ n
        → n ≤ packet_size stack t
        → Appends t.buf bytes b
        → CameIn t n bytes w
        → ReadCases t
    not_received :
        (x : TransportError UsbError BulkOnlyError) (b : Buffer) (w : World)
        → read_packet stack t ≡ (fail x, record t { buf = b; bus = w })
        → SameBytes t.buf b
        → WhyNot t x w
        → ReadCases t

  module _ (law : IsLawful stack) (t : BulkOnly World Endpoint) (v : IsValid t.buf) where
    abbrev size : ℕ
    size = packet_size stack t

    abbrev overflow : TransportError UsbError BulkOnlyError
    overflow = error io_buffer_overflow

    abbrev reading : Closure World (TransportError UsbError BulkOnlyError)
    reading = read_closure stack t.out_ep

    -- The packet that arrives in the slice `bytes` of the buffer.
    read_into :
        (bytes : List ℕ)
        → length bytes ≡ size
        → Taken size overflow reading t.buf t.bus v bytes
        → Failed size overflow reading t.buf t.bus v bytes
        → (r : Result UsbError ℕ) (ys : List ℕ) (w : World)
        → stack.read t.out_ep bytes t.bus ≡ (r, ys, w)
        → ReadCases t
    unfolding read_packet read_closure
    read_into bytes hb taken failed (ok n) ys w e =
        let hy : length ys ≡ size =
          sym (ap (λ p. length p.1) e) ∙ law.read_keeps_length t.out_ep bytes t.bus ∙ hb in
        let hn : n ≤ size = omega (arith, law.read_bound t.out_ep bytes ys t.bus w n e) in
        let (b, run, added) = taken n ys w (ground (arith, e)) hy hn in
        received n (take n ys) b w (ground (arith, run)) (omega (arith, length-take n ys)) hn added
          (bytes, ys, hb, e, refl)
    read_into bytes hb taken failed (err x) ys w e =
        let hy : length ys ≡ size =
          sym (ap (λ p. length p.1) e) ∙ law.read_keeps_length t.out_ep bytes t.bus ∙ hb in
        let (b, run, kept) = failed (usb x) ys w (ground (arith, e)) hy in
        not_received (usb x) b w (ground (arith, run)) kept (inr (x, bytes, ys, hb, refl, e))

    pub read_packet-cases : ReadCases t
    unfolding read_packet
    read_packet-cases = elim (Bool-cases (ltb (capacity t.buf - length (contents t.buf)) size)) [
      | inl full ↦
          (let (b, run, kept) =
              write_all_overflow size overflow reading t.buf t.bus v (ltb→lt _ _ full) in
            not_received overflow b t.bus (ground (arith, run)) kept
              (inl (refl, ltb→lt _ _ full, refl)))
      | inr enough ↦
          (let (bytes, hb, taken, failed) =
              write_all_runs size overflow reading t.buf t.bus v (not_ltb→le _ _ enough) in
            let result = stack.read t.out_ep bytes t.bus in
            read_into bytes hb taken failed result.0 result.1 result.2 refl)
    ]

  -- A write takes bytes off the front of the buffer and leaves them with the endpoint, or fails and
  -- keeps them. Nothing is written from an empty buffer.
  pub data WriteCases (t : BulkOnly World Endpoint) : Type 0 where
    sent :
        (n : ℕ) (b : Buffer) (w : World)
        → write_packet stack t ≡ (done n, record t { buf = b; bus = w })
        → stack.write t.in_ep
            (take (min (packet_size stack t) (length (contents t.buf))) (contents t.buf))
            t.bus
          ≡ (ok n, w)
        → n ≤ min (packet_size stack t) (length (contents t.buf))
        → IsValid b
        → contents b ≡ drop n (contents t.buf)
        → capacity b ≡ capacity t.buf
        → contents t.buf ≢ []
        → WriteCases t
    not_sent :
        (x : TransportError UsbError BulkOnlyError) (b : Buffer) (w : World)
        → write_packet stack t ≡ (fail x, record t { buf = b; bus = w })
        → SameBytes t.buf b
        → (e : UsbError) × (x ≡ usb e)
          × (stack.write t.in_ep
                (take (min (packet_size stack t) (length (contents t.buf))) (contents t.buf))
                t.bus
              ≡ (err e, w))
        → contents t.buf ≢ []
        → WriteCases t
    nothing :
        (b : Buffer)
        → write_packet stack t ≡ (done 0, record t { buf = b })
        → contents t.buf ≡ []
        → SameBytes t.buf b
        → WriteCases t

  module _ (law : IsLawful stack) (t : BulkOnly World Endpoint) (v : IsValid t.buf) where
    abbrev writing : Closure World (TransportError UsbError BulkOnlyError)
    writing = write_closure stack t.in_ep (packet_size stack t)

    abbrev taken_out : ℕ → Buffer
    taken_out k = record t.buf {
      inner = splice t.buf.inner t.buf.rpos (contents t.buf);
      rpos = t.buf.rpos + k;
    }

    kept_whole : SameBytes t.buf (taken_out 0)
    kept_whole = record {
      valid = consume-IsValid t.buf 0 (contents t.buf) v refl (omega arith);
      same = contents-consume t.buf 0 (contents t.buf) v refl (omega arith);
      room =
          length-splice t.buf.inner t.buf.rpos (contents t.buf)
            (omega (arith, v.order, v.within, length-contents t.buf v));
    }

    write_counted :
        (n : ℕ) (w : World)
        → writing (contents t.buf) t.bus ≡ (done n, contents t.buf, w)
        → n ≤ length (contents t.buf)
        → write_packet stack t ≡ (done n, record t { buf = taken_out n; bus = w })
    unfolding write_packet
    write_counted n w e h = ground (
      arith,
      read-done writing t.buf t.bus v n (contents t.buf) w e,
      ap taken_out {x = min n (length (contents t.buf))} {y = n} (omega arith),
    )

    write_refused :
        (x : UsbError) (w : World)
        → writing (contents t.buf) t.bus ≡ (fail (usb x), contents t.buf, w)
        → stack.write t.in_ep
            (take (min (packet_size stack t) (length (contents t.buf))) (contents t.buf))
            t.bus
          ≡ (err x, w)
        → contents t.buf ≢ []
        → WriteCases t
    unfolding write_packet
    write_refused x w e why full =
        not_sent (usb x) (taken_out 0) w
          (ground (
            arith,
            read-fail writing t.buf t.bus v (usb x) (contents t.buf) w e,
            ap taken_out {x = 0} {y = 0} refl,
            ap
                (λ k. record t.buf {
                  inner = splice t.buf.inner t.buf.rpos (contents t.buf);
                  rpos = k;
                })
                {x = t.buf.rpos} {y = t.buf.rpos + 0} (omega arith),
          ))
          kept_whole (x, refl, why) full

    waiting_some : (c : ℕ) (cs : List ℕ) → contents t.buf ≡ c ∷ cs → contents t.buf ≢ []
    waiting_some c cs h none_left = absurd (omega (arith, ap length h, ap length none_left))

    write_from :
        (c : List ℕ)
        → contents t.buf ≡ c
        → (r : Result UsbError ℕ) (w : World)
        → stack.write t.in_ep (take (min (packet_size stack t) (length c)) c) t.bus ≡ (r, w)
        → WriteCases t
    unfolding write_closure
    write_from [] hc r w e =
        nothing (taken_out 0) (write_counted 0 t.bus (rw hc refl) (omega arith)) hc kept_whole
    write_from (c ∷ cs) hc (ok n) w e =
        let bound : n ≤ min (packet_size stack t) (length (c ∷ cs)) = omega (
          arith,
          law.write_bound t.in_ep _ t.bus w n e,
          length-take (min (packet_size stack t) (length (c ∷ cs))) (c ∷ cs),
        ) in
        let bound' : n ≤ min (packet_size stack t) (length (contents t.buf)) = rw hc bound in
        let all : n ≤ length (contents t.buf) = omega arith in
        sent n (taken_out n) w (write_counted n w (rw hc (ground (arith, e))) all) (rw hc e) bound'
          (consume-IsValid t.buf n (contents t.buf) v refl all)
          (contents-consume t.buf n (contents t.buf) v refl all) (kept_whole.room)
          (waiting_some c cs hc)
    write_from (c ∷ cs) hc (err x) w e =
        write_refused x w (rw hc (ground (arith, e))) (rw hc e) (waiting_some c cs hc)

    pub write_packet-cases : WriteCases t
    write_packet-cases =
        let result =
          stack.write t.in_ep
            (take (min (packet_size stack t) (length (contents t.buf))) (contents t.buf)) t.bus in
        write_from (contents t.buf) refl result.0 result.1 refl
