-- ===== src/Transport/Bbb/CbwCases.antt =====
-- usbd-storage/src/transport/bbb.rs: how a poll of the command transfer can come out.
use usbd_storage.Prelude.{
  ℕ, ◌≤◌, ◌<◌, ◌≡◌, sym, ap, ◌∙◌, ◌++◌, leb, leb→le, true, Bool-cases, List, length, take, drop,
  arith, inl, inr, length-take, length-drop,
}
use usbd_storage.Prelude.Outcome.{done, fail}
use usbd_storage.Bytes.{starts_with}
use usbd_storage.Buffer.{Buffer}
use usbd_storage.Buffer.Contents.{IsValid, contents, capacity, available_read-done}
use usbd_storage.Transport.{UsbStack, IsLawful, TransportError}
use usbd_storage.Transport.Bbb.Types.{
  BulkOnly, BulkOnlyError, Method, command_transfer, command_transfer_invalid, CommandBlockWrapper,
  cbw_signature_le, invalid_cbw,
}
use usbd_storage.Transport.Bbb.Packets.{read_packet}
use usbd_storage.Transport.Bbb.PacketCases.{
  CameIn, WhyNot, received, not_received, read_packet-cases,
}
use usbd_storage.Transport.Bbb.ParseCases.{
  BlockFits, parsed, refused, from_le_bytes-cases, try_parse_cbw-run, parse_raw,
}
use usbd_storage.Transport.Bbb.States.{enter_state_cbw_invalid}
use usbd_storage.Transport.Bbb.Handlers.{
  try_parse_cbw, handle_cbw_invalid, start_data_transfer, handle_read_cbw,
}

module _ {World Endpoint UsbError : Type 0} (stack : UsbStack World Endpoint UsbError) where
  -- The read fails; too few bytes have come; they are no CBW; or they are the CBW of a command.
  pub data CbwCases (t : BulkOnly World Endpoint) : Type 0 where
    no_packet :
        (x : TransportError UsbError BulkOnlyError) (b : Buffer) (w : World)
        → ((k : Method World Endpoint UsbError (Unit {0}))
            → handle_read_cbw stack k t ≡ (fail x, record t { buf = b; bus = w }))
        → WhyNot stack t x w
        → IsValid b
        → capacity b ≡ capacity t.buf
        → contents b ≡ contents t.buf
        → CbwCases t
    too_few :
        (n : ℕ) (bytes : List ℕ) (b : Buffer) (w : World)
        → ((k : Method World Endpoint UsbError (Unit {0}))
            → handle_read_cbw stack k t ≡ (done tt, record t { buf = b; bus = w }))
        → CameIn stack t n bytes w
        → IsValid b
        → capacity b ≡ capacity t.buf
        → contents b ≡ contents t.buf ++ bytes
        → length (contents b) < 31
        → CbwCases t
    invalid :
        (n : ℕ) (bytes : List ℕ) (b : Buffer) (w : World)
        → ((k : Method World Endpoint UsbError (Unit {0}))
            → handle_read_cbw stack k t
              ≡ handle_cbw_invalid stack
                  (record t { buf = b; bus = w; state = command_transfer_invalid }))
        → CameIn stack t n bytes w
        → IsValid b
        → capacity b ≡ capacity t.buf
        → 31 ≤ length (contents t.buf ++ bytes)
        → parse_raw (take 31 (contents t.buf ++ bytes)) ≡ fail invalid_cbw
        → CbwCases t
    accepted :
        (n : ℕ) (bytes : List ℕ) (b : Buffer) (w : World) (cbw : CommandBlockWrapper)
        → ((k : Method World Endpoint UsbError (Unit {0}))
            → handle_read_cbw stack k t
              ≡ start_data_transfer stack k cbw (record t { buf = b; bus = w }))
        → CameIn stack t n bytes w
        → IsValid b
        → capacity b ≡ capacity t.buf
        → BlockFits cbw
        → 31 ≤ length (contents t.buf ++ bytes)
        → parse_raw (take 31 (contents t.buf ++ bytes)) ≡ done cbw
        → CbwCases t

  module _ (t : BulkOnly World Endpoint) (h : t.state ≡ command_transfer) (n : ℕ) (bytes : List ℕ)
      (b : Buffer) (w : World) (run : read_packet stack t ≡ (done n, record t { buf = b; bus = w }))
      (came : CameIn stack t n bytes w) (v : IsValid b) (room : capacity b ≡ capacity t.buf)
      (holds : contents b ≡ contents t.buf ++ bytes) where
    abbrev arrived : BulkOnly World Endpoint
    arrived = record t { buf = b; bus = w }

    abbrev raw : List ℕ
    raw = take 31 (contents b)

    parse_refused :
        (b' : Buffer)
        → leb 31 (length (contents b)) ≡ true
        → try_parse_cbw arrived ≡ (fail invalid_cbw, record arrived { buf = b' })
        → parse_raw raw ≡ fail invalid_cbw
        → IsValid b'
        → capacity b' ≡ capacity b
        → CbwCases t
    unfolding handle_read_cbw enter_state_cbw_invalid
    parse_refused b' enough e p vb same =
        invalid n bytes b' w
          (λ k. ground (
            arith,
            run,
            e,
            enough,
            available_read-done {E = TransportError UsbError BulkOnlyError} b v,
          ))
          came vb (omega (arith, same, room)) (omega (arith, leb→le _ _ enough, ap length holds))
          (ap (λ l. parse_raw (take 31 l)) (sym holds) ∙ p)

    parse_accepted :
        (b' : Buffer) (cbw : CommandBlockWrapper)
        → leb 31 (length (contents b)) ≡ true
        → try_parse_cbw arrived ≡ (done cbw, record arrived { buf = b' })
        → parse_raw raw ≡ done cbw
        → IsValid b'
        → capacity b' ≡ capacity b
        → BlockFits cbw
        → CbwCases t
    unfolding handle_read_cbw
    parse_accepted b' cbw enough e p vb same fits =
        accepted n bytes b' w cbw
          (λ k. ground (
            arith,
            run,
            e,
            enough,
            available_read-done {E = TransportError UsbError BulkOnlyError} b v,
          ))
          came vb (omega (arith, same, room)) fits
          (omega (arith, leb→le _ _ enough, ap length holds))
          (ap (λ l. parse_raw (take 31 l)) (sym holds) ∙ p)

    -- With the bytes of a CBW in the buffer it is parsed, and obeyed or refused.
    parse_cases : leb 31 (length (contents b)) ≡ true → CbwCases t
    parse_cases enough =
        let (b', e, vb, same) = try_parse_cbw-run arrived v (leb→le _ _ enough) in
        let size : length (take 27 (drop 4 raw)) ≡ 27 = omega (
          arith,
          leb→le _ _ enough,
          length-take 27 (drop 4 raw),
          length-drop 4 raw,
          length-take 31 (contents b),
        ) in
        elim (Bool-cases (starts_with raw cbw_signature_le)) [
          | inr other ↦
              parse_refused b' enough (ground (arith, e, other)) (ground (arith, other)) vb same
          | inl signed ↦ elim (from_le_bytes-cases (take 27 (drop 4 raw)) size) [
            | parsed cbw p fits ↦
                parse_accepted b' cbw enough (ground (arith, e, signed, p))
                  (ground (arith, signed, p)) vb same fits
            | refused p ↦
                parse_refused b' enough (ground (arith, e, signed, p)) (ground (arith, signed, p))
                  vb same
          ]
        ]

  pub read_cbw-cases :
      IsLawful stack
      → (t : BulkOnly World Endpoint) → IsValid t.buf
      → t.state ≡ command_transfer
      → CbwCases t
  unfolding handle_read_cbw
  read_cbw-cases law t v h = elim (read_packet-cases stack law t v) [
    | not_received x b w run kept why ↦
        no_packet x b w (ground (arith, run)) why kept.valid kept.room kept.same
    | received n bytes b w run hb hn added why ↦ elim (Bool-cases (leb 31 (length (contents b)))) [
      | inl enough ↦ parse_cases t h n bytes b w run why added.valid added.room added.holds enough
      | inr few ↦
          too_few n bytes b w
            (ground (
              arith,
              run,
              few,
              available_read-done {E = TransportError UsbError BulkOnlyError} b added.valid,
            ))
            why added.valid added.room added.holds (ground (arith, few))
    ]
  ]
