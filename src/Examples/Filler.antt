-- ===== src/Examples/Filler.antt =====
-- examples/stm32/src/bin/stm32f411x_ufi_bbb.rs: the loop that fills a transfer with `0xF6`.
use usbd_storage.Prelude.{
  ℕ, zero, suc, ◌+◌, ◌-◌, ◌^◌, ◌≤◌, ◌<◌, ◌≡◌, refl, sym, ap, ◌∙◌, subst, min, inl, inr, List, ◌∷◌,
  Bool, true, false, ◌++◌, length, take, replicate, arith, append_assoc, length-append,
  length-replicate, if◌then◌else◌, ◌==◌, ==_iff, Bool-cases, lt→ltb,
}
use usbd_storage.Prelude.Outcome.{done}
use usbd_storage.Buffer.{Buffer}
use usbd_storage.Buffer.Contents.{contents, capacity}
use usbd_storage.Transport.{UsbStack}
use usbd_storage.Transport.Bbb.Types.{BulkOnly, data_transfer_to_host}
use usbd_storage.Transport.Bbb.Invariant.{Inv}
use usbd_storage.Transport.Bbb.ApiSafety.{with_buf, writable, write_data-run}
use usbd_storage.Transport.Bbb.Api
use usbd_storage.Subclass.Command.{write_data}
use usbd_storage.Examples.Firmware.{add, advance}
use usbd_storage.Examples.Stm32Ufi.{block_size, filler, send_filler}
use usbd_storage.Examples.Answering.{Device}

take-replicate : (n m : ℕ) (a : ℕ) → n ≤ m → take n (replicate m a) ≡ replicate n a
take-replicate zero m a h = refl
take-replicate (suc n) zero a h = absurd (omega (arith, h))
take-replicate (suc n) (suc m) a h = ap (λ r. a ∷ r) (take-replicate n m a (omega (arith, h)))

replicate_add : (m n a : ℕ) → replicate (m + n) a ≡ replicate m a ++ replicate n a
replicate_add zero n a = ap (λ k. replicate k a) (omega arith)
replicate_add (suc m) n a =
    ap (λ k. replicate k a) {x = suc m + n} {y = suc (m + n)} (omega arith)
    ∙ ap (λ r. a ∷ r) (replicate_add m n a)

some_count : (n : ℕ) → (n == 0) ≡ false → 1 ≤ n
some_count n h = ground (arith, h)

module _ {World Endpoint UsbError : Type 0} (stack : UsbStack World Endpoint UsbError)
    (fat : List ℕ) where
  -- The bytes that the transfer and the buffer have room for.
  abbrev pub space : BulkOnly World Endpoint → ℕ
  space t =
      min (capacity t.buf - length (contents t.buf)) (t.left_to_transfer - length (contents t.buf))

  abbrev pub moved_on : Device World Endpoint Unit → Buffer → ℕ → Device World Endpoint Unit
  moved_on f b count = (
    record f.0 { state = record f.0.state { storage_offset = f.0.state.storage_offset + count } },
    record f.1 { transport = with_buf stack f.1.transport b },
  )

  write_runs :
      (f : Device World Endpoint Unit) (b : Buffer) (count : ℕ)
      → Api.write_data stack (filler stack fat) f.1.transport
        ≡ (done count, with_buf stack f.1.transport b)
      → write_data stack (filler stack fat) f.1
        ≡ (done count, record f.1 { transport = with_buf stack f.1.transport b })
  unfolding write_data
  write_runs f b count run = ground (arith, run)

  one_turn :
      (f : Device World Endpoint Unit) (fuel : ℕ) (b : Buffer) (count : ℕ)
      → write_data stack (filler stack fat) f.1
        ≡ (done count, record f.1 { transport = with_buf stack f.1.transport b })
      → f.0.state.storage_offset + count < 2 ^ 32
      → send_filler stack fat (suc fuel) f ≡ (
          if count == 0
          then (done tt, moved_on f b count)
          else send_filler stack fat fuel (moved_on f b count))
  unfolding send_filler advance add
  one_turn f fuel b count run small = elim (Bool-cases (count == 0)) [
    | inl none ↦ ground (arith, none, run, lt→ltb (f.0.state.storage_offset + count) (2 ^ 32) small)
    | inr some ↦ ground (arith, some, run, lt→ltb (f.0.state.storage_offset + count) (2 ^ 32) small)
  ]

  if_true : {A : Type 0} (b : Bool) (x y : A) → b ≡ true → (if b then x else y) ≡ x
  if_true b x y h = ap (λ c. if c then x else y) h

  if_false : {A : Type 0} (b : Bool) (x y : A) → b ≡ false → (if b then x else y) ≡ y
  if_false b x y h = ap (λ c. if c then x else y) h

  -- What one turn of the loop, or all of it, adds.
  pub record Fills (f : Device World Endpoint Unit) (count : ℕ) : Type 0 where
    pub buf : Buffer
    pub holds : contents buf ≡ contents f.1.transport.buf ++ replicate count 0xF6
    pub room : capacity buf ≡ capacity f.1.transport.buf
    pub inv : Inv stack (with_buf stack f.1.transport buf)

  turn-Fills :
      (f : Device World Endpoint Unit) (fuel : ℕ)
      → let t = f.1.transport in
        Inv stack t
        → t.state ≡ data_transfer_to_host
        → f.0.state.storage_offset + space t < 2 ^ 32
        → (count : ℕ) × (turn : Fills f count) × (count ≡ min (space t) 512)
          × (send_filler stack fat (suc fuel) f ≡ (
              if count == 0
              then (done tt, moved_on f turn.buf count)
              else send_filler stack fat fuel (moved_on f turn.buf count)))
  turn-Fills f fuel v h small =
      let t = f.1.transport in
      let (b, run, holds, room, inv) = write_data-run stack t v (filler stack fat) h in
      let count = writable stack t v (filler stack fat) in
      (
        count,
        record {
          buf = b;
          holds =
              holds
              ∙ ap (λ r. contents t.buf ++ r) (take-replicate count block_size 0xF6 (omega arith));
          room = room;
          inv = inv;
        },
        omega arith,
        one_turn f fuel b count (write_runs f b count run) (omega (arith, small)),
      )

  moved_twice :
      (f : Device World Endpoint Unit) (b b' : Buffer) (count rest : ℕ)
      → moved_on (moved_on f b count) b' rest ≡ moved_on f b' (count + rest)
  moved_twice f b b' count rest =
      ap
        (λ (k : ℕ). (
          record f.0 { state = record f.0.state { storage_offset = k } },
          record f.1 { transport = with_buf stack f.1.transport b' },
        ))
        {x = f.0.state.storage_offset + count + rest}
        {y = f.0.state.storage_offset + (count + rest)} (omega arith)

  length_filled :
      (f : Device World Endpoint Unit) (count : ℕ) (turn : Fills f count)
      → length (contents turn.buf) ≡ length (contents f.1.transport.buf) + count
  length_filled f count turn = omega (
    arith,
    ap length turn.holds,
    length-append (contents f.1.transport.buf) (replicate count 0xF6),
    length-replicate {A = ℕ} count 0xF6,
  )

  abbrev pub FillsAll : ℕ → Device World Endpoint Unit → ℕ → Type 0
  FillsAll fuel f count =
      (all : Fills f count) × (send_filler stack fat fuel f ≡ (done tt, moved_on f all.buf count))

  and_on :
      (f : Device World Endpoint Unit) (fuel count rest : ℕ) (turn : Fills f count)
      → send_filler stack fat (suc fuel) f ≡ send_filler stack fat fuel (moved_on f turn.buf count)
      → FillsAll fuel (moved_on f turn.buf count) rest
      → FillsAll (suc fuel) f (count + rest)
  and_on f fuel count rest turn run (next, next_run) = (
    record {
      buf = next.buf;
      holds =
          next.holds
          ∙ ap (λ c. c ++ replicate rest 0xF6) turn.holds
          ∙ append_assoc (contents f.1.transport.buf) (replicate count 0xF6) (replicate rest 0xF6)
          ∙ ap (λ r. contents f.1.transport.buf ++ r) (sym (replicate_add count rest 0xF6));
      room = next.room ∙ turn.room;
      inv = next.inv;
    },
    run ∙ next_run ∙ ap (λ d. (done tt, d)) (moved_twice f turn.buf next.buf count rest),
  )

  -- In the invariant and the state of the transfer to the host, where the offset does not leave 32
  -- bits: with more fuel than there is space, which is what the transfer and the buffer have room
  -- for, the loop ends normally. It has then appended that many bytes `0xF6`, the offset has grown
  -- by their number, and the invariant holds.
  pub send_filler-FillsAll :
      (fuel : ℕ) (f : Device World Endpoint Unit)
      → let t = f.1.transport in
        Inv stack t
        → t.state ≡ data_transfer_to_host
        → f.0.state.storage_offset + space t < 2 ^ 32
        → space t < fuel
        → FillsAll fuel f (space t)
  send_filler-FillsAll zero f v h small enough = absurd (omega (arith, enough))
  send_filler-FillsAll (suc fuel) f v h small enough =
      let (count, turn, is, run) = turn-Fills f fuel v h small in
      elim (Bool-cases (count == 0)) [
        | inl none ↦
            (let all : count ≡ space f.1.transport = omega (arith, is, (==_iff count 0).0 none) in
              subst (FillsAll (suc fuel) f) all (turn, run ∙ if_true (count == 0) _ _ none))
        | inr some ↦
            (let g = moved_on f turn.buf count in
              let all : count + space g.1.transport ≡ space f.1.transport =
                omega (arith, turn.room, is, length_filled f count turn) in
              subst (FillsAll (suc fuel) f) all (
                and_on f fuel count (space g.1.transport) turn
                  (run ∙ if_false (count == 0) _ _ some)
                  (send_filler-FillsAll fuel g turn.inv h (omega (arith, small, all))
                    (omega (arith, enough, all, some_count count some)))))
      ]
