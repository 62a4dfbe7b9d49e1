-- ===== src/Tests/Ring.antt =====
-- usbd-storage/src/buffer.rs on a storage of eight bytes, of which three wait.
use usbd_storage.Prelude.{ℕ, ◌≡◌, List, [], ◌∷◌, arith}
use usbd_storage.Prelude.Outcome.{done, fail}
use usbd_storage.Buffer.{Buffer, write, write_all}
use usbd_storage.Buffer.Contents.{IsValid, contents, capacity}
use usbd_storage.Buffer.Writing.{SameBytes, Appends, write-done}
use usbd_storage.Buffer.Filling.{write_all_overflow}
use usbd_storage.Transport.Bbb.Queue.{Op, calls, calls_refine}

abbrev eight : Buffer
eight = record { inner = 0 ∷ 1 ∷ 2 ∷ 3 ∷ 4 ∷ 5 ∷ 6 ∷ 7 ∷ []; rpos = 2; wpos = 5 }

eight-IsValid : IsValid eight
eight-IsValid = omega arith

write-done_example :
    (b' : Buffer) × (write {E = ⊥} (8 ∷ 9 ∷ 10 ∷ 11 ∷ []) eight ≡ done (4, b'))
    × Appends eight (8 ∷ 9 ∷ 10 ∷ 11 ∷ []) b'
write-done_example = write-done (8 ∷ 9 ∷ 10 ∷ 11 ∷ []) eight eight-IsValid

write_all_overflow_example :
    (b' : Buffer) × (write_all {S = ℕ} 6 tt (λ bytes s. (done 6, bytes, s)) (eight, 0)
      ≡ (fail tt, (b', 0)))
    × SameBytes eight b'
write_all_overflow_example =
    write_all_overflow {S = ℕ} 6 tt (λ bytes s. (done 6, bytes, s)) eight 0 eight-IsValid
      (omega arith)

-- Two bytes wait in four: of three more, two fit; then three are read, and one is filled in.
abbrev some_calls : List Op
some_calls =
    Op.write (7 ∷ 8 ∷ 9 ∷ []) ∷ Op.read (0 ∷ 0 ∷ 0 ∷ []) ∷ Op.fill_up_to 5 1 ∷ Op.shift ∷ []

abbrev half_full : Buffer
half_full = record { inner = 1 ∷ 2 ∷ 3 ∷ 4 ∷ []; rpos = 1; wpos = 3 }

calls_refine_example :
    (b : Buffer) × (calls some_calls half_full
      ≡ done ((2, []) ∷ (3, 2 ∷ 3 ∷ 7 ∷ []) ∷ (0, []) ∷ (0, []) ∷ [], b))
    × (contents b ≡ 8 ∷ 5 ∷ [])
    × IsValid b
    × (capacity b ≡ 4)
calls_refine_example = calls_refine some_calls half_full (omega arith)
