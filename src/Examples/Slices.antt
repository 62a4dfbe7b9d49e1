-- ===== src/Examples/Slices.antt =====
-- examples/stm32/src/bin/stm32f411x_scsi_bbb.rs and examples/rp2040/src/bin/rp2040_scsi_bbb.rs: slices of
-- the storage that are written one behind the other.
use usbd_storage.Prelude.{
  ℕ, ◌+◌, ◌≤◌, ◌≡◌, sym, ap, ◌∙◌, List, [], ◌++◌, length, take, drop, arith, append_assoc,
  length-append, length-take, take-append-drop, take-append_exact, drop-append_exact, drop-drop,
}
use usbd_storage.Prelude.Outcome.{splice}

-- Two slices, one behind the other.
pub splice-splice :
    (fs xs ys : List ℕ) (start : ℕ)
    → start + length xs ≤ length fs
    → splice (splice fs start xs) (start + length xs) ys ≡ splice fs start (xs ++ ys)
splice-splice fs xs ys start h =
    let front = take start fs ++ xs in
    let back = drop (start + length xs) fs in
    let size : length front ≡ start + length xs =
      omega (arith, h, length-append (take start fs) xs, length-take start fs) in
    let apart : splice fs start xs ≡ front ++ back = sym (append_assoc (take start fs) xs back) in
    let begins : take (start + length xs) (splice fs start xs) ≡ front =
      ap (take (start + length xs)) apart ∙ take-append_exact (start + length xs) front back size in
    let ends : drop (start + length xs + length ys) (splice fs start xs)
        ≡ drop (start + length (xs ++ ys)) fs =
      sym (drop-drop (start + length xs) (length ys) (splice fs start xs))
      ∙ ap (λ l. drop (length ys) (drop (start + length xs) l)) apart
      ∙ ap (drop (length ys)) (drop-append_exact (start + length xs) front back size)
      ∙ drop-drop (start + length xs) (length ys) fs
      ∙ ap (λ k. drop k fs) (omega (arith, length-append xs ys)) in
    ap (λ l. l ++ (ys ++ drop (start + length xs + length ys) (splice fs start xs))) begins
    ∙ append_assoc (take start fs) xs
        (ys ++ drop (start + length xs + length ys) (splice fs start xs))
    ∙ ap (λ l. take start fs ++ (xs ++ (ys ++ l))) ends
    ∙ ap (λ l. take start fs ++ l) (sym (append_assoc xs ys (drop (start + length (xs ++ ys)) fs)))

-- No bytes.
pub untouched : (fs : List ℕ) (start : ℕ) → fs ≡ splice fs start []
untouched fs start =
    sym (take-append-drop start fs)
    ∙ ap (λ k. take start fs ++ drop k fs) {x = start} {y = start + 0} (omega arith)

-- The rest of what has been written in part.
pub written_in_parts :
    (fs c : List ℕ) (start n : ℕ)
    → n ≤ length c
    → start + n ≤ length fs
    → splice (splice fs start (take n c)) (start + n) (drop n c) ≡ splice fs start c
written_in_parts fs c start n enough within =
    let size : length (take n c) ≡ n = omega (arith, enough, length-take n c) in
    ap (λ k. splice (splice fs start (take n c)) (start + k) (drop n c)) (sym size)
    ∙ splice-splice fs (take n c) (drop n c) start (omega (arith, size, within))
    ∙ ap (splice fs start) (take-append-drop n c)
