-- ===== src/Subclass/Ufi/Lengths.antt =====
-- usbd-storage/src/subclass/ufi.rs: the length of a command block that each arm of the parser reads
-- up to.
use usbd_storage.Prelude.{
  ℕ, zero, suc, ◌+◌, ◌-◌, ◌≤◌, ◌<◌, ◌≡◌, refl, sym, ap, subst, take, drop, ltb, ltb→lt, not_ltb→le,
  ◌==◌, Bool, true, false, Bool-cases, List, [], ◌∷◌, length, get_elem?, none, arith, if◌then◌else◌,
  inl, inr,
}
use usbd_storage.Prelude.Outcome.{
  Outcome, done, fail, panic, out_of_fuel, ◌>>=◌, or_panic, index, slice, IsDone, IsDone-eq,
  index-IsDone,
}
use usbd_storage.Subclass.Ufi.Parse.{
  UfiCommand, be_slice, with_byte, with_slice, with_lba, parse_mode_sense, parse_format_unit,
  parse_code, parse_cb, request_sense_code, inquiry_code, test_unit_ready_code, read_capacity_code,
  prevent_allow_medium_removal_code, mode_sense_code, read_10_code, read_12_code, write_10_code,
  write_12_code, write_and_verify_code, format_unit_code, mode_select_code,
  read_format_capacities_code, rezero_unit_code, seek_10_code, send_diagnostic_code,
  start_stop_code, verify_code,
}

-- The length that the arm of each operation code reads up to.
abbrev pub block_needed : ℕ → ℕ
block_needed code =
    if code == request_sense_code
    then 5
    else if code == inquiry_code
    then 5
    else if code == test_unit_ready_code
    then 1
    else if code == read_capacity_code
    then 1
    else if code == prevent_allow_medium_removal_code
    then 5
    else if code == mode_sense_code
    then 9
    else if code == read_10_code
    then 9
    else if code == read_12_code
    then 10
    else if code == write_10_code
    then 9
    else if code == write_12_code
    then 10
    else if code == write_and_verify_code
    then 9
    else if code == format_unit_code
    then 9
    else if code == mode_select_code
    then 9
    else if code == read_format_capacities_code
    then 9
    else if code == rezero_unit_code
    then 1
    else if code == seek_10_code
    then 6
    else if code == send_diagnostic_code
    then 2
    else if code == start_stop_code
    then 5
    else if code == verify_code
    then 9
    else 1

module _ {E : Type 0} where
  -- The run panics on a block of fewer than `n` bytes, and on no other.
  pub record Needs {A : Type 0} (n : ℕ) (cb : List ℕ) (r : Outcome E A) : Type 0 where
    pub short : length cb < n → r ≡ panic
    pub long : n ≤ length cb → IsDone r

  index-Needs : (cb : List ℕ) (i : ℕ) → Needs (i + 1) cb (index {E = E} cb i)
  unfolding index
  index-Needs cb i = record {
    short = λ h. ap or_panic (beyond cb i (omega arith));
    long = λ h. index-IsDone E cb i (omega arith);
  }
    where
      beyond : (xs : List ℕ) (i : ℕ) → length xs ≤ i → get_elem? xs i ≡ none
      beyond [] i h = refl
      beyond (x ∷ xs) zero h = absurd (omega arith)
      beyond (x ∷ xs) (suc i) h = beyond xs i (omega arith)

  slice-Needs :
      (cb : List ℕ) (start end : ℕ) → start ≤ end → Needs end cb (slice {E = E} cb start end)
  unfolding slice
  slice-Needs cb start end h = record {
    short = λ s. ground arith;
    long = λ l. subst IsDone (sym (slice_in_range l)) tt;
  }
    where
      slice_in_range :
          end ≤ length cb → slice {E = E} cb start end ≡ done (take (end - start) (drop start cb))
      slice_in_range l = ground arith

  -- Such a run ends normally or by a panic.
  not_done :
      {A : Type 0} {n : ℕ} {cb : List ℕ} (r : Outcome E A)
      → ¬ IsDone r
      → ¬ (r ≡ panic)
      → ¬ Needs n cb r
  not_done {n} {cb} r d p u = elim (Bool-cases (ltb (length cb) n)) [
    | inl s ↦ p (u.short (ltb→lt _ _ s))
    | inr l ↦ d (u.long (not_ltb→le _ _ l))
  ]

  -- What follows a run that is not over by a panic may need more.
  bind-Needs :
      {A B : Type 0} (n k : ℕ) (cb : List ℕ) (m : Outcome E A) (f : A → Outcome E B)
      → n ≤ k
      → Needs n cb m
      → ((a : A) → Needs k cb (f a))
      → Needs k cb (m >>= f)
  bind-Needs n k cb (done a) f h u v = v a
  bind-Needs n k cb (fail e) f h u v = absurd (not_done (fail e) (λ d. d) (λ e. cc) u)
  bind-Needs n k cb panic f h u v = record { short = λ s. refl; long = λ l. u.long (omega arith) }
  bind-Needs n k cb out_of_fuel f h u v = absurd (not_done out_of_fuel (λ d. d) (λ e. cc) u)

  -- What follows it may also need nothing more.
  last-Needs :
      {A B : Type 0} (n : ℕ) (cb : List ℕ) (m : Outcome E A) (f : A → Outcome E B)
      → Needs n cb m
      → ((a : A) → IsDone (f a))
      → Needs n cb (m >>= f)
  last-Needs n cb (done a) f u k = record { short = λ s. absurd (cc (u.short s)); long = λ l. k a }
  last-Needs n cb (fail e) f u k = absurd (not_done (fail e) (λ d. d) (λ e. cc) u)
  last-Needs n cb panic f u k = record { short = λ s. refl; long = λ l. u.long l }
  last-Needs n cb out_of_fuel f u k = absurd (not_done out_of_fuel (λ d. d) (λ e. cc) u)

  be_slice-Needs :
      (cb : List ℕ) (start end : ℕ) → start ≤ end → Needs end cb (be_slice {E = E} cb start end)
  unfolding be_slice
  be_slice-Needs cb start end h =
      last-Needs end cb (slice cb start end) _ (slice-Needs cb start end h) λ a. tt

  with_byte-Needs :
      (command : ℕ → UfiCommand) (cb : List ℕ) (i : ℕ)
      → Needs (i + 1) cb (with_byte {E = E} command cb i)
  unfolding with_byte
  with_byte-Needs command cb i = last-Needs (i + 1) cb (index cb i) _ (index-Needs cb i) λ a. tt

  with_slice-Needs :
      (command : ℕ → UfiCommand) (cb : List ℕ) (start end : ℕ)
      → start ≤ end
      → Needs end cb (with_slice {E = E} command cb start end)
  unfolding with_slice
  with_slice-Needs command cb start end h =
      last-Needs end cb (be_slice cb start end) _ (be_slice-Needs cb start end h) λ a. tt

  with_lba-Needs :
      (command : ℕ → ℕ → UfiCommand) (cb : List ℕ) (start end : ℕ)
      → start ≤ end
      → 6 ≤ end
      → Needs end cb (with_lba {E = E} command cb start end)
  unfolding with_lba
  with_lba-Needs command cb start end h k =
      bind-Needs 6 end cb (be_slice cb 2 6) _ k (be_slice-Needs cb 2 6 (omega arith))
        λ lba. last-Needs end cb (be_slice cb start end) _ (be_slice-Needs cb start end h) λ a. tt

  mode_sense-Needs : (cb : List ℕ) → Needs 9 cb (parse_mode_sense {E = E} cb)
  unfolding parse_mode_sense
  mode_sense-Needs cb =
      bind-Needs 3 9 cb (index cb 2) _ (omega arith) (index-Needs cb 2)
        λ page. last-Needs 9 cb (be_slice cb 7 9) _ (be_slice-Needs cb 7 9 (omega arith)) λ a. tt

  format_unit-Needs : (cb : List ℕ) → Needs 9 cb (parse_format_unit {E = E} cb)
  unfolding parse_format_unit
  format_unit-Needs cb =
      bind-Needs 3 9 cb (index cb 2) _ (omega arith) (index-Needs cb 2)
        λ track. last-Needs 9 cb (be_slice cb 7 9) _ (be_slice-Needs cb 7 9 (omega arith)) λ a. tt

  arm :
      (b : Bool) (n k : ℕ) (cb : List ℕ) (m r : Outcome E UfiCommand)
      → Needs n cb m
      → Needs k cb r
      → Needs (if b then n else k) cb (if b then m else r)
  arm true n k cb m r u v = u
  arm false n k cb m r u v = v

  no_more : (code : ℕ) (bs : List ℕ) (c : UfiCommand) → Needs 1 (code ∷ bs) (done c)
  no_more code bs c = record { short = λ s. absurd (omega arith); long = λ l. tt }

  parse_code-Needs :
      (code : ℕ) (bs : List ℕ)
      → Needs (block_needed code) (code ∷ bs) (parse_code {E = E} code (code ∷ bs))
  unfolding parse_code
  parse_code-Needs code bs =
      let cb : List ℕ = code ∷ bs in
      arm (code == request_sense_code) 5 _ cb _ _ (with_byte-Needs _ cb 4) (
        arm (code == inquiry_code) 5 _ cb _ _ (with_byte-Needs _ cb 4) (
          arm (code == test_unit_ready_code) 1 _ cb _ _ (no_more code bs _) (
            arm (code == read_capacity_code) 1 _ cb _ _ (no_more code bs _) (
              arm (code == prevent_allow_medium_removal_code) 5 _ cb _ _ (with_byte-Needs _ cb 4) (
                arm (code == mode_sense_code) 9 _ cb _ _ (mode_sense-Needs cb) (
                  arm (code == read_10_code) 9 _ cb _ _
                    (with_lba-Needs _ cb 7 9 (omega arith) (omega arith))
                    (arm (code == read_12_code) 10 _ cb _ _
                      (with_lba-Needs _ cb 6 10 (omega arith) (omega arith))
                      (arm (code == write_10_code) 9 _ cb _ _
                        (with_lba-Needs _ cb 7 9 (omega arith) (omega arith))
                        (arm (code == write_12_code) 10 _ cb _ _
                          (with_lba-Needs _ cb 6 10 (omega arith) (omega arith))
                          (arm (code == write_and_verify_code) 9 _ cb _ _
                            (with_lba-Needs _ cb 7 9 (omega arith) (omega arith))
                            (arm (code == format_unit_code) 9 _ cb _ _ (format_unit-Needs cb) (
                              arm (code == mode_select_code) 9 _ cb _ _
                                (with_slice-Needs _ cb 7 9 (omega arith))
                                (arm (code == read_format_capacities_code) 9 _ cb _ _
                                  (with_slice-Needs _ cb 7 9 (omega arith))
                                  (arm (code == rezero_unit_code) 1 _ cb _ _ (no_more code bs _) (
                                    arm (code == seek_10_code) 6 _ cb _ _
                                      (with_slice-Needs _ cb 2 6 (omega arith))
                                      (arm (code == send_diagnostic_code) 2 _ cb _ _
                                        (with_byte-Needs _ cb 1)
                                        (arm (code == start_stop_code) 5 _ cb _ _
                                          (with_byte-Needs _ cb 4)
                                          (arm (code == verify_code) 9 _ cb _ _
                                            (with_lba-Needs _ cb 7 9 (omega arith) (omega arith))
                                            (no_more code bs _)))))))))))))))))))

  -- A command block, of one byte at least, that is shorter than its operation code needs makes the
  -- parser panic.
  pub ufi_parse_panics :
      (code : ℕ) (bs : List ℕ)
      → length (code ∷ bs) < block_needed code
      → parse_cb {E = E} (code ∷ bs) ≡ panic
  unfolding parse_cb index
  ufi_parse_panics code bs = (parse_code-Needs code bs).short

  -- A command block of at least the length that its operation code needs is parsed to a command,
  -- be it `unknown`.
  pub ufi_parse_parses :
      (code : ℕ) (bs : List ℕ)
      → block_needed code ≤ length (code ∷ bs)
      → (c : UfiCommand) × (parse_cb {E = E} (code ∷ bs) ≡ done c)
  unfolding parse_cb index
  ufi_parse_parses code bs l =
      IsDone-eq (parse_code code (code ∷ bs)) ((parse_code-Needs code bs).long l)
