-- ===== src/Subclass/Scsi/NoPanic.antt =====
-- usbd-storage/src/subclass/scsi.rs: the indices of the parser, and the lengths that its arms test.
use usbd_storage.Prelude.{
  ℕ, ◌≤◌, ◌<◌, ◌≡◌, refl, Bool, true, false, ◌&&◌, not, leb, leb→le, ◌==◌, List, [], ◌∷◌, length,
  arith, if◌then◌else◌,
}
use usbd_storage.Prelude.Outcome.{
  Outcome, done, ◌>>=◌, index, assert, IsDone, IsDone-eq, >>=-IsDone, index-IsDone,
}
use usbd_storage.Subclass.Scsi.Parse.{
  ScsiCommand, be_16, be_32, be_64, parse_inquiry, parse_request_sense, parse_read_capacity_16,
  parse_lba_10, parse_lba_16, parse_mode_sense_6, parse_mode_sense_10, parse_read_format_capacities,
  parse_code, parse_cb, test_unit_ready_code, inquiry_code, request_sense_code,
  read_capacity_10_code, read_capacity_16_code, read_10_code, read_16_code, write_10_code,
  write_16_code, mode_sense_6_code, mode_sense_10_code, read_format_capacities_code,
}

module _ (E : Type 0) where
  -- Read byte `i`, and go on.
  byte_then :
      {A : Type 0} (cb : List ℕ) (i : ℕ) (f : ℕ → Outcome E A)
      → i < length cb
      → ((b : ℕ) → IsDone (f b))
      → IsDone (index cb i >>= f)
  byte_then cb i f h k = >>=-IsDone (index cb i) f (index-IsDone E cb i h) k

  be_16-IsDone :
      (cb : List ℕ) (i j : ℕ) → i < length cb → j < length cb → IsDone (be_16 {E = E} cb i j)
  unfolding be_16
  be_16-IsDone cb i j h k = byte_then cb i _ h λ a. byte_then cb j _ k λ b. tt

  be_32-IsDone :
      (cb : List ℕ) (i j k l : ℕ)
      → i < length cb
      → j < length cb
      → k < length cb
      → l < length cb
      → IsDone (be_32 {E = E} cb i j k l)
  unfolding be_32
  be_32-IsDone cb i j k l a b c d =
      byte_then cb i _ a
        λ x. byte_then cb j _ b λ y. byte_then cb k _ c λ z. byte_then cb l _ d λ w. tt

  be_64-IsDone : (cb : List ℕ) → 10 ≤ length cb → IsDone (be_64 {E = E} cb)
  unfolding be_64
  be_64-IsDone cb h = byte_then cb 2 _ (omega arith) λ a. byte_then cb 3 _ (omega arith) λ b.
      byte_then cb 4 _ (omega arith) λ c. byte_then cb 5 _ (omega arith) λ d.
        byte_then cb 6 _ (omega arith) λ e.
          byte_then cb 7 _ (omega arith)
            λ f. byte_then cb 8 _ (omega arith) λ g. byte_then cb 9 _ (omega arith) λ h. tt

  inquiry-IsDone : (cb : List ℕ) → 5 ≤ length cb → IsDone (parse_inquiry {E = E} cb)
  unfolding parse_inquiry
  inquiry-IsDone cb h = byte_then cb 1 _ (omega arith) λ a.
      byte_then cb 2 _ (omega arith)
        λ b. >>=-IsDone (be_16 cb 3 4) _ (be_16-IsDone cb 3 4 (omega arith) (omega arith)) λ c. tt

  request_sense-IsDone : (cb : List ℕ) → 5 ≤ length cb → IsDone (parse_request_sense {E = E} cb)
  unfolding parse_request_sense
  request_sense-IsDone cb h =
      byte_then cb 1 _ (omega arith) λ a. byte_then cb 4 _ (omega arith) λ b. tt

  read_capacity_16-IsDone :
      (cb : List ℕ) → 14 ≤ length cb → IsDone (parse_read_capacity_16 {E = E} cb)
  unfolding parse_read_capacity_16
  read_capacity_16-IsDone cb h =
      >>=-IsDone (be_32 cb 10 11 12 13) _
        (be_32-IsDone cb 10 11 12 13 (omega arith) (omega arith) (omega arith) (omega arith))
        λ c. tt

  lba_10-IsDone :
      (command : ℕ → ℕ → ScsiCommand) (cb : List ℕ)
      → 9 ≤ length cb
      → IsDone (parse_lba_10 {E = E} command cb)
  unfolding parse_lba_10
  lba_10-IsDone command cb h =
      >>=-IsDone (be_32 cb 2 3 4 5) _
        (be_32-IsDone cb 2 3 4 5 (omega arith) (omega arith) (omega arith) (omega arith))
        λ lba.
          >>=-IsDone (be_16 cb 7 8) _ (be_16-IsDone cb 7 8 (omega arith) (omega arith)) λ len. tt

  lba_16-IsDone :
      (command : ℕ → ℕ → ScsiCommand) (cb : List ℕ)
      → 14 ≤ length cb
      → IsDone (parse_lba_16 {E = E} command cb)
  unfolding parse_lba_16
  lba_16-IsDone command cb h = >>=-IsDone (be_64 cb) _ (be_64-IsDone cb (omega arith)) λ lba.
      >>=-IsDone (be_32 cb 10 11 12 13) _
        (be_32-IsDone cb 10 11 12 13 (omega arith) (omega arith) (omega arith) (omega arith))
        λ len. tt

  mode_sense_6-IsDone : (cb : List ℕ) → 5 ≤ length cb → IsDone (parse_mode_sense_6 {E = E} cb)
  unfolding parse_mode_sense_6
  mode_sense_6-IsDone cb h = byte_then cb 1 _ (omega arith) λ a.
      byte_then cb 2 _ (omega arith)
        λ b. byte_then cb 3 _ (omega arith) λ c. byte_then cb 4 _ (omega arith) λ d. tt

  mode_sense_10-IsDone : (cb : List ℕ) → 9 ≤ length cb → IsDone (parse_mode_sense_10 {E = E} cb)
  unfolding parse_mode_sense_10
  mode_sense_10-IsDone cb h = byte_then cb 1 _ (omega arith) λ a.
      byte_then cb 2 _ (omega arith) λ b.
        byte_then cb 3 _ (omega arith)
          λ c. >>=-IsDone (be_16 cb 7 8) _ (be_16-IsDone cb 7 8 (omega arith) (omega arith)) λ d. tt

  format_capacities-IsDone :
      (cb : List ℕ) → 9 ≤ length cb → IsDone (parse_read_format_capacities {E = E} cb)
  unfolding parse_read_format_capacities
  format_capacities-IsDone cb h =
      >>=-IsDone (be_16 cb 7 8) _ (be_16-IsDone cb 7 8 (omega arith) (omega arith)) λ d. tt

  -- An arm of the `match`: its test, which includes the length that its command needs.
  arm :
      (b : Bool) (m k : Outcome E ScsiCommand)
      → (b ≡ true → IsDone m)
      → IsDone k
      → IsDone (if b then m else k)
  arm true m k h r = h refl
  arm false m k h r = r

  long_enough : (b : Bool) (n : ℕ) (cb : List ℕ) → (b && leb n (length cb)) ≡ true → n ≤ length cb
  long_enough true n cb h = leb→le n (length cb) h
  long_enough false n cb h = cc

  parse_code-IsDone :
      (extended : Bool) (code : ℕ) (cb : List ℕ) → IsDone (parse_code {E = E} extended code cb)
  unfolding parse_code
  parse_code-IsDone extended code cb =
      arm (code == test_unit_ready_code) _ _ (λ h. tt)
        (arm (code == inquiry_code && leb 5 (length cb)) _ _
          (λ h. inquiry-IsDone cb (long_enough (code == inquiry_code) 5 cb h))
          (arm (code == request_sense_code && leb 5 (length cb)) _ _
            (λ h. request_sense-IsDone cb (long_enough (code == request_sense_code) 5 cb h))
            (arm (code == read_capacity_10_code) _ _ (λ h. tt)
              (arm (code == read_capacity_16_code && leb 14 (length cb)) _ _
                (λ h.
                  read_capacity_16-IsDone cb (long_enough (code == read_capacity_16_code) 14 cb h))
                (arm (code == read_10_code && leb 9 (length cb)) _ _
                  (λ h. lba_10-IsDone _ cb (long_enough (code == read_10_code) 9 cb h))
                  (arm (extended && (code == read_16_code && leb 14 (length cb))) _ _
                    (λ h. lba_16-IsDone _ cb (wide extended (code == read_16_code) cb h))
                    (arm (code == write_10_code && leb 9 (length cb)) _ _
                      (λ h. lba_10-IsDone _ cb (long_enough (code == write_10_code) 9 cb h))
                      (arm (extended && (code == write_16_code && leb 14 (length cb))) _ _
                        (λ h. lba_16-IsDone _ cb (wide extended (code == write_16_code) cb h))
                        (arm (code == mode_sense_6_code && leb 5 (length cb)) _ _
                          (λ h.
                            mode_sense_6-IsDone cb (long_enough (code == mode_sense_6_code) 5 cb h))
                          (arm (code == mode_sense_10_code && leb 9 (length cb)) _ _
                            (λ h.
                              mode_sense_10-IsDone cb
                                (long_enough (code == mode_sense_10_code) 9 cb h))
                            (arm (code == read_format_capacities_code && leb 9 (length cb)) _ _
                              (λ h.
                                format_capacities-IsDone cb
                                  (long_enough (code == read_format_capacities_code) 9 cb h))
                              tt)))))))))))
    where
      wide : (x b : Bool) (cb : List ℕ) → (x && (b && leb 14 (length cb))) ≡ true → 14 ≤ length cb
      wide true b cb h = long_enough b 14 cb h
      wide false b cb h = cc

  assert-IsDone : (b : Bool) → b ≡ true → IsDone (assert {E = E} b)
  assert-IsDone true h = tt
  assert-IsDone false h = cc

  -- With either setting of `extended_addressing`, every command block of at least one byte is
  -- parsed to a command, be it `unknown`: no index is out of range.
  pub scsi_parse_total :
      (extended : Bool) (cb : List ℕ)
      → 1 ≤ length cb
      → (c : ScsiCommand) × (parse_cb {E = E} extended cb ≡ done c)
  unfolding parse_cb
  scsi_parse_total extended [] h = absurd (omega arith)
  scsi_parse_total extended (b ∷ bs) h = IsDone-eq (parse_cb {E = E} extended (b ∷ bs)) (
      >>=-IsDone (assert (not (length (b ∷ bs) == 0))) _ (assert-IsDone _ (ground arith)) λ _.
        byte_then (b ∷ bs) 0 (λ code. parse_code extended code (b ∷ bs)) (omega arith)
          λ code. parse_code-IsDone extended code (b ∷ bs))
