-- ===== src/Subclass/Ufi/Geometry.antt =====
-- usbd-storage/src/subclass/ufi.rs: a logical block address as sector, head and track. A remainder or
-- quotient by 0 panics.
use usbd_storage.Prelude.{
  ℕ, ◌+◌, ◌-◌, ◌*◌, ◌/◌, ◌%◌, ◌<◌, ◌≤◌, ◌≡◌, ap, ◌∙◌, ◌==◌, arith, if◌then◌else◌,
}
use native.Mathlib.Nat.{div-add-mod'}
use usbd_storage.Prelude.Outcome.{Outcome, done, panic, ◌>>=◌}

module _ {E : Type 0} where
  unfoldable pub checked_rem : ℕ → ℕ → Outcome E ℕ
  checked_rem a b = if b == 0 then panic else done (a % b)

  unfoldable pub checked_div : ℕ → ℕ → Outcome E ℕ
  checked_div a b = if b == 0 then panic else done (a / b)

  unfoldable pub lba_to_sector : ℕ → ℕ → Outcome E ℕ
  unfolding checked_rem
  lba_to_sector lba sec_trk = do r ← checked_rem lba sec_trk; done (r + 1)

  unfoldable pub lba_to_head : ℕ → ℕ → ℕ → Outcome E ℕ
  unfolding checked_div checked_rem
  lba_to_head lba sec_trk head_trk = do q ← checked_div lba sec_trk; checked_rem q head_trk

  unfoldable pub lba_to_track : ℕ → ℕ → ℕ → Outcome E ℕ
  unfolding checked_div
  lba_to_track lba sec_trk head_trk = do q ← checked_div lba sec_trk; checked_div q head_trk

-- A place on the disk names one block: sector, head and track give the address back, and lie in range.
pub record Located (E : Type 0) (lba sec_trk head_trk : ℕ) : Type 0 where
  pub sector : ℕ
  pub head : ℕ
  pub track : ℕ
  pub sector_eq : lba_to_sector {E = E} lba sec_trk ≡ done sector
  pub head_eq : lba_to_head {E = E} lba sec_trk head_trk ≡ done head
  pub track_eq : lba_to_track {E = E} lba sec_trk head_trk ≡ done track
  pub sector_low : 1 ≤ sector
  pub sector_high : sector ≤ sec_trk
  pub head_high : head < head_trk
  pub address : (track * head_trk + head) * sec_trk + (sector - 1) ≡ lba

-- With at least one sector a track and one head, the three functions return a sector from 1 to the
-- number of sectors, a head below the number of heads and a track, which together give the address
-- back.
pub geometry-Located :
    (E : Type 0) (lba sec_trk head_trk : ℕ)
    → 0 < sec_trk
    → 0 < head_trk
    → Located E lba sec_trk head_trk
unfolding lba_to_sector lba_to_head lba_to_track
geometry-Located E lba sec_trk head_trk hs hh = record {
  sector = lba % sec_trk + 1;
  head = lba / sec_trk % head_trk;
  track = lba / sec_trk / head_trk;
  sector_eq = ground arith;
  head_eq = ground arith;
  track_eq = ground arith;
  sector_low = omega arith;
  sector_high = omega arith;
  head_high = omega arith;
  address =
      ap (λ q. q * sec_trk + (lba % sec_trk + 1 - 1)) (div-add-mod' (lba / sec_trk) head_trk)
      ∙ omega (arith, div-add-mod' lba sec_trk);
}
