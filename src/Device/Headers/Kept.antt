-- ===== src/Device/Headers/Kept.antt =====
-- Which blocks ReadZoneHeaders of src/device.cc keeps.
use zstore.Common.{
  ℕ, ◌≡◌, refl, ap, ◌∙◌, Bool, true, false, not, ◌&&◌, Option, none, some, List, [], ◌∷◌, ◌==◌,
  if◌then◌else◌, arith, Bool-cases, inl, inr,
}
use zstore.Device.Headers.{
  ZoneState, full, implicitly_open, explicitly_open, other, Descriptor, has_write_pointer, nothing,
  pointer_of, assign, read_zone_headers, block_of,
}

-- A zone that is full, or open by a command or by a write.
abbrev is_in_use : ZoneState → Bool
is_in_use full = true
is_in_use implicitly_open = true
is_in_use explicitly_open = true
is_in_use other = false

has_write_pointer-in_use : (z : ZoneState) → has_write_pointer z ≡ is_in_use z
unfolding has_write_pointer
has_write_pointer-in_use full = refl
has_write_pointer-in_use implicitly_open = refl
has_write_pointer-in_use explicitly_open = refl
has_write_pointer-in_use other = refl

-- The zone is in use, and was written to up to the address `k`.
ends_at : ℕ → Descriptor → Bool
ends_at k d =
    is_in_use d.state
    && (not (d.write_pointer == d.zslba) && ((d.write_pointer == k) && not (k == nothing)))

-- The start of the last zone of a report that was written to up to `k`, or else `before`.
pub last_ending : (ℕ → List ℕ) → ℕ → List Descriptor → Option (List ℕ) → Option (List ℕ)
last_ending block_at k [] before = before
last_ending block_at k (d ∷ ds) before =
    last_ending block_at k ds (if ends_at k d then some (block_at d.zslba) else before)

block_of-assign :
    (k j : ℕ) (buffer : List ℕ) (zones : List (ℕ × List ℕ))
    → block_of k (assign j buffer zones) ≡ (if k == j then some buffer else block_of k zones)
unfolding block_of assign
block_of-assign k j buffer [] = refl
block_of-assign k j buffer ((i, x) ∷ zones) = ground (arith, block_of-assign k j buffer zones)

-- The two tests as one, for any value of their parts.
skipped_lem :
    (h n : Bool) (w k : ℕ)
    → ((if h && n then w else nothing) == nothing) ≡ true
    → (h && (n && ((w == k) && not (k == nothing)))) ≡ false
skipped_lem false n w k e = refl
skipped_lem true false w k e = refl
skipped_lem true true w k e = ground (arith, e)

taken_lem :
    (h n : Bool) (w k : ℕ)
    → ((if h && n then w else nothing) == nothing) ≡ false
    → (k == (if h && n then w else nothing)) ≡ (h && (n && ((w == k) && not (k == nothing))))
taken_lem false n w k e = absurd (cc)
taken_lem true false w k e = absurd (cc)
taken_lem true true w k e = ground (arith, e)

kept_step :
    (block_at : ℕ → List ℕ) (k : ℕ) (d : Descriptor) (zones : List (ℕ × List ℕ))
    → block_of k
        (if pointer_of d == nothing then zones else assign (pointer_of d) (block_at d.zslba) zones)
      ≡ (if ends_at k d then some (block_at d.zslba) else block_of k zones)
unfolding pointer_of ends_at
kept_step block_at k d zones =
    rw⁻¹ (has_write_pointer-in_use d.state) (elim (Bool-cases (pointer_of d == nothing)) [
      | inl e ↦ rw e (
          rw
            (skipped_lem (has_write_pointer d.state) (not (d.write_pointer == d.zslba))
              d.write_pointer k e)
            refl)
      | inr e ↦ rw e (
          block_of-assign k (pointer_of d) (block_at d.zslba) zones
          ∙ ap (λ b. if b then some (block_at d.zslba) else block_of k zones)
              (taken_lem (has_write_pointer d.state) (not (d.write_pointer == d.zslba))
                d.write_pointer k e))
    ])

kept_from :
    (block_at : ℕ → List ℕ) (k : ℕ) (ds : List Descriptor) (zones : List (ℕ × List ℕ))
    → block_of k (read_zone_headers block_at ds zones)
      ≡ last_ending block_at k ds (block_of k zones)
unfolding read_zone_headers last_ending
kept_from block_at k [] zones = refl
kept_from block_at k (d ∷ ds) zones =
    kept_from block_at k ds _ ∙ ap (last_ending block_at k ds) (kept_step block_at k d zones)

-- ReadZoneHeaders keeps, under each address, the first block of the last zone of the report that was
-- written to up to that address, where a zone counts that is full, implicitly open or explicitly open; zones
-- that are empty or in another state leave nothing behind.
pub read_zone_headers-last_ending :
    (block_at : ℕ → List ℕ) (k : ℕ) (ds : List Descriptor)
    → block_of k (read_zone_headers block_at ds []) ≡ last_ending block_at k ds none
unfolding block_of
read_zone_headers-last_ending block_at k ds = kept_from block_at k ds []
