-- ===== src/Device/Headers.antt =====
-- Device::ReadZoneHeaders of src/device.cc. The report of the zones is SPDK's, and `block_at` is what the
-- block at an address holds. A std::map is the list of its entries in ascending order.
pub mod Kept
use zstore.Common.{
  ℕ, ◌-◌, Bool, true, false, not, ◌&&◌, Option, none, some, List, [], ◌∷◌, ltb, ◌==◌, if◌then◌else◌,
  u64_mod,
}

-- The states of a zone that the loop tells apart; `other` stands for all that it skips.
pub data ZoneState : Type 0 where
  full implicitly_open explicitly_open other : ZoneState

pub record Descriptor : Type 0 where
  pub state : ZoneState
  pub write_pointer : ℕ
  pub zslba : ℕ

pub has_write_pointer : ZoneState → Bool
has_write_pointer other = false
has_write_pointer full = true
has_write_pointer implicitly_open = true
has_write_pointer explicitly_open = true

-- `~0ull` means that there is nothing to read.
abbrev pub nothing : ℕ
nothing = u64_mod - 1

-- Where the zone is written to, if something was written.
pub pointer_of : Descriptor → ℕ
unfolding has_write_pointer
pointer_of d =
    if has_write_pointer d.state && not (d.write_pointer == d.zslba)
    then d.write_pointer
    else nothing

-- `zones[wp] = buffer`
pub assign : ℕ → List ℕ → List (ℕ × List ℕ) → List (ℕ × List ℕ)
assign k buffer [] = (k, buffer) ∷ []
assign k buffer ((j, x) ∷ zones) =
    if ltb k j
    then (k, buffer) ∷ (j, x) ∷ zones
    else if k == j
    then (k, buffer) ∷ zones
    else (j, x) ∷ assign k buffer zones

-- The loop over the report.
unfoldable pub read_zone_headers :
    (ℕ → List ℕ) → List Descriptor → List (ℕ × List ℕ) → List (ℕ × List ℕ)
unfolding pointer_of assign
read_zone_headers block_at [] zones = zones
read_zone_headers block_at (d ∷ ds) zones =
    read_zone_headers block_at ds
      (if pointer_of d == nothing then zones else assign (pointer_of d) (block_at d.zslba) zones)

pub block_of : ℕ → List (ℕ × List ℕ) → Option (List ℕ)
block_of k [] = none
block_of k ((j, x) ∷ zones) = if k == j then some x else block_of k zones
