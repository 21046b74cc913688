-- ===== src/Placement/Walk.antt =====
-- Where the loops of PopulateMap (src/zstore_controller.cc) put the objects.
use native.Mathlib.Nat.{mod-eq_of_lt, mul-add-mod_self_right, suc-mul, add-suc, zero-mul}
use zstore.Common.{
  ℕ, zero, suc, ◌+◌, ◌*◌, ◌%◌, ◌≤◌, ◌<◌, ◌≡◌, refl, ap, ◌∙◌, lt→ltb, le→ltb_false, arith, u32_mod,
  u64_mod,
}
use zstore.Conf.{Conf}
use zstore.Placement.{Cursor, advance, increment, cursor}

-- The start of the q-th zone that is filled. The first objects go to the addresses from 0 on.
abbrev pub base : Conf → ℕ → ℕ
base c zero = 0
base c (suc q) = (c.current_zone + suc q) * c.zone_dist

-- What the walk needs up to its q-th zone: a gap of more than one block between the capacity and the
-- next zone, and numbers in the range of their types.
pub record IsWalkable (c : Conf) (q : ℕ) : Type 0 where
  pub gap : c.zone_cap + 1 < c.zone_dist
  pub zone_u32 : c.current_zone + q < u32_mod
  pub lba_u64 : base c q + c.zone_dist < u64_mod

abbrev place : Conf → ℕ → ℕ → Cursor
place c q r = record { zone = c.current_zone + q; lba = base c q + r }

base-mod : (c : Conf) (q r : ℕ) → r < c.zone_dist → (base c q + r) % c.zone_dist ≡ r
base-mod c zero r h = ap (λ x. x % c.zone_dist) (omega arith) ∙ mod-eq_of_lt h
base-mod c (suc q) r h =
    mul-add-mod_self_right (c.current_zone + suc q) c.zone_dist r ∙ mod-eq_of_lt h

base-suc : (c : Conf) (q : ℕ) → base c q + c.zone_dist ≤ base c (suc q)
base-suc c zero = rw (add-suc, suc-mul) (omega arith)
base-suc c (suc q) =
    rw (add-suc c.current_zone (suc q), suc-mul (c.current_zone + suc q) c.zone_dist) (omega arith)

IsWalkable-pred : (c : Conf) (q : ℕ) → IsWalkable c (suc q) → IsWalkable c q
IsWalkable-pred c q w = record {
  gap = w.gap;
  zone_u32 = omega (arith, w.zone_u32);
  lba_u64 = omega (arith, w.lba_u64, base-suc c q);
}

advance-stays :
    (c : Conf) (q r : ℕ) → IsWalkable c q → r ≤ c.zone_cap → advance c (place c q r) ≡ place c q r
unfolding advance
advance-stays c q r w h =
    rw (base-mod c q r (omega (arith, w.gap))) (rw (le→ltb_false c.zone_cap r h) refl)

advance-moves :
    (c : Conf) (q : ℕ)
    → IsWalkable c (suc q)
    → advance c (place c q (suc c.zone_cap)) ≡ place c (suc q) 0
unfolding advance
advance-moves c q w =
    let zone : (c.current_zone + q + 1) % u32_mod ≡ c.current_zone + suc q =
      ap (λ x. x % u32_mod) (omega arith) ∙ mod-eq_of_lt w.zone_u32 in
    let lba : (c.current_zone + suc q) * c.zone_dist % u64_mod ≡ base c (suc q) + 0 =
      mod-eq_of_lt (omega (arith, w.lba_u64)) ∙ omega arith in
    rw (base-mod c q (suc c.zone_cap) (omega (arith, w.gap)))
      (rw (lt→ltb c.zone_cap (suc c.zone_cap) (omega arith)) (rw zone (rw lba refl)))

increment-place :
    (c : Conf) (q r : ℕ)
    → IsWalkable c q
    → r ≤ c.zone_cap
    → increment (place c q r) ≡ place c q (suc r)
unfolding increment
increment-place c q r w h =
    ap (λ x. record { zone = c.current_zone + q; lba = x })
      (mod-eq_of_lt (omega (arith, w.lba_u64, w.gap)) ∙ omega arith)

walk :
    (c : Conf) (q r : ℕ)
    → IsWalkable c q
    → r ≤ c.zone_cap
    → advance c (cursor c (q * suc c.zone_cap + r)) ≡ place c q r
unfolding cursor
walk c zero zero w h =
    let count : 0 * suc c.zone_cap + 0 ≡ 0 = omega (arith, zero-mul (suc c.zone_cap)) in
    let zone : c.current_zone % u32_mod ≡ c.current_zone + 0 =
      mod-eq_of_lt (omega (arith, w.zone_u32)) ∙ omega arith in
    let start : cursor c (0 * suc c.zone_cap + 0) ≡ place c 0 0 =
      ap (cursor c) count ∙ ap (λ x. record { zone = x; lba = 0 }) zone in
    ap (advance c) start ∙ advance-stays c 0 0 w h
walk c q (suc r) w h =
    let before : cursor c (q * suc c.zone_cap + suc r) ≡ place c q (suc r) =
      ap (cursor c) (add-suc (q * suc c.zone_cap) r)
      ∙ ap increment (walk c q r w (omega arith))
      ∙ increment-place c q r w (omega arith) in
    ap (advance c) before ∙ advance-stays c q (suc r) w h
walk c (suc q) zero w h =
    let w' = IsWalkable-pred c q w in
    let count : suc q * suc c.zone_cap + 0 ≡ suc (q * suc c.zone_cap + c.zone_cap) =
      omega (arith, suc-mul q (suc c.zone_cap)) in
    let before : cursor c (suc q * suc c.zone_cap + 0) ≡ place c q (suc c.zone_cap) =
      ap (cursor c) count
      ∙ ap increment (walk c q c.zone_cap w' (omega arith))
      ∙ increment-place c q c.zone_cap w' (omega arith) in
    ap (advance c) before ∙ advance-moves c q w

-- Object number q * (zone_cap + 1) + r of a loop goes to block r of the q-th zone that is filled: the
-- zones follow the current one, except that the first objects go to the addresses from 0 on. So a zone
-- takes zone_cap + 1 objects, one more than its capacity, and the offset in the zone is at most zone_cap.
-- The conditions: a gap of more than one block behind the capacity, and no number out of its range.
pub advance-cursor :
    (c : Conf) (q r : ℕ)
    → IsWalkable c q
    → r ≤ c.zone_cap
    → (advance c (cursor c (q * suc c.zone_cap + r))
        ≡ record { zone = c.current_zone + q; lba = base c q + r })
      × ((base c q + r) % c.zone_dist ≡ r)
advance-cursor c q r w h = (walk c q r w h, base-mod c q r (omega (arith, w.gap)))
