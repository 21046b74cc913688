-- ===== src/Placement/Tests.antt =====
-- Tests of PopulateMap (src/zstore_controller.cc).
use zstore.Common.{ℕ, suc, ◌+◌, ◌*◌, ◌%◌, ◌≡◌, [], ◌∷◌, arith}
use zstore.Conf.{default_conf}
use zstore.Hash.{KeyHash}
use zstore.Placement.{advance, cursor}
use zstore.Placement.Walk.{base, advance-cursor}
use zstore.Placement.Filled.{IsInjective}

-- The last block that the second zone takes: one behind its capacity.
advance-cursor_example :
    (advance default_conf (cursor default_conf (1 * suc default_conf.zone_cap + 275456))
      ≡ record { zone = 65 + 1; lba = base default_conf 1 + 275456 })
    × ((base default_conf 1 + 275456) % default_conf.zone_dist ≡ 275456)
advance-cursor_example =
    advance-cursor default_conf 1 275456
      (record { gap = omega arith; zone_u32 = omega arith; lba_u64 = omega arith }) (omega arith)

-- A hash for each number, in place of SHA-256.
abbrev key_of_a : ℕ → KeyHash
key_of_a i = i ∷ []

key_of_a-IsInjective : IsInjective key_of_a 3
key_of_a-IsInjective i j p q e = cc
