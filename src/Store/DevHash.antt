-- ===== src/Store/DevHash.antt =====
-- The device hash: PopulateDevHash, GetDevTuple and GetDevTupleForRandomReads of
-- src/zstore_controller.cc. `rand seed` is the first number of std::rand after std::srand(seed).
pub mod Tuples
use mathlib.Core.List.{flat_map}
use zstore.Common.{
  ℕ, ◌%◌, Bool, true, false, ◌||◌, not, List, [], ◌∷◌, ◌++◌, map, length, get_elem?, ◌==◌,
  if◌then◌else◌, u32_mod, Result, ok, err, exception, out_of_bounds, Option, none, some,
}
use zstore.Conf.{Conf}
use zstore.Hash.{KeyHash, array_to_seed}
use zstore.Store.{Target, DevTuple, MapEntry, create_map_entry}

abbrev pub target : Conf → ℕ → Target
target c i = record { device_id = i; zone_id = c.current_zone }

abbrev pub device_indices : List ℕ
device_indices = 0 ∷ 1 ∷ 2 ∷ 3 ∷ 4 ∷ 5 ∷ []

abbrev dev_tuple : Conf → ℕ → ℕ → ℕ → DevTuple
dev_tuple c i j k = record { first = target c i; second = target c j; third = target c k }

-- The three loops. `target c i` is `tgt_dev_vec[i]`.
pub loop_k : Conf → ℕ → ℕ → List ℕ → List DevTuple
loop_k c i j [] = []
loop_k c i j (k ∷ ks) =
    let rest = loop_k c i j ks in if (i == k) || (j == k) then rest else dev_tuple c i j k ∷ rest

pub loop_j : Conf → ℕ → List ℕ → List DevTuple
unfolding loop_k
loop_j c i [] = []
loop_j c i (j ∷ js) =
    let rest = loop_j c i js in if i == j then rest else loop_k c i j device_indices ++ rest

pub loop_i : Conf → List ℕ → List DevTuple
unfolding loop_j
loop_i c [] = []
loop_i c (i ∷ is) = loop_j c i device_indices ++ loop_i c is

-- The tuples go behind what is there.
pub populate_dev_hash : Conf → List DevTuple → List DevTuple
unfolding loop_i
populate_dev_hash c hash = hash ++ loop_i c device_indices

-- An empty hash divides by zero.
pub get_dev_tuple : (ℕ → ℕ) → List DevTuple → KeyHash → Result DevTuple
get_dev_tuple rand hash key =
    if length hash == 0
    then err exception
    else elim (get_elem? hash (rand (array_to_seed key) % length hash)) [
      | none ↦ err out_of_bounds
      | some t ↦ ok t
    ]

pub get_dev_tuple_for_random_reads : Conf → DevTuple
get_dev_tuple_for_random_reads c = dev_tuple c 1 3 4

-- The entry that stands for an object that is being written.
unfoldable pub create_fake_object : DevTuple → MapEntry
create_fake_object t = create_map_entry t 0 0 0 1
