-- ===== src/Store/Tests.antt =====
-- Tests of the object map and the device hash of src/zstore_controller.cc.
use zstore.Common.{◌≡◌, List, [], ◌∷◌, false, ok}
use zstore.Conf.{default_conf}
use zstore.Hash.{KeyHash}
use zstore.Store.{MapEntry, DevTuple}
use zstore.Store.Map.{get_object}
use zstore.Store.Map.Assoc.{assoc_map}
use zstore.Store.Map.Laws.{Change, put, delete, history, last_write, get_object-history}
use zstore.Store.DevHash.{populate_dev_hash, get_dev_tuple}
use zstore.Store.DevHash.Tuples.{IsSpread, get_dev_tuple-IsSpread}

abbrev entry_a : MapEntry
entry_a = record {
  first = record { device_id = 1; lba = 10 };
  second = record { device_id = 3; lba = 20 };
  third = record { device_id = 4; lba = 30 };
  len = 1;
  tombstoned = false;
}

abbrev key_a : KeyHash
key_a = 1 ∷ 2 ∷ []

abbrev key_b : KeyHash
key_b = 1 ∷ 3 ∷ []

abbrev changes_a : List Change
changes_a = delete key_b ∷ put key_a entry_a ∷ put key_b entry_a ∷ []

get_object-history_example :
    get_object (assoc_map MapEntry) key_a (history (assoc_map MapEntry) entry_a changes_a)
    ≡ last_write key_a changes_a
get_object-history_example = get_object-history (assoc_map MapEntry) entry_a changes_a key_a

abbrev stored_a : List (KeyHash × MapEntry)
stored_a = (key_a, entry_a) ∷ (key_b, entry_a) ∷ []

get_dev_tuple-IsSpread_example :
    (t : DevTuple) × (get_dev_tuple (λ seed. seed) (populate_dev_hash default_conf []) key_a ≡ ok t)
    × IsSpread default_conf t
get_dev_tuple-IsSpread_example = get_dev_tuple-IsSpread default_conf (λ seed. seed) key_a
