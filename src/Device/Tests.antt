-- ===== src/Device/Tests.antt =====
-- Tests of src/zone.cc and src/device.cc.
use zstore.Common.{none, ℕ, ◌≡◌, refl, List, [], ◌∷◌}
use zstore.Device.{Device}
use zstore.Device.Headers.{Descriptor, full, explicitly_open, other, read_zone_headers, block_of}
use zstore.Device.Headers.Kept.{last_ending, read_zone_headers-last_ending}

abbrev bare : Device
bare = record {
  device_id = 0;
  zone_size = 100;
  zone_capacity = 100;
  num_zones = 2;
  zones = [];
  available_zones = [];
  zone_id = 0;
}

abbrev three : Device
three = record bare { available_zones = 0 ∷ 1 ∷ 4 ∷ [] }

abbrev report_a : List Descriptor
report_a =
    record { state = full; write_pointer = 900; zslba = 500 }
    ∷ record { state = other; write_pointer = 1500; zslba = 1000 }
    ∷ record { state = explicitly_open; write_pointer = 2000; zslba = 2000 }
    ∷ []

abbrev block_at_a : ℕ → List ℕ
block_at_a address = address ∷ []

-- Only the first zone was written to.
headers_of_report : read_zone_headers block_at_a report_a [] ≡ (900, (500 ∷ [])) ∷ []
unfolding read_zone_headers
headers_of_report = refl

read_zone_headers-last_ending_example :
    block_of 900 (read_zone_headers block_at_a report_a [])
    ≡ last_ending block_at_a 900 report_a none
read_zone_headers-last_ending_example = read_zone_headers-last_ending block_at_a 900 report_a
