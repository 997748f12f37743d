-- ===== src/Uuid/Examples.antt =====
-- The packing at a concrete time and counter.
use wednesday.Base.{ℕ, ◌+◌, ◌/◌, ◌≡◌, Memory}
use wednesday.Uuid.{uuid_v7_package, uuid_v8_package, uuid_names_version}

abbrev zeros : Memory
zeros x = 0

-- Every byte is the counter's lowest.
abbrev lowest : ℕ → ℕ → ℕ
lowest counter k = counter

uuid_names_version_example :
    (uuid_v7_package zeros 32 1700000000000 77 99 (32 + 6) / 16 ≡ 7)
    × (uuid_v7_package zeros 32 1700000000000 77 99 (32 + 8) / 64 ≡ 2)
    × (uuid_v8_package lowest zeros 32 5 (32 + 6) / 16 ≡ 8)
    × (uuid_v8_package lowest zeros 32 5 (32 + 8) / 64 ≡ 0)
uuid_names_version_example = uuid_names_version lowest zeros 32 1700000000000 77 99 5
