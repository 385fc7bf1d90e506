-- ===== src/Tests/Keys.antt =====
-- The keys of two drivers.
use k8s_operator_libs.Prelude.{String, ◌≢◌}
use k8s_operator_libs.Consts.Keys.{Entry, key_of, IsOther, keys_differ}

drivers_differ : ◌≢◌ {A = String} "gpu" "network"
drivers_differ e = cc

keys_differ_example : key_of Entry.state "gpu" ≢ key_of Entry.state "network"
keys_differ_example =
    keys_differ Entry.state Entry.state "gpu" "network"
      (IsOther.two_drivers Entry.state "gpu" "network" drivers_differ)
