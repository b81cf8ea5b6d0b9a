-- ===== src/Daemon/Extract/Provider.antt =====
-- pkg/tuned/controller.go: the file with the name of the cloud provider. No file is read as none.
use cluster_node_tuning_oper.Base.{
  nat_eq, list_eq, ◌≡◌, arith, Option, none, some, ◌==◌, not, Bool, true, false, [], if◌then◌else◌,
  ◌↔◌,
}
use cluster_node_tuning_oper.Daemon.Builtin.{Bytes}

-- Which operations on a file succeed, and what stands in it after an attempt to write.
pub record Output : Type 0 where
  pub readable : Bool
  pub create : Bool
  pub write : Bytes → Bytes × Bool

pub record Synced : Type 0 where
  pub change : Bool
  pub failed : Bool
  pub file : Option Bytes

-- providerExtract: the file, and whether there is an error.
unfoldable pub provider_extract : Output → Bytes → Option Bytes → Option Bytes × Bool
provider_extract out provider file =
    if out.create then (some (out.write provider).0, not (out.write provider).1) else (file, true)

unfoldable pub provider_sync : Output → Bytes → Option Bytes → Synced
unfolding provider_extract
provider_sync out provider none =
    let (file, failed) = provider_extract out provider none in
    record { change = not (provider == []); failed = failed; file = file }
provider_sync out provider (some current) =
    if not out.readable
    then record { change = false; failed = true; file = some current }
    else if provider == current
    then record { change = false; failed = false; file = some current }
    else let (file, failed) = provider_extract out provider (some current) in
      record { change = true; failed = failed; file = file }

-- Where no operation fails, the file holds the provider afterwards, and a change is reported
-- exactly if it did not: no file counts as an empty one.
pub provider_sync-roundtrip :
    (out : Output) (provider : Bytes) (file : Option Bytes)
    → out.readable ≡ true
    → out.create ≡ true
    → ((text : Bytes) → out.write text ≡ (text, true))
    → ((provider_sync out provider file).failed ≡ false)
      × ((provider_sync out provider file).file ≡ some provider)
      × (((provider_sync out provider file).change ≡ false)
          ↔ (elim file [ none ↦ [] | some t ↦ t ] ≡ provider))
unfolding provider_sync provider_extract
provider_sync-roundtrip out provider none r c w =
    (ground (arith, w provider), ground (arith, w provider), ground (arith, w provider))
provider_sync-roundtrip out provider (some t) r c w =
    (ground (arith, w provider), ground (arith, w provider), ground (arith, w provider))
