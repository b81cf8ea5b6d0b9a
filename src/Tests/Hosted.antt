-- ===== src/Tests/Hosted.antt =====
-- pkg/operator/hypershift.go at concrete inputs.
use cluster_node_tuning_oper.Base.{
  String, Bool, true, false, Option, none, some, List, [], ◌∷◌, ◌≡◌, refl, ◌==◌, if◌then◌else◌,
  string_eq,
}
use cluster_node_tuning_oper.Base.Dict.{Dict, lookup}
use cluster_node_tuning_oper.Util.StringsMap.{Labels, map_of_strings_equal}
use cluster_node_tuning_oper.Operator.Types.{ok, TunedProfile}
use cluster_node_tuning_oper.Operator.Hosted.{
  HostedTuned, Cluster, done, DeepEqual, tuned_map_from_list, sync_hosted_cluster_tuneds, in_sync,
}
use cluster_node_tuning_oper.Operator.Hosted.Laws.{
  Serves, Sound, put, sync_hosted_cluster_tuneds_lem,
}

abbrev api : Cluster
api = record { create = λ _. done; update = λ _. done; deletes = λ _. true }

api-Serves : Serves api
api-Serves = record { created = λ _. refl; updated = λ _. refl; deleted = λ _. refl }

-- Equality of slices that have no elements.
unfoldable nils_equal : {A : Type 0} → Option (List A) → Option (List A) → Bool
nils_equal none none = true
nils_equal none (some _) = false
nils_equal (some _) none = false
nils_equal (some []) (some []) = true
nils_equal (some []) (some (_ ∷ _)) = false
nils_equal (some (_ ∷ _)) (some _) = false

nils_equal_sound : {A : Type 0} (a b : Option (List A)) → nils_equal a b ≡ true → a ≡ b
unfolding nils_equal
nils_equal_sound none none h = refl
nils_equal_sound none (some _) h = cc
nils_equal_sound (some _) none h = cc
nils_equal_sound (some []) (some []) h = refl
nils_equal_sound (some []) (some (_ ∷ _)) h = cc
nils_equal_sound (some (_ ∷ _)) (some _) h = cc

unfoldable labels_equal : Option Labels → Option Labels → Bool
labels_equal none none = true
labels_equal none (some _) = false
labels_equal (some _) none = false
labels_equal (some a) (some b) = map_of_strings_equal a b

abbrev deep_equal : DeepEqual
deep_equal = record { profiles = nils_equal; recommends = nils_equal; label_maps = labels_equal }

deep_equal-Sound : Sound deep_equal
deep_equal-Sound = record { profiles = nils_equal_sound; recommends = nils_equal_sound }

abbrev tuned : String → Option Labels → Option (List TunedProfile) → HostedTuned
tuned name labels profile = record {
  name = name;
  labels = labels;
  profile = profile;
  recommend = none;
}

-- One as it was, one with another profile, and a new one.
abbrev wanted : List HostedTuned
wanted =
    tuned "a" none none
    ∷ tuned "b" (some []) (some (record { name = some "rt"; contents = none } ∷ []))
    ∷ tuned "c" none none
    ∷ []

-- Besides, one that is stale and the default.
abbrev listed : List HostedTuned
listed =
    tuned "a" none none
    ∷ tuned "b" none none
    ∷ tuned "old" none none
    ∷ tuned "default" none none
    ∷ []

abbrev hosted : Dict String HostedTuned
hosted = tuned_map_from_list listed []

sync_hosted_cluster_tuneds_lem_example :
    let (hosted', failed) =
      sync_hosted_cluster_tuneds api deep_equal (ok wanted) (ok listed) hosted in
    (failed ≡ false)
    × ((k : String)
        → lookup k hosted' ≡ elim (lookup k (tuned_map_from_list wanted [])) [
          | some cm ↦ some (put cm (lookup k hosted))
          | none ↦ if k == "default" then lookup k hosted else none
        ])
sync_hosted_cluster_tuneds_lem_example =
    sync_hosted_cluster_tuneds_lem api deep_equal wanted listed hosted api-Serves deep_equal-Sound
      (λ _. refl)

-- A resource with another label is not in sync after the update either.
labels_stay :
    in_sync deep_equal
      (tuned "a" (some []) none)
      (put (tuned "a" (some []) none) (some (tuned "a" none none)))
    ≡ false
unfolding in_sync nils_equal labels_equal
labels_stay = refl
