-- ===== src/Operator/Hosted.antt =====
-- pkg/operator/hypershift.go: the Tuned resources of ConfigMaps and those of the hosted cluster. The
-- resources of the cluster are a map by name; the outcomes of the API server's calls and
-- reflect.DeepEqual are parameters.
pub mod Laws
use cluster_node_tuning_oper.Base.{
  string_eq, String, Bool, true, false, not, Option, none, some, List, [], ◌∷◌, ◌==◌, ◌&&◌,
  if◌then◌else◌,
}
use cluster_node_tuning_oper.Base.Dict.{Dict, lookup, insert, erase}
use cluster_node_tuning_oper.Util.StringsMap.{Labels}
use cluster_node_tuning_oper.Operator.Types.{Result, ok, err, TunedProfile, TunedRecommend}

-- The fields of a Tuned that are read here.
pub record HostedTuned : Type 0 where
  pub name : String
  pub labels : Option Labels
  pub profile : Option (List TunedProfile)
  pub recommend : Option (List TunedRecommend)

-- A call succeeds, is refused for an invalid resource, or fails otherwise.
pub data Outcome : Type 0 where
  done : Outcome
  invalid : Outcome
  unserved : Outcome

pub record Cluster : Type 0 where
  pub create : String → Outcome
  pub update : String → Outcome
  pub deletes : String → Bool

-- reflect.DeepEqual at the types of the three fields.
pub record DeepEqual : Type 0 where
  pub profiles : Option (List TunedProfile) → Option (List TunedProfile) → Bool
  pub recommends : Option (List TunedRecommend) → Option (List TunedRecommend) → Bool
  pub label_maps : Option Labels → Option Labels → Bool

-- tunedMapFromList
unfoldable pub tuned_map_from_list :
    List HostedTuned → Dict String HostedTuned → Dict String HostedTuned
tuned_map_from_list [] m = m
tuned_map_from_list (t ∷ ts) m = tuned_map_from_list ts (insert t.name t m)

-- Both specs are compared, and the labels.
unfoldable pub in_sync : DeepEqual → HostedTuned → HostedTuned → Bool
in_sync eq cm hc =
    eq.profiles cm.profile hc.profile
    && (eq.recommends cm.recommend hc.recommend && eq.label_maps cm.labels hc.labels)

-- The resource that is sent in an update.
unfoldable pub new_tuned : HostedTuned → HostedTuned → HostedTuned
new_tuned cm hc = record hc { profile = cm.profile; recommend = cm.recommend }

-- The loop over cmTunedMap: what is left of hcTunedMap, the cluster's resources, whether it failed.
unfoldable pub sync_loop :
    Cluster
    → DeepEqual
    → Dict String HostedTuned
    → Dict String HostedTuned
    → Dict String HostedTuned
    → Dict String HostedTuned × (Dict String HostedTuned × Bool)
unfolding in_sync new_tuned
sync_loop api eq [] left hosted = (left, (hosted, false))
sync_loop api eq ((name, cm) ∷ cms) left hosted = elim (lookup name left) [
  | some hc ↦ elim (in_sync eq cm hc) [
    | true ↦ sync_loop api eq cms (erase name left) hosted
    | false ↦ elim (api.update name) [
      | done ↦ sync_loop api eq cms (erase name left) (insert name (new_tuned cm hc) hosted)
      | invalid ↦ sync_loop api eq cms (erase name left) hosted
      | unserved ↦ (left, (hosted, true))
    ]
  ]
  | none ↦ elim (api.create name) [
    | done ↦ sync_loop api eq cms left (insert name cm hosted)
    | invalid ↦ sync_loop api eq cms left hosted
    | unserved ↦ (left, (hosted, true))
  ]
]

-- The loop that deletes what is left, but for the default.
unfoldable pub delete_loop :
    Cluster → Dict String HostedTuned → Dict String HostedTuned → Dict String HostedTuned × Bool
delete_loop api [] hosted = (hosted, false)
delete_loop api ((name, _) ∷ left) hosted = elim (name == "default") [
  | true ↦ delete_loop api left hosted
  | false ↦ elim (api.deletes name) [
    | false ↦ (hosted, true)
    | true ↦ delete_loop api left (erase name hosted)
  ]
]

-- syncHostedClusterTuneds, with what the two lists return; the flag says whether there is an error.
unfoldable pub sync_hosted_cluster_tuneds :
    Cluster
    → DeepEqual
    → Result (List HostedTuned)
    → Result (List HostedTuned)
    → Dict String HostedTuned
    → Dict String HostedTuned × Bool
unfolding tuned_map_from_list sync_loop delete_loop
sync_hosted_cluster_tuneds api eq (err e) listed hosted = (hosted, true)
sync_hosted_cluster_tuneds api eq (ok cms) (err e) hosted = (hosted, true)
sync_hosted_cluster_tuneds api eq (ok cms) (ok hcs) hosted =
    let (left, (hosted', failed)) =
      sync_loop api eq (tuned_map_from_list cms []) (tuned_map_from_list hcs []) hosted in
    if failed then (hosted', true) else delete_loop api left hosted'
