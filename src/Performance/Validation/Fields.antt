-- ===== src/Performance/Validation/Fields.antt =====
-- pkg/apis/performanceprofile/v2/performanceprofile_validation.go: selectors, huge pages, NUMA and
-- frequencies; and GetFirstKeyAndValue and SplitLabelKey of
-- pkg/performanceprofile/controller/performanceprofile/components/utils.go.
use Prim.Native.Char.{code}
use cluster_node_tuning_oper.Base.{
  String, Bool, true, false, not, Option, none, some, List, [], ◌∷◌, ◌++◌, ◌==◌, ◌&&◌, ◌||◌,
  string_eq, nat_eq, if◌then◌else◌, length, ltb,
}
use cluster_node_tuning_oper.Util.StringsMap.{Labels, map_of_strings_equal}
use cluster_node_tuning_oper.Performance.Types.{
  PerformanceProfile, HardwareTuning, HugePage, HugePages, FieldErr, same_node_selector,
  many_machine_config_labels, many_pool_selectors, node_selector_required, many_node_selectors,
  node_selector_unsplittable, bad_default_size, bad_page_size, page_duplicated,
  page_duplicated_on_node, bad_topology_policy, isolated_freq_zero, reserved_freq_zero,
  freq_missing,
}
use cluster_node_tuning_oper.Performance.Validation.Cpus.{when}

-- reflect.DeepEqual of two maps of strings
unfoldable pub same_selector : Option Labels → Option Labels → Bool
unfolding map_of_strings_equal
same_selector none none = true
same_selector none (some b) = false
same_selector (some a) none = false
same_selector (some a) (some b) = map_of_strings_equal a b

unfoldable pub validate_node_selector_duplication :
    PerformanceProfile → List PerformanceProfile → List FieldErr
unfolding same_selector
validate_node_selector_duplication r [] = []
validate_node_selector_duplication r (pp ∷ rest) =
    (if pp.name == r.name
      then []
      else when (same_selector pp.node_selector r.node_selector) (same_node_selector pp.name))
    ++ validate_node_selector_duplication r rest

abbrev pub entries : Option Labels → Labels
entries none = []
entries (some d) = d

-- GetFirstKeyAndValue; the entries stand in the order in which Go's loop happens to meet them.
unfoldable pub get_first_key_and_value : Labels → String × String
get_first_key_and_value [] = ("", "")
get_first_key_and_value ((k, v) ∷ rest) = (k, v)

-- strings.Split(s, "/")
unfoldable pub split_slash : String → List String
split_slash String.[] = String.[] ∷ []
split_slash (String.◌∷◌ c s) =
    let rest = split_slash s in
    if code c == 47 then String.[] ∷ rest else elim rest [ [] ↦ [] | w ∷ ws ↦ String.◌∷◌ c w ∷ ws ]

-- SplitLabelKey; none is its error.
unfoldable pub split_label_key : String → Option (String × String)
unfolding split_slash
split_label_key s = elim (split_slash s) [
  | [] ↦ none
  | domain ∷ rest ↦ elim rest [
    | [] ↦ none
    | role ∷ more ↦ elim more [ [] ↦ some (domain, role) | _ ∷ _ ↦ none ]
  ]
]

abbrev pub is_nil {ℓ} : {A : Type ℓ} → Option A → Bool
is_nil none = true
is_nil (some _) = false

unfoldable pub validate_selectors : PerformanceProfile → List FieldErr
unfolding get_first_key_and_value split_label_key
validate_selectors r =
    when (ltb 1 (length (entries r.machine_config_label))) many_machine_config_labels
    ++ (when (ltb 1 (length (entries r.machine_config_pool_selector))) many_pool_selectors
        ++ (when (is_nil r.node_selector) node_selector_required
            ++ (when (ltb 1 (length (entries r.node_selector))) many_node_selectors
                ++ (if is_nil r.machine_config_label || is_nil r.machine_config_pool_selector
                    then when
                        (is_nil
                          (split_label_key (get_first_key_and_value (entries r.node_selector)).0))
                        node_selector_unsplittable
                    else []))))

abbrev pub is_page_size : String → Bool
is_page_size size = (size == "1G") || (size == "2M")

-- The body of the loop of validatePageDuplication.
unfoldable pub page_duplicates : HugePage → HugePage → List FieldErr
page_duplicates page p = if not (page.size == p.size) then [] else elim (page.node) [
  | none ↦ elim (p.node) [ none ↦ page_duplicated page.size ∷ [] | some _ ↦ [] ]
  | some n ↦ elim (p.node) [
    | none ↦ []
    | some m ↦ if n == m then page_duplicated_on_node page.size n ∷ [] else []
  ]
]

unfoldable pub validate_page_duplication : HugePage → List HugePage → List FieldErr
unfolding page_duplicates
validate_page_duplication page [] = []
validate_page_duplication page (p ∷ ps) =
    page_duplicates page p ++ validate_page_duplication page ps

unfoldable pub validate_pages : List HugePage → List FieldErr
unfolding validate_page_duplication
validate_pages [] = []
validate_pages (p ∷ ps) =
    when (not (is_page_size p.size)) bad_page_size
    ++ (validate_page_duplication p ps ++ validate_pages ps)

unfoldable pub validate_huge_pages : Option HugePages → List FieldErr
unfolding validate_pages
validate_huge_pages none = []
validate_huge_pages (some h) =
    elim (h.default_huge_pages_size) [
      | none ↦ []
      | some size ↦ when (not (is_page_size size)) bad_default_size
    ]
    ++ validate_pages h.pages

-- The policies are the constants of k8s.io/kubelet/config/v1beta1.
unfoldable pub validate_numa : Option (Option String) → List FieldErr
validate_numa none = []
validate_numa (some none) = []
validate_numa (some (some policy)) =
    when
      (not (policy == "none")
        && (not (policy == "best-effort")
            && (not (policy == "restricted") && not (policy == "single-numa-node"))))
      bad_topology_policy

unfoldable pub validate_cpu_frequency : Option HardwareTuning → List FieldErr
validate_cpu_frequency none = []
validate_cpu_frequency (some t) = elim (t.isolated_cpu_freq) [
  | none ↦ freq_missing ∷ []
  | some isolated ↦ elim (t.reserved_cpu_freq) [
    | none ↦ freq_missing ∷ []
    | some reserved ↦
        when (isolated == 0) isolated_freq_zero ++ when (reserved == 0) reserved_freq_zero
  ]
]
