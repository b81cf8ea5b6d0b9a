-- ===== src/Tests/Validation.antt =====
-- pkg/apis/performanceprofile/v2 at concrete inputs.
use cluster_node_tuning_oper.Base.{
  String, ℕ, ◌≤◌, ◌<◌, ◌^◌, true, false, Option, none, some, [], ◌∷◌, ◌≡◌, refl, ◌↔◌, All,
  string_eq, nat_eq, if◌then◌else◌, ◌==◌,
}
use cluster_node_tuning_oper.Performance.Types.{PerformanceProfile, HugePage, HugePages}
use cluster_node_tuning_oper.Performance.Validation.Cpus.{Cpusets}
use cluster_node_tuning_oper.Performance.Validation.Fields.{validate_huge_pages}
use cluster_node_tuning_oper.Performance.Validation.Devices.{
  all_hex, text_length, is_valid_16bits_hex_id,
}
use cluster_node_tuning_oper.Performance.Validation.Basic.{validate_basic_fields}
use cluster_node_tuning_oper.Performance.Validation.Pages.{
  AllowedSize, PairwiseDiffer, DefaultAllowed, validate_huge_pages_iff,
}
use cluster_node_tuning_oper.Performance.Validation.Identifiers.{
  hex_value, Prefixed, is_valid_16bits_hex_id_bound,
}
use cluster_node_tuning_oper.Performance.Validation.Laws.{
  needs_cpu, unparsable, validate_basic_fields-crashes,
}

abbrev page : String → Option ℕ → HugePage
page size node = record { size = size; count = 4; node = node }

abbrev pages : HugePages
pages = record {
  default_huge_pages_size = some "1G";
  pages = page "1G" none ∷ page "2M" (some 0) ∷ page "2M" (some 1) ∷ [];
}

validate_huge_pages_iff_example :
    (validate_huge_pages (some pages) ≡ [])
    ↔ (DefaultAllowed pages × (All AllowedSize pages.pages × PairwiseDiffer pages.pages))
validate_huge_pages_iff_example = validate_huge_pages_iff pages

valid_id : is_valid_16bits_hex_id "0x1a2F" ≡ true
unfolding is_valid_16bits_hex_id nat_eq
valid_id = refl

is_valid_16bits_hex_id_bound_example :
    (digits : String) × (Prefixed "0x1a2F" digits
      × ((all_hex digits ≡ true)
          × ((1 ≤ text_length digits)
              × ((text_length digits ≤ 4) × (hex_value 0 digits < 2 ^ 16)))))
is_valid_16bits_hex_id_bound_example = is_valid_16bits_hex_id_bound "0x1a2F" valid_id

-- Sets of at most one CPU.
abbrev one_cpu : Cpusets
one_cpu = record {
  CpuSet = Option ℕ;
  parse = λ s.
      if s == ""
      then some none
      else (if s == "0" then some (some 0) else (if s == "1" then some (some 1) else none));
  is_empty = λ o. elim o [ none ↦ true | some _ ↦ false ];
  intersection = λ a b. elim a [
    | none ↦ []
    | some x ↦ elim b [ none ↦ [] | some y ↦ if x == y then x ∷ [] else [] ]
  ];
}

abbrev broken : PerformanceProfile
broken = record {
  name = "p";
  cpu = some (record { reserved = some "0"; isolated = some "1-"; offlined = none; shared = none });
  hardware_tuning = none;
  huge_pages = none;
  machine_config_label = none;
  machine_config_pool_selector = none;
  node_selector = none;
  real_time_kernel = none;
  numa = none;
  net = none;
  workload_hints = none;
}

validate_basic_fields-crashes_example :
    (validate_basic_fields one_cpu broken ≡ none)
    ↔ (elim (broken.cpu) [ none ↦ needs_cpu broken | some c ↦ unparsable one_cpu c ] ≡ true)
validate_basic_fields-crashes_example = validate_basic_fields-crashes one_cpu broken
