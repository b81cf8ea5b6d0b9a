-- ===== src/Performance/Validation/Devices.antt =====
-- pkg/apis/performanceprofile/v2/performanceprofile_validation.go: network devices and workload hints.
-- `none` is a nil pointer dereference.
use Prim.Native.Char.{Char, code}
use cluster_node_tuning_oper.Base.{
  String, ℕ, suc, Bool, true, false, not, Option, none, some, List, [], ◌∷◌, ◌++◌, ◌==◌, ◌&&◌, ◌||◌,
  string_eq, nat_eq, if◌then◌else◌, ltb, leb,
}
use cluster_node_tuning_oper.Performance.Types.{
  Cpu, Net, Device, WorkloadHints, FieldErr, queues_without_reserved, empty_device_name,
  bad_vendor_id, bad_device_id, device_without_vendor, real_time_hint_disabled,
  power_hints_conflict, mixed_without_shared,
}
use cluster_node_tuning_oper.Performance.Validation.Cpus.{when}
use cluster_node_tuning_oper.Performance.Validation.Fields.{is_nil}

-- `p != nil && *p`
abbrev pub is_on : Option Bool → Bool
is_on none = false
is_on (some b) = b

-- [0-9a-fA-F]
abbrev pub is_hex_digit : Char → Bool
is_hex_digit c =
    (leb 48 (code c) && leb (code c) 57)
    || ((leb 97 (code c) && leb (code c) 102) || (leb 65 (code c) && leb (code c) 70))

unfoldable pub all_hex : String → Bool
all_hex String.[] = true
all_hex (String.◌∷◌ c s) = is_hex_digit c && all_hex s

-- The length of a string; where the pattern matches, a byte is a character.
unfoldable pub text_length : String → ℕ
text_length String.[] = 0
text_length (String.◌∷◌ c s) = suc (text_length s)

-- The pattern ^0x[0-9a-fA-F]+$
unfoldable pub matches_hex : String → Bool
unfolding all_hex
matches_hex String.[] = false
matches_hex (String.◌∷◌ a String.[]) = false
matches_hex (String.◌∷◌ a (String.◌∷◌ b String.[])) = false
matches_hex (String.◌∷◌ a (String.◌∷◌ b (String.◌∷◌ c s))) =
    (code a == 48) && ((code b == 120) && (is_hex_digit c && all_hex s))

-- isValid16bitsHexID
unfoldable pub is_valid_16bits_hex_id : String → Bool
unfolding matches_hex text_length
is_valid_16bits_hex_id v = matches_hex v && ltb (text_length v) 7

-- `p != nil && !isValid16bitsHexID(*p)`
unfoldable pub validate_id : Option String → (String → FieldErr) → List FieldErr
unfolding is_valid_16bits_hex_id
validate_id none e = []
validate_id (some v) e = when (not (is_valid_16bits_hex_id v)) (e v)

abbrev pub is_empty_name : Option String → Bool
is_empty_name none = false
is_empty_name (some s) = s == ""

unfoldable pub validate_devices : List Device → List FieldErr
unfolding validate_id
validate_devices [] = []
validate_devices (d ∷ ds) =
    when (is_empty_name d.interface_name) empty_device_name
    ++ (validate_id d.vendor_id bad_vendor_id
        ++ (validate_id d.device_id bad_device_id
            ++ (when (not (is_nil d.device_id) && is_nil d.vendor_id) device_without_vendor
                ++ validate_devices ds)))

-- validateNet dereferences the CPU section if user level networking is on.
unfoldable pub validate_net : Option Cpu → Option Net → Option (List FieldErr)
unfolding validate_devices
validate_net cpu none = some []
validate_net cpu (some net) =
    if is_on net.user_level_networking
    then (elim cpu [
      | none ↦ none
      | some c ↦
          some (when (is_nil c.reserved) queues_without_reserved ++ validate_devices net.devices)
    ])
    else some (validate_devices net.devices)

-- `p != nil && !*p`
abbrev pub is_off : Option Bool → Bool
is_off none = false
is_off (some b) = not b

abbrev pub is_blank : Option String → Bool
is_blank none = true
is_blank (some s) = s == ""

-- validateWorkloadHints dereferences the CPU section if mixed CPUs are on.
unfoldable pub validate_workload_hints :
    Option Cpu → Option (Option Bool) → Option WorkloadHints → Option (List FieldErr)
validate_workload_hints cpu real_time none = some []
validate_workload_hints cpu real_time (some h) =
    let errs =
      when (elim real_time [ none ↦ false | some enabled ↦ is_on enabled ] && is_off h.real_time)
        real_time_hint_disabled
      ++ when (is_on h.high_power_consumption && is_on h.per_pod_power_management)
          power_hints_conflict in
    if is_on h.mixed_cpus
    then (elim cpu [
      | none ↦ none
      | some c ↦ some (errs ++ when (is_blank c.shared) mixed_without_shared)
    ])
    else some errs
