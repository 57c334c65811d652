-- ===== src/Tests/DiscoveryRuns.antt =====
-- Runs of the discovery handlers.
use mathlib.Core.Path.{subst}
use akri.Base.{
  ℕ, String, true, Option, none, some, List, [], ◌∷◌, map, Result, ok, err, ◌≡◌, ◌↔◌, refl, Elem,
  All, select, ◌==◌, if◌then◌else◌,
}
use akri.Base.Loops.{ok_injective}
use akri.Agent.Udev.{Field, Operation, UdevFilter, Device, DeviceInfo, info_of, is_remaining_filter}
use akri.Agent.Udev.Devices.{find_devices}
use akri.Agent.Handlers.{
  DiscoveryHandler, Surroundings, discover, do_parse_and_find, unshared_device,
}
use akri.Agent.Handlers.Union.{IsDistinct, IsFoundBy, discover-IsUnion}
use akri.Kube.Types.{
  UdevDiscoveryHandlerConfig, FilterType, FilterList, OnvifDiscoveryHandlerConfig, pos,
}
use akri.Agent.Opcua.{
  ApplicationType, ApplicationDescription, get_discovery_url_from_application_description,
  get_discovery_urls, find_tcp, should_include, choose_urls, collect_urls, dedup,
}
use akri.Agent.Opcua.Discovered.{HasUrls, HasNoTwins, IsNamedAt, get_discovery_urls_iff}
use akri.Agent.Onvif.{apply_filters, camera_result}
use akri.Agent.Onvif.Queries.{
  Value, text, inner_get_device_ip_and_mac_address, ip_address_path, mac_address_path,
}
use akri.Agent.Onvif.Addresses.{IsFirst, get_device_ip_and_mac_address_iff}
use akri.Agent.Onvif.Passed.{IsFound, apply_filters_iff}
use akri.Agent.Udev.Selection.{Satisfies}
use akri.Agent.Udev.Found.{find_devices_iff}

abbrev rule : List UdevFilter
rule =
    record { field = Field.kernel; operation = Operation.equality; value = "video*" }
    ∷ record { field = Field.subsystems; operation = Operation.equality; value = "usb" }
    ∷ []

abbrev part_of : String → Option String → DeviceInfo
part_of name system = record {
  devpath = name;
  devnode = some name;
  sysname = name;
  properties = [];
  attributes = [];
  driver = none;
  subsystem = system;
}

-- A camera below a usb port.
abbrev video : Device
video =
    Device.child (part_of "video0" (some "video4linux")) (Device.root (part_of "port" (some "usb")))

-- Every text is a pattern for itself, and all texts count as one character.
abbrev find_same : String → String → Option (ℕ × ℕ)
find_same pattern s = if pattern == s then some (0, 1) else none

-- The glob of the enumerator's part is no regular expression.
abbrev compile : String → Option String
compile s = if s == "video*" then none else some s

find_devices_iff_example :
    (paths : List String) × (find_devices compile find_same
        (λ s. 1)
        (λ s. s ∷ [])
        (λ calls. ok (video ∷ []))
        rule
      ≡ some (ok paths))
    × ((n : String)
        → Elem n paths ↔ (
            (d : Device) × Elem d (video ∷ [])
            × ((info_of d).devnode ≡ some n)
            × All
                (λ f. Satisfies compile find_same (λ s. 1) (λ s. s ∷ []) f d)
                (select is_remaining_filter rule)))
find_devices_iff_example =
    find_devices_iff compile find_same (λ s. 1) (λ s. s ∷ []) (λ calls. ok (video ∷ [])) rule
      (video ∷ []) refl (("usb", refl), tt)

abbrev application : String → ApplicationDescription
application u = record {
  application_type = ApplicationType.server;
  application_name = "camera";
  discovery_urls = some (u ∷ []);
}

abbrev names : Option FilterList
names = some (record { items = "camera" ∷ []; action = FilterType.include })

-- Of all discovery servers one knows two applications.
abbrev servers : String → Result (List ApplicationDescription)
servers lds =
    if lds == "lds-1"
    then ok (application "opc.tcp://a" ∷ application "opc.tcp://b" ∷ [])
    else ok (application "opc.tcp://a" ∷ [])

-- An application that is registered with two discovery servers is found twice.
found_twice :
    get_discovery_urls (λ u. true) (λ lds. true) servers ("lds-1" ∷ "lds-2" ∷ []) names
    ≡ some ("opc.tcp://a" ∷ "opc.tcp://b" ∷ "opc.tcp://a" ∷ [])
unfolding get_discovery_urls collect_urls choose_urls get_discovery_url_from_application_description
    should_include find_tcp dedup
found_twice = refl

abbrev one_server : String → Result (List ApplicationDescription)
one_server lds = ok (application "opc.tcp://a" ∷ [])

get_discovery_urls_iff_example :
    (us : List String) × (get_discovery_urls
        (λ u. true)
        (λ lds. true)
        one_server
        ("lds-1" ∷ [])
        names
      ≡ some us)
    × HasNoTwins us
    × ((u : String)
        → Elem u us ↔ (
            (lds : String) × Elem lds ("lds-1" ∷ [])
            × IsNamedAt (λ u. true) names (λ lds. true) one_server lds u))
get_discovery_urls_iff_example =
    get_discovery_urls_iff (λ u. true) names (λ lds. true) one_server ("lds-1" ∷ [])
      ((λ apps e. subst (All HasUrls) (ok_injective e) ((λ h. cc), tt)), tt)

abbrev onvif_config : OnvifDiscoveryHandlerConfig
onvif_config = record {
  ip_addresses = some (record { items = "10.0" ∷ []; action = FilterType.exclude });
  mac_addresses = none;
  scopes = none;
  discovery_timeout_seconds = pos 2;
}

apply_filters_iff_example :
    Elem (camera_result (λ s. s) "node-a" "http://cam" "10.1" "aa") (
      apply_filters
        (λ s p. s == p)
        (λ u. ok ("10.1", "aa"))
        (λ u. ok [])
        (λ s. s)
        "node-a"
        onvif_config
        ("http://cam" ∷ []))
    ↔ ((uri : String) × Elem uri ("http://cam" ∷ [])
        × IsFound
            (λ s p. s == p)
            (λ u. ok ("10.1", "aa"))
            (λ u. ok [])
            (λ s. s)
            "node-a"
            onvif_config
            uri
            (camera_result (λ s. s) "node-a" "http://cam" "10.1" "aa"))
apply_filters_iff_example =
    apply_filters_iff (λ s p. s == p) (λ u. ok ("10.1", "aa")) (λ u. ok []) (λ s. s) "node-a"
      onvif_config ("http://cam" ∷ []) (camera_result (λ s. s) "node-a" "http://cam" "10.1" "aa")

-- Two rules that find the same camera.
abbrev around : Surroundings
around = record {
  node_name = "node-a";
  digest_of = λ s. s;
  contains = λ s t. s == t;
  availability = ok "";
  simple_onvif_discover = ok [];
  get_device_ip_and_mac_address = λ u. err "none";
  get_device_scopes = λ u. err "none";
  parse = λ rule. ok [];
  scan_devices = λ calls. ok (video ∷ []);
  regex_new = some;
  regex_find = find_same;
  str_len = λ s. 1;
  split_colon = λ s. s ∷ [];
  is_tcp = λ u. true;
  connects = λ u. true;
  find_servers = λ u. ok [];
}

abbrev two_rules : UdevDiscoveryHandlerConfig
two_rules = record { udev_rules = "first" ∷ "second" ∷ [] }

discover-IsUnion_example :
    (paths : List String) × (discover around (DiscoveryHandler.udev two_rules)
      ≡ ok (map (unshared_device around) paths))
    × IsDistinct paths
    × ((n : String) → Elem n paths ↔ IsFoundBy (do_parse_and_find around) two_rules.udev_rules n)
unfolding do_parse_and_find akri.Agent.Udev.collect_filters find_devices
    akri.Agent.Udev.Devices.filter_by_remaining_udev_filters akri.Agent.Udev.Devices.devnodes
discover-IsUnion_example =
    discover-IsUnion around two_rules (("video0" ∷ [], refl), (("video0" ∷ [], refl), tt))

abbrev answer : String → String → Result Value
answer doc path = ok (text doc)

get_device_ip_and_mac_address_iff_example :
    (inner_get_device_ip_and_mac_address (λ url action message. ok url) answer "10.0.0.1"
      ≡ ok ("10.0.0.1", "10.0.0.1"))
    ↔ ((doc : String) × (Path (Result String) (ok "10.0.0.1") (ok doc))
        × IsFirst (answer doc ip_address_path) "10.0.0.1"
        × IsFirst (answer doc mac_address_path) "10.0.0.1")
get_device_ip_and_mac_address_iff_example =
    get_device_ip_and_mac_address_iff (λ url action message. ok url) answer "10.0.0.1" "10.0.0.1"
      "10.0.0.1"
