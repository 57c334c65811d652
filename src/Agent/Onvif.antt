-- ===== src/Agent/Onvif.antt =====
-- agent/src/protocols/onvif/discovery_handler.rs: which cameras pass the filters of a Configuration, with
-- `DiscoveryResult::new` of agent/src/protocols/mod.rs. The queries of a camera, the hash and the substring
-- test of the standard library are parameters.
pub mod Passed
pub mod Queries
pub mod Addresses
use akri.Base.{
  ℕ, String, Bool, true, false, Option, none, some, List, [], ◌∷◌, length, select, not, nat_eq,
  Result, ok, err, if◌then◌else◌,
}
use akri.Base.HashMap.{HashMap, insert}
use akri.Kube.Types.{FilterType, FilterList, OnvifDiscoveryHandlerConfig}
use akri.Kube.Pods.{◌<>◌}
use akri.Agent.Connectivity.{DiscoveryResult}

abbrev pub onvif_device_service_url_label_id : String
onvif_device_service_url_label_id = "ONVIF_DEVICE_SERVICE_URL"

abbrev pub onvif_device_ip_address_label_id : String
onvif_device_ip_address_label_id = "ONVIF_DEVICE_IP_ADDRESS"

abbrev pub onvif_device_mac_address_label_id : String
onvif_device_mac_address_label_id = "ONVIF_DEVICE_MAC_ADDRESS"

-- `digest_of` is the hash, written out; the node's name comes from the environment.
abbrev pub new_discovery_result :
    (String → String) → String → String → HashMap String → Bool → DiscoveryResult
new_discovery_result digest_of node_name id_to_digest properties shared = record {
  digest = digest_of (if shared then id_to_digest else id_to_digest <> node_name);
  properties = properties;
}

abbrev pub camera_result : (String → String) → String → String → String → String → DiscoveryResult
camera_result digest_of node_name device_service_url ip_address mac_address =
    new_discovery_result digest_of node_name (ip_address <> "-" <> mac_address)
      (insert onvif_device_mac_address_label_id mac_address (
        insert onvif_device_ip_address_label_id ip_address
          (insert onvif_device_service_url_label_id device_service_url [])))
      true

abbrev pub push_result : Option DiscoveryResult → List DiscoveryResult → List DiscoveryResult
push_result none rest = rest
push_result (some r) rest = r ∷ rest

-- By whether no pattern was found.
abbrev pub leaves_out : FilterType → Bool → Bool
leaves_out FilterType.include none_found = none_found
leaves_out FilterType.exclude none_found = not none_found

-- `contains item pattern` is `str::contains`.
module _ (contains : String → String → Bool) where
  abbrev pub matches_some : List String → String → Bool
  matches_some filter_against pattern =
      not (nat_eq (length (select (λ item. contains item pattern) filter_against)) 0)

  -- True if the camera is to be left out.
  unfoldable pub execute_filter : Option FilterList → List String → Bool
  execute_filter none filter_against = false
  execute_filter (some filter_list) filter_against =
      leaves_out filter_list.action
        (nat_eq (length (select (matches_some filter_against) filter_list.items)) 0)

  module _ (get_device_ip_and_mac_address : String → Result (String × String))
      (get_device_scopes : String → Result (List String)) (digest_of : String → String)
      (node_name : String) (config : OnvifDiscoveryHandlerConfig) where
    abbrev pub with_scopes :
        String → String → String → Result (List String) → Option DiscoveryResult
    with_scopes device_service_url ip_address mac_address (err e) = none
    with_scopes device_service_url ip_address mac_address (ok device_scopes) =
        if execute_filter config.scopes device_scopes
        then none
        else some (camera_result digest_of node_name device_service_url ip_address mac_address)

    abbrev pub with_addresses : String → Result (String × String) → Option DiscoveryResult
    with_addresses device_service_url (err e) = none
    with_addresses device_service_url (ok (ip_address, mac_address)) =
        if execute_filter config.ip_addresses (ip_address ∷ [])
        then none
        else if execute_filter config.mac_addresses (mac_address ∷ [])
        then none
        else with_scopes device_service_url ip_address mac_address
            (get_device_scopes device_service_url)

    unfoldable pub apply_filters : List String → List DiscoveryResult
    apply_filters [] = []
    apply_filters (device_service_url ∷ urls) =
        push_result
          (with_addresses device_service_url (get_device_ip_and_mac_address device_service_url))
          (apply_filters urls)
