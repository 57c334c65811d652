-- ===== src/Agent/Handlers.antt =====
-- agent/src/protocols/mod.rs and the discovery_handler.rs of each protocol below it: the choice of a handler
-- for a Configuration, and what the handlers discover. What the handlers ask of the node and the
-- network, the parser of udev rules, the hash and the texts' tests are parameters. A panic is an error.
pub mod Union
use akri.Base.{
  ℕ, String, Bool, true, false, Option, none, some, List, [], ◌∷◌, map, Result, ok, err, ◌==◌,
  if◌then◌else◌,
}
use akri.Base.HashMap.{HashMap, insert}
use akri.Kube.Types.{
  OnvifDiscoveryHandlerConfig, UdevDiscoveryHandlerConfig, OpcuaDiscoveryHandlerConfig,
  OpcuaDiscoveryMethod, DebugEchoDiscoveryHandlerConfig, ProtocolHandler,
}
use akri.Agent.Connectivity.{DiscoveryResult}
use akri.Agent.Udev.{Device, ParsedFilter, EnumeratorCall, UdevFilter, collect_filters}
use akri.Agent.Udev.Devices.{find_devices}
use akri.Agent.Opcua.{ApplicationDescription, get_discovery_urls}
use akri.Agent.Onvif.{new_discovery_result, apply_filters}

abbrev pub udev_devnode_label_id : String
udev_devnode_label_id = "UDEV_DEVNODE"

abbrev pub opcua_discovery_url_label : String
opcua_discovery_url_label = "OPCUA_DISCOVERY_URL"

abbrev pub offline_text : String
offline_text = "OFFLINE"

pub data DiscoveryHandler : Type 0 where
  onvif : OnvifDiscoveryHandlerConfig → DiscoveryHandler
  udev : UdevDiscoveryHandlerConfig → DiscoveryHandler
  opcua : OpcuaDiscoveryHandlerConfig → DiscoveryHandler
  debug_echo : DebugEchoDiscoveryHandlerConfig → DiscoveryHandler

abbrev pub if_enabled : Result String → DebugEchoDiscoveryHandlerConfig → Result DiscoveryHandler
if_enabled (ok v) dbg = ok (DiscoveryHandler.debug_echo dbg)
if_enabled (err e) dbg = err "No protocol configured"

-- `enable_debug_echo` is the environment's answer for ENABLE_DEBUG_ECHO; all features are built in.
unfoldable pub inner_get_discovery_handler :
    Result String → ProtocolHandler → Result DiscoveryHandler
inner_get_discovery_handler enable_debug_echo (ProtocolHandler.onvif c) =
    ok (DiscoveryHandler.onvif c)
inner_get_discovery_handler enable_debug_echo (ProtocolHandler.udev c) =
    ok (DiscoveryHandler.udev c)
inner_get_discovery_handler enable_debug_echo (ProtocolHandler.opcua c) =
    ok (DiscoveryHandler.opcua c)
inner_get_discovery_handler enable_debug_echo (ProtocolHandler.debug_echo c) =
    if_enabled enable_debug_echo c

-- `HashSet::insert`, with the elements in the order of their first insertion.
unfoldable pub insert_path : String → List String → List String
insert_path path [] = path ∷ []
insert_path path (p ∷ paths) = if p == path then p ∷ paths else p ∷ insert_path path paths

unfoldable pub insert_paths : List String → List String → List String
insert_paths devpaths [] = devpaths
insert_paths devpaths (path ∷ paths) = insert_paths (insert_path path devpaths) paths

abbrev pub unwrap : {A : Type 0} → Option A → Result A
unwrap none = err "panic"
unwrap (some a) = ok a

abbrev pub flatten : {A : Type 0} → Option (Result A) → Result A
flatten none = err "panic"
flatten (some r) = r

-- `find` is `do_parse_and_find`; an error of a rule ends the search.
module _ (find : String → Result (List String)) where
  abbrev pub and_then :
      Result (List String) → (List String → Result (List String)) → Result (List String)
  and_then (ok paths) f = f paths
  and_then (err e) f = err e

  unfoldable pub find_all : List String → List String → Result (List String)
  find_all devpaths [] = ok devpaths
  find_all devpaths (rule ∷ rules) =
      and_then (find rule) (λ paths. find_all (insert_paths devpaths paths) rules)

-- What the handlers are answered.
pub record Surroundings : Type 0 where
  pub node_name : String
  pub digest_of : String → String
  pub contains : String → String → Bool
  pub availability : Result String
  pub simple_onvif_discover : Result (List String)
  pub get_device_ip_and_mac_address : String → Result (String × String)
  pub get_device_scopes : String → Result (List String)
  pub parse : String → Result (List ParsedFilter)
  pub scan_devices : List EnumeratorCall → Result (List Device)
  pub regex_new : String → Option String
  pub regex_find : String → String → Option (ℕ × ℕ)
  pub str_len : String → ℕ
  pub split_colon : String → List String
  pub is_tcp : String → Bool
  pub connects : String → Bool
  pub find_servers : String → Result (List ApplicationDescription)

module _ (around : Surroundings) where
  abbrev pub found_devices : Result (List UdevFilter) → Result (List String)
  found_devices (err e) = err e
  found_devices (ok udev_filters) = flatten (
      find_devices around.regex_new around.regex_find around.str_len around.split_colon
        around.scan_devices udev_filters)

  abbrev pub parsed_rule : Result (List ParsedFilter) → Result (List UdevFilter)
  parsed_rule (err e) = err e
  parsed_rule (ok filters) = collect_filters filters

  unfoldable pub do_parse_and_find : String → Result (List String)
  do_parse_and_find udev_rule_string = found_devices (parsed_rule (around.parse udev_rule_string))

  abbrev pub unshared_device : String → DiscoveryResult
  unshared_device path =
      new_discovery_result around.digest_of around.node_name path
        (insert udev_devnode_label_id path []) false

  abbrev pub opcua_server : String → DiscoveryResult
  opcua_server discovery_url =
      new_discovery_result around.digest_of around.node_name discovery_url
        (insert opcua_discovery_url_label discovery_url []) true

  abbrev pub mock_device : Bool → String → DiscoveryResult
  mock_device shared description =
      new_discovery_result around.digest_of around.node_name description [] shared

  abbrev pub map_ok :
      (List String → List DiscoveryResult) → Result (List String) → Result (List DiscoveryResult)
  map_ok f (err e) = err e
  map_ok f (ok xs) = ok (f xs)

  -- `unwrap_or_default` of the file's text.
  abbrev pub or_default : Result String → String
  or_default (ok text) = text
  or_default (err e) = ""

  abbrev pub standard_urls :
      OpcuaDiscoveryHandlerConfig → OpcuaDiscoveryMethod → Option (List String)
  standard_urls c (OpcuaDiscoveryMethod.standard m) =
      get_discovery_urls around.is_tcp around.connects around.find_servers m.discovery_urls
        c.application_names

  abbrev pub discover_onvif : OnvifDiscoveryHandlerConfig → Result (List DiscoveryResult)
  discover_onvif c =
      map_ok
        (apply_filters around.contains around.get_device_ip_and_mac_address around.get_device_scopes
          around.digest_of around.node_name c)
        around.simple_onvif_discover

  abbrev pub discover_udev : UdevDiscoveryHandlerConfig → Result (List DiscoveryResult)
  discover_udev c = map_ok (map unshared_device) (find_all do_parse_and_find [] c.udev_rules)

  abbrev pub discover_opcua : OpcuaDiscoveryHandlerConfig → Result (List DiscoveryResult)
  discover_opcua c = map_ok (map opcua_server) (unwrap (standard_urls c c.opcua_discovery_method))

  abbrev pub discover_debug_echo : DebugEchoDiscoveryHandlerConfig → Result (List DiscoveryResult)
  discover_debug_echo c =
      if around.contains (or_default around.availability) offline_text
      then ok []
      else ok (map (mock_device c.shared) c.descriptions)

  unfoldable pub discover : DiscoveryHandler → Result (List DiscoveryResult)
  discover (DiscoveryHandler.onvif c) = discover_onvif c
  discover (DiscoveryHandler.udev c) = discover_udev c
  discover (DiscoveryHandler.opcua c) = discover_opcua c
  discover (DiscoveryHandler.debug_echo c) = discover_debug_echo c
