-- ===== src/Agent/Onvif/Queries.antt =====
-- The questions that are put to a camera in shared/src/onvif/mod.rs: the requests, and what is read of the
-- answers. The HTTP client and `sxd_xpath` are parameters.
use akri.Base.{String, List, [], ◌∷◌, Result, ok, err}
use akri.Kube.Pods.{◌<>◌}

abbrev pub media_wsdl : String
media_wsdl = "http://www.onvif.org/ver10/media/wsdl"

abbrev pub device_wsdl : String
device_wsdl = "http://www.onvif.org/ver10/device/wsdl"

abbrev pub get_network_interfaces_template : String
get_network_interfaces_template =
    "<soap:Envelope xmlns:soap=\"http://www.w3.org/2003/05/soap-envelope\" xmlns:wsdl=\"http://www.onvif.org/ver10/device/wsdl\">\n        <soap:Header/>\n            <soap:Body>\n                <wsdl:GetNetworkInterfaces/>\n            </soap:Body>\n        </soap:Envelope>"

abbrev pub get_scopes_template : String
get_scopes_template =
    "<soap:Envelope xmlns:soap=\"http://www.w3.org/2003/05/soap-envelope\" xmlns:wsdl=\"http://www.onvif.org/ver10/device/wsdl\">\n        <soap:Header/>\n            <soap:Body>\n                <wsdl:GetScopes/>\n            </soap:Body>\n        </soap:Envelope>"

abbrev pub get_services_template : String
get_services_template =
    "<soap:Envelope xmlns:soap=\"http://www.w3.org/2003/05/soap-envelope\" xmlns:wsdl=\"http://www.onvif.org/ver10/device/wsdl\">\n        <soap:Header/>\n            <soap:Body>\n                <wsdl:GetServices />\n            </soap:Body>\n        </soap:Envelope>"

abbrev pub get_profiles_template : String
get_profiles_template =
    "<soap:Envelope xmlns:soap=\"http://www.w3.org/2003/05/soap-envelope\" xmlns:wsdl=\"http://www.onvif.org/ver10/media/wsdl\">\n        <soap:Header/>\n            <soap:Body>\n                <wsdl:GetProfiles/>\n            </soap:Body>\n        </soap:Envelope>"

abbrev pub get_stream_uri_message : String → String
get_stream_uri_message profile =
    "<soap:Envelope xmlns:soap=\"http://www.w3.org/2003/05/soap-envelope\" xmlns:wsdl=\"http://www.onvif.org/ver10/media/wsdl\" xmlns:sch=\"http://www.onvif.org/ver10/schema\">\n                <soap:Header/>\n                <soap:Body>\n                    <wsdl:GetStreamUri>\n                    <wsdl:StreamSetup>\n                        <sch:Stream>RTP-Unicast</sch:Stream>\n                        <sch:Transport>\n                            <sch:Protocol>RTSP</sch:Protocol>\n                        </sch:Transport>\n                    </wsdl:StreamSetup>\n                    <wsdl:ProfileToken>"
    <> profile
    <> "</wsdl:ProfileToken>\n                    </wsdl:GetStreamUri>\n                </soap:Body>\n            </soap:Envelope>;"

-- `sxd_xpath::Value`; a node set by the texts of its nodes, in the order of the iteration.
pub data Value : Type 0 where
  text : String → Value
  nodeset : List String → Value
  boolean number : Value

abbrev pub get_action : String → String → String
get_action wsdl function = "action=\"" <> wsdl <> "/" <> function <> "\""

abbrev pub ip_address_path : String
ip_address_path =
    "//*[local-name()='GetNetworkInterfacesResponse']/*[local-name()='NetworkInterfaces']/*[local-name()='IPv4']/*[local-name()='Config']/*/*[local-name()='Address']/text()"

abbrev pub mac_address_path : String
mac_address_path =
    "//*[local-name()='GetNetworkInterfacesResponse']/*[local-name()='NetworkInterfaces']/*[local-name()='Info']/*[local-name()='HwAddress']/text()"

abbrev pub scopes_path : String
scopes_path =
    "//*[local-name()='GetScopesResponse']/*[local-name()='Scopes']/*[local-name()='ScopeItem']/text()"

abbrev pub profiles_path : String
profiles_path = "//*[local-name()='GetProfilesResponse']/*[local-name()='Profiles']/@token"

abbrev pub stream_uri_path : String
stream_uri_path =
    "//*[local-name()='GetStreamUriResponse']/*[local-name()='MediaUri']/*[local-name()='Uri']/text()"

abbrev pub service_path : String → String
service_path service =
    "//*[local-name()='GetServicesResponse']/*[local-name()='Service' and *[local-name()='Namespace']/text() ='"
    <> service <> "']/*[local-name()='XAddr']/text()"

-- The first text of an answer; the texts of the errors are shortened.
unfoldable pub first_text : Result Value → Result String
first_text (ok (text s)) = ok s
first_text (ok (nodeset [])) = err "none specified in response"
first_text (ok (nodeset (s ∷ rest))) = ok s
first_text (ok boolean) = err "unexpected type"
first_text (ok number) = err "unexpected type"
first_text (err e) = err e

-- All texts of an answer that is a node set.
unfoldable pub all_texts : Result Value → Result (List String)
all_texts (ok (nodeset items)) = ok items
all_texts (ok _) = err "unexpected type"
all_texts (err e) = err e

abbrev pub pair : Result String → Result String → Result (String × String)
pair (err e) r = err e
pair (ok ip_address) (err e) = err e
pair (ok ip_address) (ok mac_address) = ok (ip_address, mac_address)

-- `value_string` is `Value::string`.
abbrev pub as_string : (Value → String) → Result Value → Result String
as_string value_string (ok v) = ok (value_string v)
as_string value_string (err e) = err e

module _ {Package : Type 0} (post : String → String → String → Result Package)
    (evaluate_xpath : Package → String → Result Value) where
  abbrev pub addresses_of : Result Package → Result (String × String)
  addresses_of (err e) = err "failed to get network interfaces from device"
  addresses_of (ok doc) =
      pair (first_text (evaluate_xpath doc ip_address_path))
        (first_text (evaluate_xpath doc mac_address_path))

  unfoldable pub inner_get_device_ip_and_mac_address : String → Result (String × String)
  inner_get_device_ip_and_mac_address service_url = addresses_of (
      post service_url (get_action device_wsdl "GetNetworkInterfaces")
        get_network_interfaces_template)

  abbrev pub texts_at : String → Result Package → Result (List String)
  texts_at path (err e) = err "failed to get the answer from device"
  texts_at path (ok doc) = all_texts (evaluate_xpath doc path)

  unfoldable pub inner_get_device_scopes : String → Result (List String)
  inner_get_device_scopes url =
      texts_at scopes_path (post url (get_action device_wsdl "GetScopes") get_scopes_template)

  unfoldable pub inner_get_device_profiles : String → Result (List String)
  inner_get_device_profiles url =
      texts_at profiles_path (post url (get_action media_wsdl "GetProfiles") get_profiles_template)

  module _ (value_string : Value → String) where
    abbrev pub string_at : String → Result Package → Result String
    string_at path (err e) = err "failed to get the answer from device"
    string_at path (ok doc) = as_string value_string (evaluate_xpath doc path)

    unfoldable pub inner_get_device_service_uri : String → String → Result String
    inner_get_device_service_uri url service =
        string_at (service_path service)
          (post url (get_action device_wsdl "GetServices") get_services_template)

    unfoldable pub inner_get_device_profile_streaming_uri : String → String → Result String
    inner_get_device_profile_streaming_uri url profile_token =
        string_at stream_uri_path
          (post url (get_action media_wsdl "GetStreamUri") (get_stream_uri_message profile_token))
