-- ===== src/Agent/Opcua.antt =====
-- agent/src/protocols/opcua/discovery_impl.rs: the choice of discovery URLs, with `should_include` of
-- shared/src/akri/configuration.rs. The test of a connection, FindServers of the OPC UA client and the
-- prefix test of the standard library are parameters.
pub mod Chosen
pub mod Discovered
use akri.Base.{
  String, Bool, true, false, Option, none, some, List, [], ◌∷◌, ◌++◌, any, not, Result, ok, err,
  ◌==◌, if◌then◌else◌,
}
use akri.Kube.Types.{FilterType, FilterList}

abbrev pub includes : FilterType → Bool → Bool
includes FilterType.include item_contained = item_contained
includes FilterType.exclude item_contained = not item_contained

unfoldable pub should_include : Option FilterList → String → Bool
should_include none item = true
should_include (some filter_list) item =
    includes filter_list.action (any (λ i. i == item) filter_list.items)

pub data ApplicationType : Type 0 where
  server client client_and_server discovery_server : ApplicationType

-- What the code reads of an `ApplicationDescription`.
pub record ApplicationDescription : Type 0 where
  pub application_type : ApplicationType
  pub application_name : String
  pub discovery_urls : Option (List String)

abbrev pub is_server : ApplicationType → Bool
is_server ApplicationType.server = true
is_server _ = false

-- `Vec::dedup`: of neighbours that are equal the first stays.
abbrev pub cons_unless_same : String → List String → List String
cons_unless_same x [] = x ∷ []
cons_unless_same x (y ∷ ys) = if x == y then y ∷ ys else x ∷ y ∷ ys

unfoldable pub dedup : List String → List String
dedup [] = []
dedup (x ∷ xs) = cons_unless_same x (dedup xs)

-- The panic of an application with an empty list of URLs, or what is chosen.
pub data Choice : Type 0 where
  panics ignored : Choice
  url : String → Choice

abbrev pub first_url : List String → Choice
first_url [] = panics
first_url (u ∷ us) = url u

-- `none` is a panic.
abbrev pub add_choice : Choice → Option (List String) → Option (List String)
add_choice panics rest = none
add_choice ignored rest = rest
add_choice (url u) none = none
add_choice (url u) (some us) = some (u ∷ us)

abbrev pub append : Option (List String) → Option (List String) → Option (List String)
append (some us) (some vs) = some (us ++ vs)
append _ _ = none

abbrev pub dedup_found : Option (List String) → Option (List String)
dedup_found none = none
dedup_found (some us) = some (dedup us)

-- `is_tcp` is `starts_with(OPC_TCP_SCHEME)`.
module _ (is_tcp : String → Bool) where
  unfoldable pub find_tcp : List String → Option String
  find_tcp [] = none
  find_tcp (u ∷ us) = if is_tcp u then some u else find_tcp us

  abbrev pub tcp_or_first : Option String → List String → Choice
  tcp_or_first (some tcp_discovery_url) us = url tcp_discovery_url
  tcp_or_first none us = first_url us

  abbrev pub choose_url : Option (List String) → Choice
  choose_url none = ignored
  choose_url (some us) = tcp_or_first (find_tcp us) us

  unfoldable pub get_discovery_url_from_application_description :
      ApplicationDescription → Option FilterList → Choice
  get_discovery_url_from_application_description app filter_list =
      if not (is_server app.application_type)
      then ignored
      else if not (should_include filter_list app.application_name)
      then ignored
      else choose_url app.discovery_urls

  unfoldable pub choose_urls :
      Option FilterList → List ApplicationDescription → Option (List String)
  choose_urls filter_list [] = some []
  choose_urls filter_list (app ∷ apps) =
      add_choice (get_discovery_url_from_application_description app filter_list)
        (choose_urls filter_list apps)

  abbrev pub answered :
      Option FilterList → Result (List ApplicationDescription) → Option (List String)
  answered filter_list (ok applications) = choose_urls filter_list applications
  answered filter_list (err e) = some []

  module _ (connects : String → Bool)
      (find_servers : String → Result (List ApplicationDescription)) where
    abbrev pub urls_at : Option FilterList → String → Option (List String)
    urls_at filter_list lds_url =
        if connects lds_url then answered filter_list (find_servers lds_url) else some []

    unfoldable pub collect_urls : Option FilterList → List String → Option (List String)
    collect_urls filter_list [] = some []
    collect_urls filter_list (u ∷ us) = append (urls_at filter_list u) (collect_urls filter_list us)

    unfoldable pub get_discovery_urls : List String → Option FilterList → Option (List String)
    get_discovery_urls lds_urls filter_list = dedup_found (collect_urls filter_list lds_urls)
