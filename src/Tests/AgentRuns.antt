-- ===== src/Tests/AgentRuns.antt =====
-- Runs of the device plugin.
use akri.Base.{String, List, [], ◌∷◌, ok, err, none, some, ◌≡◌, refl, All, map, ◌++◌, ◌≢◌}
use akri.Base.HashMap.{HashMap, get, insert, contains_key}
use akri.Kube.Api.{KubeInterface}
use akri.Kube.Retry.{attempts, retry_or_stop}
use akri.Agent.DevicePlugin.{online, InstanceMap}
use akri.Agent.DevicePlugin.Allocation.{
  get_slot_value, attempt_claim, try_update_instance_device_usage, allocate_slots,
  internal_allocate,
}
use akri.Agent.DevicePlugin.Devices.{build_list_and_watch_response}
use akri.Agent.DevicePlugin.Slots.{IsGuarded, WasClaimed}
use akri.Agent.DevicePlugin.Responses.{
  response_of, internal_allocate-IsGuarded, internal_allocate_ok,
}
use akri.Agent.DevicePlugin.Adverts.{Responds, build_list_and_watch_response-Responds}
use akri.Agent.DevicePlugin.Creation.{attempt_creation, try_create_instance}
use akri.Agent.DevicePlugin.Membership.{entry, Enters, try_create_instance-Enters}
use akri.Tests.Fixtures.{cluster, service}

abbrev requests : List (List String)
requests = ("cam-0" ∷ "cam-1" ∷ []) ∷ []

internal_allocate-IsGuarded_example :
    IsGuarded "node-a" (internal_allocate cluster service requests [] []).1
internal_allocate-IsGuarded_example = internal_allocate-IsGuarded cluster service requests [] [] tt

allocated :
    (internal_allocate cluster service requests [] []).0 ≡ ok (map (response_of service) requests)
unfolding internal_allocate allocate_slots try_update_instance_device_usage attempts retry_or_stop
    attempt_claim get_slot_value get insert
allocated = refl

internal_allocate_ok_example :
    All
      (All (λ id.
        WasClaimed id "node-a" "cam" "default"
          (internal_allocate cluster service requests [] []).1))
      requests
    × (map (response_of service) requests ≡ [] ++ map (response_of service) requests)
internal_allocate_ok_example =
    internal_allocate_ok cluster service requests [] (map (response_of service) requests) []
      allocated

abbrev last_only : HashMap String
last_only = ("akri.agent.slot", "cam-1") ∷ []

annotated : (allocate_slots cluster service ("cam-0" ∷ "cam-1" ∷ []) [] []).0 ≡ ok last_only
unfolding allocate_slots try_update_instance_device_usage attempts retry_or_stop attempt_claim
    get_slot_value get insert
annotated = refl

claimed : (try_update_instance_device_usage cluster "cam-0" "node-a" "cam" "default" []).0 ≡ ok tt
unfolding try_update_instance_device_usage attempts retry_or_stop attempt_claim get_slot_value get
    insert
claimed = refl

-- A slot of another node is not given.
in_use :
    (try_update_instance_device_usage cluster "cam-2" "node-a" "cam" "default" []).0
    ≡ err "Requested device already in use"
unfolding try_update_instance_device_usage attempts retry_or_stop attempt_claim get_slot_value get
    insert
in_use = refl

build_list_and_watch_response-Responds_example :
    Responds cluster service
      (("cam", record { connectivity_status = online }) ∷ [])
      (("cam", record { connectivity_status = online }) ∷ [])
      []
      (build_list_and_watch_response cluster service
        (("cam", record { connectivity_status = online }) ∷ [])
        (("cam", record { connectivity_status = online }) ∷ [])
        [])
build_list_and_watch_response-Responds_example =
    build_list_and_watch_response-Responds cluster service
      (("cam", record { connectivity_status = online }) ∷ [])
      (("cam", record { connectivity_status = online }) ∷ []) []

-- Another task takes the Instance out of the map between the two looks.
taken_out :
    (build_list_and_watch_response cluster service
      (("cam", record { connectivity_status = online }) ∷ [])
      []
      []).0
    ≡ ok none
unfolding build_list_and_watch_response contains_key get
taken_out = refl

-- A cluster that has no Instance.
abbrev empty_cluster : KubeInterface
empty_cluster = record cluster { find_instance = λ t n ns. err "not found" }

abbrev entered : InstanceMap
entered = ("cam", entry) ∷ []

created_ok : (try_create_instance service empty_cluster [] []).0 ≡ ok entered
unfolding try_create_instance attempts retry_or_stop attempt_creation insert
created_ok = refl

try_create_instance-Enters_example :
    Enters service (try_create_instance service empty_cluster [] []).1
    × (get "cam" entered ≡ some entry)
    × ((k : String) → k ≢ "cam" → get k entered ≡ get k [])
try_create_instance-Enters_example =
    try_create_instance-Enters service empty_cluster [] entered [] created_ok
