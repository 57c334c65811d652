-- ===== src/Tests/StatusRuns.antt =====
-- Runs of `update_connectivity_status`.
use akri.Base.{arith, String, false, none, [], ◌∷◌, ok, ◌≡◌, refl, for_each, map, select, not}
use akri.Base.HashMap.{HashMap, get, remove, contains_key, HasUniqueKeys}
use akri.Agent.DevicePlugin.{online, offline}
use akri.Agent.DevicePlugin.Creation.{terminate_device_plugin_service}
use akri.Agent.Connectivity.{
  Discovery, DiscoveryResult, try_delete_instance, update_connectivity_status,
}
use akri.Agent.Connectivity.Transitions.{IsTimed, Moves}
use akri.Agent.Connectivity.Sweep.{update_connectivity_status-Moves}
use akri.Tests.Fixtures.{cluster}

abbrev found : DiscoveryResult
found = record { digest = "b"; properties = [] }

-- One Instance went away long ago, one was seen before, and one is seen that has no entry.
abbrev discovery : Discovery
discovery = record {
  instance_map =
      ("cam-a", record { connectivity_status = offline 10 })
      ∷ ("cam-b", record { connectivity_status = online })
      ∷ [];
  trace = [];
}

abbrev visible : HashMap DiscoveryResult
visible = ("cam-b", found) ∷ ("cam-c", found) ∷ []

entries_differ : HasUniqueKeys discovery.instance_map
unfolding contains_key
entries_differ = (refl, (refl, tt))

updated : (update_connectivity_status cluster "default" false visible discovery).0 ≡ ok (found ∷ [])
unfolding update_connectivity_status for_each contains_key get terminate_device_plugin_service
    try_delete_instance
updated = refl

-- The Instance is unshared, so it is removed.
removed :
    get "cam-a"
      (update_connectivity_status cluster "default" false visible discovery).1.instance_map
    ≡ none
unfolding update_connectivity_status for_each contains_key get remove
    terminate_device_plugin_service try_delete_instance
removed = refl

clock_bounds : IsTimed cluster 90 110
clock_bounds = λ t. (omega arith, omega arith)

update_connectivity_status-Moves_example :
    ((k : String)
      → Moves false 90 110 (contains_key k visible) (get k discovery.instance_map) (
          get k
            (update_connectivity_status cluster "default" false visible discovery).1.instance_map))
    × (found ∷ []
        ≡ map (λ e. e.1) (select (λ e. not (contains_key e.0 discovery.instance_map)) visible))
update_connectivity_status-Moves_example =
    update_connectivity_status-Moves cluster "default" false 90 110 clock_bounds visible discovery
      (found ∷ []) entries_differ updated
