-- ===== src/Agent/Configurations/Periodic.antt =====
-- `do_periodic_discovery` of agent/src/util/config_action.rs, over the rounds of its loop. A round has what
-- its surroundings answer: the discovery handler, `build_device_plugin`, the tasks of the device plugins,
-- which share the map, and the wait of ten seconds. The metrics are left out.
pub mod Coverage
pub mod Ending
use akri.Base.{
  String, Bool, true, false, List, [], ◌∷◌, Result, ok, err, M, ◌>>=◌, ◌>>◌, pure, lift, for_each,
}
use akri.Base.HashMap.{HashMap, insert}
use akri.Kube.Api.{Done, KubeInterface, emit, built_device_plugin}
use akri.Agent.DevicePlugin.{InstanceMap}
use akri.Agent.DevicePlugin.Naming.{get_device_instance_name}
use akri.Agent.Connectivity.{
  Discovery, DiscoveryResult, on_trace, set_map, update_connectivity_status,
}

pub record Round : Type 0 where
  pub others : InstanceMap → InstanceMap
  pub discovered : Result (List DiscoveryResult)
  pub built : DiscoveryResult → Done
  pub stop_received : Bool
  pub finish_heard : Done

-- `collect`: a later entry replaces an earlier one of its name.
unfoldable pub collect_visible :
    String → HashMap DiscoveryResult → List DiscoveryResult → HashMap DiscoveryResult
collect_visible config_name visible [] = visible
collect_visible config_name visible (d ∷ results) =
    collect_visible config_name (insert (get_device_instance_name d.digest config_name) d visible)
      results

abbrev pub currently_visible_instances : String → List DiscoveryResult → HashMap DiscoveryResult
currently_visible_instances config_name results = collect_visible config_name [] results

abbrev pub beside : (InstanceMap → InstanceMap) → M Discovery (Unit {0})
beside others s = (ok tt, record s { instance_map = others s.instance_map })

-- The answer that the deletion waits for.
abbrev pub finish_discovery : Done → M Discovery Bool
finish_discovery heard = lift heard >> pure true

module _ (kube : KubeInterface) (config_name config_namespace : String) (shared : Bool) where
  -- An error is logged only: the next round tries again.
  abbrev pub build_new : (DiscoveryResult → Done) → DiscoveryResult → M Discovery (Unit {0})
  build_new built d =
      on_trace
        (emit (built_device_plugin (get_device_instance_name d.digest config_name) (built d)))

  -- One round, up to the wait.
  unfoldable pub discovery_round : Round → M Discovery (Unit {0})
  discovery_round round = do
    beside round.others
    discovery_results ← lift round.discovered
    new_discovery_results ←
        (update_connectivity_status kube config_namespace shared
          (currently_visible_instances config_name discovery_results))
    for_each new_discovery_results (build_new round.built)

  -- `true` if the task returned, and `false` if it goes on after these rounds.
  unfoldable pub do_periodic_discovery : List Round → M Discovery Bool
  do_periodic_discovery [] = pure false
  do_periodic_discovery (round ∷ rounds) = discovery_round round >> elim round.stop_received [
    | true ↦ finish_discovery round.finish_heard
    | false ↦ do_periodic_discovery rounds
  ]
