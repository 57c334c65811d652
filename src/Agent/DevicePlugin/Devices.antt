-- ===== src/Agent/DevicePlugin/Devices.antt =====
-- The devices that are advertised to the kubelet: `build_virtual_devices`,
-- `build_unhealthy_virtual_devices` and `build_list_and_watch_response` of
-- agent/src/util/device_plugin_service.rs.
use akri.Base.{
  ℕ, zero, suc, String, Bool, true, false, Option, none, some, List, [], ◌∷◌, Result, ok, err, M,
  ◌>>=◌, pure, attempt, ◌==◌, ◌&&◌, not, if◌then◌else◌, show,
}
use akri.Base.HashMap.{HashMap, get, contains_key}
use akri.Kube.Types.{ℤ, pos, negsuc, KubeAkriInstance}
use akri.Kube.Api.{Trace, KubeInterface, find_instance}
use akri.Kube.Pods.{◌<>◌}
use akri.Agent.DevicePlugin.{online, offline, InstanceInfo, InstanceMap, DevicePluginService}

abbrev pub healthy : String
healthy = "Healthy"

abbrev pub unhealthy : String
unhealthy = "Unhealthy"

pub record Device : Type 0 where
  pub id : String
  pub health : String

-- `format!("{}-{}", instance_name, x)`.
unfoldable pub slot_name : String → ℕ → String
slot_name instance_name x = instance_name <> "-" <> show x

-- The slots from number `x` on, `count` of them.
unfoldable pub unhealthy_from : String → ℕ → ℕ → List Device
unhealthy_from instance_name x zero = []
unhealthy_from instance_name x (suc count) =
    record { id = slot_name instance_name x; health = unhealthy }
    ∷ unhealthy_from instance_name (suc x) count

-- `0..capacity` is empty if the capacity is negative.
abbrev pub range_size : ℤ → ℕ
range_size (pos n) = n
range_size (negsuc n) = 0

unfoldable pub build_unhealthy_virtual_devices : ℤ → String → List Device
unfolding unhealthy_from
build_unhealthy_virtual_devices capacity instance_name =
    unhealthy_from instance_name 0 (range_size capacity)

abbrev pub is_taken : String → String → Bool
is_taken allocated_node node_name = not (allocated_node == "") && not (allocated_node == node_name)

-- `none` is the panic on an unshared Instance with a slot of another node.
unfoldable pub build_virtual_devices : HashMap String → Bool → String → Option (List Device)
build_virtual_devices [] shared node_name = some []
build_virtual_devices ((device_name, allocated_node) ∷ usage) shared node_name =
    if not shared && is_taken allocated_node node_name
    then none
    else elim (build_virtual_devices usage shared node_name) [
      | none ↦ none
      | some devices ↦ some (
          record {
            id = device_name;
            health = if shared && is_taken allocated_node node_name then unhealthy else healthy;
          }
          ∷ devices)
    ]

abbrev pub is_online : InstanceInfo → Bool
is_online i = elim i.connectivity_status [ online ↦ true | offline t ↦ false ]

module _ (dps : DevicePluginService) where
  abbrev pub all_unhealthy : List Device
  all_unhealthy = build_unhealthy_virtual_devices dps.config.capacity dps.instance_name

  abbrev pub devices_of : Result KubeAkriInstance → Option (List Device)
  devices_of (ok i) = build_virtual_devices i.spec.device_usage i.spec.shared dps.node_name
  devices_of (err e) = some all_unhealthy

module _ (kube : KubeInterface) (dps : DevicePluginService) where
  -- The second look at the map; `none` is the panic on an Instance that was taken out since the first.
  abbrev pub respond_known : Option InstanceInfo → M Trace (Option (List Device))
  respond_known none = pure none
  respond_known (some i) =
      if is_online i
      then (do
        found ← attempt (find_instance kube dps.instance_name dps.config_namespace)
        pure (devices_of dps found))
      else pure (some (all_unhealthy dps))

  -- The map is locked twice, and is read as it is at each time. An Instance that is not in the map or is
  -- offline has unhealthy devices only.
  unfoldable pub build_list_and_watch_response :
      InstanceMap → InstanceMap → M Trace (Option (List Device))
  build_list_and_watch_response instance_map later_map =
      if contains_key dps.instance_name instance_map
      then respond_known (get dps.instance_name later_map)
      else pure (some (all_unhealthy dps))
