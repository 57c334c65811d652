-- ===== src/Agent/DevicePlugin/Creation.antt =====
-- `try_create_instance` and `terminate_device_plugin_service` of agent/src/util/device_plugin_service.rs:
-- a device plugin enters its node in the Instance, or creates the Instance.
use akri.Base.{
  ℕ, zero, suc, String, Bool, Option, none, some, [], ◌∷◌, ◌++◌, any, Result, ok, err, M, ◌>>=◌,
  ◌>>◌, pure, attempt, ◌==◌, if◌then◌else◌,
}
use akri.Base.HashMap.{HashMap, get, insert, remove}
use akri.Kube.Types.{Instance, KubeAkriInstance}
use akri.Kube.Api.{
  Trace, Done, KubeInterface, find_configuration, find_instance, update_instance, create_instance,
  emit, sent_end,
}
use akri.Kube.Retry.{try_up_to_max}
use akri.Agent.DevicePlugin.{online, InstanceInfo, InstanceMap, DevicePluginService}
use akri.Agent.DevicePlugin.Devices.{slot_name, range_size}

-- The free slots from number `x` on, `count` of them.
unfoldable pub free_slots : String → ℕ → ℕ → HashMap String
free_slots instance_name x zero = []
free_slots instance_name x (suc count) =
    insert (slot_name instance_name x) "" (free_slots instance_name (suc x) count)

module _ (dps : DevicePluginService) where
  unfoldable pub new_instance : Instance
  new_instance = record {
    configuration_name = dps.config_name;
    metadata = dps.instance_properties;
    shared = dps.shared;
    nodes = dps.node_name ∷ [];
    device_usage = free_slots dps.instance_name 0 (range_size dps.config.capacity);
    rbac = "rbac";
  }

  abbrev pub is_member : Instance → Bool
  is_member inst = any (λ n. n == dps.node_name) inst.nodes

  abbrev pub join : Instance → Instance
  join inst = record inst { nodes = inst.nodes ++ dps.node_name ∷ [] }

  module _ (kube : KubeInterface) where
    -- An Instance that was found gets this node, and one that was not found is created.
    abbrev pub enter : Result KubeAkriInstance → M Trace Done
    enter (ok i) =
        if is_member i.spec
        then pure (ok tt)
        else attempt (update_instance kube (join i.spec) i.metadata.name dps.config_namespace)
    enter (err e) = attempt (
        create_instance kube new_instance dps.instance_name dps.config_namespace dps.config_name
          dps.config_uid)

    unfoldable pub attempt_creation : ℕ → M Trace Done
    attempt_creation x = do
      found ← attempt (find_instance kube dps.instance_name dps.config_namespace)
      enter found

    -- The map after the call; an error leaves it as it was.
    unfoldable pub try_create_instance : InstanceMap → M Trace InstanceMap
    try_create_instance instance_map = do
      config ← find_configuration kube dps.config_name dps.config_namespace
      done ← try_up_to_max attempt_creation
      pure (insert dps.instance_name (record { connectivity_status = online }) instance_map)

-- `none` is the panic on an Instance that is not in the map.
abbrev pub terminate_known :
    String → InstanceMap → Option InstanceInfo → M Trace (Option InstanceMap)
terminate_known instance_name instance_map none = pure none
terminate_known instance_name instance_map (some i) =
    emit (sent_end instance_name) >> pure (some (remove instance_name instance_map))

unfoldable pub terminate_device_plugin_service : String → InstanceMap → M Trace (Option InstanceMap)
terminate_device_plugin_service instance_name instance_map =
    terminate_known instance_name instance_map (get instance_name instance_map)
