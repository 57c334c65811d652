-- ===== src/Agent/DevicePlugin/Allocation.antt =====
-- Claiming slots: `get_slot_value`, `try_update_instance_device_usage`, `internal_allocate` and
-- `build_container_allocate_response` of agent/src/util/device_plugin_service.rs.
use akri.Base.{
  ℕ, String, Bool, true, Option, none, some, List, [], ◌∷◌, ◌++◌, map, Result, ok, err, M, ◌>>=◌,
  ◌>>◌, pure, lift, attempt, ◌==◌, if◌then◌else◌,
}
use akri.Base.HashMap.{HashMap, get, insert}
use akri.Kube.Types.{Instance, KubeAkriInstance, ProtocolHandler}
use akri.Kube.Api.{Trace, Done, KubeInterface, find_instance, update_instance, emit, sent_continue}
use akri.Kube.Pods.{◌<>◌}
use akri.Kube.Retry.{try_up_to_max}
use akri.Agent.DevicePlugin.{DevicePluginService}

abbrev pub akri_slot_annotation_name : String
akri_slot_annotation_name = "akri.agent.slot"

abbrev pub slot_value_of : String → Option String → Result String
slot_value_of node_name none = err "Could not find device usage slot"
slot_value_of node_name (some allocated_node) =
    if allocated_node == ""
    then ok node_name
    else if allocated_node == node_name
    then ok ""
    else err "Requested device already in use"

unfoldable pub get_slot_value : String → String → Instance → Result String
get_slot_value device_usage_id node_name inst =
    slot_value_of node_name (get device_usage_id inst.device_usage)

-- The Instance with the value written to the slot.
abbrev pub write_slot : String → String → Instance → Instance
write_slot device_usage_id value inst = record inst {
  device_usage = insert device_usage_id value inst.device_usage;
}

abbrev pub inconsistent : String
inconsistent = "Devices are in inconsistent state, updated device usage, please retry scheduling"

-- What an attempt is, by the value that was sent and the answer to it.
abbrev pub settle_update : String → String → Done → M Trace Done
settle_update node_name value (ok u) =
    if value == node_name then pure (ok tt) else lift (err inconsistent)
settle_update node_name value (err e) = pure (err "Could not update Instance")

abbrev pub spec_or_error : String → Result KubeAkriInstance → Result Instance
spec_or_error instance_name (ok i) = ok i.spec
spec_or_error instance_name (err e) = err ("Could not find Instance " <> instance_name)

pub record Mount : Type 0 where
  pub container_path : String
  pub host_path : String
  pub read_only : Bool

pub record ContainerAllocateResponse : Type 0 where
  pub annotations : HashMap String
  pub mounts : List Mount
  pub envs : HashMap String

abbrev pub mounts_of : ProtocolHandler → HashMap String → List Mount
mounts_of (ProtocolHandler.udev c) properties =
    map (λ p. record { container_path = p.1; host_path = p.1; read_only = true }) properties
mounts_of _ properties = []

unfoldable pub build_container_allocate_response :
    HashMap String → HashMap String → ProtocolHandler → ContainerAllocateResponse
build_container_allocate_response annotations instance_properties protocol = record {
  annotations = annotations;
  mounts = mounts_of protocol instance_properties;
  envs = instance_properties;
}

module _ (kube : KubeInterface) where
  -- The value is sent, and is no claim if the slot was this node's before.
  abbrev pub send_value : String → String → String → String → Instance → String → M Trace Done
  send_value device_usage_id node_name instance_name instance_namespace inst value = do
    updated ← attempt (
        update_instance kube (write_slot device_usage_id value inst) instance_name
          instance_namespace)
    settle_update node_name value updated

  -- One round of the loop: a value that is no claim ends the whole call with an error.
  unfoldable pub attempt_claim : String → String → String → String → ℕ → M Trace Done
  attempt_claim device_usage_id node_name instance_name instance_namespace x = do
    found ← attempt (find_instance kube instance_name instance_namespace)
    inst ← lift (spec_or_error instance_name found)
    value ← lift (get_slot_value device_usage_id node_name inst)
    send_value device_usage_id node_name instance_name instance_namespace inst value

  unfoldable pub try_update_instance_device_usage :
      String → String → String → String → M Trace (Unit {0})
  try_update_instance_device_usage device_usage_id node_name instance_name instance_namespace =
      try_up_to_max (attempt_claim device_usage_id node_name instance_name instance_namespace)

  module _ (dps : DevicePluginService) where
    -- A claim that fails wakes `list_and_watch` up.
    abbrev pub after_claim : M Trace (HashMap String) → Done → M Trace (HashMap String)
    after_claim rest (ok u) = rest
    after_claim rest (err e) = emit (sent_continue dps.instance_name) >> lift (err e)

    -- The slots of one container; the annotation is written under one key.
    unfoldable pub allocate_slots : List String → HashMap String → M Trace (HashMap String)
    allocate_slots [] akri_annotations = pure akri_annotations
    allocate_slots (device_usage_id ∷ ids) akri_annotations = do
      claimed ← attempt (
          try_update_instance_device_usage device_usage_id dps.node_name dps.instance_name
            dps.config_namespace)
      after_claim
          (allocate_slots ids (insert akri_slot_annotation_name device_usage_id akri_annotations))
          claimed

    -- The requests, each the slots that one container asks for.
    unfoldable pub internal_allocate :
        List (List String)
        → List ContainerAllocateResponse
        → M Trace (List ContainerAllocateResponse)
    internal_allocate [] container_responses = pure container_responses
    internal_allocate (devices_i_ds ∷ requests) container_responses = do
      akri_annotations ← allocate_slots devices_i_ds []
      internal_allocate requests (
          container_responses
          ++ build_container_allocate_response akri_annotations dps.instance_properties
              dps.config.protocol
            ∷ [])
