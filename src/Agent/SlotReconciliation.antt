-- ===== src/Agent/SlotReconciliation.antt =====
-- agent/src/util/slot_reconciliation.rs: the `device_usage` of the Instances is brought in line with the
-- slots that containers on this node use. `SlotQuery` is its answer. A panic is an error of the model;
-- `reconcile` itself returns nothing.
pub mod Containers
pub mod Tracked
pub mod Grace
pub mod Usage
pub mod Updates
use akri.Base.{
  ℕ, ◌-◌, String, Bool, true, false, Option, none, some, List, [], ◌∷◌, map, any, select, Result,
  ok, err, ok_or, M, ◌>>=◌, ◌>>◌, pure, lift, attempt, for_each, ltb, not, ◌&&◌, ◌||◌, ◌==◌,
  if◌then◌else◌,
}
use akri.Base.HashMap.{HashMap, get, insert, remove, map_entries}
use akri.Kube.Types.{Time, Condition, PodStatus, PodObject, Instance, KubeAkriInstance}
use akri.Kube.Api.{
  Trace, KubeInterface, get_instances, find_pods_with_field, update_instance, instant_now,
}
use akri.Kube.Pods.{◌<>◌}

-- A `DevicePluginSlotReconciler`, with the trace of its calls.
pub record DevicePluginSlotReconciler : Type 0 where
  pub removal_slot_map : HashMap Time
  pub trace : Trace

-- Calls of the cluster from a method of the reconciler.
abbrev pub on_trace : {A : Type 0} → M Trace A → M DevicePluginSlotReconciler A
on_trace m s = let (r, t) = m s.trace in (r, record s { trace = t })

abbrev pub untrack : String → M DevicePluginSlotReconciler (Unit {0})
untrack slot s = (ok tt, record s { removal_slot_map = remove slot s.removal_slot_map })

abbrev pub track : String → Time → M DevicePluginSlotReconciler (Unit {0})
track slot now s = (ok tt, record s { removal_slot_map = insert slot now s.removal_slot_map })

-- `HashSet::contains`.
abbrev pub contains : List String → String → Bool
contains slots slot = any (λ k. k == slot) slots

abbrev pub pod_conditions : Option PodStatus → List Condition
pod_conditions none = []
pod_conditions (some s) = elim s.conditions [ none ↦ [] | some cs ↦ cs ]

abbrev pub is_unready : PodObject → Bool
is_unready pod =
    any (λ c. c.type_ == "ContainersReady" && not (c.status == "True")) (pod_conditions pod.status)

abbrev pub keys : HashMap String → List String
keys m = map (λ e. e.0) m

-- Whether the instant lies behind `now` by more than the grace period.
abbrev pub is_expired : ℕ → Time → Time → Bool
is_expired slot_grace_period time now =
    if ltb now time then false else ltb slot_grace_period (now - time)

module _ (node_name : String) (node_slot_usage : List String) where
  unfoldable pub slots_missing_this_node_name : HashMap String → List String
  slots_missing_this_node_name device_usage =
      keys (select (λ e. not (e.1 == node_name) && contains node_slot_usage e.0) device_usage)

  -- The slots of this node that no container uses, expired or not.
  unfoldable pub unused_slots : HashMap String → List String
  unused_slots device_usage =
      keys (select (λ e. e.1 == node_name && not (contains node_slot_usage e.0)) device_usage)

-- The Instance that is sent.
unfoldable pub modified_instance : String → List String → List String → Instance → Instance
modified_instance node_name missing to_clean inst = record inst {
  device_usage =
      map_entries
        (λ slot node.
          if contains missing slot then node_name else if contains to_clean slot then "" else node)
        inst.device_usage;
}

abbrev pub is_empty : List String → Bool
is_empty [] = true
is_empty _ = false

module _ (kube : KubeInterface) (slot_grace_period : ℕ) where
  -- The test of one unused slot: a slot that is not tracked is tracked from now on.
  abbrev pub check_known : String → Option Time → M DevicePluginSlotReconciler Bool
  check_known slot none = do now ← on_trace (instant_now kube); track slot now; pure false
  check_known slot (some time) = do
    now ← on_trace (instant_now kube)
    pure (is_expired slot_grace_period time now)

  unfoldable pub check_slot : String → M DevicePluginSlotReconciler Bool
  check_slot slot s = check_known slot (get slot s.removal_slot_map) s

  unfoldable pub slots_to_clean : List String → M DevicePluginSlotReconciler (List String)
  slots_to_clean [] = pure []
  slots_to_clean (slot ∷ slots) = do
    expired ← check_slot slot
    rest ← slots_to_clean slots
    pure (if expired then slot ∷ rest else rest)

  module _ (node_name : String) (node_slot_usage : List String) where
    -- After the update; a failed one is left to the next run.
    abbrev pub after_update :
        List String → Result (Unit {0}) → M DevicePluginSlotReconciler (Unit {0})
    after_update to_clean (ok u) = for_each to_clean untrack
    after_update to_clean (err e) = pure tt

    unfoldable pub send_update :
        KubeAkriInstance → List String → List String → M DevicePluginSlotReconciler (Unit {0})
    send_update inst missing to_clean = do
      namespace ← lift (ok_or inst.metadata.namespace "called `Option::unwrap()` on a `None` value")
      updated ← attempt (
          on_trace (
            update_instance kube (modified_instance node_name missing to_clean inst.spec)
              inst.metadata.name namespace))
      after_update to_clean updated

    unfoldable pub reconcile_instance : KubeAkriInstance → M DevicePluginSlotReconciler (Unit {0})
    reconcile_instance inst = do
      to_clean ← slots_to_clean (unused_slots node_name node_slot_usage inst.spec.device_usage)
      let missing = slots_missing_this_node_name node_name node_slot_usage inst.spec.device_usage in
          if is_empty to_clean && is_empty missing
          then pure tt
          else send_update inst missing to_clean

    abbrev pub reconcile_unless_unready :
        List KubeAkriInstance → Result (List PodObject) → M DevicePluginSlotReconciler (Unit {0})
    reconcile_unless_unready instances (err e) = pure tt
    reconcile_unless_unready instances (ok pods) =
        if any is_unready pods then pure tt else for_each instances reconcile_instance

    abbrev pub with_instances :
        Result (List KubeAkriInstance) → M DevicePluginSlotReconciler (Unit {0})
    with_instances (err e) = pure tt
    with_instances (ok instances) = do
      pods ← attempt (on_trace (find_pods_with_field kube ("spec.nodeName=" <> node_name)))
      reconcile_unless_unready instances pods

  unfoldable pub reconcile : String → Result (List String) → M DevicePluginSlotReconciler (Unit {0})
  reconcile node_name (err e) = pure tt
  reconcile node_name (ok node_slot_usage) = do
    for_each node_slot_usage untrack
    instances ← attempt (on_trace (get_instances kube))
    with_instances node_name node_slot_usage instances
