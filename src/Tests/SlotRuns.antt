-- ===== src/Tests/SlotRuns.antt =====
-- Runs of slot reconciliation.
use akri.Base.{List, some, Option, eq_iff, String, [], ◌∷◌, ok, ◌≡◌, refl, All}
use akri.Base.HashMap.{HashMap, get, insert, contains_key, HasUniqueKeys}
use akri.Kube.Types.{KubeAkriInstance}
use akri.Agent.SlotReconciliation.{
  DevicePluginSlotReconciler, check_slot, slots_to_clean, reconcile,
}
use akri.Agent.DevicePlugin.Allocation.{
  get_slot_value, attempt_claim, try_update_instance_device_usage, allocate_slots,
}
use akri.Kube.Retry.{attempts, retry_or_stop}
use akri.Agent.SlotReconciliation.Containers.{
  get_container_slot_usage, get_container_slot_usage-allocate_slots,
}
use akri.Agent.SlotReconciliation.Tracked.{IsUntracked, reconcile-IsUntracked}
use akri.Agent.SlotReconciliation.Grace.{IsDistinct}
use akri.Agent.SlotReconciliation.Updates.{SendsFor, reconcile-SendsFor}
use akri.Tests.Fixtures.{camera, cluster, service}

-- The slot "cam-2" was found unused at time 10, and "cam-0" is tracked though it is in use now.
abbrev reconciler : DevicePluginSlotReconciler
reconciler = record { removal_slot_map = ("cam-2", 10) ∷ ("cam-0", 20) ∷ []; trace = [] }

reconcile-IsUntracked_example :
    IsUntracked "cam-0" (reconcile cluster 60 "node-b" (ok ("cam-0" ∷ [])) reconciler).1
reconcile-IsUntracked_example =
    reconcile-IsUntracked cluster 60 "node-b" ("cam-0" ∷ []) "cam-0" refl reconciler

unique : All (λ (i : KubeAkriInstance). HasUniqueKeys i.spec.device_usage) (camera ∷ [])
unfolding contains_key
unique = ((refl, (refl, (refl, tt))), tt)

reconcile-SendsFor_example :
    All
      (SendsFor "node-b" ("cam-0" ∷ []) (camera ∷ []))
      (reconcile cluster 60 "node-b" (ok ("cam-0" ∷ [])) reconciler).1.trace
reconcile-SendsFor_example =
    reconcile-SendsFor cluster 60 "node-b" ("cam-0" ∷ []) (camera ∷ []) reconciler refl unique tt

cleaned_slots :
    (slots_to_clean cluster 60 ("cam-2" ∷ "cam-1" ∷ []) reconciler).0 ≡ ok ("cam-2" ∷ [])
unfolding slots_to_clean check_slot get insert
cleaned_slots = refl

slots_differ : IsDistinct ("cam-2" ∷ "cam-1" ∷ [])
slots_differ = (((λ e. let t = (eq_iff "cam-2" "cam-1").1 e in cc), tt), (tt, tt))

abbrev last_slot : HashMap String
last_slot = ("akri.agent.slot", "cam-1") ∷ []

-- An output with one container.
abbrev parse_one : String → Option (List (HashMap String))
parse_one output = some (last_slot ∷ [])

granted : (allocate_slots cluster service ("cam-0" ∷ "cam-1" ∷ []) [] []).0 ≡ ok last_slot
unfolding allocate_slots try_update_instance_device_usage attempts retry_or_stop attempt_claim
    get_slot_value get insert
granted = refl

get_container_slot_usage-allocate_slots_example :
    get_container_slot_usage parse_one "{}" ≡ "cam-1" ∷ []
get_container_slot_usage-allocate_slots_example =
    get_container_slot_usage-allocate_slots parse_one "{}" cluster service ("cam-0" ∷ []) "cam-1" []
      last_slot granted refl
