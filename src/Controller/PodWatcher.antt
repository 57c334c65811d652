-- ===== src/Controller/PodWatcher.antt =====
-- controller/src/util/pod_watcher.rs: what a broker Pod was last seen as, and the calls that follow a
-- change of it. The endless loop of `watch` is `handle_pods`, over the events that the informer delivers.
pub mod Steps
pub mod Handles
pub mod Once
use akri.Base.{
  ℕ, String, Bool, true, false, Option, none, some, List, [], ◌∷◌, select, length, nat_eq, Result,
  ok, err, ok_or, M, ◌>>=◌, ◌>>◌, pure, lift, attempt, for_each, not, ◌&&◌, ◌==◌, if◌then◌else◌,
}
use akri.Base.HashMap.{HashMap, get, insert}
use akri.Kube.Types.{
  ℤ, Time, PodStatus, PodObject, ServiceSpec, ServiceObject, KubeAkriInstance, KubeAkriConfig,
  WatchEvent,
}
use akri.Kube.Api.{
  Trace, Done, KubeInterface, find_pods_with_label, find_services, create_service, remove_service,
  update_service, find_configuration, find_instance,
}
use akri.Kube.Pods.{
  ◌<>◌, akri_configuration_label_name, akri_instance_label_name, OwnershipType, OwnershipInfo,
}
use akri.Kube.Services.{create_service_app_name, create_new_service_from_spec, update_ownership}
use akri.Kube.Retry.{try_up_to_max}
use akri.Controller.PodAction.{InstanceAction}
use akri.Controller.InstanceAction.{handle_instance_change}
use akri.Controller.PodServices.{phase_of, handle_running_pod, handle_non_running_pod}

pub data PodState : Type 0 where
  pending running ended deleted : PodState

-- A `BrokerPodWatcher`, with the trace of its calls.
pub record BrokerPodWatcher : Type 0 where
  pub known_pods : HashMap PodState
  pub trace : Trace

abbrev or_unknown : Option String → String
or_unknown none = "Unknown"
or_unknown (some phase) = phase

abbrev pub get_pod_phase : PodObject → String
get_pod_phase pod = or_unknown (phase_of pod.status)

-- Calls of the cluster from a method of the watcher.
abbrev pub on_trace : {A : Type 0} → M Trace A → M BrokerPodWatcher A
on_trace m w = let (r, t) = m w.trace in (r, record w { trace = t })

abbrev pub set_pod_state : String → PodState → M BrokerPodWatcher (Unit {0})
set_pod_state name s w = (ok tt, record w { known_pods = insert name s w.known_pods })

-- A Pod that is not in the map counts as pending.
abbrev pub last_known_pod_state : Option PodState → PodState
last_known_pod_state none = pending
last_known_pod_state (some s) = s

abbrev pub same_state : PodState → PodState → Bool
same_state pending pending = true
same_state running running = true
same_state ended ended = true
same_state deleted deleted = true
same_state _ _ = false

-- The handler runs, and the state is kept, unless the Pod was in it already.
abbrev pub enter_state :
    PodState → (PodObject → M Trace (Unit {0})) → PodObject → M BrokerPodWatcher (Unit {0})
enter_state s handler pod w =
    if same_state (last_known_pod_state (get pod.metadata.name w.known_pods)) s
    then (ok tt, w)
    else (on_trace (handler pod) >> set_pod_state pod.metadata.name s) w

module _ (kube : KubeInterface) (checked_add_minutes : Time → ℤ → Option Time) where
  unfoldable pub handle_running_pod_if_needed : PodObject → M BrokerPodWatcher (Unit {0})
  handle_running_pod_if_needed = enter_state running (handle_running_pod kube)

  unfoldable pub handle_ended_pod_if_needed : PodObject → M BrokerPodWatcher (Unit {0})
  handle_ended_pod_if_needed = enter_state ended (handle_non_running_pod kube checked_add_minutes)

  unfoldable pub handle_deleted_pod_if_needed : PodObject → M BrokerPodWatcher (Unit {0})
  handle_deleted_pod_if_needed =
      enter_state deleted (handle_non_running_pod kube checked_add_minutes)

  unfoldable pub handle_phase : PodObject → String → M BrokerPodWatcher (Unit {0})
  handle_phase pod phase =
      if phase == "Unknown"
      then set_pod_state pod.metadata.name pending
      else if phase == "Pending"
      then set_pod_state pod.metadata.name pending
      else if phase == "Running"
      then handle_running_pod_if_needed pod
      else if phase == "Succeeded"
      then handle_ended_pod_if_needed pod
      else if phase == "Failed"
      then handle_ended_pod_if_needed pod
      else pure tt

  unfoldable pub handle_pod : WatchEvent PodObject → M BrokerPodWatcher (Unit {0})
  handle_pod (WatchEvent.added pod) = handle_phase pod (get_pod_phase pod)
  handle_pod (WatchEvent.modified pod) = handle_phase pod (get_pod_phase pod)
  handle_pod (WatchEvent.deleted pod) = handle_deleted_pod_if_needed pod
  handle_pod (WatchEvent.error e) = pure tt

  -- `watch`, over the events of the informer; an error ends it.
  unfoldable pub handle_pods : List (WatchEvent PodObject) → M BrokerPodWatcher (Unit {0})
  handle_pods events = for_each events handle_pod
