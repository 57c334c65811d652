-- ===== src/Tests/WatcherRuns.antt =====
-- Runs of the Pod watcher.
use akri.Base.{String, Bool, List, [], ◌∷◌, some, none, ok, ◌≡◌, refl, for_each}
use akri.Base.HashMap.{get, insert}
use akri.Kube.Types.{PodObject, WatchEvent, KubeAkriConfig, ServiceSpec}
use akri.Kube.Api.{KubeInterface, Trace}
use akri.Kube.Pods.{
  akri_instance_label_name, akri_configuration_label_name, create_new_pod_from_spec,
}
use akri.Kube.Services.{create_new_service_from_spec}
use akri.Kube.Retry.{attempts, retry_or_stop}
use akri.Controller.InstanceAction.{
  handle_instance_change, handle_deletions, handle_additions, handle_addition_work, add_pods,
  determine_actions, collect_nodes,
}
use akri.Controller.PodServices.{
  handle_non_running_pod, handle_running_pod, find_pods_and_cleanup_svc_if_unsupported,
  cleanup_svc_if_unsupported, create_or_update_service, add_instance_service,
  add_configuration_service, add_instance_and_configuration_services,
}
use akri.Controller.PodServices.Removals.{
  RemovesUnsupported, handle_non_running_pod-RemovesUnsupported,
}
use akri.Controller.PodServices.Decisions.{WasDecided, Handled, handle_non_running_pod-WasDecided}
use akri.Controller.PodServices.Served.{
  HasInstanceService, HasConfigurationService, handle_running_pod-WasServed,
}
use akri.Controller.PodWatcher.{
  PodState, BrokerPodWatcher, handle_pod, handle_pods, handle_phase, handle_ended_pod_if_needed,
}
use akri.Controller.PodWatcher.Steps.{Step}
use akri.Controller.PodWatcher.Handles.{handle_pod-Step}
use akri.Controller.PodWatcher.Once.{Last, handle_pods-Last}
use akri.Tests.Fixtures.{camera, cluster, meta_of, configuration}
use akri.Tests.PodRuns.{add_minutes}

-- A broker Pod of the camera.
abbrev cam_pod : String → PodObject
cam_pod phase = record {
  metadata =
      meta_of "cam-pod"
        ((akri_instance_label_name, "cam") ∷ (akri_configuration_label_name, "cameras") ∷ []);
  status = some (record { phase = some phase; start_time = some 10; conditions = none });
}

handle_non_running_pod-RemovesUnsupported_example :
    RemovesUnsupported "cam" "cameras" "default"
      (handle_non_running_pod cluster add_minutes (cam_pod "Failed") []).1
unfolding get
handle_non_running_pod-RemovesUnsupported_example =
    handle_non_running_pod-RemovesUnsupported "cam" "cameras" "default" cluster add_minutes
      (cam_pod "Failed") refl refl [] tt

ended_run : (handle_non_running_pod cluster add_minutes (cam_pod "Failed") []).0 ≡ ok tt
unfolding handle_non_running_pod find_pods_and_cleanup_svc_if_unsupported cleanup_svc_if_unsupported
    handle_instance_change handle_deletions handle_additions handle_addition_work add_pods
    determine_actions collect_nodes for_each get insert create_new_pod_from_spec
ended_run = refl

handle_non_running_pod-WasDecided_example :
    ((svc : Bool)
      → WasDecided "cam" "cameras" "default" svc
          (handle_non_running_pod cluster add_minutes (cam_pod "Failed") []).1)
    × ((s : Trace) × Handled "cam" "cameras" "default" cluster add_minutes s
          (cluster.find_instance s "cam" "default")
          (handle_non_running_pod cluster add_minutes (cam_pod "Failed") []).1)
unfolding get
handle_non_running_pod-WasDecided_example =
    handle_non_running_pod-WasDecided "cam" "cameras" "default" cluster add_minutes
      (cam_pod "Failed") refl refl [] ended_run

abbrev no_spec : ServiceSpec
no_spec = record { selector = none; cluster_ip = none }

-- The camera's Configuration, with both services.
abbrev with_services : KubeAkriConfig
with_services = record {
  metadata = meta_of "cameras" [];
  spec = record configuration {
    instance_service_spec = some no_spec;
    configuration_service_spec = some no_spec;
  };
}

abbrev serving : KubeInterface
serving = record cluster { find_configuration = λ t n ns. ok with_services }

running_run : (handle_running_pod serving (cam_pod "Running") []).0 ≡ ok tt
unfolding handle_running_pod add_instance_and_configuration_services add_instance_service
    add_configuration_service attempts retry_or_stop create_or_update_service get insert
    create_new_service_from_spec
running_run = refl

handle_running_pod-WasServed_example :
    (uid : String) × (camera.metadata.uid ≡ some uid)
    × HasInstanceService serving "cam" "cameras" "default" with_services uid
        (handle_running_pod serving (cam_pod "Running") []).1
    × HasConfigurationService serving "cam" "cameras" "default" with_services
        (handle_running_pod serving (cam_pod "Running") []).1
unfolding get
handle_running_pod-WasServed_example =
    handle_running_pod-WasServed serving "cam" "cameras" "default" with_services (cam_pod "Running")
      camera [] refl refl refl refl running_run

abbrev ended_watcher : BrokerPodWatcher
ended_watcher = record { known_pods = ("cam-pod", PodState.ended) ∷ []; trace = [] }

handle_pod-Step_example :
    Step cluster add_minutes ended_watcher
      (WatchEvent.deleted (cam_pod "Failed"))
      (handle_pod cluster add_minutes (WatchEvent.deleted (cam_pod "Failed")) ended_watcher)
handle_pod-Step_example =
    handle_pod-Step cluster add_minutes ended_watcher (WatchEvent.deleted (cam_pod "Failed"))

abbrev endings : List (WatchEvent PodObject)
endings = WatchEvent.modified (cam_pod "Succeeded") ∷ WatchEvent.modified (cam_pod "Failed") ∷ []

repeated_run : (handle_pods cluster add_minutes endings ended_watcher).0 ≡ ok tt
unfolding handle_pods for_each handle_pod handle_phase handle_ended_pod_if_needed get
repeated_run = refl

handle_pods-Last_example :
    Last "cam-pod" endings
      (get "cam-pod" ended_watcher.known_pods)
      (get "cam-pod" (handle_pods cluster add_minutes endings ended_watcher).1.known_pods)
handle_pods-Last_example =
    handle_pods-Last cluster add_minutes "cam-pod" endings ended_watcher repeated_run
