-- ===== src/Controller/PodServices.antt =====
-- controller/src/util/pod_watcher.rs: the services of Instances and Configurations follow the broker Pods.
-- What is done for a Pod that runs, and for one that does so no more. A panic is an error that no retry
-- catches.
pub mod Removals
pub mod Decisions
pub mod Updated
pub mod Running
pub mod Served
use akri.Base.{
  ℕ, String, Bool, true, false, Option, none, some, List, [], ◌∷◌, select, length, nat_eq, Result,
  ok, err, ok_or, M, ◌>>=◌, ◌>>◌, pure, lift, attempt, for_each, not, ◌&&◌, ◌==◌, if◌then◌else◌,
}
use akri.Base.HashMap.{HashMap, get, insert}
use akri.Kube.Types.{
  ℤ, Time, PodStatus, PodObject, ServiceSpec, ServiceObject, KubeAkriInstance, KubeAkriConfig,
  WatchEvent,
}
use akri.Kube.Api.{
  Trace, Done, KubeInterface, find_pods_with_label, find_services, create_service, remove_service,
  update_service, find_configuration, find_instance,
}
use akri.Kube.Pods.{
  ◌<>◌, akri_configuration_label_name, akri_instance_label_name, OwnershipType, OwnershipInfo,
}
use akri.Kube.Services.{create_service_app_name, create_new_service_from_spec, update_ownership}
use akri.Kube.Retry.{try_up_to_max}
use akri.Controller.PodAction.{InstanceAction}
use akri.Controller.InstanceAction.{handle_instance_change}

abbrev pub phase_of : Option PodStatus → Option String
phase_of none = none
phase_of (some s) = s.phase

-- The messages stand as in the source, each at the other's label.
abbrev pub get_instance_and_configuration_from_pod : PodObject → Result (String × String)
get_instance_and_configuration_from_pod pod =
    elim (get akri_instance_label_name pod.metadata.labels) [
      | none ↦ err "No configuration name found."
      | some instance_id ↦ elim (get akri_configuration_label_name pod.metadata.labels) [
        | none ↦ err "No instance id found."
        | some config_name ↦ ok (instance_id, config_name)
      ]
    ]

abbrev pub supports : Option String → Bool
supports none = true
supports (some phase) = not (phase == "Terminating") && not (phase == "Failed")

-- The Pod is one of the `num_non_terminating_pods`.
abbrev pub is_non_terminating : PodObject → Bool
is_non_terminating pod = supports (phase_of pod.status)

abbrev pub num_non_terminating_pods : List PodObject → ℕ
num_non_terminating_pods pods = length (select is_non_terminating pods)

-- The selector of the Pods of an Instance or of a Configuration.
abbrev pub pod_selector : String → String → Bool → String
pod_selector instance_id configuration_name handle_instance_svc =
    if handle_instance_svc
    then akri_instance_label_name <> "=" <> instance_id
    else akri_configuration_label_name <> "=" <> configuration_name

abbrev pub unwrap_none : String
unwrap_none = "called `Option::unwrap()` on a `None` value"

-- What follows the update of one service; an error ends the loop.
abbrev pub after_service : M Trace Done → Done → M Trace Done
after_service rest (ok u) = rest
after_service rest (err e) = pure (err e)

abbrev pub instance_ownership : String → String → OwnershipInfo
instance_ownership instance_name instance_uid = record {
  object_type = OwnershipType.instance;
  object_uid = instance_uid;
  object_name = instance_name;
}

abbrev pub configuration_ownership : String → String → OwnershipInfo
configuration_ownership configuration_name uid = record {
  object_type = OwnershipType.configuration;
  object_uid = uid;
  object_name = configuration_name;
}

module _ (kube : KubeInterface) where
  unfoldable pub cleanup_svc_if_unsupported : List PodObject → String → String → M Trace (Unit {0})
  cleanup_svc_if_unsupported pods svc_name svc_namespace =
      if nat_eq (num_non_terminating_pods pods) 0
      then remove_service kube svc_name svc_namespace
      else pure tt

  unfoldable pub find_pods_and_cleanup_svc_if_unsupported :
      String → String → String → Bool → M Trace (Unit {0})
  find_pods_and_cleanup_svc_if_unsupported instance_id configuration_name namespace
        handle_instance_svc =
      do
        pods ←
            find_pods_with_label kube
              (pod_selector instance_id configuration_name handle_instance_svc)
        cleanup_svc_if_unsupported pods
            (create_service_app_name configuration_name instance_id "svc" handle_instance_svc)
            namespace

  unfoldable pub update_services : OwnershipInfo → List ServiceObject → M Trace Done
  update_services ownership [] = pure (ok tt)
  update_services ownership (existing_svc ∷ existing_svcs) = do
    svc_namespace ← lift (ok_or existing_svc.metadata.namespace unwrap_none)
    updated ← attempt (
        update_service kube (update_ownership existing_svc ownership true)
          existing_svc.metadata.name svc_namespace)
    after_service (update_services ownership existing_svcs) updated

  module _ (instance_name configuration_name namespace : String) (ownership : OwnershipInfo)
      (service_spec : ServiceSpec) (is_instance_service : Bool) where
    abbrev pub create_service_from_spec : M Trace Done
    create_service_from_spec = attempt (do
      new_instance_svc ← lift (
          create_new_service_from_spec namespace instance_name configuration_name ownership
            service_spec is_instance_service)
      create_service kube new_instance_svc namespace)

    abbrev pub update_or_create : Result (List ServiceObject) → M Trace Done
    update_or_create (err e) = create_service_from_spec
    update_or_create (ok []) = create_service_from_spec
    update_or_create (ok (svc ∷ svcs)) = update_services ownership (svc ∷ svcs)

    -- The inner result is what the caller retries on; the outer error is a panic.
    unfoldable pub create_or_update_service : String → String → M Trace Done
    create_or_update_service label_name label_value = do
      found ← attempt (find_services kube (label_name <> "=" <> label_value))
      update_or_create found

  module _ (instance_name instance_uid namespace configuration_name : String)
      (configuration : KubeAkriConfig) where
    unfoldable pub add_instance_service : Option ServiceSpec → M Trace (Unit {0})
    add_instance_service none = pure tt
    add_instance_service (some spec) = try_up_to_max (λ x.
        create_or_update_service instance_name configuration_name namespace
          (instance_ownership instance_name instance_uid) spec true akri_instance_label_name
          instance_name)

    unfoldable pub add_configuration_service : Option ServiceSpec → M Trace (Unit {0})
    add_configuration_service none = pure tt
    add_configuration_service (some spec) = do
      configuration_uid ← lift (
          ok_or configuration.metadata.uid
            ("UID not found for configuration: " <> configuration_name))
      try_up_to_max (λ x.
          create_or_update_service instance_name configuration_name namespace
            (configuration_ownership configuration_name configuration_uid) spec false
            akri_configuration_label_name configuration_name)

    unfoldable pub add_instance_and_configuration_services : M Trace (Unit {0})
    add_instance_and_configuration_services =
        add_instance_service configuration.spec.instance_service_spec
        >> add_configuration_service configuration.spec.configuration_service_spec

  -- What follows the searches of `handle_running_pod`; a missing object is no error.
  abbrev pub with_instance :
      String → String → String → KubeAkriConfig → Result KubeAkriInstance → M Trace (Unit {0})
  with_instance instance_name configuration_name namespace configuration (err e) = pure tt
  with_instance instance_name configuration_name namespace configuration (ok inst) = do
    instance_uid ← lift (ok_or inst.metadata.uid ("UID not found for instance: " <> instance_name))
    add_instance_and_configuration_services instance_name instance_uid namespace configuration_name
        configuration

  abbrev pub with_configuration :
      String → String → String → Result KubeAkriConfig → M Trace (Unit {0})
  with_configuration instance_name configuration_name namespace (err e) = pure tt
  with_configuration instance_name configuration_name namespace (ok configuration) = do
    found ← attempt (find_instance kube instance_name namespace)
    with_instance instance_name configuration_name namespace configuration found

  unfoldable pub handle_running_pod : PodObject → M Trace (Unit {0})
  handle_running_pod pod = do
    namespace ←
        lift (ok_or pod.metadata.namespace ("Namespace not found for pod: " <> pod.metadata.name))
    names ← lift (get_instance_and_configuration_from_pod pod)
    found ← attempt (find_configuration kube names.1 namespace)
    with_configuration names.0 names.1 namespace found

  module _ (checked_add_minutes : Time → ℤ → Option Time) where
    abbrev pub restore_pods : Result KubeAkriInstance → M Trace (Unit {0})
    restore_pods (err e) = pure tt
    restore_pods (ok inst) =
        handle_instance_change checked_add_minutes kube inst InstanceAction.update

    unfoldable pub handle_non_running_pod : PodObject → M Trace (Unit {0})
    handle_non_running_pod pod = do
      namespace ←
          lift (ok_or pod.metadata.namespace ("Namespace not found for pod: " <> pod.metadata.name))
      names ← lift (get_instance_and_configuration_from_pod pod)
      find_pods_and_cleanup_svc_if_unsupported names.0 names.1 namespace true
      find_pods_and_cleanup_svc_if_unsupported names.0 names.1 namespace false
      found ← attempt (find_instance kube names.0 namespace)
      restore_pods found
