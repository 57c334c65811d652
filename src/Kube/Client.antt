-- ===== src/Kube/Client.antt =====
-- KubeImpl of shared/src/k8s/mod.rs with the requests of pod.rs and service.rs beside it, and of
-- shared/src/akri/instance.rs and configuration.rs: how the answers of the API server become results. The
-- client of the `kube` package is a parameter: its answer to a request may depend on all calls so far. The
-- writing of an object for a request does not fail.
pub mod Outcome
use akri.Base.{
  ℕ, String, true, none, some, Option, List, [], ◌∷◌, Result, ok, err, nat_eq, if◌then◌else◌,
}
use akri.Kube.Types.{
  Time, ObjectMeta, OwnerReference, Pod, Service, ServiceObject, PodObject, Instance,
  KubeAkriInstance, KubeAkriConfig,
}
use akri.Kube.Api.{Trace, Done, KubeInterface, found_instance}
use akri.Kube.Pods.{◌<>◌, api_version, api_namespace}

abbrev pub error_not_found : ℕ
error_not_found = 404

abbrev pub error_conflict : ℕ
error_conflict = 409

-- `kube::Error`: an answer of the API server with a code, or another error.
pub data KubeError : Type 0 where
  api : ℕ → String → KubeError
  other : String → KubeError

pub data Answer (A : Type 0) : Type 0 where
  response : A → Answer A
  refused : KubeError → Answer A

pub record ApiClient : Type 0 where
  pub list_pods : Trace → Option String → Option String → Answer (List PodObject)
  pub post_pod : Trace → Pod → String → Answer (Unit {0})
  pub delete_pod : Trace → String → String → Answer (Unit {0})
  pub list_services : Trace → String → Answer (List ServiceObject)
  pub post_service : Trace → Service → String → Answer (Unit {0})
  pub delete_service : Trace → String → String → Answer (Unit {0})
  pub patch_service : Trace → ServiceObject → String → String → Answer (Unit {0})
  pub get_configuration : Trace → String → String → Answer KubeAkriConfig
  pub get_instance : Trace → String → String → Answer KubeAkriInstance
  pub list_instances : Trace → Answer (List KubeAkriInstance)
  pub post_instance : Trace → KubeAkriInstance → String → Answer (Unit {0})
  pub delete_instance : Trace → String → String → Answer (Unit {0})
  pub patch_instance : Trace → KubeAkriInstance → String → String → Answer (Unit {0})

abbrev pub message : KubeError → String
message (api code m) = m
message (other m) = m

-- Every error is handed on.
abbrev pub pass_on : {A : Type 0} → Answer A → Result A
pass_on (response a) = ok a
pass_on (refused e) = err (message e)

-- An error of the server with this code is taken for a success.
abbrev pub tolerate : ℕ → Answer (Unit {0}) → Done
tolerate code (response u) = ok tt
tolerate code (refused (api c m)) = if nat_eq c code then ok tt else err m
tolerate code (refused (other m)) = err m

-- All errors of the server are taken for a success.
abbrev pub after_post : Answer (Unit {0}) → Done
after_post (response u) = ok tt
after_post (refused (api code m)) = ok tt
after_post (refused (other m)) = err m

-- The object that is sent for a new Instance.
unfoldable pub owned_instance : Instance → String → String → String → KubeAkriInstance
owned_instance instance_to_create name owner_config_name owner_config_uid = record {
  metadata = record {
    name = name;
    namespace = none;
    uid = none;
    labels = [];
    owner_references =
        record {
          api_version = api_namespace <> "/" <> api_version;
          kind = "Configuration";
          controller = some true;
          block_owner_deletion = some true;
          name = owner_config_name;
          uid = owner_config_uid;
        }
        ∷ [];
  };
  spec = instance_to_create;
}

module _ (client : ApiClient) (t : Trace) where
  unfoldable pub create_pod : Pod → String → Done
  create_pod pod_to_create namespace =
      tolerate error_conflict (client.post_pod t pod_to_create namespace)

  unfoldable pub remove_pod : String → String → Done
  remove_pod pod_to_remove namespace =
      tolerate error_not_found (client.delete_pod t pod_to_remove namespace)

  unfoldable pub create_service : Service → String → Done
  create_service svc_to_create namespace =
      after_post (client.post_service t svc_to_create namespace)

  unfoldable pub remove_service : String → String → Done
  remove_service svc_to_remove namespace =
      tolerate error_not_found (client.delete_service t svc_to_remove namespace)

  unfoldable pub update_service : ServiceObject → String → String → Done
  update_service svc_to_update name namespace =
      pass_on (client.patch_service t svc_to_update name namespace)

  unfoldable pub find_instance : String → String → Result KubeAkriInstance
  find_instance name namespace = pass_on (client.get_instance t name namespace)

  unfoldable pub create_instance : Instance → String → String → String → String → Done
  create_instance instance_to_create name namespace owner_config_name owner_config_uid = pass_on (
      client.post_instance t
        (owned_instance instance_to_create name owner_config_name owner_config_uid) namespace)

  unfoldable pub delete_instance : String → String → Done
  delete_instance name namespace = pass_on (client.delete_instance t name namespace)

-- What is sent for an Instance that was found, with the new content.
abbrev pub patch_found :
    ApiClient → Trace → Instance → String → String → Result KubeAkriInstance → Done
patch_found client t instance_to_update name namespace (err e) = err e
patch_found client t instance_to_update name namespace (ok existing) =
    pass_on (client.patch_instance t (record existing { spec = instance_to_update }) name namespace)

-- Between the two requests of an update the server may act for others.
unfoldable pub update_instance : ApiClient → Trace → Instance → String → String → Done
update_instance client t instance_to_update name namespace =
    let found = find_instance client t name namespace in
    patch_found client (found_instance name namespace found ∷ t) instance_to_update name namespace
      found

-- The two clocks stand beside the client.
unfoldable pub kube_impl : (Trace → Time) → (Trace → Time) → ApiClient → KubeInterface
kube_impl utc_now instant_now client = record {
  find_pods_with_label = λ t selector. pass_on (client.list_pods t (some selector) none);
  find_pods_with_field = λ t selector. pass_on (client.list_pods t none (some selector));
  create_pod = create_pod client;
  remove_pod = remove_pod client;
  find_services = λ t selector. pass_on (client.list_services t selector);
  create_service = create_service client;
  remove_service = remove_service client;
  update_service = update_service client;
  find_configuration = λ t name namespace. pass_on (client.get_configuration t name namespace);
  find_instance = find_instance client;
  get_instances = λ t. pass_on (client.list_instances t);
  create_instance = create_instance client;
  delete_instance = delete_instance client;
  update_instance = update_instance client;
  utc_now = utc_now;
  instant_now = instant_now;
}
