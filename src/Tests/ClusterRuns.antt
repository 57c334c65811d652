-- ===== src/Tests/ClusterRuns.antt =====
-- Runs of the calls of the cluster.
use akri.Base.{none, some, [], ◌∷◌, ok, ◌≡◌, ◌↔◌}
use akri.Kube.Types.{Pod}
use akri.Kube.Client.{ApiClient, response, refused, api, kube_impl}
use akri.Kube.Client.Outcome.{Write, perform, Succeeds, perform_iff}
use akri.Tests.Fixtures.{camera}

abbrev new_pod : Pod
new_pod = record {
  spec = none;
  metadata = record {
    name = some "cam-pod";
    namespace = none;
    labels = none;
    owner_references = none;
  };
}

-- A server that has every object already, and refuses to create one again.
abbrev full_server : ApiClient
full_server = record {
  list_pods = λ t l f. response [];
  post_pod = λ t p ns. refused (api 409 "exists");
  delete_pod = λ t n ns. response tt;
  list_services = λ t sel. response [];
  post_service = λ t s ns. refused (api 409 "exists");
  delete_service = λ t n ns. response tt;
  patch_service = λ t s n ns. response tt;
  get_configuration = λ t n ns. refused (api 404 "missing");
  get_instance = λ t n ns. response camera;
  list_instances = λ t. response (camera ∷ []);
  post_instance = λ t i ns. refused (api 409 "exists");
  delete_instance = λ t n ns. response tt;
  patch_instance = λ t i n ns. response tt;
}

perform_iff_example :
    (perform (kube_impl (λ t. 0) (λ t. 0) full_server) [] (Write.create_pod new_pod "default")
      ≡ ok tt)
    ↔ Succeeds full_server [] (Write.create_pod new_pod "default")
perform_iff_example =
    perform_iff (λ t. 0) (λ t. 0) full_server [] (Write.create_pod new_pod "default")
