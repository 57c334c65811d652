-- ===== src/Tests/Fixtures.antt =====
-- A small cluster, with the objects that the runs use.
use akri.Base.{String, true, none, some, [], ◌∷◌, ok}
use akri.Base.HashMap.{HashMap}
use akri.Kube.Types.{
  pos, ObjectMeta, Instance, KubeAkriInstance, Configuration, ProtocolHandler, PodSpec, PodObject,
  NodeObject,
}
use akri.Kube.Api.{KubeInterface}
use akri.Agent.DevicePlugin.{DevicePluginService}

abbrev pub meta_of : String → HashMap String → ObjectMeta
meta_of name labels = record {
  name = name;
  namespace = some "default";
  uid = some "uid-1";
  labels = labels;
  owner_references = [];
}

abbrev pub cameras : Instance
cameras = record {
  configuration_name = "cameras";
  metadata = [];
  shared = true;
  nodes = "node-a" ∷ "node-b" ∷ [];
  device_usage = ("cam-0", "") ∷ ("cam-1", "") ∷ ("cam-2", "node-b") ∷ [];
  rbac = "rbac";
}

abbrev pub camera : KubeAkriInstance
camera = record { metadata = meta_of "cam" []; spec = cameras }

abbrev pub broker : PodSpec
broker = record { containers = []; affinity = none }

abbrev pub configuration : Configuration
configuration = record {
  protocol = ProtocolHandler.udev (record { udev_rules = [] });
  capacity = pos 3;
  units = "pcs";
  broker_pod_spec = some broker;
  instance_service_spec = none;
  configuration_service_spec = none;
  properties = [];
}

-- A cluster that has the camera and no Pods, and accepts each call.
abbrev pub cluster : KubeInterface
cluster = record {
  find_pods_with_label = λ t sel. ok [];
  find_pods_with_field = λ t sel. ok [];
  create_pod = λ t p ns. ok tt;
  remove_pod = λ t n ns. ok tt;
  find_services = λ t sel. ok [];
  create_service = λ t s ns. ok tt;
  remove_service = λ t n ns. ok tt;
  update_service = λ t s n ns. ok tt;
  find_configuration =
      λ t n ns. ok (record { metadata = meta_of "cameras" []; spec = configuration });
  find_instance = λ t n ns. ok camera;
  get_instances = λ t. ok (camera ∷ []);
  create_instance = λ t i n ns c u. ok tt;
  delete_instance = λ t n ns. ok tt;
  update_instance = λ t i n ns. ok tt;
  utc_now = λ t. 100;
  instant_now = λ t. 100;
}

-- The camera's device plugin on the first node.
abbrev pub service : DevicePluginService
service = record {
  instance_name = "cam";
  config = configuration;
  config_name = "cameras";
  config_uid = "uid-2";
  config_namespace = "default";
  shared = true;
  node_name = "node-a";
  instance_properties = ("/dev/video0", "/dev/video0") ∷ [];
}

-- A broker Pod of the camera that is to serve this node.
abbrev pub broker_on : String → String → PodObject
broker_on node phase = record {
  metadata = meta_of "cam-pod" (("akri.sh/target-node", node) ∷ ("akri.sh/instance", "cam") ∷ []);
  status = some (record { phase = some phase; start_time = some 10; conditions = none });
}

abbrev pub node_with : String → String → NodeObject
node_with name ready = record {
  metadata = meta_of name [];
  status = some (record { conditions = some (record { type_ = "Ready"; status = ready } ∷ []) });
}
