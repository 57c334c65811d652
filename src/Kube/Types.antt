-- ===== src/Kube/Types.antt =====
-- The objects of the cluster: shared/src/akri/instance.rs, shared/src/akri/configuration.rs, and what
-- the sources read of the Kubernetes objects of `k8s_openapi` and `kube`. Fields of those objects that
-- the sources neither read nor write are left out.
use akri.Base.{ℕ, String, Bool, Option, List}
use akri.Base.HashMap.{HashMap}

-- `i32` and `i64` values; `negsuc n` is -(n + 1).
pub data ℤ : Type 0 where
  pos : ℕ → ℤ
  negsuc : ℕ → ℤ

-- `DateTime<Utc>` and `Instant`, counted in seconds from a fixed origin.
abbrev pub Time : Type 0
Time = ℕ

pub record OwnerReference : Type 0 where
  pub api_version : String
  pub kind : String
  pub controller : Option Bool
  pub block_owner_deletion : Option Bool
  pub name : String
  pub uid : String

-- `kube::api::ObjectMeta`, the metadata of an object that was read.
pub record ObjectMeta : Type 0 where
  pub name : String
  pub namespace : Option String
  pub uid : Option String
  pub labels : HashMap String
  pub owner_references : List OwnerReference

pub record ResourceRequirements : Type 0 where
  pub limits : Option (HashMap String)
  pub requests : Option (HashMap String)

pub record Container : Type 0 where
  pub name : String
  pub image : Option String
  pub resources : Option ResourceRequirements

pub record NodeSelectorRequirement : Type 0 where
  pub key : String
  pub operator : String
  pub values : Option (List String)

pub record NodeSelectorTerm : Type 0 where
  pub match_expressions : Option (List NodeSelectorRequirement)
  pub match_fields : Option (List NodeSelectorRequirement)

pub record NodeSelector : Type 0 where
  pub node_selector_terms : List NodeSelectorTerm

pub record NodeAffinity : Type 0 where
  pub required_during_scheduling_ignored_during_execution : Option NodeSelector

pub record Affinity : Type 0 where
  pub node_affinity : Option NodeAffinity

pub record PodSpec : Type 0 where
  pub containers : List Container
  pub affinity : Option Affinity

-- The metadata of `k8s_openapi`, as it is sent for a new object.
pub record NewObjectMeta : Type 0 where
  pub name : Option String
  pub namespace : Option String
  pub labels : Option (HashMap String)
  pub owner_references : Option (List OwnerReference)

pub record Pod : Type 0 where
  pub spec : Option PodSpec
  pub metadata : NewObjectMeta

pub record ServiceSpec : Type 0 where
  pub selector : Option (HashMap String)
  pub cluster_ip : Option String

pub record Service : Type 0 where
  pub spec : Option ServiceSpec
  pub metadata : NewObjectMeta

pub record ServiceObject : Type 0 where
  pub metadata : ObjectMeta
  pub spec : ServiceSpec

-- A condition of a Pod or of a Node; the source's field is `type_`.
pub record Condition : Type 0 where
  pub type_ : String
  pub status : String

pub record PodStatus : Type 0 where
  pub phase : Option String
  pub start_time : Option Time
  pub conditions : Option (List Condition)

pub record PodObject : Type 0 where
  pub metadata : ObjectMeta
  pub status : Option PodStatus

pub record NodeStatus : Type 0 where
  pub conditions : Option (List Condition)

pub record NodeObject : Type 0 where
  pub metadata : ObjectMeta
  pub status : Option NodeStatus

-- `Instance`: `device_usage` maps a slot to the node that claimed it, or to "".
pub record Instance : Type 0 where
  pub configuration_name : String
  pub metadata : HashMap String
  pub shared : Bool
  pub nodes : List String
  pub device_usage : HashMap String
  pub rbac : String

pub record KubeAkriInstance : Type 0 where
  pub metadata : ObjectMeta
  pub spec : Instance

pub data FilterType : Type 0 where
  exclude include : FilterType

pub record FilterList : Type 0 where
  pub items : List String
  pub action : FilterType

pub record OnvifDiscoveryHandlerConfig : Type 0 where
  pub ip_addresses : Option FilterList
  pub mac_addresses : Option FilterList
  pub scopes : Option FilterList
  pub discovery_timeout_seconds : ℤ

pub record UdevDiscoveryHandlerConfig : Type 0 where
  pub udev_rules : List String

pub record StandardOpcuaDiscovery : Type 0 where
  pub discovery_urls : List String

pub data OpcuaDiscoveryMethod : Type 0 where
  standard : StandardOpcuaDiscovery → OpcuaDiscoveryMethod

pub record OpcuaDiscoveryHandlerConfig : Type 0 where
  pub opcua_discovery_method : OpcuaDiscoveryMethod
  pub application_names : Option FilterList

pub record DebugEchoDiscoveryHandlerConfig : Type 0 where
  pub descriptions : List String
  pub shared : Bool

pub data ProtocolHandler : Type 0 where
  onvif : OnvifDiscoveryHandlerConfig → ProtocolHandler
  udev : UdevDiscoveryHandlerConfig → ProtocolHandler
  opcua : OpcuaDiscoveryHandlerConfig → ProtocolHandler
  debug_echo : DebugEchoDiscoveryHandlerConfig → ProtocolHandler

pub record Configuration : Type 0 where
  pub protocol : ProtocolHandler
  pub capacity : ℤ
  pub units : String
  pub broker_pod_spec : Option PodSpec
  pub instance_service_spec : Option ServiceSpec
  pub configuration_service_spec : Option ServiceSpec
  pub properties : HashMap String

pub record KubeAkriConfig : Type 0 where
  pub metadata : ObjectMeta
  pub spec : Configuration

-- `kube::api::WatchEvent`.
pub data WatchEvent (A : Type 0) : Type 0 where
  added modified deleted : A → WatchEvent A
  error : String → WatchEvent A
