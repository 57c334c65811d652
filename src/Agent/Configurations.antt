-- ===== src/Agent/Configurations.antt =====
-- agent/src/util/config_action.rs: the map of the Configurations that the node discovers Instances for, and
-- what an event of a Configuration does to it. Locks are held for single accesses only, so what the other
-- tasks do to the map while a call waits is an argument. A channel is left out but for the answers of
-- its `send` and `recv`, which are arguments; a panic is an error of the model.
pub mod Deletion
pub mod Cleared
pub mod Outcome
pub mod Handshake
pub mod Periodic
use akri.Base.{
  ℕ, String, Bool, true, false, Option, none, some, List, [], ◌∷◌, Result, ok, err, ok_or, M, ◌>>=◌,
  ◌>>◌, pure, lift, for_each, if◌then◌else◌,
}
use akri.Base.HashMap.{HashMap, get, insert, remove}
use akri.Kube.Types.{Configuration, ProtocolHandler, KubeAkriConfig}
use akri.Kube.Api.{Trace, Done, KubeInterface, emit, sent_end}
use akri.Agent.DevicePlugin.{InstanceInfo, InstanceMap}
use akri.Agent.Connectivity.{Discovery, DiscoveryResult, on_trace, try_delete_instance}

-- The senders of a Configuration's channels go by its name.
pub record ConfigInfo : Type 0 where
  pub instance_map : InstanceMap

abbrev pub ConfigMap : Type 0
ConfigMap = HashMap ConfigInfo

-- The shared map, the Instances of the Configuration that left it last, and the calls made.
pub record Configs : Type 0 where
  pub config_map : ConfigMap
  pub instance_map : InstanceMap
  pub trace : Trace

abbrev pub get_config : String → M Configs ConfigInfo
get_config name s = (ok_or (get name s.config_map) "called `Option::unwrap()` on a `None` value", s)

-- What the other tasks do to the map.
abbrev pub meanwhile : (ConfigMap → ConfigMap) → M Configs (Unit {0})
meanwhile others s = (ok tt, record s { config_map = others s.config_map })

-- The Configuration leaves the map, and its Instances are at hand.
abbrev pub take_config : String → InstanceMap → M Configs (Unit {0})
take_config name m s = (ok tt, record s { config_map = remove name s.config_map; instance_map = m })

abbrev pub on_instances : M Discovery (Unit {0}) → M Configs (Unit {0})
on_instances m s =
    let (r, d) = m (record { instance_map = s.instance_map; trace = s.trace }) in
    (r, record s { instance_map = d.instance_map; trace = d.trace })

abbrev pub drop_instance : String → M Discovery (Unit {0})
drop_instance name s = (ok tt, record s { instance_map = remove name s.instance_map })

-- The channels' answers to a deletion, with what the other tasks do before and during the wait: whether the
-- stop message was accepted, what `recv` gave, and whether a device plugin took its last message.
pub record Answers : Type 0 where
  pub others : ConfigMap → ConfigMap
  pub stop_accepted : Bool
  pub finished : Done
  pub last : ConfigMap → ConfigMap
  pub end_taken : Trace → String → Done

module _ (kube : KubeInterface) (answers : Answers) where
  -- The wait for a discovery that took the stop message.
  abbrev pub await_finish : String → Bool → M Configs (Unit {0})
  await_finish name false = pure tt
  await_finish name true = do
    meanwhile answers.others
    again ← get_config name
    lift answers.finished

  abbrev pub stop_discovery : String → M Configs (Unit {0})
  stop_discovery name = do info ← get_config name; await_finish name answers.stop_accepted

  abbrev pub send_end : String → M Trace (Unit {0})
  send_end name t = (answers.end_taken t name, sent_end name ∷ t)

  -- The lock on the Instances is held for the whole loop.
  abbrev pub end_entry : String → String × InstanceInfo → M Discovery (Unit {0})
  end_entry namespace e = do
    on_trace (send_end e.0)
    drop_instance e.0
    on_trace (try_delete_instance kube e.0 namespace)

  abbrev pub end_instances : String → M Discovery (Unit {0})
  end_instances namespace s = for_each s.instance_map (end_entry namespace) s

  unfoldable pub handle_config_delete : KubeAkriConfig → M Configs (Unit {0})
  handle_config_delete config = do
    stop_discovery config.metadata.name
    meanwhile answers.last
    info ← get_config config.metadata.name
    take_config config.metadata.name info.instance_map
    namespace ← lift (ok_or config.metadata.namespace "called `Option::unwrap()` on a `None` value")
    on_instances (end_instances namespace)

-- What a discovery works on.
pub record PeriodicDiscovery : Type 0 where
  pub config_name : String
  pub config_uid : String
  pub config_namespace : String
  pub config_spec : Configuration
  pub config_protocol : ProtocolHandler
  pub instance_map : InstanceMap

abbrev pub enter_config : String → M Configs (Unit {0})
enter_config name s =
    (ok tt, record s { config_map = insert name (record { instance_map = [] }) s.config_map })

-- `handle_config_add` up to the start of the discovery that it spawns. The handler and its first discovery
-- are answered by the argument.
unfoldable pub handle_config_add :
    Result (List DiscoveryResult) → KubeAkriConfig → M Configs PeriodicDiscovery
handle_config_add discovered config = do
  results ← lift discovered
  uid ← lift (ok_or config.metadata.uid "called `Option::unwrap()` on a `None` value")
  namespace ← lift (ok_or config.metadata.namespace "called `Option::unwrap()` on a `None` value")
  enter_config config.metadata.name
  pure (record {
    config_name = config.metadata.name;
    config_uid = uid;
    config_namespace = namespace;
    config_spec = config.spec;
    config_protocol = config.spec.protocol;
    instance_map = [];
  })

pub data WatchEvent : Type 0 where
  added modified deleted : KubeAkriConfig → WatchEvent
  error : String → WatchEvent

-- A task to run beside the others: `handle_config_add` of the Configuration.
abbrev pub Spawned : Type 0
Spawned = Option KubeAkriConfig

unfoldable pub handle_config : KubeInterface → Answers → WatchEvent → M Configs Spawned
handle_config kube answers (WatchEvent.added config) = pure (some config)
handle_config kube answers (WatchEvent.deleted config) =
    handle_config_delete kube answers config >> pure none
handle_config kube answers (WatchEvent.modified config) =
    handle_config_delete kube answers config >> pure (some config)
handle_config kube answers (WatchEvent.error e) = pure none
