-- ===== src/Agent/DevicePlugin/Building.antt =====
-- `build_device_plugin`, `serve` and `register` of agent/src/util/device_plugin_service.rs: a service is put
-- together, served on a socket of its own and made known to the kubelet. The binding of sockets, the
-- gRPC server and its client are parameters, and so is the joining of paths. Messages to the kubelet
-- and to the server are entries of a list, the newest first.
pub mod Bound
use akri.Base.{
  ℕ, zero, suc, ◌+◌, String, Bool, true, false, Option, none, some, List, [], ◌∷◌, Result, ok, err,
  M, ◌>>=◌, ◌>>◌, pure, lift, attempt, ltb, show, if◌then◌else◌,
}
use akri.Base.HashMap.{HashMap}
use akri.Kube.Types.{Configuration}
use akri.Kube.Api.{Done}
use akri.Kube.Pods.{◌<>◌, akri_prefix}
use akri.Agent.DevicePlugin.{DevicePluginService}

abbrev pub k8s_device_plugin_version : String
k8s_device_plugin_version = "v1beta1"

abbrev pub connection_test_secs : ℕ
connection_test_secs = 10

pub record RegisterRequest : Type 0 where
  pub version : String
  pub endpoint : String
  pub resource_name : String
  pub pre_start_required : Bool

pub data Message : Type 0 where
  served : DevicePluginService → String → Message
  asked_to_register : RegisterRequest → Done → Message
  told_to_end : Done → Message

abbrev pub say : Message → M (List Message) (Unit {0})
say m s = (ok tt, m ∷ s)

-- The test that the server runs, by the number of the attempt: each reads the clock, and a failed one waits
-- for a second. The result is `connected`; the fuel is enough for every clock that goes on with the waits.
module _ (now : ℕ → ℕ) (connects : ℕ → Bool) (start_plus_10 : ℕ) where
  unfoldable pub await_server : ℕ → ℕ → Option Bool
  await_server zero i = none
  await_server (suc fuel) i =
      let rest = await_server fuel (suc i) in
      if ltb (now i) start_plus_10 then (if connects i then some true else rest) else some false

-- What a plugin is answered: by the clock, the environment, the sockets, the test of its server and the
-- kubelet.
pub record Host : Type 0 where
  pub unix_secs : Result ℕ
  pub agent_node_name : Result String
  pub join : String → String → String
  pub bound : Done
  pub start : ℕ
  pub now : ℕ → ℕ
  pub connects : ℕ → Bool
  pub kubelet : Done
  pub registered : Done
  pub server_ended : Done

module _ (host : Host) where
  -- Whether the server could be reached is logged only.
  unfoldable pub serve : DevicePluginService → String → M (List Message) (Option Bool)
  serve device_plugin_service socket_path = do
    lift host.bound
    say (served device_plugin_service socket_path)
    pure (
        await_server host.now host.connects (host.start + connection_test_secs)
          (suc connection_test_secs) 0)

  abbrev pub after_register : Done → M (List Message) (Unit {0})
  after_register (ok u) = pure tt
  after_register (err e) = say (told_to_end host.server_ended) >> lift host.server_ended

  unfoldable pub register : String → String → M (List Message) (Unit {0})
  register capability_id socket_name = do
    lift host.kubelet
    say (
        asked_to_register
          (record {
            version = k8s_device_plugin_version;
            endpoint = socket_name;
            resource_name = capability_id;
            pre_start_required = false;
          })
          host.registered)
    after_register host.registered

  abbrev pub device_endpoint : String → ℕ → String
  device_endpoint instance_name secs = instance_name <> "-" <> show secs <> ".sock"

  unfoldable pub build_device_plugin :
      String
      → String
      → String
      → String
      → Configuration
      → Bool
      → HashMap String
      → String
      → M (List Message) (Unit {0})
  build_device_plugin instance_name config_name config_uid config_namespace config shared
        instance_properties device_plugin_path =
      do
        secs ← lift host.unix_secs
        node_name ← lift host.agent_node_name
        tested ←
            serve
              (record {
                instance_name = instance_name;
                config = config;
                config_name = config_name;
                config_uid = config_uid;
                config_namespace = config_namespace;
                shared = shared;
                node_name = node_name;
                instance_properties = instance_properties;
              })
              (host.join device_plugin_path (device_endpoint instance_name secs))
        register (akri_prefix <> "/" <> instance_name) (device_endpoint instance_name secs)
