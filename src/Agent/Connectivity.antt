-- ===== src/Agent/Connectivity.antt =====
-- agent/src/util/config_action.rs: `update_connectivity_status`, which follows what a discovery sees, and
-- `try_delete_instance`. The map of Instances is changed by nobody else during the call. A panic is an
-- error of the model. `Instant`s are counted in seconds.
pub mod Transitions
pub mod Sweep
use akri.Base.{
  ℕ, ◌-◌, String, Bool, true, false, Option, none, some, List, [], ◌∷◌, map, select, Result, ok,
  err, M, ◌>>=◌, ◌>>◌, pure, lift, attempt, for_each, ltb, not, ◌||◌, if◌then◌else◌,
}
use akri.Base.HashMap.{HashMap, get, insert, contains_key}
use akri.Kube.Types.{Time, KubeAkriInstance}
use akri.Kube.Api.{
  Trace, Done, KubeInterface, find_instance, delete_instance, instant_now, emit, sent_continue,
}
use akri.Agent.DevicePlugin.{ConnectivityStatus, online, offline, InstanceInfo, InstanceMap}
use akri.Agent.DevicePlugin.Creation.{terminate_device_plugin_service}

abbrev pub shared_instance_offline_grace_period_secs : ℕ
shared_instance_offline_grace_period_secs = 300

pub record DiscoveryResult : Type 0 where
  pub digest : String
  pub properties : HashMap String

-- The shared map of Instances, with the trace of the calls.
pub record Discovery : Type 0 where
  pub instance_map : InstanceMap
  pub trace : Trace

abbrev pub on_trace : {A : Type 0} → M Trace A → M Discovery A
on_trace m s = let (r, t) = m s.trace in (r, record s { trace = t })

abbrev pub set_status : String → ConnectivityStatus → M Discovery (Unit {0})
set_status name status s = (
  ok tt,
  record s { instance_map = insert name (record { connectivity_status = status }) s.instance_map },
)

abbrev pub set_map : Option InstanceMap → M Discovery (Unit {0})
set_map none s = (err "called `Option::unwrap()` on a `None` value", s)
set_map (some m) s = (ok tt, record s { instance_map = m })

abbrev pub with_map : {A : Type 0} → (InstanceMap → M Discovery A) → M Discovery A
with_map f s = f s.instance_map s

abbrev pub is_overdue : Bool → Time → Time → Bool
is_overdue shared instant now =
    not shared || not (ltb (now - instant) shared_instance_offline_grace_period_secs)

module _ (kube : KubeInterface) where
  -- An Instance that cannot be found any more was deleted by another node.
  abbrev pub settle_delete : Done → Result KubeAkriInstance → Done
  settle_delete r (ok i) = r
  settle_delete r (err e) = ok tt

  abbrev pub after_delete : String → String → Done → M Trace (Unit {0})
  after_delete instance_name instance_namespace (ok u) = pure tt
  after_delete instance_name instance_namespace (err e) = do
    found ← attempt (find_instance kube instance_name instance_namespace)
    lift (settle_delete (err e) found)

  unfoldable pub try_delete_instance : String → String → M Trace (Unit {0})
  try_delete_instance instance_name instance_namespace = do
    deleted ← attempt (delete_instance kube instance_name instance_namespace)
    after_delete instance_name instance_namespace deleted

  module _ (config_namespace : String) (shared : Bool) where
    abbrev pub end_instance : String → M Discovery (Unit {0})
    end_instance name = do
      left ← with_map (λ m. on_trace (terminate_device_plugin_service name m))
      set_map left
      on_trace (try_delete_instance name config_namespace)

    -- One Instance, by whether it is visible and what its status was.
    abbrev pub update_one : String → Bool → ConnectivityStatus → M Discovery (Unit {0})
    update_one name true online = pure tt
    update_one name true (offline instant) =
        set_status name online >> on_trace (emit (sent_continue name))
    update_one name false online = do
      now ← on_trace (instant_now kube)
      set_status name (offline now)
      on_trace (emit (sent_continue name))
    update_one name false (offline instant) = do
      now ← on_trace (instant_now kube)
      if is_overdue shared instant now then end_instance name else pure tt

    unfoldable pub update_connectivity_status :
        HashMap DiscoveryResult → M Discovery (List DiscoveryResult)
    update_connectivity_status visible s =
        (for_each s.instance_map
              (λ e. update_one e.0 (contains_key e.0 visible) e.1.connectivity_status)
            >> pure (map (λ e. e.1) (select (λ e. not (contains_key e.0 s.instance_map)) visible)))
          s
