-- ===== src/Agent/DevicePlugin/Watch.antt =====
-- `list_and_watch` of agent/src/util/device_plugin_service.rs: the task that keeps the kubelet informed of the
-- devices of an Instance, over the turns of its loop. A turn has what its surroundings answer: the other
-- tasks that share the map, the kubelet, the messages of the agent, and the server that is told to end.
pub mod Ending
pub mod Stopping
use akri.Base.{
  String, Bool, true, false, Option, none, some, List, [], ◌∷◌, Result, ok, err, ok_or, M, ◌>>=◌,
  ◌>>◌, pure, lift, attempt,
}
use akri.Base.HashMap.{remove}
use akri.Kube.Api.{Trace, Done, KubeInterface}
use akri.Agent.DevicePlugin.{InstanceMap, DevicePluginService}
use akri.Agent.DevicePlugin.Devices.{Device, all_unhealthy, build_list_and_watch_response}
use akri.Agent.DevicePlugin.Creation.{try_create_instance}

pub data ListAndWatchMessageKind : Type 0 where
  continue end : ListAndWatchMessageKind

-- The wait of a minute: its end, or what `recv` gave.
pub data Wake : Type 0 where
  timed_out : Wake
  received : Result ListAndWatchMessageKind → Wake

-- `others` is what the other tasks do to the map before it is read, `others_reading` what they do between
-- the two looks at it, and `others_waiting` what they do while this task waits. `kubelet_listens` and `hears_last` tell whether the kubelet's channel took the list, and the last one;
-- the two others are the answers to the messages that end the server.
pub record Turn : Type 0 where
  pub others : InstanceMap → InstanceMap
  pub others_reading : InstanceMap → InstanceMap
  pub kubelet_listens : Bool
  pub ended_unheard : Done
  pub others_waiting : InstanceMap → InstanceMap
  pub wake : Wake
  pub hears_last : Bool
  pub ended : Done

-- The lists that the kubelet was sent, the newest first, and whether the server was told to end.
pub record Watching : Type 0 where
  pub instance_map : InstanceMap
  pub sent : List (List Device)
  pub server_ended : Bool
  pub trace : Trace

abbrev pub on_calls : {A : Type 0} → M Trace A → M Watching A
on_calls m s = let (r, t) = m s.trace in (r, record s { trace = t })

abbrev pub beside : (InstanceMap → InstanceMap) → M Watching (Unit {0})
beside others s = (ok tt, record s { instance_map = others s.instance_map })

abbrev pub on_map : {A : Type 0} → (InstanceMap → M Watching A) → M Watching A
on_map f s = f s.instance_map s

abbrev pub push_list : List Device → M Watching (Unit {0})
push_list devices s = (ok tt, record s { sent = devices ∷ s.sent })

-- `server_ender_sender.send(()).await.unwrap()`, after which the loop is left.
abbrev pub end_server : Done → M Watching Bool
end_server (err e) s = (err e, s)
end_server (ok u) s = (ok false, record s { server_ended = true })

module _ (dps : DevicePluginService) (kube : KubeInterface) where
  abbrev pub leave_map : M Watching (Unit {0})
  leave_map s = (ok tt, record s { instance_map = remove dps.instance_name s.instance_map })

  -- A kubelet that does not listen is down or was restarted.
  abbrev pub send_list : Turn → Bool → List Device → M Watching Bool
  send_list turn true devices = push_list devices >> pure true
  send_list turn false devices = leave_map >> end_server turn.ended_unheard

  -- The last list is unwrapped.
  abbrev pub send_last : Turn → Bool → M Watching Bool
  send_last turn true = push_list (all_unhealthy dps) >> end_server turn.ended
  send_last turn false = lift (err "called `Result::unwrap()` on an `Err` value")

  abbrev pub wake_up : Turn → Wake → Bool → M Watching Bool
  wake_up turn (received (ok end)) keep_looping = send_last turn turn.hears_last
  wake_up turn _ keep_looping = pure keep_looping

  abbrev pub read_devices : Turn → InstanceMap → M Watching (Option (List Device))
  read_devices turn m =
      beside turn.others_reading
      >> on_map (λ later. on_calls (build_list_and_watch_response kube dps m later))

  -- One turn of the loop; the result is `keep_looping`.
  unfoldable pub watch_turn : Turn → M Watching Bool
  watch_turn turn = do
    beside turn.others
    response ← on_map (read_devices turn)
    devices ← lift (ok_or response "the response panicked")
    keep_looping ← send_list turn turn.kubelet_listens devices
    beside turn.others_waiting
    wake_up turn turn.wake keep_looping

  -- `true` if the loop goes on after these turns.
  unfoldable pub watch_loop : List Turn → M Watching Bool
  watch_loop [] = pure true
  watch_loop (turn ∷ turns) = watch_turn turn >>= λ keep_looping. elim keep_looping [
    | true ↦ watch_loop turns
    | false ↦ pure false
  ]

  abbrev pub after_create : Done → List Turn → Result InstanceMap → M Watching Bool
  after_create unserved turns (err e) = end_server unserved
  after_create unserved turns (ok m) = beside (λ _. m) >> watch_loop turns

  unfoldable pub list_and_watch : Done → List Turn → M Watching Bool
  list_and_watch unserved turns = do
    created ← attempt (on_map (λ m. on_calls (try_create_instance dps kube m)))
    after_create unserved turns created
