-- ===== src/Tests/ConfigRuns.antt =====
-- Runs of the Configuration actions, of the handlers and of the watch of an Instance.
use akri.Base.{
  nat_eq, Bool, String, true, false, Option, none, some, List, [], ◌∷◌, ◌++◌, map, Result, ok, err,
  All, Elem, select, ◌≡◌, ◌≢◌, ◌↔◌, ◌⊎◌, ◌≤◌, refl, inl, inr, arith,
}
use akri.Base.HashMap.{HashMap, get, contains_key}
use akri.Kube.Types.{KubeAkriConfig}
use akri.Kube.Api.{built_device_plugin, Done}
use akri.Agent.DevicePlugin.{online, InstanceMap}
use akri.Agent.DevicePlugin.Naming.{get_device_instance_name}
use akri.Agent.DevicePlugin.Creation.{try_create_instance}
use akri.Agent.DevicePlugin.Watch.{
  Turn, Watching, end, received, timed_out, watch_loop, list_and_watch,
}
use akri.Agent.DevicePlugin.Watch.Ending.{HasEndedIn, list_and_watch-HasEnded}
use akri.Agent.DevicePlugin.Watch.Stopping.{watch_loop_stops}
use akri.Agent.Connectivity.{Discovery, DiscoveryResult}
use akri.Agent.Configurations.{Answers, Configs, handle_config_delete}
use akri.Agent.Configurations.Outcome.{Outcome, handle_config_delete-Outcome}
use akri.Agent.Configurations.Handshake.{
  Discoverer, Tasks, Action, step, starting, past, subscribed, stop_sent, failed, finished,
  panicked, send_stop, subscribe, recv_finish, discover, recv_stop, send_finish,
}
use akri.Agent.Configurations.Handshake.Runs.{
  Reach, here, next, IsLost, Reach-past, Reach-stuck_iff,
}
use akri.Agent.Configurations.Handshake.Bound.{Run, done, more, steps_left_bound}
use akri.Agent.Configurations.Periodic.{Round, discovery_round, do_periodic_discovery}
use akri.Agent.Configurations.Periodic.Coverage.{discovery_round-Covers}
use akri.Agent.Configurations.Periodic.Ending.{HasReturned, do_periodic_discovery_returned_iff}
use akri.Tests.Fixtures.{meta_of, configuration, cluster, service}

abbrev cameras_config : KubeAkriConfig
cameras_config = record { metadata = meta_of "cameras" []; spec = configuration }

abbrev one_camera : InstanceMap
one_camera = ("cam", record { connectivity_status = online }) ∷ []

abbrev answers : Answers
answers = record {
  others = λ m. m;
  stop_accepted = true;
  finished = ok tt;
  last = λ m. m;
  end_taken = λ t n. ok tt;
}

abbrev configs : Configs
configs = record {
  config_map = ("cameras", record { instance_map = one_camera }) ∷ [];
  instance_map = [];
  trace = [];
}

handle_config_delete-Outcome_example :
    Outcome answers cameras_config configs
      (handle_config_delete cluster answers cameras_config configs).0
      (handle_config_delete cluster answers cameras_config configs).1
handle_config_delete-Outcome_example =
    handle_config_delete-Outcome answers cameras_config cluster configs

-- The deletion subscribes while the discovery stops, and gets its answer.
abbrev at_wait : Tasks
at_wait = record {
  deleter = starting;
  discoverer = Discoverer.waiting;
  stop_queued = false;
  finish_queued = false;
}

abbrev told : Tasks
told = record {
  deleter = stop_sent;
  discoverer = Discoverer.waiting;
  stop_queued = true;
  finish_queued = false;
}

told-Reach : Reach told
unfolding step
told-Reach = next (next {t = at_wait} here discover refl) send_stop refl

abbrev listening : Tasks
listening = record {
  deleter = subscribed;
  discoverer = Discoverer.waiting;
  stop_queued = true;
  finish_queued = false;
}

abbrev answered : Tasks
answered = record {
  deleter = past;
  discoverer = finished;
  stop_queued = false;
  finish_queued = false;
}

answered-Reach : Reach answered
unfolding step
answered-Reach =
    next
      (next
        {t = record {
          deleter = subscribed;
          discoverer = finished;
          stop_queued = false;
          finish_queued = true;
        }}
        (next
          {t = record {
            deleter = subscribed;
            discoverer = Discoverer.stopping;
            stop_queued = false;
            finish_queued = false;
          }}
          (next {t = listening} told-Reach subscribe refl) recv_stop refl)
        send_finish refl)
      recv_finish refl

-- The discovery answers before the deletion subscribes.
abbrev lost : Tasks
lost = record {
  deleter = subscribed;
  discoverer = panicked;
  stop_queued = false;
  finish_queued = false;
}

lost-Reach : Reach lost
unfolding step
lost-Reach =
    next
      (next
        {t = record {
          deleter = stop_sent;
          discoverer = panicked;
          stop_queued = false;
          finish_queued = false;
        }}
        (next
          {t = record {
            deleter = stop_sent;
            discoverer = Discoverer.stopping;
            stop_queued = false;
            finish_queued = false;
          }}
          told-Reach recv_stop refl)
        send_finish refl)
      subscribe refl

Reach-past_example :
    ((finished ≡ failed) ⊎ (finished ≡ finished)) × ((a : Action) → step a answered ≡ none)
Reach-past_example = Reach-past answered-Reach refl

Reach-stuck_iff_example : ((a : Action) → step a lost ≡ none) ↔ ((subscribed ≡ past) ⊎ IsLost lost)
Reach-stuck_iff_example = Reach-stuck_iff lost-Reach

one_step : Run 1 told listening
unfolding step
one_step = more subscribe refl done

steps_left_bound_example : 1 ≤ 5
steps_left_bound_example = steps_left_bound told-Reach (λ e. cc) one_step

abbrev seen : DiscoveryResult
seen = record { digest = "a1"; properties = [] }

abbrev last_round : Round
last_round = record {
  others = λ m. m;
  discovered = ok (seen ∷ []);
  built = λ d. ok tt;
  stop_received = true;
  finish_heard = ok tt;
}

abbrev fresh : Discovery
fresh = record { instance_map = []; trace = [] }

discovery_round-Covers_example :
    All
      (λ d.
        let name = get_device_instance_name d.digest "cameras" in
        (contains_key name fresh.instance_map ≡ true)
        ⊎ ((done : Done) × Elem
              (built_device_plugin name done)
              (discovery_round cluster "cameras" "default" true last_round fresh).1.trace))
      (seen ∷ [])
unfolding discovery_round akri.Agent.Connectivity.update_connectivity_status akri.Base.for_each
    akri.Agent.Configurations.Periodic.collect_visible akri.Base.HashMap.insert contains_key
discovery_round-Covers_example =
    discovery_round-Covers cluster "cameras" "default" true last_round fresh (seen ∷ []) refl refl

do_periodic_discovery_returned_iff_example :
    (do_periodic_discovery cluster "cameras" "default" true (last_round ∷ last_round ∷ []) fresh
      ≡ (ok true, (discovery_round cluster "cameras" "default" true last_round fresh).1))
    ↔ HasReturned cluster "cameras" "default" true
        (last_round ∷ last_round ∷ [])
        fresh
        (discovery_round cluster "cameras" "default" true last_round fresh).1
do_periodic_discovery_returned_iff_example =
    do_periodic_discovery_returned_iff cluster "cameras" "default" true
      (last_round ∷ last_round ∷ []) fresh
      (discovery_round cluster "cameras" "default" true last_round fresh).1

-- A turn in which the kubelet listens and the agent asks for the end.
abbrev end_turn : Turn
end_turn = record {
  others = λ m. m;
  others_reading = λ m. m;
  others_waiting = λ m. m;
  kubelet_listens = true;
  ended_unheard = ok tt;
  wake = received (ok end);
  hears_last = true;
  ended = ok tt;
}

abbrev watching : Watching
watching = record { instance_map = []; sent = []; server_ended = false; trace = [] }

list_and_watch-HasEnded_example :
    HasEndedIn service cluster
      (end_turn ∷ [])
      (list_and_watch service cluster (ok tt) (end_turn ∷ []) watching).1
    ⊎ ((e : String) × ((try_create_instance service cluster [] []).0 ≡ err e)
        × ((list_and_watch service cluster (ok tt) (end_turn ∷ []) watching).1.server_ended ≡ true))
unfolding list_and_watch try_create_instance akri.Kube.Retry.attempts
    akri.Agent.DevicePlugin.Creation.attempt_creation akri.Kube.Retry.retry_or_stop watch_loop
    akri.Agent.DevicePlugin.Watch.watch_turn
    akri.Agent.DevicePlugin.Devices.build_list_and_watch_response get akri.Base.HashMap.insert
    akri.Agent.DevicePlugin.Devices.build_virtual_devices contains_key
list_and_watch-HasEnded_example =
    list_and_watch-HasEnded service cluster (ok tt) (end_turn ∷ []) watching refl

watch_loop_stops_example :
    (watch_loop service cluster ([] ++ end_turn ∷ end_turn ∷ []) watching
      ≡ watch_loop service cluster ([] ++ end_turn ∷ []) watching)
    × ((watch_loop service cluster ([] ++ end_turn ∷ end_turn ∷ []) watching).0 ≢ ok true)
watch_loop_stops_example =
    watch_loop_stops service cluster [] (end_turn ∷ []) end_turn watching (inl refl)
