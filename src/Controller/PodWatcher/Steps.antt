-- ===== src/Controller/PodWatcher/Steps.antt =====
-- The steps of the watcher, as a relation between its states.
use akri.Base.{String, Option, some, ok, err, M, pure, ◌≡◌, ◌≢◌}
use akri.Base.HashMap.{get, insert}
use akri.Kube.Types.{ℤ, Time, PodObject, WatchEvent}
use akri.Kube.Api.{Trace, Done, KubeInterface}
use akri.Controller.PodServices.{handle_running_pod, handle_non_running_pod}
use akri.Controller.PodWatcher.{PodState, BrokerPodWatcher, get_pod_phase}

-- What a phase says of the Pod: it waits, it runs, or it has ended. Other phases say nothing.
pub data Shows : String → PodState → Type 0 where
  unknown : Shows "Unknown" PodState.pending
  waiting : Shows "Pending" PodState.pending
  run : Shows "Running" PodState.running
  succeeded : Shows "Succeeded" PodState.ended
  failed : Shows "Failed" PodState.ended

-- The event brings the Pod to this state.
pub data Brings : WatchEvent PodObject → PodObject → PodState → Type 0 where
  added :
      {pod : PodObject} {s : PodState}
      → Shows (get_pod_phase pod) s
      → Brings (WatchEvent.added pod) pod s
  modified :
      {pod : PodObject} {s : PodState}
      → Shows (get_pod_phase pod) s
      → Brings (WatchEvent.modified pod) pod s
  removed : {pod : PodObject} → Brings (WatchEvent.deleted pod) pod PodState.deleted

module _ (kube : KubeInterface) (checked_add_minutes : Time → ℤ → Option Time) where
  -- What the cluster is asked when a Pod comes to a state.
  abbrev pub handler_of : PodState → PodObject → M Trace (Unit {0})
  handler_of PodState.pending pod = pure tt
  handler_of PodState.running pod = handle_running_pod kube pod
  handler_of PodState.ended pod = handle_non_running_pod kube checked_add_minutes pod
  handler_of PodState.deleted pod = handle_non_running_pod kube checked_add_minutes pod

  -- One step of the watcher: the event, and the answer and the watcher after it.
  pub data Step (w : BrokerPodWatcher)
      : WatchEvent PodObject → Done × BrokerPodWatcher → Type 0 where
    -- A waiting Pod is only noted.
    waits :
        {e : WatchEvent PodObject} {pod : PodObject}
        → Brings e pod PodState.pending
        → Step w e (
          ok tt,
          record w { known_pods = insert pod.metadata.name PodState.pending w.known_pods },
        )
    -- Nothing happens if the Pod was in the state already.
    repeats :
        {e : WatchEvent PodObject} {pod : PodObject} {s : PodState}
        → Brings e pod s
        → s ≢ PodState.pending
        → get pod.metadata.name w.known_pods ≡ some s
        → Step w e (ok tt, w)
    -- The handler of a new state runs, and the state is noted.
    enters :
        {e : WatchEvent PodObject} {pod : PodObject} {s : PodState} {t : Trace}
        → Brings e pod s
        → s ≢ PodState.pending
        → get pod.metadata.name w.known_pods ≢ some s
        → handler_of s pod w.trace ≡ (ok tt, t)
        → Step w e
            (ok tt, record { known_pods = insert pod.metadata.name s w.known_pods; trace = t })
    -- After an error of the handler, the state is not noted, and the error is returned.
    fails :
        {e : WatchEvent PodObject} {pod : PodObject} {s : PodState} {m : String} {t : Trace}
        → Brings e pod s
        → s ≢ PodState.pending
        → get pod.metadata.name w.known_pods ≢ some s
        → handler_of s pod w.trace ≡ (err m, t)
        → Step w e (err m, record w { trace = t })
    -- Events that say nothing of a Pod are passed over.
    passes :
        {e : WatchEvent PodObject}
        → ((pod : PodObject) (s : PodState) → Brings e pod s → ⊥)
        → Step w e (ok tt, w)
