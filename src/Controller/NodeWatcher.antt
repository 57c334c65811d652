-- ===== src/Controller/NodeWatcher.antt =====
-- controller/src/util/node_watcher.rs: Instances are cleaned of a node that has vanished. The endless
-- loop of `watch` is `handle_nodes`, over the events that the informer delivers.
pub mod Cleaned
pub mod Sent
pub mod Updates
pub mod Once
use akri.Base.{
  ℕ, zero, suc, String, Bool, true, false, Option, none, some, List, [], ◌∷◌, Result, ok, err,
  ok_or, M, ◌>>=◌, ◌>>◌, pure, lift, attempt, for_each, select, not, ◌==◌, if◌then◌else◌, nat_eq,
}
use akri.Base.HashMap.{HashMap, get, insert, map_entries}
use akri.Kube.Types.{Condition, NodeStatus, NodeObject, Instance, KubeAkriInstance, WatchEvent}
use akri.Kube.Api.{Trace, Done, KubeInterface, find_instance, get_instances, update_instance}
use akri.Kube.Pods.{◌<>◌}
use akri.Kube.Retry.{try_up_to_max}

pub data NodeState : Type 0 where
  known running instances_cleaned : NodeState

-- A `NodeWatcher`, with the trace of its calls.
pub record NodeWatcher : Type 0 where
  pub known_nodes : HashMap NodeState
  pub trace : Trace

unfoldable pub last_ready : List Condition → Bool → Bool
last_ready [] last = last
last_ready (c ∷ cs) last = last_ready cs (if c.type_ == "Ready" then c.status == "True" else last)

abbrev conditions_of : Option NodeStatus → List Condition
conditions_of none = []
conditions_of (some s) = elim s.conditions [ none ↦ [] | some cs ↦ cs ]

unfoldable pub is_node_ready : NodeObject → Bool
unfolding last_ready
is_node_ready k8s_node = last_ready (conditions_of k8s_node.status) false

-- The Instance that `try_remove_nodes_from_instance` sends.
unfoldable pub remove_node : String → Instance → Instance
remove_node vanished_node_name inst = record inst {
  device_usage =
      map_entries (λ slot node. if vanished_node_name == node then "" else node) inst.device_usage;
  nodes = select (λ node. not (vanished_node_name == node)) inst.nodes;
}

-- Calls of the cluster from a method of the watcher.
abbrev pub on_trace : {A : Type 0} → M Trace A → M NodeWatcher A
on_trace m w = let (r, t) = m w.trace in (r, record w { trace = t })

abbrev pub set_state : String → NodeState → M NodeWatcher (Unit {0})
set_state name s w = (ok tt, record w { known_nodes = insert name s w.known_nodes })

-- A node that is not in the map counts as running.
abbrev pub last_known_state : Option NodeState → NodeState
last_known_state none = running
last_known_state (some s) = s

abbrev pub is_running : NodeState → Bool
is_running running = true
is_running _ = false

module _ (kube : KubeInterface) where
  abbrev pub try_remove_nodes_from_instance :
      String → String → String → KubeAkriInstance → M Trace (Unit {0})
  try_remove_nodes_from_instance vanished_node_name instance_name instance_namespace inst =
      update_instance kube (remove_node vanished_node_name inst.spec) instance_name
        instance_namespace

  -- The first attempt takes the Instance of the list, a later one looks it up again.
  unfoldable pub attempt_removal : String → String → KubeAkriInstance → ℕ → M Trace Done
  attempt_removal vanished_node_name instance_namespace inst zero =
      attempt (
        try_remove_nodes_from_instance vanished_node_name inst.metadata.name instance_namespace
          inst)
  attempt_removal vanished_node_name instance_namespace inst (suc x) = do
    retry_instance ← find_instance kube inst.metadata.name instance_namespace
    attempt (
        try_remove_nodes_from_instance vanished_node_name inst.metadata.name instance_namespace
          retry_instance)

  unfoldable pub clean_instance : String → KubeAkriInstance → M Trace (Unit {0})
  clean_instance vanished_node_name inst = do
    instance_namespace ←
        lift (
          ok_or inst.metadata.namespace
            ("Namespace not found for instance: " <> inst.metadata.name))
    try_up_to_max (attempt_removal vanished_node_name instance_namespace inst)

  unfoldable pub handle_node_disappearance : String → M Trace (Unit {0})
  handle_node_disappearance vanished_node_name = do
    instances ← get_instances kube
    for_each instances (clean_instance vanished_node_name)

  unfoldable pub call_handle_node_disappearance_if_needed : NodeObject → M NodeWatcher (Unit {0})
  call_handle_node_disappearance_if_needed node w =
      if is_running (last_known_state (get node.metadata.name w.known_nodes))
      then (on_trace (handle_node_disappearance node.metadata.name)
            >> set_state node.metadata.name instances_cleaned)
          w
      else (ok tt, w)

  unfoldable pub handle_node : WatchEvent NodeObject → M NodeWatcher (Unit {0})
  handle_node (WatchEvent.added node) =
      set_state node.metadata.name (if is_node_ready node then running else known)
  handle_node (WatchEvent.modified node) =
      if is_node_ready node
      then set_state node.metadata.name running
      else call_handle_node_disappearance_if_needed node
  handle_node (WatchEvent.deleted node) = call_handle_node_disappearance_if_needed node
  handle_node (WatchEvent.error e) = pure tt

  -- `watch`, over the events of the informer; an error ends it.
  unfoldable pub handle_nodes : List (WatchEvent NodeObject) → M NodeWatcher (Unit {0})
  handle_nodes events = for_each events handle_node
