-- ===== src/Tests/NodeRuns.antt =====
-- Runs of the node watcher.
use akri.Base.{List, [], ◌∷◌, ok, err, ◌≡◌, refl, All, length, ◌*◌, ◌+◌, ◌≤◌, tally, for_each}
use akri.Base.HashMap.{get}
use akri.Kube.Types.{NodeObject, WatchEvent}
use akri.Kube.Api.{KubeInterface}
use akri.Kube.Retry.{attempts, retry_or_stop}
use akri.Controller.NodeWatcher.{
  running, instances_cleaned, NodeWatcher, is_node_ready, attempt_removal, clean_instance,
  handle_node_disappearance, handle_nodes,
}
use akri.Controller.NodeWatcher.Sent.{WasCleaned}
use akri.Controller.NodeWatcher.Updates.{
  is_update, handle_node_disappearance-WasCleaned, handle_node_disappearance_bound,
}
use akri.Controller.NodeWatcher.Once.{IsSettled, handle_nodes-IsSettled}
use akri.Tests.Fixtures.{camera, cluster, node_with}

cleaned : (handle_node_disappearance cluster "node-b" []).0 ≡ ok tt
unfolding handle_node_disappearance for_each clean_instance attempts retry_or_stop attempt_removal
cleaned = refl

handle_node_disappearance-WasCleaned_example :
    All
      (λ inst. WasCleaned "node-b" inst (handle_node_disappearance cluster "node-b" []).1)
      (camera ∷ [])
handle_node_disappearance-WasCleaned_example =
    handle_node_disappearance-WasCleaned cluster "node-b" (camera ∷ []) [] refl cleaned

-- A cluster that refuses each update.
abbrev refusing : KubeInterface
refusing = record cluster { update_instance = λ t i n ns. err "conflict" }

handle_node_disappearance_bound_example :
    tally is_update (handle_node_disappearance refusing "node-b" []).1
    ≤ tally is_update [] + 5 * length (camera ∷ [])
handle_node_disappearance_bound_example =
    handle_node_disappearance_bound refusing "node-b" (camera ∷ []) [] refl

-- The bound is met.
five_updates : tally is_update (handle_node_disappearance refusing "node-b" []).1 ≡ 5
unfolding handle_node_disappearance for_each clean_instance attempts retry_or_stop attempt_removal
five_updates = refl

abbrev settled : NodeWatcher
settled = record { known_nodes = ("node-b", instances_cleaned) ∷ []; trace = [] }

settled-IsSettled : IsSettled "node-b" settled
unfolding get
settled-IsSettled = (instances_cleaned, refl, refl)

abbrev losses : List (WatchEvent NodeObject)
losses =
    WatchEvent.modified (node_with "node-b" "False")
    ∷ WatchEvent.deleted (node_with "node-b" "False")
    ∷ []

handle_nodes-IsSettled_example : IsSettled "node-b" (handle_nodes cluster losses settled).1
unfolding is_node_ready
handle_nodes-IsSettled_example =
    handle_nodes-IsSettled cluster "node-b" losses settled (refl, (refl, tt)) settled-IsSettled

abbrev watcher : NodeWatcher
watcher = record { known_nodes = ("node-b", running) ∷ []; trace = [] }
