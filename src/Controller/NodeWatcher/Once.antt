-- ===== src/Controller/NodeWatcher/Once.antt =====
-- The state that is kept of a node, beside the events of the node.
use akri.Base.{
  String, Bool, true, false, some, List, [], ◌∷◌, ok, err, bind_result, for_each, ◌==◌, ◌&&◌,
  eq_iff, ◌≡◌, refl, ◌∙◌, ap, arith, All, Bool-cases, inl, inr, ◌⊎◌,
}
use akri.Base.HashMap.{HashMap, get, insert, get-insert}
use akri.Base.Loops.{for_each_inv, bind-ok}
use akri.Kube.Types.{NodeObject, WatchEvent}
use akri.Kube.Api.{Trace, Done, KubeInterface}
use akri.Controller.NodeWatcher.{
  NodeState, running, instances_cleaned, NodeWatcher, is_node_ready, last_known_state, is_running,
  handle_node_disappearance, call_handle_node_disappearance_if_needed, handle_node, handle_nodes,
}

-- The node was seen not ready, or was cleaned, since it was last seen ready.
abbrev pub IsSettled : String → NodeWatcher → Type 0
IsSettled n w = (s : NodeState) × (get n w.known_nodes ≡ some s) × (is_running s ≡ false)

-- The event shows the node ready.
abbrev pub shows_ready : String → WatchEvent NodeObject → Bool
shows_ready n (WatchEvent.added node) = node.metadata.name == n && is_node_ready node
shows_ready n (WatchEvent.modified node) = node.metadata.name == n && is_node_ready node
shows_ready n (WatchEvent.deleted node) = false
shows_ready n (WatchEvent.error e) = false

-- The event is of this node.
abbrev pub is_of : String → WatchEvent NodeObject → Bool
is_of n (WatchEvent.added node) = node.metadata.name == n
is_of n (WatchEvent.modified node) = node.metadata.name == n
is_of n (WatchEvent.deleted node) = node.metadata.name == n
is_of n (WatchEvent.error e) = false

module _ (kube : KubeInterface) (n : String) where
  settle-insert :
      (k : String) (s : NodeState) (m : HashMap NodeState)
      → (is_running s ≡ false) ⊎ ((k == n) ≡ false)
      → (r : NodeState) × (get n m ≡ some r) × (is_running r ≡ false)
      → (r : NodeState) × (get n (insert k s m) ≡ some r) × (is_running r ≡ false)
  settle-insert k s m q (r, g, i) = elim (Bool-cases (k == n)) [
    | inl e ↦ (s, ground (arith, get-insert k n s m), ground arith)
    | inr e ↦ (r, ground (arith, get-insert k n s m), i)
  ]

  lost-IsSettled :
      (node : NodeObject) (w : NodeWatcher)
      → IsSettled n w
      → IsSettled n (call_handle_node_disappearance_if_needed kube node w).1
  unfolding call_handle_node_disappearance_if_needed
  lost-IsSettled node w h =
      elim (Bool-cases (is_running (last_known_state (get node.metadata.name w.known_nodes)))) [
        | inl e ↦ rw e (go (handle_node_disappearance kube node.metadata.name w.trace))
        | inr e ↦ rw e h
      ]
    where
      go :
          (r : Done × Trace)
          → IsSettled n
              (bind_result {S = NodeWatcher} {B = Unit {0}}
                (r.0, record w { trace = r.1 })
                (λ _ s. (
                  ok tt,
                  record s {
                    known_nodes = insert node.metadata.name instances_cleaned s.known_nodes;
                  },
                ))).1
      go (ok u, t) = settle-insert node.metadata.name instances_cleaned w.known_nodes (inl refl) h
      go (err e, t) = h

  step-IsSettled :
      (e : WatchEvent NodeObject) (w : NodeWatcher)
      → shows_ready n e ≡ false
      → IsSettled n w
      → IsSettled n (handle_node kube e w).1
  unfolding handle_node
  step-IsSettled (WatchEvent.added node) w q h =
      settle-insert node.metadata.name _ w.known_nodes (ground arith) h
  step-IsSettled (WatchEvent.modified node) w q h = elim (Bool-cases (is_node_ready node)) [
    | inl e ↦ rw e (settle-insert node.metadata.name running w.known_nodes (ground arith) h)
    | inr e ↦ rw e (lost-IsSettled node w h)
  ]
  step-IsSettled (WatchEvent.deleted node) w q h = lost-IsSettled node w h
  step-IsSettled (WatchEvent.error e) w q h = h

  -- A settled node stays settled, through the events of all nodes and through errors, as long as no
  -- event shows it ready.
  pub handle_nodes-IsSettled :
      (events : List (WatchEvent NodeObject)) (w : NodeWatcher)
      → All (λ e. shows_ready n e ≡ false) events
      → IsSettled n w
      → IsSettled n (handle_nodes kube events w).1
  unfolding handle_nodes
  handle_nodes-IsSettled events w q h =
      for_each_inv (IsSettled n) (λ e. shows_ready n e ≡ false) (handle_node kube) step-IsSettled
        events w q h

  settled_known :
      (w : NodeWatcher)
      → IsSettled n w
      → is_running (last_known_state (get n w.known_nodes)) ≡ false
  settled_known w (s, g, i) = ground arith

  lost-eq :
      (node : NodeObject) (w : NodeWatcher)
      → node.metadata.name ≡ n
      → IsSettled n w
      → call_handle_node_disappearance_if_needed kube node w ≡ (ok tt, w)
  unfolding call_handle_node_disappearance_if_needed
  lost-eq node w e h = rw e (rw (settled_known w h))

  step-eq :
      (e : WatchEvent NodeObject) (w : NodeWatcher)
      → is_of n e ≡ true
      → shows_ready n e ≡ false
      → IsSettled n w
      → ((handle_node kube e w).0 ≡ ok tt) × ((handle_node kube e w).1.trace ≡ w.trace)
  unfolding handle_node
  step-eq (WatchEvent.added node) w o q h = (refl, refl)
  step-eq (WatchEvent.modified node) w o q h = elim (Bool-cases (is_node_ready node)) [
    | inl e ↦ rw e (refl, refl)
    | inr e ↦ rw e (rw (lost-eq node w ((eq_iff node.metadata.name n).0 o) h) (refl, refl))
  ]
  step-eq (WatchEvent.deleted node) w o q h =
      rw (lost-eq node w ((eq_iff node.metadata.name n).0 o) h) (refl, refl)
  step-eq (WatchEvent.error e) w o q h = (refl, refl)

  -- As long as no event shows a settled node ready, its events make no call of the cluster, and
  -- none fails.
  pub handle_nodes_silent :
      (events : List (WatchEvent NodeObject)) (w : NodeWatcher)
      → All (λ e. (is_of n e ≡ true) × (shows_ready n e ≡ false)) events
      → IsSettled n w
      → ((handle_nodes kube events w).0 ≡ ok tt) × ((handle_nodes kube events w).1.trace ≡ w.trace)
  unfolding handle_nodes for_each
  handle_nodes_silent [] w q h = (refl, refl)
  handle_nodes_silent (e ∷ es) w ((o, r), q) h =
      let (done, same) = step-eq e w o r h in
      let w' = (handle_node kube e w).1 in
      let (d, f) = handle_nodes_silent es w' q (step-IsSettled e w r h) in
      let next = bind-ok (handle_node kube e w) (λ _. handle_nodes kube es) done in
      (ap (λ x. x.0) next ∙ d, ap (λ x. x.1.trace) next ∙ f ∙ same)

-- The map after a cleaning with this outcome.
abbrev pub nodes_after : Done → String → HashMap NodeState → HashMap NodeState
nodes_after (ok u) name m = insert name instances_cleaned m
nodes_after (err e) name m = m

-- The event is a deletion of the node, or a change that shows it not ready.
abbrev pub IsLossOf : NodeObject → WatchEvent NodeObject → Type 0
IsLossOf node (WatchEvent.added m) = ⊥
IsLossOf node (WatchEvent.modified m) = (m ≡ node) × (is_node_ready node ≡ false)
IsLossOf node (WatchEvent.deleted m) = m ≡ node
IsLossOf node (WatchEvent.error e) = ⊥

-- What the watcher is after the cleaning, by its outcome.
abbrev pub cleaned_watcher : KubeInterface → NodeObject → NodeWatcher → Done × NodeWatcher
cleaned_watcher kube node w =
    let (r, t) = handle_node_disappearance kube node.metadata.name w.trace in
    (r, record { known_nodes = nodes_after r node.metadata.name w.known_nodes; trace = t })

module _ (kube : KubeInterface) (node : NodeObject) (w : NodeWatcher)
    (unsettled : is_running (last_known_state (get node.metadata.name w.known_nodes)) ≡ true) where
  call-cleans : call_handle_node_disappearance_if_needed kube node w ≡ cleaned_watcher kube node w
  unfolding call_handle_node_disappearance_if_needed
  call-cleans = rw unsettled (go (handle_node_disappearance kube node.metadata.name w.trace))
    where
      go :
          (r : Done × Trace)
          → bind_result {S = NodeWatcher} {B = Unit {0}}
              (r.0, record w { trace = r.1 })
              (λ _ s. (
                ok tt,
                record s {
                  known_nodes = insert node.metadata.name instances_cleaned s.known_nodes;
                },
              ))
            ≡ (
              r.0,
              record {
                known_nodes = nodes_after r.0 node.metadata.name w.known_nodes;
                trace = r.1;
              },
            )
      go (ok u, t) = refl
      go (err e, t) = refl

  -- A node that is not settled is lost by a deletion, or by a change that shows it not ready: the
  -- Instances are cleaned of it, the outcome of that is returned, and the node is settled if it did
  -- not fail; after a failure the map is as it was, so that the next such event cleans again.
  pub handle_node_lost :
      (e : WatchEvent NodeObject)
      → IsLossOf node e
      → handle_node kube e w ≡ cleaned_watcher kube node w
  unfolding handle_node
  handle_node_lost (WatchEvent.added m) h = absurd h
  handle_node_lost (WatchEvent.modified m) (same, h) = rw same (rw h call-cleans)
  handle_node_lost (WatchEvent.deleted m) same = rw same call-cleans
  handle_node_lost (WatchEvent.error e) h = absurd h
