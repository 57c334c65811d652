-- ===== src/Controller/InstanceAction/Effects/Follows.antt =====
-- The calls of `handle_instance_change`, beside the entries of its plan.
use akri.Base.{
  String, true, Option, some, List, [], ◌∷◌, Result, ok, err, bind_result, ◌≡◌, refl, arith, All,
  select, Option-cases, inl, inr, Bool-cases, All-select,
}
use akri.Base.HashMap.{HashMap, get, HasUniqueKeys, Entries, Entries-self}
use akri.Base.Loops.{for_each_inv}
use akri.Kube.Types.{ℤ, Time, PodObject, Pod, KubeAkriInstance, KubeAkriConfig}
use akri.Kube.Api.{
  Event, Trace, KubeInterface, Done, created_pod, removed_pod, found_pods_with_label, metric_inc,
  metric_dec, emit,
}
use akri.Kube.Pods.{◌<>◌, akri_instance_label_name, create_pod_app_name, create_new_pod_from_spec}
use akri.Controller.PodAction.{InstanceAction}
use akri.Controller.InstanceAction.{
  PodContext, handle_deletion_work, handle_addition_work, handle_deletions, handle_additions,
  add_pods, handle_instance_change, removes, adds, default_action, collect_nodes, nodes_to_add,
}
use akri.Controller.InstanceAction.Plan.{
  Reading, plan_from, readings, clock_reads, determine_actions_lem,
}

abbrev pub selector_of : KubeAkriInstance → String
selector_of inst = akri_instance_label_name <> "=" <> inst.metadata.name

module _ (inst : KubeAkriInstance) (t : Trace) (pods : List PodObject) where
  -- The trace of a call that found these Pods.
  abbrev pub listed : Trace
  listed = found_pods_with_label (selector_of inst) (ok pods) ∷ t

-- When the call looks at each Pod.
abbrev pub seen : KubeInterface → KubeAkriInstance → Trace → List PodObject → List Reading
seen kube inst t pods = readings kube pods (listed inst t pods)

module _ (checked_add_minutes : Time → ℤ → Option Time) (kube : KubeInterface)
    (inst : KubeAkriInstance) (action : InstanceAction) (t : Trace) where
  abbrev pub plan_of : List PodObject → HashMap PodContext
  plan_of pods =
      plan_from checked_add_minutes action (seen kube inst t pods)
        (collect_nodes (default_action action) inst.spec.nodes [])

  pub change_lem :
      (ns uid : String) (pods : List PodObject)
      → inst.metadata.namespace ≡ some ns
      → inst.metadata.uid ≡ some uid
      → kube.find_pods_with_label t (selector_of inst) ≡ ok pods
      → handle_instance_change checked_add_minutes kube inst action t
        ≡ bind_result
            (handle_deletions kube inst (plan_of pods) (clock_reads kube pods (listed inst t pods)))
            (λ _. handle_additions kube inst uid ns (nodes_to_add (plan_of pods)))
  unfolding handle_instance_change
  change_lem ns uid pods a b c = simp (a, b, c, determine_actions_lem)

-- The Pod of a node, by its name.
abbrev pub pod_name : KubeAkriInstance → String → String
pod_name inst node = create_pod_app_name inst.metadata.name node inst.spec.shared "pod"

module _ (inst : KubeAkriInstance) (plan : HashMap PodContext) where
  -- The call follows an entry of the plan: a removal one that removes, a creation one that adds.
  abbrev pub FollowsPlan : Event → Type 0
  FollowsPlan (removed_pod name ns r) =
      (node : String) × (ctx : PodContext) × (host : String) × (get node plan ≡ some ctx)
      × (removes ctx.action ≡ true)
      × (ctx.node_name ≡ some host)
      × (ctx.namespace ≡ some ns)
      × (name ≡ pod_name inst host)
  FollowsPlan (created_pod pod ns r) =
      (node : String) × (ctx : PodContext) × (get node plan ≡ some ctx)
      × (adds ctx.action ≡ true)
      × (inst.metadata.namespace ≡ some ns)
      × (pod.metadata.name ≡ some (pod_name inst node))
  FollowsPlan _ = Unit

  module _ (kube : KubeInterface) where
    deletion-FollowsPlan :
        (node : String) (ctx : PodContext) (t : Trace)
        → get node plan ≡ some ctx
        → removes ctx.action ≡ true
        → All FollowsPlan t
        → All FollowsPlan
            (handle_deletion_work kube inst.metadata.name inst.spec.configuration_name
              inst.spec.shared node ctx t).1
    unfolding handle_deletion_work
    deletion-FollowsPlan node ctx t g a h = elim (Option-cases ctx.node_name) [
      | inl e ↦ ground arith
      | inr (host, e) ↦ elim (Option-cases ctx.namespace) [
        | inl f ↦ ground arith
        | inr (ns, f) ↦
            let name = pod_name inst host in
            simp (e, f)
              (removed host ns name (node, ctx, host, g, a, e, f, refl) (kube.remove_pod t name ns))
      ]
    ]
      where
        removed :
            (host ns name : String)
            → FollowsPlan (removed_pod name ns (ok tt))
            → (r : Done)
            → All FollowsPlan
                (bind_result {S = Trace} {B = Unit {0}}
                  (r, removed_pod name ns r ∷ t)
                  (λ _. emit (metric_dec inst.spec.configuration_name host))).1
        removed host ns name p (ok u) = (tt, (p, h))
        removed host ns name p (err x) = (p, h)

    addition-FollowsPlan :
        (uid ns node : String) (config : KubeAkriConfig) (ctx : PodContext) (t : Trace)
        → get node plan ≡ some ctx
        → adds ctx.action ≡ true
        → inst.metadata.namespace ≡ some ns
        → All FollowsPlan t
        → All FollowsPlan
            (handle_addition_work kube inst.metadata.name uid ns inst.spec.configuration_name
              inst.spec.shared node config t).1
    unfolding handle_addition_work create_new_pod_from_spec
    addition-FollowsPlan uid ns node config ctx t g a n h =
        elim (Option-cases config.spec.broker_pod_spec) [
          | inl e ↦ simp (e, handle_addition_work) h
          | inr (spec, e) ↦ simp (e, handle_addition_work) (created _ refl (kube.create_pod t _ ns))
        ]
      where
        created :
            (pod : Pod)
            → pod.metadata.name ≡ some (pod_name inst node)
            → (r : Done)
            → All FollowsPlan
                (bind_result {S = Trace} {B = Unit {0}}
                  (r, created_pod pod ns r ∷ t)
                  (λ _. emit (metric_inc inst.spec.configuration_name node))).1
        created pod p (ok u) = (tt, ((node, ctx, g, a, n, p), h))
        created pod p (err x) = ((node, ctx, g, a, n, p), h)

    pub deletions-FollowsPlan :
        (t : Trace)
        → HasUniqueKeys plan
        → All FollowsPlan t
        → All FollowsPlan (handle_deletions kube inst plan t).1
    unfolding handle_deletions
    deletions-FollowsPlan t u h =
        for_each_inv (All FollowsPlan)
          (λ e. (get e.0 plan ≡ some e.1) × (removes e.1.action ≡ true)) _
          (λ e s q. deletion-FollowsPlan e.0 e.1 s q.0 q.1) (select (λ e. removes e.1.action) plan)
          t (All-select _ (λ e. removes e.1.action) plan (Entries-self plan u)) h

    -- A node that the plan adds.
    abbrev pub IsAdded : String → Type 0
    IsAdded n = (ctx : PodContext) × (get n plan ≡ some ctx) × (adds ctx.action ≡ true)

    pub nodes_to_add-IsAdded :
        (m : HashMap PodContext) → Entries plan m → All IsAdded (nodes_to_add m)
    nodes_to_add-IsAdded [] h = tt
    nodes_to_add-IsAdded ((k, v) ∷ m) (g, h) = elim (Bool-cases (adds v.action)) [
      | inl e ↦ simp e ((v, g, e), nodes_to_add-IsAdded m h)
      | inr e ↦ simp e (nodes_to_add-IsAdded m h)
    ]

    add_pods-FollowsPlan :
        (uid ns : String) (nodes : List String) (r : Result KubeAkriConfig) (t : Trace)
        → All IsAdded nodes
        → inst.metadata.namespace ≡ some ns
        → All FollowsPlan t
        → All FollowsPlan (add_pods kube inst uid ns nodes r t).1
    unfolding add_pods
    add_pods-FollowsPlan uid ns nodes (err e) t q n h = h
    add_pods-FollowsPlan uid ns nodes (ok config) t q n h =
        for_each_inv (All FollowsPlan) IsAdded _
          (λ node s a. addition-FollowsPlan uid ns node config a.0 s a.1 a.2 n) nodes t q h

    pub additions-FollowsPlan :
        (uid ns : String) (nodes : List String) (t : Trace)
        → All IsAdded nodes
        → inst.metadata.namespace ≡ some ns
        → All FollowsPlan t
        → All FollowsPlan (handle_additions kube inst uid ns nodes t).1
    unfolding handle_additions
    additions-FollowsPlan uid ns [] t q n h = h
    additions-FollowsPlan uid ns (k ∷ nodes) t q n h =
        add_pods-FollowsPlan uid ns (k ∷ nodes) _ _ q n (tt, h)

    pub clock_reads-FollowsPlan :
        (pods : List PodObject) (t : Trace)
        → All FollowsPlan t
        → All FollowsPlan (clock_reads kube pods t)
    unfolding clock_reads
    clock_reads-FollowsPlan [] t h = h
    clock_reads-FollowsPlan (p ∷ pods) t h = clock_reads-FollowsPlan pods _ (tt, h)
