-- ===== src/Controller/InstanceAction/Plan.antt =====
-- The plan of `handle_instance_change`: what stands in `nodes_to_act_on` after the loop over the Pods.
use akri.Base.{
  String, Bool, true, false, Option, none, some, List, [], ◌∷◌, Result, ok, err, not, ◌==◌, eq_iff,
  ap, ◌≡◌, refl, ◌∙◌, inl, inr, arith, if◌then◌else◌, Bool-cases,
}
use akri.Base.HashMap.{
  HashMap, get, insert, contains_key, get-insert, contains_key-insert, HasUniqueKeys,
  insert-HasUniqueKeys,
}
use akri.Kube.Types.{ℤ, Time, PodObject}
use akri.Kube.Api.{Trace, read_clock, KubeInterface}
use akri.Kube.Pods.{akri_instance_label_name, akri_target_node_label_name}
use akri.Controller.PodAction.{InstanceAction, PodAction, select_pod_action}
use akri.Controller.InstanceAction.{
  PodContext, pod_action_info, determine_action_for_pod, determine_actions,
}

pub record Observation : Type 0 where
  pub node : String
  pub phase : String
  pub start_time : Option Time

-- What a Pod shows if it has a phase and both labels.
unfoldable pub observe : PodObject → Option Observation
observe pod = elim pod.status [
  | none ↦ none
  | some status ↦ elim status.phase [
    | none ↦ none
    | some phase ↦ elim (get akri_target_node_label_name pod.metadata.labels) [
      | none ↦ none
      | some node ↦ elim (get akri_instance_label_name pod.metadata.labels) [
        | none ↦ none
        | some _ ↦ some (record { node = node; phase = phase; start_time = status.start_time })
      ]
    ]
  ]
]

abbrev pub is_on : String → Option Observation → Bool
is_on n none = false
is_on n (some o) = o.node == n

-- A Pod, with the time at which it was looked at.
abbrev pub Reading : Type 0
Reading = PodObject × Time

-- The Pod that is to serve a node.
abbrev pub holder : String → List Reading → Option Reading
holder n [] = none
holder n ((pod, now) ∷ rs) = if is_on n (observe pod) then some (pod, now) else holder n rs

-- No two Pods are to serve one node.
abbrev pub HasDistinctNodes : List Reading → Type 0
HasDistinctNodes [] = Unit
HasDistinctNodes ((pod, now) ∷ rs) =
    ((n : String) → is_on n (observe pod) ≡ true → holder n rs ≡ none) × HasDistinctNodes rs

module _ (checked_add_minutes : Time → ℤ → Option Time) (action : InstanceAction) where
  -- The choice for a Pod on a node that the Instance lists, or does not.
  unfoldable pub choice : PodObject → Observation → Bool → Time → Result PodAction
  choice pod o known now =
      select_pod_action checked_add_minutes
        (pod_action_info action pod o.phase o.start_time (not known)) now

  abbrev pub context_of : PodObject → String → PodAction → PodContext
  context_of pod node chosen = record {
    node_name = some node;
    namespace = pod.metadata.namespace;
    action = chosen;
  }

  -- A choice replaces the entry of the node, and a failed one leaves it.
  abbrev pub settle : PodObject → String → Result PodAction → Option PodContext → Option PodContext
  settle pod n (ok chosen) before = some (context_of pod n chosen)
  settle pod n (err e) before = before

  abbrev pub entry_after :
      PodObject → String → Time → Bool → Option PodContext → Option Observation → Option PodContext
  entry_after pod n now known before none = before
  entry_after pod n now known before (some o) = settle pod n (choice pod o known now) before

  -- The update of the map, by the choice that was made.
  record_choice : PodObject → String → Result PodAction → HashMap PodContext → HashMap PodContext
  record_choice pod node (ok chosen) m = insert node (context_of pod node chosen) m
  record_choice pod node (err e) m = m

  record_observation :
      PodObject → Time → Option Observation → HashMap PodContext → HashMap PodContext
  record_observation pod now none m = m
  record_observation pod now (some o) m =
      record_choice pod o.node (choice pod o (contains_key o.node m) now) m

  determine_lem :
      (now : Time) (pod : PodObject) (m : HashMap PodContext)
      → determine_action_for_pod checked_add_minutes now pod action m
        ≡ record_observation pod now (observe pod) m
  unfolding determine_action_for_pod observe choice record_observation record_choice
  determine_lem now pod m = ground arith

  record-HasUniqueKeys :
      (now : Time) (pod : PodObject) (o : Option Observation) (m : HashMap PodContext)
      → HasUniqueKeys m
      → HasUniqueKeys (record_observation pod now o m)
  unfolding record_observation record_choice
  record-HasUniqueKeys now pod none m h = h
  record-HasUniqueKeys now pod (some o) m h = go (choice pod o (contains_key o.node m) now)
    where
      go : (r : Result PodAction) → HasUniqueKeys (record_choice pod o.node r m)
      go (ok c) = insert-HasUniqueKeys o.node (context_of pod o.node c) m h
      go (err e) = h

  pub determine-HasUniqueKeys :
      (now : Time) (pod : PodObject) (m : HashMap PodContext)
      → HasUniqueKeys m
      → HasUniqueKeys (determine_action_for_pod checked_add_minutes now pod action m)
  determine-HasUniqueKeys now pod m h =
      rw (determine_lem now pod m) (record-HasUniqueKeys now pod (observe pod) m h)

  record_choice_other :
      (n node : String) (pod : PodObject) (r : Result PodAction) (m : HashMap PodContext)
      → (node == n) ≡ false
      → (get n (record_choice pod node r m) ≡ get n m)
        × (contains_key n (record_choice pod node r m) ≡ contains_key n m)
  unfolding record_choice
  record_choice_other n node pod (ok c) m h = (
    rw (get-insert node n (context_of pod node c) m) (rw h),
    rw (contains_key-insert node n (context_of pod node c) m) (rw h),
  )
  record_choice_other n node pod (err e) m h = (refl, refl)

  record_choice_self :
      (n node : String) (pod : PodObject) (r : Result PodAction) (m : HashMap PodContext)
      → (node == n) ≡ true
      → get n (record_choice pod node r m) ≡ settle pod n r (get n m)
  unfolding record_choice
  record_choice_self n node pod (ok c) m h =
      rw (get-insert node n (context_of pod node c) m) (rw h (rw ((eq_iff node n).0 h)))
  record_choice_self n node pod (err e) m h = refl

  record_other :
      (n : String) (now : Time) (pod : PodObject) (o : Option Observation) (m : HashMap PodContext)
      → is_on n o ≡ false
      → (get n (record_observation pod now o m) ≡ get n m)
        × (contains_key n (record_observation pod now o m) ≡ contains_key n m)
  unfolding record_observation
  record_other n now pod none m h = (refl, refl)
  record_other n now pod (some o) m h = record_choice_other n o.node pod _ m h

  record_self :
      (n : String) (now : Time) (pod : PodObject) (o : Option Observation) (m : HashMap PodContext)
      → is_on n o ≡ true
      → get n (record_observation pod now o m)
        ≡ entry_after pod n now (contains_key n m) (get n m) o
  unfolding record_observation
  record_self n now pod none m h = cc
  record_self n now pod (some o) m h =
      let e = (eq_iff o.node n).0 h in
      record_choice_self n o.node pod (choice pod o (contains_key o.node m) now) m h
      ∙ ap (λ k. settle pod n (choice pod o (contains_key k m) now) (get n m)) e

  unfoldable pub plan_from : List Reading → HashMap PodContext → HashMap PodContext
  plan_from [] m = m
  plan_from ((pod, now) ∷ rs) m =
      plan_from rs (determine_action_for_pod checked_add_minutes now pod action m)

  -- A node's entry after the loop, from its entry before and the Pod that is to serve it.
  abbrev pub entry_of : String → Bool → Option PodContext → Option Reading → Option PodContext
  entry_of n known before none = before
  entry_of n known before (some (pod, now)) = entry_after pod n now known before (observe pod)

  plan_other :
      (n : String) (rs : List Reading) (m : HashMap PodContext)
      → holder n rs ≡ none
      → (get n (plan_from rs m) ≡ get n m) × (contains_key n (plan_from rs m) ≡ contains_key n m)
  unfolding plan_from
  plan_other n [] m h = (refl, refl)
  plan_other n ((pod, now) ∷ rs) m h = elim (Bool-cases (is_on n (observe pod))) [
    | inl e ↦ let t = rw e at h in cc
    | inr e ↦
        let (g, c) =
          plan_other n rs (determine_action_for_pod checked_add_minutes now pod action m)
            (rw e at h) in
        let (g', c') = record_other n now pod (observe pod) m e in
        let d = determine_lem now pod m in (g ∙ ap (get n) d ∙ g', c ∙ ap (contains_key n) d ∙ c')
  ]

  -- The entry of each node after the loop is decided by the Pod that is to serve it alone, if no two
  -- Pods are to serve one node: without a Pod, or where the choice fails, the entry stays.
  pub get-plan_from :
      (n : String) (rs : List Reading) (m : HashMap PodContext)
      → HasDistinctNodes rs
      → get n (plan_from rs m) ≡ entry_of n (contains_key n m) (get n m) (holder n rs)
  unfolding plan_from
  get-plan_from n [] m d = refl
  get-plan_from n ((pod, now) ∷ rs) m (alone, d) = elim (Bool-cases (is_on n (observe pod))) [
    | inl e ↦
        let m' = determine_action_for_pod checked_add_minutes now pod action m in
        rw e (
          (plan_other n rs m' (alone n e)).0
          ∙ ap (get n) (determine_lem now pod m)
          ∙ record_self n now pod (observe pod) m e)
    | inr e ↦
        let m' = determine_action_for_pod checked_add_minutes now pod action m in
        let (g, c) = record_other n now pod (observe pod) m e in
        let f = determine_lem now pod m in
        rw e (
          get-plan_from n rs m' d
          ∙ ap (λ k. entry_of n k (get n m') (holder n rs)) (ap (contains_key n) f ∙ c)
          ∙ ap (λ b. entry_of n (contains_key n m) b (holder n rs)) (ap (get n) f ∙ g))
  ]

-- The loop of the code is `plan_from`, over the times at which it looks at the Pods.
module _ (kube : KubeInterface) where
  unfoldable pub readings : List PodObject → Trace → List Reading
  readings [] t = []
  readings (pod ∷ pods) t =
      let now = kube.utc_now t in (pod, now) ∷ readings pods (read_clock now ∷ t)

  unfoldable pub clock_reads : List PodObject → Trace → Trace
  clock_reads [] t = t
  clock_reads (pod ∷ pods) t = clock_reads pods (read_clock (kube.utc_now t) ∷ t)

  pub determine_actions_lem :
      (checked_add_minutes : Time → ℤ → Option Time) (action : InstanceAction)
      (pods : List PodObject) (m : HashMap PodContext) (t : Trace)
      → determine_actions checked_add_minutes kube action pods m t
        ≡ (ok (plan_from checked_add_minutes action (readings pods t) m), clock_reads pods t)
  unfolding determine_actions readings clock_reads plan_from
  determine_actions_lem cam action [] m t = refl
  determine_actions_lem cam action (pod ∷ pods) m t =
      let now = kube.utc_now t in
      determine_actions_lem cam action pods (determine_action_for_pod cam now pod action m)
        (read_clock now ∷ t)
