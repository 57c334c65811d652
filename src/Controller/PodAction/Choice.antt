-- ===== src/Controller/PodAction/Choice.antt =====
-- The decision table of `select_pod_action`.
use mathlib.Core.Path.{subst}
use akri.Base.{
  String, true, false, Option, none, some, Result, ok, err, ◌≡◌, refl, ◌≢◌, ◌⊎◌, arith, ◌≤◌, ◌<◌,
  eq_iff, ◌↔◌, Bool, ◌||◌, ◌==◌, Bool-cases, Option-cases, inl, inr, ltb, sym, ◌∙◌,
}
use akri.Kube.Types.{ℤ, Time}
use akri.Controller.PodAction.{
  InstanceAction, PodAction, PodActionInfo, select_pod_action, choice_for_pod_action,
  choice_for_pods_on_known_nodes, choice_for_running_pods, choice_for_non_running_pods,
  time_choice_for_non_running_pods,
}

-- The phases in which a Pod runs or starts.
abbrev pub IsStarted : String → Type 0
IsStarted phase = (phase ≡ "Running") ⊎ (phase ≡ "ContainerCreating") ⊎ (phase ≡ "PodInitializing")

-- The grace period of a Pod that is not started.
pub data GraceOf (p : PodActionInfo) (grace : ℤ) : Type 0 where
  pending : p.phase ≡ "Pending" → grace ≡ p.pending_grace_time_in_minutes → GraceOf p grace
  ended : p.phase ≢ "Pending" → grace ≡ p.ended_grace_time_in_minutes → GraceOf p grace

module _ (checked_add_minutes : Time → ℤ → Option Time) where
  -- The diagram in the comment of `select_pod_action`, as a relation.
  pub data Chooses (p : PodActionInfo) (now : Time) : Result PodAction → Type 0 where
    unknown : p.unknown_node ≡ true → Chooses p now (ok PodAction.remove)
    removed :
        p.unknown_node ≡ false
        → p.instance_action ≡ InstanceAction.remove
        → Chooses p now (ok PodAction.remove)
    started :
        p.unknown_node ≡ false
        → p.instance_action ≢ InstanceAction.remove
        → IsStarted p.phase
        → Chooses p now (ok PodAction.no_action)
    unstarted :
        p.unknown_node ≡ false
        → p.instance_action ≢ InstanceAction.remove
        → ¬ IsStarted p.phase
        → p.status_start_time ≡ none
        → Chooses p now (ok PodAction.no_action)
    in_grace :
        (start limit : Time) (grace : ℤ)
        → p.unknown_node ≡ false
        → p.instance_action ≢ InstanceAction.remove
        → ¬ IsStarted p.phase
        → p.status_start_time ≡ some start
        → GraceOf p grace
        → checked_add_minutes start grace ≡ some limit
        → now < limit
        → Chooses p now (ok PodAction.no_action)
    expired :
        (start limit : Time) (grace : ℤ)
        → p.unknown_node ≡ false
        → p.instance_action ≢ InstanceAction.remove
        → ¬ IsStarted p.phase
        → p.status_start_time ≡ some start
        → GraceOf p grace
        → checked_add_minutes start grace ≡ some limit
        → limit ≤ now
        → Chooses p now (ok PodAction.remove_and_add)
    overflow :
        (start : Time) (grace : ℤ)
        → p.unknown_node ≡ false
        → p.instance_action ≢ InstanceAction.remove
        → ¬ IsStarted p.phase
        → p.status_start_time ≡ some start
        → GraceOf p grace
        → checked_add_minutes start grace ≡ none
        → Chooses p now (err "checked_add_signed failed")

-- The test of `choice_for_pods_on_known_nodes`.
abbrev started_test : String → Bool
started_test phase =
    phase == "Running" || (phase == "ContainerCreating" || phase == "PodInitializing")

started_test_iff : (phase : String) → (started_test phase ≡ true) ↔ IsStarted phase
started_test_iff phase = (
  λ h. ground (
    arith,
    eq_iff phase "Running",
    eq_iff phase "ContainerCreating",
    eq_iff phase "PodInitializing",
  ),
  λ h. ground (
    arith,
    eq_iff phase "Running",
    eq_iff phase "ContainerCreating",
    eq_iff phase "PodInitializing",
  ),
)

not-IsStarted : (phase : String) → started_test phase ≡ false → ¬ IsStarted phase
not-IsStarted phase e h = let t = (started_test_iff phase).1 h in cc

module _ (checked_add_minutes : Time → ℤ → Option Time) (p : PodActionInfo) (now : Time) where
  arrive :
      {r r' : Result PodAction}
      → Chooses checked_add_minutes p now r
      → r' ≡ r
      → Chooses checked_add_minutes p now r'
  arrive c e = subst (Chooses checked_add_minutes p now) (sym e) c

  timed :
      (grace : ℤ)
      → p.unknown_node ≡ false
      → p.instance_action ≢ InstanceAction.remove
      → ¬ IsStarted p.phase
      → GraceOf p grace
      → Chooses checked_add_minutes p now
          (time_choice_for_non_running_pods checked_add_minutes p now grace)
  unfolding time_choice_for_non_running_pods
  timed grace u a s g = elim (Option-cases p.status_start_time) [
    | inl e ↦ arrive (unstarted u a s e) (ground arith)
    | inr (start, e) ↦ elim (Option-cases (checked_add_minutes start grace)) [
      | inl o ↦ arrive (overflow start grace u a s e g o) (ground arith)
      | inr (limit, o) ↦ elim (Bool-cases (ltb now limit)) [
        | inl l ↦ arrive (in_grace start limit grace u a s e g o (ground arith)) (ground arith)
        | inr l ↦ arrive (expired start limit grace u a s e g o (ground arith)) (ground arith)
      ]
    ]
  ]

  -- A known node, and an Instance that is not removed.
  kept :
      p.unknown_node ≡ false
      → p.instance_action ≢ InstanceAction.remove
      → Chooses checked_add_minutes p now (select_pod_action checked_add_minutes p now)
  unfolding choice_for_pod_action choice_for_pods_on_known_nodes choice_for_running_pods
      choice_for_non_running_pods select_pod_action
  kept u a = elim (Bool-cases (started_test p.phase)) [
    | inl s ↦ arrive (started u a ((started_test_iff p.phase).0 s)) (ground arith)
    | inr s ↦ elim (Bool-cases (p.phase == "Pending")) [
      | inl q ↦
          arrive
            (timed p.pending_grace_time_in_minutes u a (not-IsStarted p.phase s)
              (pending ((eq_iff p.phase "Pending").0 q) refl))
            (ground arith)
      | inr q ↦
          arrive
            (timed p.ended_grace_time_in_minutes u a (not-IsStarted p.phase s)
              (ended (λ e. let t = (eq_iff p.phase "Pending").1 e in cc) refl))
            (ground arith)
    ]
  ]

  -- On a known node of a removed Instance.
  dropped :
      p.unknown_node ≡ false
      → p.instance_action ≡ InstanceAction.remove
      → select_pod_action checked_add_minutes p now ≡ ok PodAction.remove
  unfolding choice_for_pod_action choice_for_pods_on_known_nodes choice_for_running_pods
      choice_for_non_running_pods select_pod_action
  dropped u a = ground arith

  on_unknown :
      p.unknown_node ≡ true → select_pod_action checked_add_minutes p now ≡ ok PodAction.remove
  unfolding choice_for_pod_action select_pod_action
  on_unknown u = ground arith

  pub IsRemove-cases :
      (a : InstanceAction) → (a ≡ InstanceAction.remove) ⊎ (a ≢ InstanceAction.remove)
  IsRemove-cases InstanceAction.add = inr (λ e. cc)
  IsRemove-cases InstanceAction.remove = inl refl
  IsRemove-cases InstanceAction.update = inr (λ e. cc)

  -- `select_pod_action` makes the choice of the relation `Chooses`, on every branch.
  pub select_pod_action-Chooses :
      Chooses checked_add_minutes p now (select_pod_action checked_add_minutes p now)
  select_pod_action-Chooses = elim (Bool-cases p.unknown_node) [
    | inl u ↦ arrive (unknown u) (on_unknown u)
    | inr u ↦ elim (IsRemove-cases p.instance_action) [
      | inl a ↦ arrive (removed u a) (dropped u a)
      | inr a ↦ kept u a
    ]
  ]

  started_false : ¬ IsStarted p.phase → started_test p.phase ≡ false
  started_false n = elim (Bool-cases (started_test p.phase)) [
    | inl e ↦ absurd (n ((started_test_iff p.phase).0 e))
    | inr e ↦ e
  ]

  by_time :
      (g : ℤ)
      → p.unknown_node ≡ false
      → p.instance_action ≢ InstanceAction.remove
      → ¬ IsStarted p.phase
      → GraceOf p g
      → select_pod_action checked_add_minutes p now
        ≡ time_choice_for_non_running_pods checked_add_minutes p now g
  unfolding choice_for_pod_action choice_for_pods_on_known_nodes choice_for_running_pods
      choice_for_non_running_pods select_pod_action
  by_time g u a s (pending e f) =
      let t = started_false s in ground (arith, (eq_iff p.phase "Pending").1 e)
  by_time g u a s (ended e f) = let t = started_false s in ground (arith, eq_iff p.phase "Pending")

  pub Chooses-select_pod_action :
      {r : Result PodAction}
      → Chooses checked_add_minutes p now r
      → select_pod_action checked_add_minutes p now ≡ r
  unfolding choice_for_pod_action choice_for_pods_on_known_nodes choice_for_running_pods
      choice_for_non_running_pods time_choice_for_non_running_pods select_pod_action
  Chooses-select_pod_action (unknown u) = on_unknown u
  Chooses-select_pod_action (removed u a) = dropped u a
  Chooses-select_pod_action (started u a s) = ground (arith, (started_test_iff p.phase).1 s)
  Chooses-select_pod_action (unstarted u a s e) = elim (Bool-cases (p.phase == "Pending")) [
    | inl q ↦ by_time _ u a s (pending ((eq_iff p.phase "Pending").0 q) refl) ∙ ground arith
    | inr q ↦
        by_time _ u a s (ended (λ x. let t = (eq_iff p.phase "Pending").1 x in cc) refl)
        ∙ ground arith
  ]
  Chooses-select_pod_action (in_grace start limit grace u a s e g o l) =
      by_time grace u a s g ∙ ground arith
  Chooses-select_pod_action (expired start limit grace u a s e g o l) =
      by_time grace u a s g ∙ ground arith
  Chooses-select_pod_action (overflow start grace u a s e g o) =
      by_time grace u a s g ∙ ground arith

-- `select_pod_action` makes a choice exactly when the decision table makes it: the table has one
-- answer for every Pod, and the code gives it, an overflow of the time limit included.
pub select_pod_action_iff :
    (checked_add_minutes : Time → ℤ → Option Time) (p : PodActionInfo) (now : Time)
    (r : Result PodAction)
    → (select_pod_action checked_add_minutes p now ≡ r) ↔ Chooses checked_add_minutes p now r
select_pod_action_iff cam p now r = (
  λ e. arrive cam p now (select_pod_action-Chooses cam p now) (sym e),
  Chooses-select_pod_action cam p now,
)
