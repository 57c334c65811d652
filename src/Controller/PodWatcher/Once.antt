-- ===== src/Controller/PodWatcher/Once.antt =====
-- What is known of a Pod, beside its events.
use mathlib.Core.Path.{subst}
use akri.Base.{
  String, Option, some, List, [], ◌∷◌, ok, bind_result, for_each, ◌==◌, eq_iff, ◌≡◌, ◌≢◌, refl, sym,
  ◌∙◌, ap, arith, All, ◌⊎◌, inl, inr, Bool-cases,
}
use akri.Base.HashMap.{HashMap, get, insert, get-insert}
use akri.Base.Loops.{bind-eq-ok}
use akri.Kube.Types.{ℤ, Time, PodObject, WatchEvent}
use akri.Kube.Api.{Done, KubeInterface}
use akri.Controller.PodWatcher.{PodState, BrokerPodWatcher, handle_pod, handle_pods}
use akri.Controller.PodWatcher.Steps.{
  Shows, unknown, waiting, run, succeeded, failed, Brings, added, modified, removed, Step, waits,
  repeats, enters, fails, passes,
}
use akri.Controller.PodWatcher.Handles.{handle_pod-Step}

-- The event brings the Pod of this name to this state.
abbrev pub Tells : WatchEvent PodObject → String → PodState → Type 0
Tells e n s = (pod : PodObject) × Brings e pod s × (pod.metadata.name ≡ n)

-- What the events of a run say of a Pod at last, if it was known as `before` at first.
pub data Last (n : String)
    : List (WatchEvent PodObject) → Option PodState → Option PodState → Type 0 where
  done : {o : Option PodState} → Last n [] o o
  tells :
      {e : WatchEvent PodObject} {es : List (WatchEvent PodObject)} {before after : Option PodState}
      {s : PodState}
      → Tells e n s
      → Last n es (some s) after
      → Last n (e ∷ es) before after
  is_silent :
      {e : WatchEvent PodObject} {es : List (WatchEvent PodObject)} {before after : Option PodState}
      → ((s : PodState) → Tells e n s → ⊥)
      → Last n es before after
      → Last n (e ∷ es) before after

Shows-unique : {phase : String} {r s : PodState} → Shows phase r → Shows phase s → r ≡ s
Shows-unique unknown unknown = refl
Shows-unique waiting waiting = refl
Shows-unique run run = refl
Shows-unique succeeded succeeded = refl
Shows-unique failed failed = refl

Brings-unique :
    {e : WatchEvent PodObject} {p q : PodObject} {r s : PodState}
    → Brings e p r
    → Brings e q s
    → (p ≡ q) × (r ≡ s)
Brings-unique (added h) (added k) = (refl, Shows-unique h k)
Brings-unique (modified h) (modified k) = (refl, Shows-unique h k)
Brings-unique removed removed = (refl, refl)

module _ (n : String) where
  -- One event, in the words of `Last`.
  abbrev Told : WatchEvent PodObject → Option PodState → Option PodState → Type 0
  Told e before after =
      ((s : PodState) × Tells e n s × (after ≡ some s))
      ⊎ (((s : PodState) → Tells e n s → ⊥) × (after ≡ before))

  noted :
      {e : WatchEvent PodObject} (pod : PodObject) (s : PodState) (m after : HashMap PodState)
      → Brings e pod s
      → get pod.metadata.name after ≡ some s
      → ((pod.metadata.name ≢ n) → get n after ≡ get n m)
      → Told e (get n m) (get n after)
  noted pod s m after b g k = elim (Bool-cases (pod.metadata.name == n)) [
    | inl h ↦
        let same = (eq_iff pod.metadata.name n).0 h in
        inl (s, (pod, b, same), subst (λ x. get x after ≡ some s) same g)
    | inr h ↦
        let other : pod.metadata.name ≢ n = λ same. ground (arith, eq_iff pod.metadata.name n) in
        inr (
          λ r (q, c, same). other (ap (λ p. p.metadata.name) (Brings-unique b c).0 ∙ same),
          k other,
        )
  ]

  insert-other :
      (k : String) (s : PodState) (m : HashMap PodState) → k ≢ n → get n (insert k s m) ≡ get n m
  insert-other k s m h = ground (arith, get-insert k n s m, eq_iff k n)

  insert-same : (k : String) (s : PodState) (m : HashMap PodState) → get k (insert k s m) ≡ some s
  insert-same k s m = ground (arith, get-insert k k s m, eq_iff k k)

module _ (kube : KubeInterface) (checked_add_minutes : Time → ℤ → Option Time) (n : String) where
  step-Told :
      {e : WatchEvent PodObject} {w : BrokerPodWatcher} {r : Done × BrokerPodWatcher}
      → Step kube checked_add_minutes w e r
      → r.0 ≡ ok tt
      → Told n e (get n w.known_pods) (get n r.1.known_pods)
  step-Told {w = w} (waits {pod = pod} b) h =
      noted n pod PodState.pending w.known_pods
        (insert pod.metadata.name PodState.pending w.known_pods) b
        (insert-same n pod.metadata.name _ w.known_pods)
        (insert-other n pod.metadata.name _ w.known_pods)
  step-Told {w = w} (repeats {pod = pod} {s = s} b q g) h =
      noted n pod s w.known_pods w.known_pods b g (λ _. refl)
  step-Told {w = w} (enters {pod = pod} {s = s} b q g x) h =
      noted n pod s w.known_pods (insert pod.metadata.name s w.known_pods) b
        (insert-same n pod.metadata.name s w.known_pods)
        (insert-other n pod.metadata.name s w.known_pods)
  step-Told (fails b q g x) h = cc
  step-Told (passes k) h = inr (λ s (pod, b, same). k pod s b, refl)

  -- After a run without error, each Pod is known as its last telling event brought it, or as it was
  -- before if no event told of it.
  pub handle_pods-Last :
      (events : List (WatchEvent PodObject)) (w : BrokerPodWatcher)
      → (handle_pods kube checked_add_minutes events w).0 ≡ ok tt
      → Last n events
          (get n w.known_pods)
          (get n (handle_pods kube checked_add_minutes events w).1.known_pods)
  unfolding handle_pods for_each
  handle_pods-Last [] w h = done
  handle_pods-Last (e ∷ es) w h =
      let (u, first, same) =
        bind-eq-ok (handle_pod kube checked_add_minutes e w)
          (λ _. handle_pods kube checked_add_minutes es) h in
      let w' = (handle_pod kube checked_add_minutes e w).1 in
      let rest = handle_pods-Last es w' (ap (λ r. r.0) (sym same) ∙ h) in
      let after = get n (handle_pods kube checked_add_minutes es w').1.known_pods in
      subst (λ r. Last n (e ∷ es) (get n w.known_pods) (get n r.1.known_pods)) (sym same)
        (go after (step-Told (handle_pod-Step kube checked_add_minutes w e) first) rest)
    where
      go :
          {middle : Option PodState} (after : Option PodState)
          → Told n e (get n w.known_pods) middle
          → Last n es middle after
          → Last n (e ∷ es) (get n w.known_pods) after
      go after (inl (s, t, same)) l = tells t (subst (λ o. Last n es o after) same l)
      go after (inr (k, same)) l = is_silent k (subst (λ o. Last n es o after) same l)

  step-same :
      {e : WatchEvent PodObject} {w : BrokerPodWatcher} {r : Done × BrokerPodWatcher} {s : PodState}
      → Step kube checked_add_minutes w e r
      → Tells e n s
      → s ≢ PodState.pending
      → get n w.known_pods ≡ some s
      → r ≡ (ok tt, w)
  step-same (waits b) (p, c, same) q g = absurd (q (sym (Brings-unique b c).1))
  step-same (repeats b q' g') t q g = refl
  step-same {w = w} (enters b q' g' x) (p, c, same) q g =
      let (u, v) = Brings-unique b c in
      absurd (
        g' (
          ap (λ p. get p.metadata.name w.known_pods) u
          ∙ ap (λ x. get x w.known_pods) same
          ∙ g
          ∙ ap some (sym v)))
  step-same {w = w} (fails b q' g' x) (p, c, same) q g =
      let (u, v) = Brings-unique b c in
      absurd (
        g' (
          ap (λ p. get p.metadata.name w.known_pods) u
          ∙ ap (λ x. get x w.known_pods) same
          ∙ g
          ∙ ap some (sym v)))
  step-same (passes k) (p, c, same) q g = absurd (k p _ c)

  -- Events that bring a Pod to the state it is known in, other than pending, change nothing: no call is
  -- made and none fails.
  pub handle_pods_silent :
      (events : List (WatchEvent PodObject)) (w : BrokerPodWatcher) (s : PodState)
      → All (λ e. Tells e n s) events
      → s ≢ PodState.pending
      → get n w.known_pods ≡ some s
      → handle_pods kube checked_add_minutes events w ≡ (ok tt, w)
  unfolding handle_pods for_each
  handle_pods_silent [] w s t q g = refl
  handle_pods_silent (e ∷ es) w s (t, ts) q g =
      let same = step-same (handle_pod-Step kube checked_add_minutes w e) t q g in
      ap (λ r. bind_result r (λ _. handle_pods kube checked_add_minutes es)) same
      ∙ handle_pods_silent es w s ts q g
