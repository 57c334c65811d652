-- ===== src/Controller/PodWatcher/Handles.antt =====
-- Every event takes the watcher one of its steps.
use mathlib.Core.Path.{subst}
use akri.Base.{
  String, true, false, Option, none, some, ok, err, bind_result, ◌==◌, eq_iff, ◌≡◌, ◌≢◌, refl, sym,
  ap, ◌⊎◌, inl, inr, Bool-cases,
}
use akri.Base.HashMap.{get, insert}
use akri.Kube.Types.{ℤ, Time, PodObject, WatchEvent}
use akri.Kube.Api.{Trace, Done, KubeInterface}
use akri.Controller.PodWatcher.{
  PodState, BrokerPodWatcher, get_pod_phase, last_known_pod_state, same_state, enter_state,
  handle_running_pod_if_needed, handle_ended_pod_if_needed, handle_deleted_pod_if_needed,
  handle_phase, handle_pod,
}
use akri.Controller.PodWatcher.Steps.{
  Shows, unknown, waiting, run, succeeded, failed, Brings, added, modified, removed, Step, waits,
  repeats, enters, fails, passes, handler_of,
}

same_iff : (r s : PodState) → same_state r s ≡ true → r ≡ s
same_iff PodState.pending PodState.pending h = refl
same_iff PodState.running PodState.running h = refl
same_iff PodState.ended PodState.ended h = refl
same_iff PodState.deleted PodState.deleted h = refl
same_iff _ _ h = cc

same_refl : (s : PodState) → same_state s s ≡ true
same_refl PodState.pending = refl
same_refl PodState.running = refl
same_refl PodState.ended = refl
same_refl PodState.deleted = refl

pub same-known :
    (o : Option PodState) (s : PodState)
    → s ≢ PodState.pending
    → same_state (last_known_pod_state o) s ≡ true
    → o ≡ some s
same-known none s n h = absurd (n (sym (same_iff PodState.pending s h)))
same-known (some r) s n h = ap some (same_iff r s h)

known-same :
    (o : Option PodState) (s : PodState)
    → same_state (last_known_pod_state o) s ≡ false
    → o ≢ some s
known-same o s h e = let f = same_refl s in let g = simp e at h in cc

-- The phase is none of those that say something.
abbrev pub IsOther : String → Type 0
IsOther phase =
    ((phase == "Unknown") ≡ false)
    × ((phase == "Pending") ≡ false)
    × ((phase == "Running") ≡ false)
    × ((phase == "Succeeded") ≡ false)
    × ((phase == "Failed") ≡ false)

shown :
    (p phase : String) {s : PodState}
    → Shows p s
    → (phase == p) ≡ true
    → (r : PodState) × Shows phase r
shown p phase {s = s} h e = (s, subst (λ q. Shows q s) (sym ((eq_iff phase p).0 e)) h)

pub Shows-cases : (phase : String) → ((s : PodState) × Shows phase s) ⊎ IsOther phase
Shows-cases phase = elim (Bool-cases (phase == "Unknown")) [
  | inl h ↦ inl (shown "Unknown" phase unknown h)
  | inr h1 ↦ elim (Bool-cases (phase == "Pending")) [
    | inl h ↦ inl (shown "Pending" phase waiting h)
    | inr h2 ↦ elim (Bool-cases (phase == "Running")) [
      | inl h ↦ inl (shown "Running" phase run h)
      | inr h3 ↦ elim (Bool-cases (phase == "Succeeded")) [
        | inl h ↦ inl (shown "Succeeded" phase succeeded h)
        | inr h4 ↦ elim (Bool-cases (phase == "Failed")) [
          | inl h ↦ inl (shown "Failed" phase failed h)
          | inr h5 ↦ inr (h1, h2, h3, h4, h5)
        ]
      ]
    ]
  ]
]

pub other-Shows : {s : PodState} {phase : String} → IsOther phase → Shows phase s → ⊥
other-Shows (a, b, c, d, f) unknown = cc
other-Shows (a, b, c, d, f) waiting = cc
other-Shows (a, b, c, d, f) run = cc
other-Shows (a, b, c, d, f) succeeded = cc
other-Shows (a, b, c, d, f) failed = cc

module _ (kube : KubeInterface) (checked_add_minutes : Time → ℤ → Option Time)
    (w : BrokerPodWatcher) where
  enter-Step :
      {e : WatchEvent PodObject} (pod : PodObject) (s : PodState)
      → Brings e pod s
      → s ≢ PodState.pending
      → Step kube checked_add_minutes w e
          (enter_state s (handler_of kube checked_add_minutes s) pod w)
  enter-Step {e = e} pod s b n =
      elim (Bool-cases (same_state (last_known_pod_state (get pod.metadata.name w.known_pods)) s)) [
        | inl h ↦ rw h (repeats b n (same-known _ s n h))
        | inr h ↦
            rw h (go (handler_of kube checked_add_minutes s pod w.trace) refl (known-same _ s h))
      ]
    where
      go :
          (r : Done × Trace)
          → handler_of kube checked_add_minutes s pod w.trace ≡ r
          → get pod.metadata.name w.known_pods ≢ some s
          → Step kube checked_add_minutes w e (
              bind_result {S = BrokerPodWatcher} {B = Unit {0}}
                (r.0, record w { trace = r.1 })
                (λ _ v. (ok tt, record v { known_pods = insert pod.metadata.name s v.known_pods })))
      go (ok u, t) h k = enters b n k h
      go (err m, t) h k = fails b n k h

  shown-Step :
      {e : WatchEvent PodObject} (pod : PodObject) {phase : String} {s : PodState}
      → Shows phase s
      → Brings e pod s
      → Step kube checked_add_minutes w e (handle_phase kube checked_add_minutes pod phase w)
  unfolding handle_phase handle_running_pod_if_needed handle_ended_pod_if_needed
  shown-Step pod unknown b = waits b
  shown-Step pod waiting b = waits b
  shown-Step pod run b = enter-Step pod PodState.running b (λ h. cc)
  shown-Step pod succeeded b = enter-Step pod PodState.ended b (λ h. cc)
  shown-Step pod failed b = enter-Step pod PodState.ended b (λ h. cc)

  phase-Step :
      {e : WatchEvent PodObject} (pod : PodObject) (phase : String)
      → ((s : PodState) → Shows phase s → Brings e pod s)
      → ((p : PodObject) (s : PodState) → Brings e p s → Shows phase s)
      → Step kube checked_add_minutes w e (handle_phase kube checked_add_minutes pod phase w)
  unfolding handle_phase
  phase-Step pod phase b c = elim (Shows-cases phase) [
    | inl (s, h) ↦ shown-Step pod h (b s h)
    | inr (h1, h2, h3, h4, h5) ↦
        simp (h1, h2, h3, h4, h5) (passes (λ p s q. other-Shows (h1, h2, h3, h4, h5) (c p s q)))
  ]

  -- Every event takes the watcher one step of the relation: a Pod that waits is noted as pending, one that
  -- is in the state already is left alone, the handler of a new state runs and the state is noted unless
  -- it fails, and an event that says nothing is passed over.
  pub handle_pod-Step :
      (e : WatchEvent PodObject)
      → Step kube checked_add_minutes w e (handle_pod kube checked_add_minutes e w)
  unfolding handle_pod handle_deleted_pod_if_needed
  handle_pod-Step (WatchEvent.added pod) =
      phase-Step pod (get_pod_phase pod) (λ s h. added h) (λ p s b. of_added b)
    where
      of_added :
          {q p : PodObject} {s : PodState}
          → Brings (WatchEvent.added q) p s
          → Shows (get_pod_phase q) s
      of_added (added h) = h
  handle_pod-Step (WatchEvent.modified pod) =
      phase-Step pod (get_pod_phase pod) (λ s h. modified h) (λ p s b. of_modified b)
    where
      of_modified :
          {q p : PodObject} {s : PodState}
          → Brings (WatchEvent.modified q) p s
          → Shows (get_pod_phase q) s
      of_modified (modified h) = h
  handle_pod-Step (WatchEvent.deleted pod) = enter-Step pod PodState.deleted removed (λ h. cc)
  handle_pod-Step (WatchEvent.error m) = passes λ p s b. elim b [ ]
