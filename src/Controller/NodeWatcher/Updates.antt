-- ===== src/Controller/NodeWatcher/Updates.antt =====
-- The updates that follow the disappearance of a node.
use mathlib.Core.Path.{subst}
use akri.Base.{
  ℕ, zero, suc, ◌+◌, ◌*◌, ◌≤◌, ◌<◌, ◌⊎◌, String, Bool, true, false, some, List, [], ◌∷◌, Result, ok,
  err, M, bind_result, ok_or, lift, attempt, for_each, ◌≡◌, refl, sym, arith, All, length, tally,
  inl, inr, Option-cases,
}
use akri.Base.Loops.{Keeps, Keeps-bind, for_each-All_from, ok_injective}
use akri.Kube.Types.{Instance, KubeAkriInstance}
use akri.Kube.Api.{
  Event, Trace, Done, KubeInterface, updated_instance, found_instance, got_instances, delayed,
  find_instance,
}
use akri.Kube.Retry.{attempts-accepted, attempts_keep, attempts_bound, try_up_to_max}
use akri.Controller.NodeWatcher.{
  remove_node, attempt_removal, clean_instance, handle_node_disappearance,
  try_remove_nodes_from_instance,
}
use akri.Controller.NodeWatcher.Cleaned.{remove_node-IsCleanedOf}
use akri.Controller.NodeWatcher.Sent.{
  IsBetween, IsSent, at_once, again, now-AtSomeTime, IsSent-IsBetween, WasCleaned,
}

abbrev pub is_update : Event → Bool
is_update (updated_instance i n ns r) = true
is_update _ = false

module _ (kube : KubeInterface) (v : String) where
  -- An accepted attempt ends with its update; the first one sends what the list had.
  first_accepted :
      (ns : String) (inst : KubeAkriInstance) (s : Trace)
      → IsBetween s
      → (attempt_removal kube v ns inst zero s).0 ≡ ok (ok tt)
      → IsSent v inst ns (attempt_removal kube v ns inst zero s).1
  unfolding attempt_removal
  first_accepted ns inst s b h = go _ (ok_injective h)
    where
      sent : Instance
      sent = remove_node v inst.spec

      go :
          (r : Done)
          → r ≡ ok tt
          → IsSent v inst ns (updated_instance sent inst.metadata.name ns r ∷ s)
      go (ok u) h = at_once sent s b (remove_node-IsCleanedOf v inst.spec)
      go (err e) h = cc

  later_accepted :
      (ns : String) (inst : KubeAkriInstance) (x : ℕ) (s : Trace)
      → (attempt_removal kube v ns inst (suc x) s).0 ≡ ok (ok tt)
      → IsSent v inst ns (attempt_removal kube v ns inst (suc x) s).1
  unfolding attempt_removal
  later_accepted ns inst x s h = go (kube.find_instance s inst.metadata.name ns) h
    where
      one : KubeAkriInstance → M Trace Done
      one i = attempt (try_remove_nodes_from_instance kube v inst.metadata.name ns i)

      answered :
          (i : KubeAkriInstance) (r : Done)
          → r ≡ ok tt
          → IsSent v inst ns (
              updated_instance (remove_node v i.spec) inst.metadata.name ns r
              ∷ found_instance inst.metadata.name ns (ok i)
              ∷ s)
      answered i (ok u) h = again i (remove_node v i.spec) s (remove_node-IsCleanedOf v i.spec)
      answered i (err e) h = cc

      go :
          (r : Result KubeAkriInstance)
          → (bind_result (r, found_instance inst.metadata.name ns r ∷ s) one).0 ≡ ok (ok tt)
          → IsSent v inst ns (bind_result (r, found_instance inst.metadata.name ns r ∷ s) one).1
      go (ok i) h = answered i _ (ok_injective h)
      go (err e) h = cc

  accepted :
      (ns : String) (inst : KubeAkriInstance) (x : ℕ) (s t : Trace)
      → IsBetween t
      → ((x ≡ 0) × (s ≡ t)) ⊎ (0 < x)
      → (attempt_removal kube v ns inst x s).0 ≡ ok (ok tt)
      → IsSent v inst ns (attempt_removal kube v ns inst x s).1
  accepted ns inst zero s t b (inl (e, same)) h =
      first_accepted ns inst s (subst IsBetween (sym same) b) h
  accepted ns inst zero s t b (inr l) h = absurd (omega arith)
  accepted ns inst (suc x) s t b from h = later_accepted ns inst x s h

  cleaned :
      (inst : KubeAkriInstance) (t : Trace)
      → IsBetween t
      → (clean_instance kube v inst t).0 ≡ ok tt
      → (ns : String) × (inst.metadata.namespace ≡ some ns)
        × IsSent v inst ns (clean_instance kube v inst t).1
  unfolding clean_instance
  cleaned inst t b h = elim (Option-cases inst.metadata.namespace) [
    | inl e ↦ let f = simp e at h in cc
    | inr (ns, e) ↦
        let one = attempt_removal kube v ns inst in
        let (y, s, done, end, from) =
          attempts-accepted one 5 0 t refl (omega arith) (simp e at h) in
        (ns, e, simp e (subst (IsSent v inst ns) (sym end) (accepted ns inst y s t b from done)))
  ]

  attempt-Keeps :
      (P : Trace → Type 0)
      → ((i : Instance) (n ns : String) (r : Done) (t : Trace)
          → P t
          → P (updated_instance i n ns r ∷ t))
      → ((n ns : String) (r : Result KubeAkriInstance) (t : Trace)
          → P t
          → P (found_instance n ns r ∷ t))
      → (ns : String) (inst : KubeAkriInstance) (x : ℕ) → Keeps P (attempt_removal kube v ns inst x)
  unfolding attempt_removal
  attempt-Keeps P u f ns inst zero = λ t h. u _ _ _ _ t h
  attempt-Keeps P u f ns inst (suc x) =
      Keeps-bind P (find_instance kube inst.metadata.name ns)
        (λ i. attempt (try_remove_nodes_from_instance kube v inst.metadata.name ns i))
        (λ t h. f _ _ _ t h) (λ i t h. u _ _ _ _ t h)

  clean-Keeps :
      (P : Trace → Type 0)
      → ((e : Event) (t : Trace) → P t → P (e ∷ t))
      → (inst : KubeAkriInstance) → Keeps P (clean_instance kube v inst)
  unfolding clean_instance
  clean-Keeps P g inst =
      Keeps-bind P (lift (ok_or inst.metadata.namespace _))
        (λ ns. try_up_to_max (attempt_removal kube v ns inst)) (λ t h. h)
        (λ ns.
          attempts_keep (attempt_removal kube v ns inst) P (g delayed)
            (attempt-Keeps P (λ i n ns r. g _) (λ n ns r. g _) ns inst) 5 0)

  attempt_bound :
      (ns : String) (inst : KubeAkriInstance) (x : ℕ) (s : Trace)
      → tally is_update (attempt_removal kube v ns inst x s).1 ≤ suc (tally is_update s)
  unfolding attempt_removal
  attempt_bound ns inst zero s = ground arith
  attempt_bound ns inst (suc x) s = ground arith

  clean_bound :
      (inst : KubeAkriInstance) (t : Trace)
      → tally is_update (clean_instance kube v inst t).1 ≤ tally is_update t + 5
  unfolding clean_instance
  clean_bound inst t = elim (Option-cases inst.metadata.namespace) [
    | inl e ↦ simp e (omega arith)
    | inr (ns, e) ↦ simp e (
        attempts_bound (attempt_removal kube v ns inst) (tally is_update) (λ s. refl)
          (attempt_bound ns inst) 5 0 t)
  ]

  clean_all_bound :
      (instances : List KubeAkriInstance) (t : Trace)
      → tally is_update (for_each instances (clean_instance kube v) t).1
        ≤ tally is_update t + 5 * length instances
  unfolding for_each
  clean_all_bound [] t = omega arith
  clean_all_bound (inst ∷ instances) t =
      go (clean_instance kube v inst t) (clean_bound inst t) (clean_all_bound instances)
    where
      go :
          (r : Done × Trace)
          → tally is_update r.1 ≤ tally is_update t + 5
          → ((s : Trace)
              → tally is_update (for_each instances (clean_instance kube v) s).1
                ≤ tally is_update s + 5 * length instances)
          → tally is_update (bind_result r (λ _. for_each instances (clean_instance kube v))).1
            ≤ tally is_update t + 5 * length (inst ∷ instances)
      go (ok u, s) h ih = omega (arith, ih s)
      go (err e, s) h ih = omega arith

  -- If the cluster lists these Instances and the call ends without an error, then for each of them an update
  -- was accepted. It sent either the listed Instance cleaned of the vanished node, as the first call for
  -- this Instance, or the Instance of that name which was found directly before the update, cleaned of
  -- the node. Cleaned means that the node is out of the list of nodes, its slots are free, and all else
  -- is as it was.
  pub handle_node_disappearance-WasCleaned :
      (instances : List KubeAkriInstance) (t : Trace)
      → kube.get_instances t ≡ ok instances
      → (handle_node_disappearance kube v t).0 ≡ ok tt
      → All (λ inst. WasCleaned v inst (handle_node_disappearance kube v t).1) instances
  unfolding handle_node_disappearance
  handle_node_disappearance-WasCleaned instances t l h = simp l (
      for_each-All_from (WasCleaned v) IsBetween (clean_instance kube v)
        (λ inst s b e.
          let (ns, n, sent) = cleaned inst s b e in
          ((ns, n, now-AtSomeTime (IsSent v inst ns) _ sent), IsSent-IsBetween sent))
        (λ x y s p. clean-Keeps (WasCleaned v x) (λ e t (ns, n, m). (ns, n, inr m)) y s p) instances
        (got_instances (ok instances) ∷ t) tt (simp l at h))

  -- At most five updates are sent for each Instance of the list, whatever the cluster answers.
  pub handle_node_disappearance_bound :
      (instances : List KubeAkriInstance) (t : Trace)
      → kube.get_instances t ≡ ok instances
      → tally is_update (handle_node_disappearance kube v t).1
        ≤ tally is_update t + 5 * length instances
  unfolding handle_node_disappearance
  handle_node_disappearance_bound instances t l =
      simp l (clean_all_bound instances (got_instances (ok instances) ∷ t))
