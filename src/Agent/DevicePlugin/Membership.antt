-- ===== src/Agent/DevicePlugin/Membership.antt =====
-- What `try_create_instance` writes to the cluster and to the map.
use mathlib.Core.Path.{subst}
use akri.Base.{
  ℕ, String, false, some, [], ◌∷◌, Result, ok, err, M, bind_result, eq_iff, ◌≡◌, ◌≢◌, Elem, refl,
  sym, ◌∙◌, ap, arith, inl, inr, Bool-cases,
}
use akri.Base.HashMap.{get, insert, get-insert}
use akri.Base.Loops.{ok_injective, Keeps, Keeps-bind, bind-eq-ok}
use akri.Kube.Types.{Instance, KubeAkriInstance, KubeAkriConfig}
use akri.Kube.Api.{
  Event, Trace, Done, KubeInterface, updated_instance, created_instance, found_instance,
  find_configuration,
}
use akri.Kube.Retry.{attempts-accepted, attempts_keep, try_up_to_max}
use akri.Agent.DevicePlugin.{online, InstanceInfo, InstanceMap, DevicePluginService}
use akri.Agent.DevicePlugin.Creation.{
  new_instance, is_member, join, enter, attempt_creation, try_create_instance,
}
use akri.Agent.DevicePlugin.Entries.{
  IsNew, IsJoined, new_instance-IsNew, join-IsJoined, is_member-Elem, is_member-not_Elem,
}

abbrev pub entry : InstanceInfo
entry = record { connectivity_status = online }

module _ (dps : DevicePluginService) where
  -- The last calls of an entry: the Instance was not there and was created, it was there without the
  -- node and was updated, or it was there with the node.
  pub data Enters : Trace → Type 0 where
    created :
        (inst : Instance) (e : String) (t : Trace)
        → IsNew dps inst
        → Enters (
            created_instance inst dps.instance_name dps.config_namespace dps.config_name
              dps.config_uid
              (ok tt)
            ∷ found_instance dps.instance_name dps.config_namespace (err e)
            ∷ t)
    joined :
        (i : KubeAkriInstance) (inst : Instance) (t : Trace)
        → ¬ Elem dps.node_name i.spec.nodes
        → IsJoined dps.node_name i.spec inst
        → Enters (
            updated_instance inst i.metadata.name dps.config_namespace (ok tt)
            ∷ found_instance dps.instance_name dps.config_namespace (ok i)
            ∷ t)
    present :
        (i : KubeAkriInstance) (t : Trace)
        → Elem dps.node_name i.spec.nodes
        → Enters (found_instance dps.instance_name dps.config_namespace (ok i) ∷ t)

  module _ (kube : KubeInterface) where
    abbrev seen : Result KubeAkriInstance → Trace → Trace
    seen r t = found_instance dps.instance_name dps.config_namespace r ∷ t

    created-Enters :
        (m : String) (t : Trace) (r : Done)
        → r ≡ ok tt
        → Enters (
            created_instance
              (new_instance dps)
              dps.instance_name
              dps.config_namespace
              dps.config_name
              dps.config_uid
              r
            ∷ seen (err m) t)
    created-Enters m t (ok u) h = created (new_instance dps) m t (new_instance-IsNew dps)
    created-Enters m t (err e) h = cc

    joined-Enters :
        (i : KubeAkriInstance) (t : Trace) (r : Done)
        → is_member dps i.spec ≡ false
        → r ≡ ok tt
        → Enters (
            updated_instance (join dps i.spec) i.metadata.name dps.config_namespace r
            ∷ seen (ok i) t)
    joined-Enters i t (ok u) e h =
        joined i (join dps i.spec) t (is_member-not_Elem dps i.spec e) (join-IsJoined dps i.spec)
    joined-Enters i t (err m) e h = cc

    enter-Enters :
        (r : Result KubeAkriInstance) (t : Trace)
        → (enter dps kube r (seen r t)).0 ≡ ok (ok tt)
        → Enters (enter dps kube r (seen r t)).1
    enter-Enters (ok i) t h = elim (Bool-cases (is_member dps i.spec)) [
      | inl e ↦ rw e (present i t (is_member-Elem dps i.spec e))
      | inr e ↦ rw e (joined-Enters i t _ e (ok_injective (rw e at h)))
    ]
    enter-Enters (err m) t h = created-Enters m t _ (ok_injective h)

    attempt-Enters :
        (x : ℕ) (t : Trace)
        → (attempt_creation dps kube x t).0 ≡ ok (ok tt)
        → Enters (attempt_creation dps kube x t).1
    unfolding attempt_creation
    attempt-Enters x t h =
        enter-Enters (kube.find_instance t dps.instance_name dps.config_namespace) t h

    -- An entry in the Instance stands directly on a look at it: the Instance is created only when it was
    -- not found, and updated only when it was found without the node, with the node added and no more.
    abbrev pub IsEntry : Event → Trace → Type 0
    IsEntry (created_instance i n ns c u r) (found_instance n' ns' (err e) ∷ t) =
        IsNew dps i × (n' ≡ n)
    IsEntry (created_instance i n ns c u r) _ = ⊥
    IsEntry (updated_instance after n ns r) (found_instance n' ns' (ok i) ∷ t) =
        (¬ Elem dps.node_name i.spec.nodes)
        × IsJoined dps.node_name i.spec after
        × (n ≡ i.metadata.name)
    IsEntry (updated_instance after n ns r) _ = ⊥
    IsEntry _ t = Unit

    abbrev pub HasEntries : Trace → Type 0
    HasEntries [] = Unit
    HasEntries (e ∷ t) = IsEntry e t × HasEntries t

    enter-HasEntries :
        (r : Result KubeAkriInstance) (t : Trace)
        → HasEntries t
        → HasEntries (enter dps kube r (seen r t)).1
    enter-HasEntries (ok i) t h = elim (Bool-cases (is_member dps i.spec)) [
      | inl e ↦ rw e (tt, h)
      | inr e ↦ rw e ((is_member-not_Elem dps i.spec e, join-IsJoined dps i.spec, refl), (tt, h))
    ]
    enter-HasEntries (err m) t h = ((new_instance-IsNew dps, refl), (tt, h))

    attempt-HasEntries : (x : ℕ) → Keeps HasEntries (attempt_creation dps kube x)
    unfolding attempt_creation
    attempt-HasEntries x t h =
        enter-HasEntries (kube.find_instance t dps.instance_name dps.config_namespace) t h

    -- Whatever the cluster answers, `try_create_instance` creates the Instance only directly after it
    -- was not found, with the node alone and free slots, and updates it only directly after it was
    -- found without the node, by adding the node, if that holds of the calls before.
    pub try_create_instance-HasEntries :
        (m : InstanceMap) (t : Trace)
        → HasEntries t
        → HasEntries (try_create_instance dps kube m t).1
    unfolding try_create_instance
    try_create_instance-HasEntries m t h =
        Keeps-bind HasEntries (find_configuration kube dps.config_name dps.config_namespace) _
          (λ s k. (tt, k))
          (λ c.
            Keeps-bind HasEntries (try_up_to_max (attempt_creation dps kube)) _
              (attempts_keep (attempt_creation dps kube) HasEntries (λ s k. (tt, k))
                attempt-HasEntries 5 0)
              (λ u s k. k))
          t h

    -- If `try_create_instance` returns without an error, its last calls were one of three: the Instance could
    -- not be found, and one with the node alone and a free slot for each unit of capacity was created; or
    -- it was found without the node, and was updated by adding the node to its list and no more; or it
    -- was found with the node in its list. It is online in the map, where the other Instances are as
    -- they were.
    pub try_create_instance-Enters :
        (m m' : InstanceMap) (t : Trace)
        → (try_create_instance dps kube m t).0 ≡ ok m'
        → Enters (try_create_instance dps kube m t).1
          × (get dps.instance_name m' ≡ some (entry))
          × ((k : String) → k ≢ dps.instance_name → get k m' ≡ get k m)
    unfolding try_create_instance
    try_create_instance-Enters m m' t h =
        let one = attempt_creation dps kube in
        let added = insert dps.instance_name (entry) m in
        let last : Unit {0} → M Trace InstanceMap = λ u s. (ok added, s) in
        let rest = λ (c : KubeAkriConfig) (s : Trace). bind_result (try_up_to_max one s) last in
        let start = find_configuration kube dps.config_name dps.config_namespace t in
        let (c, found, next) = bind-eq-ok start rest h in
        let (u, tried, end) =
          bind-eq-ok (try_up_to_max one start.1) last (ap (λ q. q.0) (sym next) ∙ h) in
        let (y, s, done, at, from) = attempts-accepted one 5 0 start.1 refl (omega arith) tried in
        let all = next ∙ end in
        let same = ok_injective (sym h ∙ ap (λ q. q.0) all) in
        (
          subst Enters (sym (ap (λ q. q.1) all ∙ at)) (attempt-Enters y s done),
          rw same (
              ground (
                arith,
                get-insert dps.instance_name dps.instance_name (entry) m,
                eq_iff dps.instance_name dps.instance_name,
              )),
          λ k ne. rw same (
              ground (arith, get-insert dps.instance_name k (entry) m, eq_iff dps.instance_name k)),
        )
