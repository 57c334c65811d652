-- ===== src/Agent/DevicePlugin/Responses.antt =====
-- The responses of `internal_allocate`.
use mathlib.Core.Path.{subst}
use mathlib.Core.List.{append-nil, append_assoc}
use akri.Base.{
  map, All-map, String, List, [], ◌∷◌, ◌++◌, ok, err, M, attempt, ◌≡◌, refl, sym, ◌∙◌, ap, arith,
  All, Elem, inl, inr, ◌⊎◌,
}
use akri.Base.HashMap.{HashMap, insert}
use akri.Base.Loops.{Keeps, Keeps-bind, bind-eq-ok}
use akri.Kube.Api.{Event, Trace, Done, KubeInterface}
use akri.Agent.DevicePlugin.{DevicePluginService}
use akri.Agent.DevicePlugin.Allocation.{
  try_update_instance_device_usage, after_claim, allocate_slots, internal_allocate,
}
use akri.Agent.DevicePlugin.Allocation.{
  akri_slot_annotation_name, ContainerAllocateResponse, build_container_allocate_response,
}
use akri.Agent.DevicePlugin.Slots.{IsGuarded, WasClaimed}
use akri.Agent.DevicePlugin.Claims.{try_update-IsGuarded, try_update-WasClaimed, try_update_grows}

-- The annotations of a container: each slot overwrites the one before.
abbrev pub annotate : List String → HashMap String → HashMap String
annotate [] a = a
annotate (id ∷ ids) a = annotate ids (insert akri_slot_annotation_name id a)

annotate_last :
    (ids : List String) (id : String) (a : HashMap String)
    → (a ≡ []) ⊎ ((v : String) × (a ≡ (akri_slot_annotation_name, v) ∷ []))
    → annotate (ids ++ id ∷ []) a ≡ (akri_slot_annotation_name, id) ∷ []
unfolding insert
annotate_last [] id a (inl e) = rw e refl
annotate_last [] id a (inr (v, e)) = rw e refl
annotate_last (x ∷ ids) id a (inl e) = annotate_last ids id _ (inr (x, rw e refl))
annotate_last (x ∷ ids) id a (inr (v, e)) = annotate_last ids id _ (inr (x, rw e refl))

module _ (dps : DevicePluginService) where
  abbrev pub response_with : HashMap String → ContainerAllocateResponse
  response_with a = build_container_allocate_response a dps.instance_properties dps.config.protocol

  -- The response for one container.
  abbrev pub response_of : List String → ContainerAllocateResponse
  response_of ids = response_with (annotate ids [])

module _ (kube : KubeInterface) (dps : DevicePluginService) where
  abbrev claim : String → M Trace (Unit {0})
  claim id =
      try_update_instance_device_usage kube id dps.node_name dps.instance_name dps.config_namespace

  slots-IsGuarded :
      (ids : List String) (a : HashMap String)
      → Keeps (IsGuarded dps.node_name) (allocate_slots kube dps ids a)
  unfolding allocate_slots
  slots-IsGuarded [] a = λ t h. h
  slots-IsGuarded (id ∷ ids) a =
      Keeps-bind (IsGuarded dps.node_name) (attempt (claim id))
        (after_claim kube dps (allocate_slots kube dps ids (insert akri_slot_annotation_name id a)))
        (try_update-IsGuarded kube id dps.node_name dps.instance_name dps.config_namespace)
        (go (slots-IsGuarded ids (insert akri_slot_annotation_name id a)))
    where
      go :
          Keeps
            (IsGuarded dps.node_name)
            (allocate_slots kube dps ids (insert akri_slot_annotation_name id a))
          → (r : Done)
          → Keeps (IsGuarded dps.node_name) (
              after_claim kube dps
                (allocate_slots kube dps ids (insert akri_slot_annotation_name id a))
                r)
      go ih (ok u) = ih
      go ih (err e) = λ t h. h

  -- Whatever the cluster answers, every update that an allocation sends stands directly on a look at
  -- the Instance and changes it by one claim of a free slot, or one return of a slot of the node, if
  -- that holds of the updates before.
  pub internal_allocate-IsGuarded :
      (requests : List (List String)) (responses : List ContainerAllocateResponse) (t : Trace)
      → IsGuarded dps.node_name t
      → IsGuarded dps.node_name (internal_allocate kube dps requests responses t).1
  unfolding internal_allocate
  internal_allocate-IsGuarded [] responses t h = h
  internal_allocate-IsGuarded (ids ∷ requests) responses t h =
      Keeps-bind (IsGuarded dps.node_name) (allocate_slots kube dps ids []) _
        (slots-IsGuarded ids []) (λ a. internal_allocate-IsGuarded requests _) t h

  abbrev IsClaimed : Trace → String → Type 0
  IsClaimed t id = WasClaimed id dps.node_name dps.instance_name dps.config_namespace t

  slots_grow :
      (e : Event) (ids : List String) (a : HashMap String)
      → Keeps (Elem e) (allocate_slots kube dps ids a)
  unfolding allocate_slots
  slots_grow e [] a = λ t h. h
  slots_grow e (id ∷ ids) a =
      Keeps-bind (Elem e) (attempt (claim id))
        (after_claim kube dps (allocate_slots kube dps ids (insert akri_slot_annotation_name id a)))
        (try_update_grows kube id dps.node_name dps.instance_name dps.config_namespace e)
        (go (slots_grow e ids (insert akri_slot_annotation_name id a)))
    where
      go :
          Keeps (Elem e) (allocate_slots kube dps ids (insert akri_slot_annotation_name id a))
          → (r : Done)
          → Keeps (Elem e) (
              after_claim kube dps
                (allocate_slots kube dps ids (insert akri_slot_annotation_name id a))
                r)
      go ih (ok u) = ih
      go ih (err m) = λ t h. inr h

  allocate_grows :
      (e : Event) (requests : List (List String)) (responses : List ContainerAllocateResponse)
      → Keeps (Elem e) (internal_allocate kube dps requests responses)
  unfolding internal_allocate
  allocate_grows e [] responses = λ t h. h
  allocate_grows e (ids ∷ requests) responses =
      Keeps-bind (Elem e) (allocate_slots kube dps ids []) _ (slots_grow e ids [])
        (λ a. allocate_grows e requests _)

  WasClaimed-grows :
      (m : Trace → Trace)
      → ((e : Event) (s : Trace) → Elem e s → Elem e (m s))
      → (s : Trace) (id : String) → IsClaimed s id
      → IsClaimed (m s) id
  WasClaimed-grows m g s id (b, a, there, f, c) = (b, a, g _ s there, f, c)

  slots_ok :
      (ids : List String) (a : HashMap String) (t : Trace) (a' : HashMap String)
      → (allocate_slots kube dps ids a t).0 ≡ ok a'
      → All (IsClaimed (allocate_slots kube dps ids a t).1) ids × (a' ≡ annotate ids a)
  unfolding allocate_slots
  slots_ok [] a t a' h = (tt, ground arith)
  slots_ok (id ∷ ids) a t a' h =
      go (claim id t)
        (try_update-WasClaimed kube id dps.node_name dps.instance_name dps.config_namespace t)
        (λ s b. slots_ok ids (insert akri_slot_annotation_name id a) s b) h
    where
      rest : M Trace (HashMap String)
      rest = allocate_slots kube dps ids (insert akri_slot_annotation_name id a)

      go :
          (r : Done × Trace)
          → (r.0 ≡ ok tt → IsClaimed r.1 id)
          → ((s : Trace) (b : HashMap String)
              → (rest s).0 ≡ ok b
              → All (IsClaimed (rest s).1) ids
                × (b ≡ annotate ids (insert akri_slot_annotation_name id a)))
          → (after_claim kube dps rest r.0 r.1).0 ≡ ok a'
          → (IsClaimed (after_claim kube dps rest r.0 r.1).1 id
              × All (IsClaimed (after_claim kube dps rest r.0 r.1).1) ids)
            × (a' ≡ annotate ids (insert akri_slot_annotation_name id a))
      go (ok u, s) won ih h =
          let (all, e) = ih s a' h in
          let kept =
            WasClaimed-grows (λ s. (rest s).1)
              (λ e. slots_grow e ids (insert akri_slot_annotation_name id a)) s id (won refl) in
          ((kept, all), e)
      go (err m, s) won ih h = cc

  -- An allocation that returns without an error has claimed every slot that was asked for, and has one
  -- response for each container, in order.
  pub internal_allocate_ok :
      (requests : List (List String)) (responses rs : List ContainerAllocateResponse) (t : Trace)
      → (internal_allocate kube dps requests responses t).0 ≡ ok rs
      → All (All (IsClaimed (internal_allocate kube dps requests responses t).1)) requests
        × (rs ≡ responses ++ map (response_of dps) requests)
  unfolding internal_allocate
  internal_allocate_ok [] responses rs t h = (tt, ground (arith, append-nil responses))
  internal_allocate_ok (ids ∷ requests) responses rs t h =
      let add = λ (a : HashMap String).
        internal_allocate kube dps requests (responses ++ response_with dps a ∷ []) in
      let (a, done, next) = bind-eq-ok (allocate_slots kube dps ids [] t) add h in
      let s = (allocate_slots kube dps ids [] t).1 in
      let more = responses ++ response_with dps a ∷ [] in
      let (claimed, e) = slots_ok ids [] t a done in
      let (all, f) = internal_allocate_ok requests more rs s (ap (λ q. q.0) (sym next) ∙ h) in
      let kept =
        All-map
          (WasClaimed-grows (λ s. (internal_allocate kube dps requests more s).1)
            (λ e. allocate_grows e requests more) s)
          ids claimed in
      (
        subst (λ w. All (IsClaimed w) ids × All (All (IsClaimed w)) requests)
            (sym (ap (λ q. q.1) next)) (kept, all),
        f
            ∙ ap (λ x. (responses ++ response_with dps x ∷ []) ++ map (response_of dps) requests) e
            ∙ append_assoc responses (response_of dps ids ∷ []) (map (response_of dps) requests),
      )

  -- However many slots a container was granted, its annotations name only the last one.
  pub allocate_slots_last :
      (ids : List String) (id : String) (t : Trace) (a : HashMap String)
      → (allocate_slots kube dps (ids ++ id ∷ []) [] t).0 ≡ ok a
      → All (IsClaimed (allocate_slots kube dps (ids ++ id ∷ []) [] t).1) (ids ++ id ∷ [])
        × (a ≡ (akri_slot_annotation_name, id) ∷ [])
  allocate_slots_last ids id t a h =
      let (all, e) = slots_ok (ids ++ id ∷ []) [] t a h in
      (all, e ∙ annotate_last ids id [] (inl refl))
