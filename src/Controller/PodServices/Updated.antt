-- ===== src/Controller/PodServices/Updated.antt =====
-- What was done about a service that is wanted, and what the update of the services found has done.
use mathlib.Core.Path.{subst}
use akri.Base.{
  String, true, some, List, [], ◌∷◌, Result, ok, err, M, bind_result, attempt, lift, ok_or, ◌≡◌,
  refl, sym, ◌∙◌, ap, All, Elem, inl, inr, Option-cases,
}
use akri.Base.Loops.{Keeps, Keeps-bind, bind-ok}
use akri.Kube.Types.{Service, ServiceObject}
use akri.Kube.Api.{
  Event, Trace, Done, KubeInterface, found_services, updated_service, created_service,
  update_service,
}
use akri.Kube.Pods.{OwnershipInfo, owner_reference}
use akri.Kube.Services.{update_ownership}
use akri.Controller.PodServices.{after_service, update_services, unwrap_none}

module _ (ownership : OwnershipInfo) where
  -- The service was sent with this owner alone and otherwise as it was found, without an error.
  abbrev pub WasUpdated : Trace → ServiceObject → Type 0
  WasUpdated t svc =
      (sent : ServiceObject) × (ns : String) × (svc.metadata.namespace ≡ some ns)
      × (sent.metadata.owner_references ≡ owner_reference ownership ∷ [])
      × (sent.metadata.labels ≡ svc.metadata.labels)
      × (sent.spec ≡ svc.spec)
      × Elem (updated_service sent svc.metadata.name ns (ok tt)) t

  -- A service of this name and namespace, with this owner, was sent without an error.
  abbrev pub WasCreated : String → String → Trace → Type 0
  WasCreated name ns t =
      (sent : Service) × (sent.metadata.name ≡ some name)
      × (sent.metadata.namespace ≡ some ns)
      × (sent.metadata.owner_references ≡ some (owner_reference ownership ∷ []))
      × Elem (created_service sent ns (ok tt)) t

  -- What was done about the services that were found, if any were.
  abbrev pub WasDone : String → String → Result (List ServiceObject) → Trace → Type 0
  WasDone name ns (ok (svc ∷ svcs)) t = All (WasUpdated t) (svc ∷ svcs)
  WasDone name ns (ok []) t = WasCreated name ns t
  WasDone name ns (err e) t = WasCreated name ns t

  abbrev pub WasServed : String → String → String → Trace → Type 0
  WasServed sel name ns t =
      (found : Result (List ServiceObject)) × Elem (found_services sel found) t
      × WasDone name ns found t

  pub WasUpdated-cons :
      (e : Event) (t : Trace) (svc : ServiceObject) → WasUpdated t svc → WasUpdated (e ∷ t) svc
  WasUpdated-cons e t svc (sent, ns, n, o, l, s, i) = (sent, ns, n, o, l, s, inr i)

  pub WasServed-cons :
      (sel name ns : String) (e : Event) (t : Trace)
      → WasServed sel name ns t
      → WasServed sel name ns (e ∷ t)
  WasServed-cons sel name ns e t (found, i, d) = (found, inr i, go found d)
    where
      go :
          (found : Result (List ServiceObject))
          → WasDone name ns found t
          → WasDone name ns found (e ∷ t)
      go (ok (svc ∷ svcs)) h = all-WasUpdated (svc ∷ svcs) h
        where
          all-WasUpdated :
              (svcs : List ServiceObject) → All (WasUpdated t) svcs → All (WasUpdated (e ∷ t)) svcs
          all-WasUpdated [] h = tt
          all-WasUpdated (svc ∷ svcs) (h, hs) = (WasUpdated-cons e t svc h, all-WasUpdated svcs hs)
      go (ok []) (sent, a, b, c, i) = (sent, a, b, c, inr i)
      go (err x) (sent, a, b, c, i) = (sent, a, b, c, inr i)

module _ (kube : KubeInterface) (ownership : OwnershipInfo) where
  -- Whatever every entry keeps, the update of services keeps.
  pub update_services_keep :
      (P : Trace → Type 0)
      → ((e : Event) (t : Trace) → P t → P (e ∷ t))
      → (svcs : List ServiceObject) → Keeps P (update_services kube ownership svcs)
  unfolding update_services
  update_services_keep P k [] = λ t h. h
  update_services_keep P k (svc ∷ svcs) =
      Keeps-bind P (lift (ok_or svc.metadata.namespace unwrap_none)) _ (λ t h. h)
        λ ns.
          Keeps-bind P
            (attempt
              (update_service kube (update_ownership svc ownership true) svc.metadata.name ns))
            (after_service (update_services kube ownership svcs)) (λ t h. k _ t h)
            (after (update_services_keep P k svcs))
    where
      after :
          Keeps P (update_services kube ownership svcs)
          → (r : Done) → Keeps P (after_service (update_services kube ownership svcs) r)
      after ih (ok u) = ih
      after ih (err e) = λ t h. h

  pub update_services-WasUpdated :
      (svcs : List ServiceObject) (t : Trace)
      → (update_services kube ownership svcs t).0 ≡ ok (ok tt)
      → All (WasUpdated ownership (update_services kube ownership svcs t).1) svcs
  unfolding update_services update_ownership
  update_services-WasUpdated [] t h = tt
  update_services-WasUpdated (svc ∷ svcs) t h = elim (Option-cases svc.metadata.namespace) [
    | inl e ↦ let f = simp e at h in cc
    | inr (ns, e) ↦
        let same =
          bind-ok (ok_or svc.metadata.namespace unwrap_none, t) rest
            (ap (λ o. ok_or o unwrap_none) e) in
        subst (λ r. All (WasUpdated ownership r.1) (svc ∷ svcs)) (sym same)
          (go ns e (kube.update_service t sent svc.metadata.name ns)
            (update_services-WasUpdated svcs) (ap (λ r. r.0) (sym same) ∙ h))
  ]
    where
      sent : ServiceObject
      sent = update_ownership svc ownership true

      rest : String → M Trace Done
      rest ns t =
          bind_result (attempt (update_service kube sent svc.metadata.name ns) t)
            (after_service (update_services kube ownership svcs))

      next : Trace → String → Done → Result Done × Trace
      next t ns r =
          after_service (update_services kube ownership svcs) r
            (updated_service sent svc.metadata.name ns r ∷ t)

      go :
          (ns : String)
          → svc.metadata.namespace ≡ some ns
          → (r : Done)
          → ((t : Trace)
              → (update_services kube ownership svcs t).0 ≡ ok (ok tt)
              → All (WasUpdated ownership (update_services kube ownership svcs t).1) svcs)
          → (next t ns r).0 ≡ ok (ok tt)
          → All (WasUpdated ownership (next t ns r).1) (svc ∷ svcs)
      go ns e (ok u) ih h =
          let s = updated_service sent svc.metadata.name ns (ok tt) ∷ t in
          (
            update_services_keep (λ t. WasUpdated ownership t svc)
                (λ e t. WasUpdated-cons ownership e t svc) svcs s
                (sent, ns, e, refl, refl, refl, inl refl),
            ih s h,
          )
      go ns e (err x) ih h = cc
