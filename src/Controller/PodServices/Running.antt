-- ===== src/Controller/PodServices/Running.antt =====
-- What a call of `create_or_update_service` that ends without an error has done, retries included.
use mathlib.Core.Path.{subst}
use akri.Base.{
  String, Bool, List, [], ◌∷◌, Result, ok, err, M, attempt, ◌≡◌, refl, sym, ap, arith, Elem, inl,
  inr,
}
use akri.Base.Loops.{Keeps, Keeps-bind, ok_injective}
use akri.Kube.Types.{Service, ServiceSpec, ServiceObject}
use akri.Kube.Api.{
  Event, Trace, Done, KubeInterface, found_services, created_service, find_services, delayed,
}
use akri.Kube.Pods.{◌<>◌, OwnershipInfo}
use akri.Kube.Services.{create_service_app_name, create_new_service_from_spec}
use akri.Kube.Retry.{attempts-accepted, attempts_keep, try_up_to_max}
use akri.Controller.PodServices.{
  create_service_from_spec, update_or_create, create_or_update_service,
}
use akri.Controller.PodServices.Updated.{
  WasCreated, WasServed, update_services_keep, update_services-WasUpdated,
}

module _ (kube : KubeInterface) (ownership : OwnershipInfo)
    (instance_name configuration_name namespace : String) (spec : ServiceSpec) (svc : Bool)
    (label value : String) where
  abbrev one : M Trace Done
  one =
      create_or_update_service kube instance_name configuration_name namespace ownership spec svc
        label value

  abbrev create : M Trace Done
  create =
      create_service_from_spec kube instance_name configuration_name namespace ownership spec svc

  create-Keeps : (P : Trace → Type 0) → ((e : Event) (t : Trace) → P t → P (e ∷ t)) → Keeps P create
  unfolding create_new_service_from_spec
  create-Keeps P k = λ t h. k _ t h

  one-Keeps : (P : Trace → Type 0) → ((e : Event) (t : Trace) → P t → P (e ∷ t)) → Keeps P one
  unfolding create_or_update_service
  one-Keeps P k =
      Keeps-bind P (attempt (find_services kube _))
        (update_or_create kube _ _ namespace ownership spec svc) (λ t h. k _ t h) go
    where
      go :
          (r : Result (List ServiceObject))
          → Keeps P (
              update_or_create kube instance_name configuration_name namespace ownership spec svc r)
      go (ok (s ∷ ss)) = update_services_keep kube ownership P k (s ∷ ss)
      go (ok []) = create-Keeps P k
      go (err e) = create-Keeps P k

  abbrev name : String
  name = create_service_app_name configuration_name instance_name "svc" svc

  answered :
      (sent : Service) (ns : String) (r : Done)
      → Path (Result Done) (ok r) (ok (ok tt))
      → created_service sent ns (ok tt) ≡ created_service sent ns r
  answered sent ns r h = ap (created_service sent ns) (sym (ok_injective h))

  create-WasCreated :
      (s : Trace) → (create s).0 ≡ ok (ok tt) → WasCreated ownership name namespace (create s).1
  unfolding create_new_service_from_spec
  create-WasCreated s h = (_, refl, refl, refl, inl (answered _ namespace _ h))

  one-WasServed :
      (t : Trace)
      → (one t).0 ≡ ok (ok tt)
      → WasServed ownership (label <> "=" <> value) name namespace (one t).1
  unfolding create_or_update_service
  one-WasServed t h = go (kube.find_services t (label <> "=" <> value)) h
    where
      go :
          (r : Result (List ServiceObject))
          → let m =
              update_or_create kube instance_name configuration_name namespace ownership spec svc r
                (found_services (label <> "=" <> value) r ∷ t) in
            m.0 ≡ ok (ok tt) → WasServed ownership (label <> "=" <> value) name namespace m.1
      go (ok (s ∷ ss)) h =
          let start = found_services (label <> "=" <> value) (ok (s ∷ ss)) ∷ t in
          (
            ok (s ∷ ss),
            update_services_keep kube ownership
                (Elem (found_services (label <> "=" <> value) (ok (s ∷ ss)))) (λ e t h. inr h)
                (s ∷ ss) start (inl refl),
            update_services-WasUpdated kube ownership (s ∷ ss) start h,
          )
      go (ok []) h = (
        ok [],
        create-Keeps (Elem (found_services _ (ok []))) (λ e t h. inr h) _ (inl refl),
        create-WasCreated _ h,
      )
      go (err e) h = (
        err e,
        create-Keeps (Elem (found_services _ (err e))) (λ e t h. inr h) _ (inl refl),
        create-WasCreated _ h,
      )

  pub served :
      (t : Trace)
      → (try_up_to_max (λ _. one) t).0 ≡ ok tt
      → WasServed ownership (label <> "=" <> value) name namespace (try_up_to_max (λ _. one) t).1
  served t h =
      let (y, s, done, end, from) = attempts-accepted (λ _. one) 5 0 t refl (omega arith) h in
      subst (WasServed ownership (label <> "=" <> value) name namespace) (sym end)
        (one-WasServed s done)

  pub served-Keeps :
      (P : Trace → Type 0)
      → ((e : Event) (t : Trace) → P t → P (e ∷ t))
      → Keeps P (try_up_to_max (λ _. one))
  served-Keeps P k = attempts_keep (λ _. one) P (k delayed) (λ _. one-Keeps P k) 5 0
