-- ===== src/Controller/PodServices/Served.antt =====
-- What a call of `handle_running_pod` that ends without an error has done.
use akri.Base.{
  String, true, false, Option, none, some, ◌∷◌, ok, lift, ok_or, ◌≡◌, refl, inl, inr, Option-cases,
}
use akri.Base.Loops.{Keeps, Keeps-bind, bind_post}
use akri.Kube.Types.{ServiceSpec, PodObject, KubeAkriInstance, KubeAkriConfig}
use akri.Kube.Api.{Event, Trace, KubeInterface, found_instance, found_configuration}
use akri.Kube.Pods.{◌<>◌, akri_configuration_label_name, akri_instance_label_name}
use akri.Kube.Services.{create_service_app_name}
use akri.Controller.PodServices.{
  instance_ownership, configuration_ownership, add_instance_service, add_configuration_service,
  add_instance_and_configuration_services, handle_running_pod,
  get_instance_and_configuration_from_pod,
}
use akri.Controller.PodServices.Running.{served, served-Keeps}
use akri.Controller.PodServices.Updated.{WasServed, WasServed-cons}

module _ (kube : KubeInterface) (id config namespace : String) (c : KubeAkriConfig) where
  -- The service of the Instance exists with the Instance as its owner, if the Configuration has one.
  abbrev pub HasInstanceService : String → Trace → Type 0
  HasInstanceService uid t =
      (spec : ServiceSpec)
      → c.spec.instance_service_spec ≡ some spec
      → WasServed (instance_ownership id uid) (akri_instance_label_name <> "=" <> id)
          (create_service_app_name config id "svc" true) namespace t

  -- The same of the Configuration.
  abbrev pub HasConfigurationService : Trace → Type 0
  HasConfigurationService t =
      (spec : ServiceSpec)
      → c.spec.configuration_service_spec ≡ some spec
      → (uid : String) × (c.metadata.uid ≡ some uid)
        × WasServed (configuration_ownership config uid)
            (akri_configuration_label_name <> "=" <> config)
            (create_service_app_name config id "svc" false) namespace t

  instance-Served :
      (uid : String) (t : Trace)
      → (add_instance_service kube id uid namespace config c c.spec.instance_service_spec t).0
        ≡ ok tt
      → HasInstanceService uid
          (add_instance_service kube id uid namespace config c c.spec.instance_service_spec t).1
  unfolding add_instance_service
  instance-Served uid t h spec e = simp e (
      served kube (instance_ownership id uid) id config namespace spec true akri_instance_label_name
        id t (simp e at h))

  configuration-Served :
      (uid : String) (t : Trace)
      → (add_configuration_service kube id uid namespace config c c.spec.configuration_service_spec
          t).0
        ≡ ok tt
      → HasConfigurationService
          (add_configuration_service kube id uid namespace config c
            c.spec.configuration_service_spec t).1
  unfolding add_configuration_service
  configuration-Served uid t h spec e = elim (Option-cases c.metadata.uid) [
    | inl f ↦ let g = simp (e, f) at h in cc
    | inr (cuid, f) ↦
        simp (e, f)
          (
            cuid,
            refl,
            served kube (configuration_ownership config cuid) id config namespace spec false
                akri_configuration_label_name config t (simp (e, f) at h),
          )
  ]

  configuration-Keeps :
      (uid : String) (P : Trace → Type 0)
      → ((e : Event) (t : Trace) → P t → P (e ∷ t))
      → (o : Option ServiceSpec)
      → Keeps P (add_configuration_service kube id uid namespace config c o)
  unfolding add_configuration_service
  configuration-Keeps uid P k none = λ t h. h
  configuration-Keeps uid P k (some spec) =
      Keeps-bind P (lift (ok_or c.metadata.uid _)) _ (λ t h. h)
        λ cuid.
          served-Keeps kube (configuration_ownership config cuid) id config namespace spec false _ _
            P k

  add_both-Served :
      (uid : String) (t : Trace)
      → (add_instance_and_configuration_services kube id uid namespace config c t).0 ≡ ok tt
      → HasInstanceService uid
          (add_instance_and_configuration_services kube id uid namespace config c t).1
        × HasConfigurationService
            (add_instance_and_configuration_services kube id uid namespace config c t).1
  unfolding add_instance_and_configuration_services
  add_both-Served uid t =
      bind_post (λ t. HasInstanceService uid t × HasConfigurationService t)
        (add_instance_service kube id uid namespace config c c.spec.instance_service_spec t)
        (λ _.
          add_configuration_service kube id uid namespace config c
            c.spec.configuration_service_spec)
        (λ _ first second.
          let s =
            (add_instance_service kube id uid namespace config c c.spec.instance_service_spec
              t).1 in
          (
            λ spec e.
                configuration-Keeps uid
                  (WasServed (instance_ownership id uid) (akri_instance_label_name <> "=" <> id)
                    (create_service_app_name config id "svc" true) namespace)
                  (WasServed-cons (instance_ownership id uid)
                    (akri_instance_label_name <> "=" <> id)
                    (create_service_app_name config id "svc" true) namespace)
                  c.spec.configuration_service_spec s (instance-Served uid t first spec e),
            configuration-Served uid s second,
          ))

  -- If the Configuration and the Instance of a running broker Pod are found and the call ends without an
  -- error, the Instance has a uid, and each service that the Configuration asks for was looked for by its
  -- label: all services found were updated to this owner alone, or, where there was none, one of the
  -- service's name was created with it, in calls that returned no error.
  pub handle_running_pod-WasServed :
      (pod : PodObject) (inst : KubeAkriInstance) (t : Trace)
      → pod.metadata.namespace ≡ some namespace
      → get_instance_and_configuration_from_pod pod ≡ ok (id, config)
      → kube.find_configuration t config namespace ≡ ok c
      → kube.find_instance (found_configuration config namespace (ok c) ∷ t) id namespace ≡ ok inst
      → (handle_running_pod kube pod t).0 ≡ ok tt
      → (uid : String) × (inst.metadata.uid ≡ some uid)
        × HasInstanceService uid (handle_running_pod kube pod t).1
        × HasConfigurationService (handle_running_pod kube pod t).1
  unfolding handle_running_pod
  handle_running_pod-WasServed pod inst t n l f g h = elim (Option-cases inst.metadata.uid) [
    | inl e ↦ let x = simp (n, l, f, g, e) at h in cc
    | inr (uid, e) ↦
        let start =
          found_instance id namespace (ok inst) ∷ found_configuration config namespace (ok c) ∷ t in
        let (first, second) = add_both-Served uid start (simp (n, l, f, g, e) at h) in
        simp (n, l, f, g, e) (uid, refl, first, second)
  ]
