-- ===== src/Kube/Api.antt =====
-- `KubeInterface` of shared/src/k8s/mod.rs and the clocks, as the functions see them. The cluster and
-- its other clients are not part of the program: an oracle answers each call, and it may answer by all
-- that was asked before, so any behaviour of the cluster between two calls is some oracle. A call
-- appends itself, with its answer, to the trace, whose newest entry stands first. `get_kube_client`,
-- `find_node` and `get_configurations` are left out.
use akri.Base.{ℕ, String, List, ◌∷◌, Result, ok, M}
use akri.Kube.Types.{
  Time, Pod, Service, ServiceObject, PodObject, Instance, KubeAkriInstance, KubeAkriConfig,
}

abbrev pub Done : Type 0
Done = Result (Unit {0})

pub data Event : Type 0 where
  found_pods_with_label : String → Result (List PodObject) → Event
  found_pods_with_field : String → Result (List PodObject) → Event
  created_pod : Pod → String → Done → Event
  removed_pod : String → String → Done → Event
  found_services : String → Result (List ServiceObject) → Event
  created_service : Service → String → Done → Event
  removed_service : String → String → Done → Event
  updated_service : ServiceObject → String → String → Done → Event
  found_configuration : String → String → Result KubeAkriConfig → Event
  found_instance : String → String → Result KubeAkriInstance → Event
  got_instances : Result (List KubeAkriInstance) → Event
  created_instance : Instance → String → String → String → String → Done → Event
  deleted_instance : String → String → Done → Event
  updated_instance : Instance → String → String → Done → Event
  -- The broker Pod gauge, by its labels.
  metric_inc : String → String → Event
  metric_dec : String → String → Event
  -- `Utc::now()`, `Instant::now()` and `random_delay`.
  read_clock : Time → Event
  read_instant : Time → Event
  delayed : Event
  -- A message on an Instance's `list_and_watch` channel.
  sent_continue : String → Event
  sent_end : String → Event
  -- `build_device_plugin` of a new Instance, by the Instance's name.
  built_device_plugin : String → Done → Event

abbrev pub Trace : Type 0
Trace = List Event

pub record KubeInterface : Type 0 where
  pub find_pods_with_label : Trace → String → Result (List PodObject)
  pub find_pods_with_field : Trace → String → Result (List PodObject)
  pub create_pod : Trace → Pod → String → Done
  pub remove_pod : Trace → String → String → Done
  pub find_services : Trace → String → Result (List ServiceObject)
  pub create_service : Trace → Service → String → Done
  pub remove_service : Trace → String → String → Done
  pub update_service : Trace → ServiceObject → String → String → Done
  pub find_configuration : Trace → String → String → Result KubeAkriConfig
  pub find_instance : Trace → String → String → Result KubeAkriInstance
  pub get_instances : Trace → Result (List KubeAkriInstance)
  pub create_instance : Trace → Instance → String → String → String → String → Done
  pub delete_instance : Trace → String → String → Done
  pub update_instance : Trace → Instance → String → String → Done
  pub utc_now : Trace → Time
  pub instant_now : Trace → Time

-- Appends one entry to the trace.
abbrev pub emit : Event → M Trace (Unit {0})
emit e t = (ok tt, e ∷ t)

module _ (kube : KubeInterface) where
  abbrev pub find_pods_with_label : String → M Trace (List PodObject)
  find_pods_with_label sel t =
      let r = kube.find_pods_with_label t sel in (r, found_pods_with_label sel r ∷ t)

  abbrev pub find_pods_with_field : String → M Trace (List PodObject)
  find_pods_with_field sel t =
      let r = kube.find_pods_with_field t sel in (r, found_pods_with_field sel r ∷ t)

  abbrev pub create_pod : Pod → String → M Trace (Unit {0})
  create_pod p ns t = let r = kube.create_pod t p ns in (r, created_pod p ns r ∷ t)

  abbrev pub remove_pod : String → String → M Trace (Unit {0})
  remove_pod n ns t = let r = kube.remove_pod t n ns in (r, removed_pod n ns r ∷ t)

  abbrev pub find_services : String → M Trace (List ServiceObject)
  find_services sel t = let r = kube.find_services t sel in (r, found_services sel r ∷ t)

  abbrev pub create_service : Service → String → M Trace (Unit {0})
  create_service s ns t = let r = kube.create_service t s ns in (r, created_service s ns r ∷ t)

  abbrev pub remove_service : String → String → M Trace (Unit {0})
  remove_service n ns t = let r = kube.remove_service t n ns in (r, removed_service n ns r ∷ t)

  abbrev pub update_service : ServiceObject → String → String → M Trace (Unit {0})
  update_service s n ns t =
      let r = kube.update_service t s n ns in (r, updated_service s n ns r ∷ t)

  abbrev pub find_configuration : String → String → M Trace KubeAkriConfig
  find_configuration n ns t =
      let r = kube.find_configuration t n ns in (r, found_configuration n ns r ∷ t)

  abbrev pub find_instance : String → String → M Trace KubeAkriInstance
  find_instance n ns t = let r = kube.find_instance t n ns in (r, found_instance n ns r ∷ t)

  abbrev pub get_instances : M Trace (List KubeAkriInstance)
  get_instances t = let r = kube.get_instances t in (r, got_instances r ∷ t)

  abbrev pub create_instance : Instance → String → String → String → String → M Trace (Unit {0})
  create_instance i n ns config uid t =
      let r = kube.create_instance t i n ns config uid in
      (r, created_instance i n ns config uid r ∷ t)

  abbrev pub delete_instance : String → String → M Trace (Unit {0})
  delete_instance n ns t = let r = kube.delete_instance t n ns in (r, deleted_instance n ns r ∷ t)

  abbrev pub update_instance : Instance → String → String → M Trace (Unit {0})
  update_instance i n ns t =
      let r = kube.update_instance t i n ns in (r, updated_instance i n ns r ∷ t)

  abbrev pub utc_now : M Trace Time
  utc_now t = let r = kube.utc_now t in (ok r, read_clock r ∷ t)

  abbrev pub instant_now : M Trace Time
  instant_now t = let r = kube.instant_now t in (ok r, read_instant r ∷ t)

-- `random_delay` of shared/src/akri/mod.rs: only the wait itself.
abbrev pub random_delay : M Trace (Unit {0})
random_delay = emit delayed

-- `MAX_INSTANCE_UPDATE_TRIES` of shared/src/akri/mod.rs.
abbrev pub max_instance_update_tries : ℕ
max_instance_update_tries = 5
