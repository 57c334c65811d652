-- ===== src/Agent/DevicePlugin/Adverts.antt =====
-- What is advertised to the kubelet, slot by slot.
use mathlib.Core.Path.{subst}
use akri.Base.{
  ℕ, zero, suc, ◌+◌, String, Bool, true, false, Option, none, some, List, [], ◌∷◌, Result, ok, err,
  ◌&&◌, not, if◌then◌else◌, eq_iff, ◌≡◌, ◌≢◌, ◌<◌, refl, ap, arith, All, Elem, length, inl, inr,
  ◌⊎◌, Bool-cases,
}
use akri.Base.HashMap.{HashMap, get, contains_key, get_of_contains_key}
use akri.Kube.Types.{KubeAkriInstance}
use akri.Kube.Api.{Trace, KubeInterface, found_instance}
use akri.Agent.DevicePlugin.{InstanceInfo, InstanceMap, DevicePluginService}
use akri.Agent.DevicePlugin.Devices.{
  healthy, unhealthy, Device, slot_name, unhealthy_from, range_size,
  build_unhealthy_virtual_devices, build_virtual_devices, is_taken, is_online, all_unhealthy,
  devices_of, respond_known, build_list_and_watch_response,
}

-- A slot that is free or held by the node.
abbrev pub IsUsable : String → String → Type 0
IsUsable node n = (n ≡ "") ⊎ (n ≡ node)

-- Each slot is a device of its name; it is healthy if the node can use it, and unhealthy if another
-- node holds it, which is only possible for a shared Instance.
pub data Advertises (shared : Bool) (node : String) : HashMap String → List Device → Type 0 where
  done : Advertises shared node [] []
  usable :
      (id n : String) {usage : HashMap String} {ds : List Device}
      → IsUsable node n
      → Advertises shared node usage ds
      → Advertises shared node ((id, n) ∷ usage) (record { id = id; health = healthy } ∷ ds)
  lent :
      (id n : String) {usage : HashMap String} {ds : List Device}
      → shared ≡ true
      → n ≢ ""
      → n ≢ node
      → Advertises shared node usage ds
      → Advertises shared node ((id, n) ∷ usage) (record { id = id; health = unhealthy } ∷ ds)

-- The outcome for an Instance: the devices, or the panic on an unshared Instance that another node
-- holds a slot of.
abbrev pub Outcome : Bool → String → HashMap String → Option (List Device) → Type 0
Outcome shared node usage (some ds) = Advertises shared node usage ds
Outcome shared node usage none =
    (shared ≡ false) × (slot : String × String) × Elem slot usage × (slot.1 ≢ "") × (slot.1 ≢ node)

taken_lem : (n node : String) → is_taken n node ≡ true → (n ≢ "") × (n ≢ node)
taken_lem n node h = (ground (arith, eq_iff n ""), ground (arith, eq_iff n node))

usable_lem : (n node : String) → is_taken n node ≡ false → IsUsable node n
usable_lem n node h = ground (arith, eq_iff n "", eq_iff n node)

-- `build_virtual_devices` advertises each slot of the Instance, in order, with the health that the
-- holder of the slot gives it; it panics only for an unshared Instance that another node uses.
pub build_virtual_devices-Outcome :
    (usage : HashMap String) (shared : Bool) (node : String)
    → Outcome shared node usage (build_virtual_devices usage shared node)
unfolding build_virtual_devices
build_virtual_devices-Outcome [] shared node = done
build_virtual_devices-Outcome ((id, n) ∷ usage) shared node =
    go shared (is_taken n node) refl (build_virtual_devices usage shared node)
      (build_virtual_devices-Outcome usage shared node)
  where
    go :
        (b taken : Bool)
        → is_taken n node ≡ taken
        → (rest : Option (List Device)) → Outcome b node usage rest
        → Outcome b node ((id, n) ∷ usage) (
            if not b && taken then none else elim rest [
              | none ↦ none
              | some devices ↦
                  some (
                    record { id = id; health = if b && taken then unhealthy else healthy }
                    ∷ devices)
            ])
    go false true e rest h = let (a, b) = taken_lem n node e in (refl, (id, n), inl refl, a, b)
    go false false e none (f, slot, there, u, v) = (f, slot, inr there, u, v)
    go false false e (some ds) h = usable id n (usable_lem n node e) h
    go true taken e none (f, slot, there, u, v) = cc
    go true true e (some ds) h = let (a, b) = taken_lem n node e in lent id n refl a b h
    go true false e (some ds) h = usable id n (usable_lem n node e) h

-- The Instance is in the map, and online or not.
abbrev pub IsOnline : DevicePluginService → InstanceMap → Type 0
IsOnline dps m = (i : InstanceInfo) × (get dps.instance_name m ≡ some i) × (is_online i ≡ true)

abbrev pub IsOffline : DevicePluginService → InstanceMap → Type 0
IsOffline dps m = (i : InstanceInfo) × (get dps.instance_name m ≡ some i) × (is_online i ≡ false)

-- The devices of an Instance that is not usable: one for each unit of capacity, all unhealthy.
abbrev pub IsAllUnhealthy : DevicePluginService → List Device → Type 0
IsAllUnhealthy dps ds =
    (length ds ≡ range_size dps.config.capacity)
    × ((x : ℕ)
        → x < length ds
        → Elem (record { id = slot_name dps.instance_name x; health = unhealthy }) ds)
    × All (λ d. d.health ≡ unhealthy) ds

unhealthy_from_lem :
    (name : String) (count x : ℕ)
    → (length (unhealthy_from name x count) ≡ count)
      × ((y : ℕ)
          → y < count
          → Elem
              (record { id = slot_name name (x + y); health = unhealthy })
              (unhealthy_from name x count))
      × All (λ d. d.health ≡ unhealthy) (unhealthy_from name x count)
unfolding unhealthy_from
unhealthy_from_lem name zero x = (refl, λ y l. omega arith, tt)
unhealthy_from_lem name (suc count) x =
    let (a, b, c) = unhealthy_from_lem name count (suc x) in (ap suc a, there b, (refl, c))
  where
    at : ℕ → Device
    at y = record { id = slot_name name y; health = unhealthy }

    there :
        ((y : ℕ) → y < count → Elem (at (suc x + y)) (unhealthy_from name (suc x) count))
        → (y : ℕ) → y < suc count
        → Elem (at (x + y)) (at x ∷ unhealthy_from name (suc x) count)
    there b zero l = inl (ap at (omega arith))
    there b (suc y) l = inr (
        subst (λ k. Elem (at k) (unhealthy_from name (suc x) count)) (omega arith)
          (b y (omega arith)))

pub all_unhealthy-IsAllUnhealthy :
    (dps : DevicePluginService) → IsAllUnhealthy dps (all_unhealthy dps)
unfolding build_unhealthy_virtual_devices
all_unhealthy-IsAllUnhealthy dps =
    let (a, b, c) = unhealthy_from_lem dps.instance_name (range_size dps.config.capacity) 0 in
    (
      a,
      λ y l.
          subst
            (λ k.
              Elem (record { id = slot_name dps.instance_name k; health = unhealthy })
                (all_unhealthy dps))
            (omega arith) (b y (omega (arith, a, l))),
      c,
    )

-- The cases of a response, by the state of the Instance at the two looks at the map and the answer of the
-- cluster.
pub data Responds (kube : KubeInterface) (dps : DevicePluginService) (m m' : InstanceMap)
    (t : Trace) : Result (Option (List Device)) × Trace → Type 0 where
  known :
      (i : KubeAkriInstance) (o : Option (List Device))
      → contains_key dps.instance_name m ≡ true
      → IsOnline dps m'
      → kube.find_instance t dps.instance_name dps.config_namespace ≡ ok i
      → Outcome i.spec.shared dps.node_name i.spec.device_usage o
      → Responds kube dps m m' t
          (ok o, found_instance dps.instance_name dps.config_namespace (ok i) ∷ t)
  unknown :
      (e : String) (ds : List Device)
      → contains_key dps.instance_name m ≡ true
      → IsOnline dps m'
      → kube.find_instance t dps.instance_name dps.config_namespace ≡ err e
      → IsAllUnhealthy dps ds
      → Responds kube dps m m' t
          (ok (some ds), found_instance dps.instance_name dps.config_namespace (err e) ∷ t)
  gone :
      (ds : List Device)
      → (get dps.instance_name m ≡ none) ⊎ IsOffline dps m'
      → IsAllUnhealthy dps ds
      → Responds kube dps m m' t (ok (some ds), t)
  lost :
      contains_key dps.instance_name m ≡ true
      → get dps.instance_name m' ≡ none
      → Responds kube dps m m' t (ok none, t)

module _ (kube : KubeInterface) (dps : DevicePluginService) (m m' : InstanceMap) (t : Trace) where
  found :
      contains_key dps.instance_name m ≡ true
      → IsOnline dps m'
      → (r : Result KubeAkriInstance)
      → kube.find_instance t dps.instance_name dps.config_namespace ≡ r
      → Responds kube dps m m' t
          (ok (devices_of dps r), found_instance dps.instance_name dps.config_namespace r ∷ t)
  found c e (ok i) f =
      known i (devices_of dps (ok i)) c e f
        (build_virtual_devices-Outcome i.spec.device_usage i.spec.shared dps.node_name)
  found c e (err x) f = unknown x (all_unhealthy dps) c e f (all_unhealthy-IsAllUnhealthy dps)

  second_look :
      (o : Option InstanceInfo)
      → contains_key dps.instance_name m ≡ true
      → get dps.instance_name m' ≡ o
      → Responds kube dps m m' t (respond_known kube dps o t)
  second_look none c e = lost c e
  second_look (some i) c e = elim (Bool-cases (is_online i)) [
    | inl f ↦
        rw f (found c (i, e, f) (kube.find_instance t dps.instance_name dps.config_namespace) refl)
    | inr f ↦ rw f (gone (all_unhealthy dps) (inr (i, e, f)) (all_unhealthy-IsAllUnhealthy dps))
  ]

  -- A response advertises the slots of an Instance that is in the map, is then online, and that the
  -- cluster knows, and as many unhealthy devices as the Configuration has capacity for otherwise; only
  -- an Instance that is online is looked up in the cluster. It panics on an Instance that another task
  -- takes out of the map between the two looks at it, and on an unshared one that another node uses.
  pub build_list_and_watch_response-Responds :
      Responds kube dps m m' t (build_list_and_watch_response kube dps m m' t)
  unfolding build_list_and_watch_response
  build_list_and_watch_response-Responds = elim (Bool-cases (contains_key dps.instance_name m)) [
    | inl e ↦ rw e (second_look (get dps.instance_name m') e refl)
    | inr e ↦ rw e (
        gone (all_unhealthy dps) (inl (get_of_contains_key dps.instance_name m e))
          (all_unhealthy-IsAllUnhealthy dps))
  ]
