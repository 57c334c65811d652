-- ===== src/Agent/DevicePlugin/Entries.antt =====
-- What a device plugin may send for its Instance: a new Instance, or one that was found with the node added.
use akri.Base.{
  ℕ, zero, suc, ◌+◌, ◌≤◌, ◌<◌, String, true, false, some, none, List, [], ◌∷◌, ◌++◌, any, ◌==◌,
  eq_iff, ◌≡◌, refl, sym, ◌∙◌, ap, arith, ltb, inl, inr, ◌⊎◌, Bool-cases, Elem,
}
use akri.Base.HashMap.{get, get-insert}
use akri.Kube.Types.{Instance}
use akri.Agent.DevicePlugin.{DevicePluginService}
use akri.Agent.DevicePlugin.Devices.{slot_name, range_size}
use akri.Agent.DevicePlugin.Creation.{free_slots, new_instance, is_member, join}

-- The slots that are numbered from `x` on, `count` of them.
abbrev pub IsNumbered : String → String → ℕ → ℕ → Type 0
IsNumbered name slot x count = (y : ℕ) × (x ≤ y) × (y < x + count) × (slot ≡ slot_name name y)

free_slots_lem :
    (name slot : String) (x count : ℕ)
    → ((get slot (free_slots name x count) ≡ some "") × IsNumbered name slot x count)
      ⊎ ((get slot (free_slots name x count) ≡ none) × (¬ IsNumbered name slot x count))
unfolding free_slots get
free_slots_lem name slot x zero = inr (refl, λ (y, l, u, e). omega arith)
free_slots_lem name slot x (suc count) =
    let g = get-insert (slot_name name x) slot "" (free_slots name (suc x) count) in
    elim (Bool-cases (slot_name name x == slot)) [
      | inl e ↦ inl (
        rw g (rw e refl),
        (x, omega arith, omega arith, sym ((eq_iff (slot_name name x) slot).0 e)),
      )
      | inr e ↦ elim (free_slots_lem name slot (suc x) count) [
        | inl (h, (y, l, u, f)) ↦ inl (rw g (rw e h), (y, omega arith, omega arith, f))
        | inr (h, n) ↦ inr (rw g (rw e h), outside e n)
      ]
    ]
  where
    outside :
        (slot_name name x == slot) ≡ false
        → ¬ IsNumbered name slot (suc x) count
        → ¬ IsNumbered name slot x (suc count)
    outside e n (y, l, u, f) = elim (Bool-cases (ltb x y)) [
      | inl b ↦ n (y, ground arith, omega arith, f)
      | inr b ↦
          let same : x ≡ y = ground arith in
          let t = (eq_iff (slot_name name x) slot).1 (ap (slot_name name) same ∙ sym f) in cc
    ]

-- An Instance of this device plugin with the node alone and free slots, one for each number below the
-- capacity.
pub record IsNew (dps : DevicePluginService) (inst : Instance) : Type 0 where
  pub nodes : inst.nodes ≡ dps.node_name ∷ []
  pub slots :
      (slot : String)
      → ((get slot inst.device_usage ≡ some "")
          × IsNumbered dps.instance_name slot 0 (range_size dps.config.capacity))
        ⊎ ((get slot inst.device_usage ≡ none)
            × (¬ IsNumbered dps.instance_name slot 0 (range_size dps.config.capacity)))
  pub configuration_name : inst.configuration_name ≡ dps.config_name
  pub metadata : inst.metadata ≡ dps.instance_properties
  pub shared : inst.shared ≡ dps.shared
  pub rbac : inst.rbac ≡ "rbac"

-- The node is added to the list of nodes, and all else is as it was.
pub record IsJoined (node : String) (before after : Instance) : Type 0 where
  pub nodes : after.nodes ≡ before.nodes ++ node ∷ []
  pub slots : after.device_usage ≡ before.device_usage
  pub configuration_name : after.configuration_name ≡ before.configuration_name
  pub metadata : after.metadata ≡ before.metadata
  pub shared : after.shared ≡ before.shared
  pub rbac : after.rbac ≡ before.rbac

any-Elem :
    (node : String) (nodes : List String) → any (λ n. n == node) nodes ≡ true → Elem node nodes
any-Elem node [] h = cc
any-Elem node (n ∷ nodes) h = ground (arith, any-Elem node nodes, eq_iff n node)

any-not_Elem :
    (node : String) (nodes : List String) → any (λ n. n == node) nodes ≡ false → ¬ Elem node nodes
any-not_Elem node [] h e = elim e [ ]
any-not_Elem node (n ∷ nodes) h e = ground (arith, any-not_Elem node nodes, eq_iff n node)

module _ (dps : DevicePluginService) where
  pub new_instance-IsNew : IsNew dps (new_instance dps)
  unfolding new_instance
  new_instance-IsNew = record {
    nodes = refl;
    slots = λ slot. free_slots_lem dps.instance_name slot 0 (range_size dps.config.capacity);
    configuration_name = refl;
    metadata = refl;
    shared = refl;
    rbac = refl;
  }

  pub join-IsJoined : (inst : Instance) → IsJoined dps.node_name inst (join dps inst)
  join-IsJoined inst = record {
    nodes = refl;
    slots = refl;
    configuration_name = refl;
    metadata = refl;
    shared = refl;
    rbac = refl;
  }

  pub is_member-Elem : (inst : Instance) → is_member dps inst ≡ true → Elem dps.node_name inst.nodes
  is_member-Elem inst h = any-Elem dps.node_name inst.nodes h

  pub is_member-not_Elem :
      (inst : Instance) → is_member dps inst ≡ false → ¬ Elem dps.node_name inst.nodes
  is_member-not_Elem inst h = any-not_Elem dps.node_name inst.nodes h
