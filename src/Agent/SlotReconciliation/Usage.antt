-- ===== src/Agent/SlotReconciliation/Usage.antt =====
-- The Instances that the reconciler sends.
use mathlib.Core.Path.{subst}
use akri.Base.{
  String, Bool, true, false, Option, none, some, List, [], ◌∷◌, select, not, ◌&&◌, ◌==◌, eq_iff,
  if◌then◌else◌, ◌≡◌, refl, sym, ◌∙◌, ap, arith, inl, inr, ◌⊎◌, Bool-cases,
}
use akri.Base.HashMap.{
  HashMap, get, contains_key, get-map_entries, map_option, HasUniqueKeys, get_of_contains_key,
}
use akri.Kube.Types.{Instance}
use akri.Agent.SlotReconciliation.{
  contains, keys, unused_slots, slots_missing_this_node_name, modified_instance,
}

-- The value of a slot after a run, by its value before and whether a container on the node uses it: a
-- slot in use is the node's, one of the node that is not in use stays or is freed, and any other stays.
abbrev pub Settles : String → Bool → Option String → Option String → Type 0
Settles node in_use none after = after ≡ none
Settles node true (some n) after = after ≡ some node
Settles node false (some n) after = (after ≡ some n) ⊎ ((n ≡ node) × (after ≡ some ""))

pub record IsReconciled (node : String) (used : List String) (before after : Instance)
    : Type 0 where
  pub slots :
      (slot : String)
      → Settles node
          (contains used slot)
          (get slot before.device_usage)
          (get slot after.device_usage)
  pub nodes : after.nodes ≡ before.nodes
  pub shared : after.shared ≡ before.shared
  pub configuration_name : after.configuration_name ≡ before.configuration_name
  pub metadata : after.metadata ≡ before.metadata
  pub rbac : after.rbac ≡ before.rbac

-- Whether the entry of a key passes a test.
abbrev entry_passes : (String → String → Bool) → String → Option String → Bool
entry_passes p k none = false
entry_passes p k (some v) = p k v

contains-keys :
    (p : String → String → Bool) (k : String) (m : HashMap String)
    → HasUniqueKeys m
    → contains (keys (select (λ e. p e.0 e.1) m)) k ≡ entry_passes p k (get k m)
unfolding get
contains-keys p k [] h = refl
contains-keys p k ((j, v) ∷ m) (c, h) =
    let ih = contains-keys p k m h in
    elim (Bool-cases (j == k)) [
      | inl e ↦
          let same = (eq_iff j k).0 e in
          let absent = get_of_contains_key k m (subst (λ i. contains_key i m ≡ false) same c) in
          let moved : p j v ≡ p k v = ap (λ i. p i v) same in
          let last = ih ∙ ap (entry_passes p k) absent in ground arith
      | inr e ↦ ground arith
    ]

module _ (node : String) (used : List String) (before : Instance)
    (unique : HasUniqueKeys before.device_usage) where
  abbrev pub missing : List String
  missing = slots_missing_this_node_name node used before.device_usage

  missing_lem :
      (k : String)
      → contains missing k
        ≡ entry_passes (λ k v. not (v == node) && contains used k) k (get k before.device_usage)
  unfolding slots_missing_this_node_name
  missing_lem k =
      contains-keys (λ k v. not (v == node) && contains used k) k before.device_usage unique

  unused_lem :
      (k : String)
      → contains (unused_slots node used before.device_usage) k
        ≡ entry_passes (λ k v. v == node && not (contains used k)) k (get k before.device_usage)
  unfolding unused_slots
  unused_lem k =
      contains-keys (λ k v. v == node && not (contains used k)) k before.device_usage unique

  abbrev new_value : List String → String → String → String
  new_value clean slot v =
      if contains missing slot then node else if contains clean slot then "" else v

  value-Settles :
      (clean : List String) (slot : String) (o : Option String)
      → contains missing slot ≡ entry_passes (λ k v. not (v == node) && contains used k) slot o
      → (contains clean slot ≡ true
          → entry_passes (λ k v. v == node && not (contains used k)) slot o ≡ true)
      → Settles node (contains used slot) o (map_option (new_value clean slot) o)
  value-Settles clean slot none m c = refl
  value-Settles clean slot (some n) m c =
      go (contains used slot) (contains missing slot) (contains clean slot) m c
    where
      go :
          (u x y : Bool)
          → x ≡ (not (n == node) && u)
          → (y ≡ true → (n == node && not u) ≡ true)
          → Settles node u (some n) (some (if x then node else if y then "" else n))
      go true true y m c = refl
      go true false true m c = ground (arith, c refl)
      go true false false m c = ground (arith, eq_iff n node)
      go false true y m c = ground arith
      go false false true m c = inr (ground (arith, eq_iff n node, c refl))
      go false false false m c = inl refl

  pub modified-IsReconciled :
      (clean : List String)
      → ((k : String)
          → contains clean k ≡ true
          → contains (unused_slots node used before.device_usage) k ≡ true)
      → IsReconciled node used before (modified_instance node missing clean before)
  unfolding modified_instance
  modified-IsReconciled clean within = record {
    slots = λ slot. rw (get-map_entries (new_value clean) slot before.device_usage) (
        value-Settles clean slot (get slot before.device_usage) (missing_lem slot)
          (λ e. sym (unused_lem slot) ∙ within slot e));
    nodes = refl;
    shared = refl;
    configuration_name = refl;
    metadata = refl;
    rbac = refl;
  }
