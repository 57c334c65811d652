-- ===== src/Agent/SlotReconciliation/Containers.antt =====
-- agent/src/util/crictl_containers.rs: the slots that the containers on the node use, by their
-- annotations. `parse_output` stands for `serde_json` on the output of crictl: the annotations of each
-- container, or nothing if the text is not such an output.
use akri.Base.{
  String, true, Option, none, some, List, [], ◌∷◌, ◌++◌, ok, ◌==◌, eq_iff, ◌≡◌, refl, sym, ◌∙◌, ap,
  arith, Elem, ◌↔◌, inl, inr, Bool-cases,
}
use akri.Base.HashMap.{HashMap, get}
use akri.Kube.Api.{Trace, KubeInterface}
use akri.Agent.DevicePlugin.{DevicePluginService}
use akri.Agent.DevicePlugin.Allocation.{akri_slot_annotation_name, allocate_slots}
use akri.Agent.DevicePlugin.Responses.{allocate_slots_last}
use akri.Agent.SlotReconciliation.{contains}

abbrev with_slot : Option String → List String → List String
with_slot none slots = slots
with_slot (some slot) slots = slot ∷ slots

unfoldable pub slots_of : List (HashMap String) → List String
slots_of [] = []
slots_of (annotations ∷ containers) =
    with_slot (get akri_slot_annotation_name annotations) (slots_of containers)

abbrev slots_of_output : Option (List (HashMap String)) → List String
slots_of_output none = []
slots_of_output (some containers) = slots_of containers

module _ (parse_output : String → Option (List (HashMap String))) where
  unfoldable pub get_container_slot_usage : String → List String
  get_container_slot_usage crictl_output = slots_of_output (parse_output crictl_output)

-- A container of the list has the slot in its annotation.
abbrev pub IsAnnotated : String → List (HashMap String) → Type 0
IsAnnotated slot containers =
    (annotations : HashMap String) × Elem annotations containers
    × (get akri_slot_annotation_name annotations ≡ some slot)

slots_iff :
    (slot : String) (containers : List (HashMap String))
    → (contains (slots_of containers) slot ≡ true) ↔ IsAnnotated slot containers
unfolding slots_of
slots_iff slot [] = (λ h. cc, λ (a, e, g). elim e [ ])
slots_iff slot (a ∷ containers) =
    let ih = slots_iff slot containers in (there ih (get akri_slot_annotation_name a) refl, back ih)
  where
    there :
        ((contains (slots_of containers) slot ≡ true) ↔ IsAnnotated slot containers)
        → (o : Option String) → get akri_slot_annotation_name a ≡ o
        → contains (with_slot o (slots_of containers)) slot ≡ true
        → IsAnnotated slot (a ∷ containers)
    there ih none e h = let (b, m, g) = ih.0 h in (b, inr m, g)
    there ih (some k) e h = elim (Bool-cases (k == slot)) [
      | inl q ↦ (a, inl refl, e ∙ ap some ((eq_iff k slot).0 q))
      | inr q ↦ let (b, m, g) = ih.0 (ground arith) in (b, inr m, g)
    ]

    later :
        (o : Option String)
        → contains (slots_of containers) slot ≡ true
        → contains (with_slot o (slots_of containers)) slot ≡ true
    later none h = h
    later (some k) h = ground arith

    back :
        ((contains (slots_of containers) slot ≡ true) ↔ IsAnnotated slot containers)
        → IsAnnotated slot (a ∷ containers)
        → contains (with_slot (get akri_slot_annotation_name a) (slots_of containers)) slot ≡ true
    back ih (b, inl same, g) =
        let e : get akri_slot_annotation_name a ≡ some slot =
          ap (get akri_slot_annotation_name) (sym same) ∙ g in
        rw e (let t = (eq_iff slot slot).1 refl in ground arith)
    back ih (b, inr m, g) = later (get akri_slot_annotation_name a) (ih.1 (b, m, g))

-- For an output that can be read, a slot is in use exactly if the annotation of a container names it.
pub get_container_slot_usage_iff :
    (parse_output : String → Option (List (HashMap String))) (output : String)
    (containers : List (HashMap String)) (slot : String)
    → parse_output output ≡ some containers
    → (contains (get_container_slot_usage parse_output output) slot ≡ true)
      ↔ IsAnnotated slot containers
unfolding get_container_slot_usage
get_container_slot_usage_iff parse_output output containers slot e =
    rw e (slots_iff slot containers)

-- If the one container that is reported has the annotations of an allocation that was granted, only the
-- last slot of the allocation counts as in use.
pub get_container_slot_usage-allocate_slots :
    (parse_output : String → Option (List (HashMap String))) (output : String)
    (kube : KubeInterface) (dps : DevicePluginService) (ids : List String) (id : String) (t : Trace)
    (a : HashMap String)
    → (allocate_slots kube dps (ids ++ id ∷ []) [] t).0 ≡ ok a
    → parse_output output ≡ some (a ∷ [])
    → get_container_slot_usage parse_output output ≡ id ∷ []
unfolding get_container_slot_usage slots_of get
get_container_slot_usage-allocate_slots parse_output output kube dps ids id t a h e =
    rw e (rw ((allocate_slots_last kube dps ids id t a h).1) refl)
