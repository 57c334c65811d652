-- ===== src/Agent/DevicePlugin/Slots.antt =====
-- The value of a slot, and what an update of one slot is.
use akri.Base.{
  String, Option, none, some, [], ◌∷◌, Result, ok, err, ◌==◌, eq_iff, ◌≡◌, ◌≢◌, refl, arith, Elem,
  inl, inr, ◌⊎◌, Bool-cases,
}
use akri.Base.HashMap.{get, get-insert}
use akri.Kube.Types.{Instance}
use akri.Kube.Api.{Trace, Done, updated_instance, found_instance}
use akri.Agent.DevicePlugin.Allocation.{slot_value_of, get_slot_value, write_slot, settle_update}

-- The four cases of the comment on `get_slot_value`: a free slot is claimed, a slot of this node is
-- given back, a slot of another node and a missing slot are errors.
pub data SlotValue (node : String) : Option String → Result String → Type 0 where
  free : SlotValue node (some "") (ok node)
  own : node ≢ "" → SlotValue node (some node) (ok "")
  other :
      (n : String)
      → n ≢ ""
      → n ≢ node
      → SlotValue node (some n) (err "Requested device already in use")
  missing : SlotValue node none (err "Could not find device usage slot")

value-SlotValue : (node : String) (o : Option String) → SlotValue node o (slot_value_of node o)
value-SlotValue node none = missing
value-SlotValue node (some n) = elim (Bool-cases (n == "")) [
  | inl e ↦ rw e (rw ((eq_iff n "").0 e) free)
  | inr e ↦ elim (Bool-cases (n == node)) [
    | inl f ↦
        rw (e, f) (rw ((eq_iff n node).0 f) (own (ground (arith, eq_iff n "", eq_iff n node))))
    | inr f ↦ rw (e, f) (other n (ground (arith, eq_iff n "")) (ground (arith, eq_iff n node)))
  ]
]

-- `get_slot_value` answers as its comment says, in each of the four cases.
pub get_slot_value-SlotValue :
    (id node : String) (inst : Instance)
    → SlotValue node (get id inst.device_usage) (get_slot_value id node inst)
unfolding get_slot_value
get_slot_value-SlotValue id node inst = value-SlotValue node (get id inst.device_usage)

-- One slot, which was free or held by the node, is claimed by the node or given back.
pub record IsOwnChange (id node : String) (before after : Instance) : Type 0 where
  pub slot :
      ((get id before.device_usage ≡ some "") × (get id after.device_usage ≡ some node))
      ⊎ ((get id before.device_usage ≡ some node) × (get id after.device_usage ≡ some ""))
  pub others : (k : String) → k ≢ id → get k after.device_usage ≡ get k before.device_usage
  pub nodes : after.nodes ≡ before.nodes
  pub shared : after.shared ≡ before.shared
  pub configuration_name : after.configuration_name ≡ before.configuration_name
  pub metadata : after.metadata ≡ before.metadata

pub value_cases :
    (node value : String) (o : Option String)
    → slot_value_of node o ≡ ok value
    → ((o ≡ some "") × (value ≡ node)) ⊎ ((o ≡ some node) × (value ≡ ""))
value_cases node value none h = cc
value_cases node value (some n) h = ground (arith, eq_iff n "", eq_iff n node)

pub write-IsOwnChange :
    (id node : String) (inst : Instance) (value : String)
    → get_slot_value id node inst ≡ ok value
    → IsOwnChange id node inst (write_slot id value inst)
unfolding get_slot_value
write-IsOwnChange id node inst value h = record {
  slot = ground (
    arith,
    value_cases node value (get id inst.device_usage) h,
    get-insert id id value inst.device_usage,
    eq_iff id id,
  );
  others = λ k ne. ground (arith, get-insert id k value inst.device_usage, eq_iff id k);
  nodes = refl;
  shared = refl;
  configuration_name = refl;
  metadata = refl;
}

-- An update of an Instance stands directly on a look at it, and changes what was seen by one claim
-- or one return of the node.
abbrev pub StandsOn : String → Instance → String → String → Trace → Type 0
StandsOn node after name ns [] = ⊥
StandsOn node after name ns (found_instance name' ns' (ok i) ∷ t) =
    (name' ≡ name) × (ns' ≡ ns) × (id : String) × IsOwnChange id node i.spec after
StandsOn node after name ns (_ ∷ t) = ⊥

abbrev pub IsGuarded : String → Trace → Type 0
IsGuarded node [] = Unit
IsGuarded node (updated_instance after name ns r ∷ t) =
    StandsOn node after name ns t × IsGuarded node t
IsGuarded node (_ ∷ t) = IsGuarded node t

-- The slot was found free, and the update that claims it for the node was accepted.
abbrev pub WasClaimed : String → String → String → String → Trace → Type 0
WasClaimed id node name ns t =
    (before after : Instance) × Elem (updated_instance after name ns (ok tt)) t
    × (get id before.device_usage ≡ some "")
    × (get id after.device_usage ≡ some node)

pub settle-trace :
    (node value : String) (r : Done) (t : Trace) → (settle_update node value r t).1 ≡ t
settle-trace node value (ok u) t = elim (Bool-cases (value == node)) [ inl e ↦ rw e | inr e ↦ rw e ]
settle-trace node value (err e) t = refl

pub settle-claim :
    (node value : String) (r : Done) (t : Trace)
    → (settle_update node value r t).0 ≡ ok (ok tt)
    → (value ≡ node) × (r ≡ ok tt)
settle-claim node value (ok u) t h = ground (arith, eq_iff value node)
settle-claim node value (err e) t h = cc
