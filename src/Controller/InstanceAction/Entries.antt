-- ===== src/Controller/InstanceAction/Entries.antt =====
-- What an entry of the plan says of the Pod that is to serve its node.
use mathlib.Core.Path.{subst}
use akri.Base.{
  String, Bool, true, false, Option, none, some, List, [], ◌∷◌, Result, ok, err, ◌≡◌, ◌≢◌, refl,
  sym, ◌∙◌, ap, arith, any, if◌then◌else◌, ◌==◌, ◌||◌, eq_iff, inl, inr, Bool-cases, Option-cases,
}
use akri.Base.HashMap.{
  HashMap, get, insert, contains_key, get-insert, contains_key-insert, HasUniqueKeys,
  insert-HasUniqueKeys,
}
use akri.Kube.Types.{ℤ, Time, PodObject}
use akri.Controller.PodAction.{InstanceAction, PodAction, select_pod_action}
use akri.Controller.InstanceAction.{PodContext, removes, adds, default_action, collect_nodes}
use akri.Controller.InstanceAction.Plan.{
  Observation, Reading, observe, holder, choice, HasDistinctNodes, plan_from, get-plan_from,
  entry_of, settle, determine-HasUniqueKeys,
}

abbrev pub default_context : PodAction → PodContext
default_context a = record { node_name = none; namespace = none; action = a }

abbrev pub is_listed : String → List String → Bool
is_listed n nodes = any (λ k. k == n) nodes

pub get-collect_nodes :
    (a : PodAction) (n : String) (nodes : List String) (m : HashMap PodContext)
    → get n (collect_nodes a nodes m)
      ≡ (if is_listed n nodes then some (default_context a) else get n m)
unfolding collect_nodes
get-collect_nodes a n [] m = refl
get-collect_nodes a n (k ∷ nodes) m = ground (
  arith,
  get-collect_nodes a n nodes (insert k (default_context a) m),
  get-insert k n (default_context a) m,
)

contains_key-collect_nodes :
    (a : PodAction) (n : String) (nodes : List String) (m : HashMap PodContext)
    → contains_key n (collect_nodes a nodes m) ≡ (is_listed n nodes || contains_key n m)
unfolding collect_nodes
contains_key-collect_nodes a n [] m = refl
contains_key-collect_nodes a n (k ∷ nodes) m = ground (
  arith,
  contains_key-collect_nodes a n nodes (insert k (default_context a) m),
  contains_key-insert k n (default_context a) m,
)

collect_nodes-HasUniqueKeys :
    (a : PodAction) (nodes : List String) (m : HashMap PodContext)
    → HasUniqueKeys m
    → HasUniqueKeys (collect_nodes a nodes m)
unfolding collect_nodes
collect_nodes-HasUniqueKeys a [] m h = h
collect_nodes-HasUniqueKeys a (k ∷ nodes) m h =
    collect_nodes-HasUniqueKeys a nodes _ (insert-HasUniqueKeys k (default_context a) m h)

pub holder_is_on :
    (n : String) (rs : List Reading) (pod : PodObject) (now : Time)
    → holder n rs ≡ some (pod, now)
    → (o : Observation) × (observe pod ≡ some o) × (o.node ≡ n)
holder_is_on n [] pod now h = cc
holder_is_on n ((p, w) ∷ rs) pod now h = elim (Option-cases (observe p)) [
  | inl e ↦ holder_is_on n rs pod now (rw e at h)
  | inr (o, e) ↦ elim (Bool-cases (o.node == n)) [
    | inl q ↦ (o, ground arith, (eq_iff o.node n).0 q)
    | inr q ↦ holder_is_on n rs pod now (ground arith)
  ]
]

-- A choice for a Pod on a node that is not listed removes the Pod.
choice_unlisted :
    (cam : Time → ℤ → Option Time) (action : InstanceAction) (pod : PodObject) (o : Observation)
    (now : Time)
    → choice cam action pod o false now ≡ ok PodAction.remove
unfolding choice select_pod_action
choice_unlisted cam action pod o now = refl

-- On the removal of the Instance every choice removes the Pod.
pub choice-remove :
    (cam : Time → ℤ → Option Time) (pod : PodObject) (o : Observation) (known : Bool) (now : Time)
    → choice cam InstanceAction.remove pod o known now ≡ ok PodAction.remove
unfolding choice select_pod_action
choice-remove cam pod o known now = ground arith

-- No choice is to add.
choice-ne-add :
    (cam : Time → ℤ → Option Time) (action : InstanceAction) (pod : PodObject) (o : Observation)
    (known : Bool) (now : Time) (a : PodAction)
    → choice cam action pod o known now ≡ ok a
    → a ≢ PodAction.add
unfolding choice select_pod_action
choice-ne-add cam action pod o known now a e = ground arith

adds_cases : (a : PodAction) → adds a ≡ true → a ≢ PodAction.add → a ≡ PodAction.remove_and_add
adds_cases a h n = ground arith

module _ (checked_add_minutes : Time → ℤ → Option Time) (action : InstanceAction) where
  plan-HasUniqueKeys :
      (rs : List Reading) (m : HashMap PodContext)
      → HasUniqueKeys m
      → HasUniqueKeys (plan_from checked_add_minutes action rs m)
  unfolding plan_from
  plan-HasUniqueKeys [] m h = h
  plan-HasUniqueKeys ((pod, now) ∷ rs) m h =
      plan-HasUniqueKeys rs _ (determine-HasUniqueKeys checked_add_minutes action now pod m h)

  module _ (nodes : List String) (rs : List Reading) where
    abbrev pub plan : HashMap PodContext
    plan = plan_from checked_add_minutes action rs (collect_nodes (default_action action) nodes [])

    abbrev pub initial : String → Option PodContext
    initial n = if is_listed n nodes then some (default_context (default_action action)) else none

    -- The entry of a node: its Pod's, or the one that it had.
    pub get-plan :
        (n : String)
        → HasDistinctNodes rs
        → get n plan
          ≡ entry_of checked_add_minutes action n (is_listed n nodes) (initial n) (holder n rs)
    unfolding get contains_key
    get-plan n distinct =
        let a = default_action action in
        let m = collect_nodes a nodes [] in
        let c : contains_key n m ≡ is_listed n nodes =
          ground (arith, contains_key-collect_nodes a n nodes []) in
        let g : get n m ≡ initial n = ground (arith, get-collect_nodes a n nodes []) in
        get-plan_from checked_add_minutes action n rs m distinct
        ∙ ap (λ k. entry_of checked_add_minutes action n k (get n m) (holder n rs)) c
        ∙ ap (λ b. entry_of checked_add_minutes action n (is_listed n nodes) b (holder n rs)) g

    -- The Pod that is to serve a node, and the choice for it.
    pub data Served (n : String) (r : Result PodAction) : Type 0 where
      served :
          (pod : PodObject) (now : Time) (o : Observation)
          → holder n rs ≡ some (pod, now)
          → observe pod ≡ some o
          → o.node ≡ n
          → choice checked_add_minutes action pod o (is_listed n nodes) now ≡ r
          → Served n r

    -- An entry that removes is the choice for a Pod on the node.
    pub removes-Served :
        (n : String) (ctx : PodContext)
        → HasDistinctNodes rs
        → get n plan ≡ some ctx
        → removes ctx.action ≡ true
        → Served n (ok ctx.action) × (ctx.node_name ≡ some n)
    removes-Served n ctx distinct g r = go (holder n rs) refl (sym (get-plan n distinct) ∙ g)
      where
        by_choice :
            (pod : PodObject) (now : Time) (o : Observation) (c : Result PodAction)
            → settle checked_add_minutes action pod n c (initial n) ≡ some ctx
            → (c ≡ ok ctx.action) × (ctx.node_name ≡ some n)
        by_choice pod now o (ok a) e = ground arith
        by_choice pod now o (err x) e = ground arith

        go :
            (h : Option Reading)
            → holder n rs ≡ h
            → entry_of checked_add_minutes action n (is_listed n nodes) (initial n) h ≡ some ctx
            → Served n (ok ctx.action) × (ctx.node_name ≡ some n)
        go none e f = ground arith
        go (some (pod, now)) e f =
            let (o, seen, on) = holder_is_on n rs pod now e in
            let (c, name) = by_choice pod now o _ (rw seen at f) in
            (served pod now o e seen on c, name)

    pub plan_unique : HasUniqueKeys plan
    plan_unique =
        plan-HasUniqueKeys rs _ (collect_nodes-HasUniqueKeys (default_action action) nodes [] tt)

    -- Why a Pod is to be created on a node: none serves it, or the choice for the one that does failed,
    -- or that one is to be replaced.
    pub data Wanted (n : String) : Type 0 where
      unserved : holder n rs ≡ none → action ≢ InstanceAction.remove → Wanted n
      undecided : (e : String) → Served n (err e) → action ≢ InstanceAction.remove → Wanted n
      replaced : Served n (ok PodAction.remove_and_add) → Wanted n

    adds-default :
        (n : String) (ctx : PodContext)
        → initial n ≡ some ctx
        → adds ctx.action ≡ true
        → (is_listed n nodes ≡ true) × (action ≢ InstanceAction.remove)
    adds-default n ctx e a = (ground arith, λ r. ground arith)

    adds-chosen :
        (n : String) (pod : PodObject) (now : Time) (o : Observation) (a : PodAction)
        → choice checked_add_minutes action pod o (is_listed n nodes) now ≡ ok a
        → adds a ≡ true
        → (is_listed n nodes ≡ true) × (a ≡ PodAction.remove_and_add)
    adds-chosen n pod now o a e h = elim (Bool-cases (is_listed n nodes)) [
      | inl l ↦ (l, adds_cases a h (choice-ne-add checked_add_minutes action pod o _ now a e))
      | inr l ↦
          let q : ok a ≡ ok PodAction.remove =
            sym (rw l at e) ∙ choice_unlisted checked_add_minutes action pod o now in
          ground arith
    ]

    -- An entry that adds stands for a node which the Instance lists, and has one of the reasons.
    pub adds-Wanted :
        (n : String) (ctx : PodContext)
        → HasDistinctNodes rs
        → get n plan ≡ some ctx
        → adds ctx.action ≡ true
        → (is_listed n nodes ≡ true) × Wanted n
    adds-Wanted n ctx distinct g r = go (holder n rs) refl (sym (get-plan n distinct) ∙ g)
      where
        by_choice :
            (pod : PodObject) (now : Time) (o : Observation) (c : Result PodAction)
            → choice checked_add_minutes action pod o (is_listed n nodes) now ≡ c
            → (Served n c)
            → settle checked_add_minutes action pod n c (initial n) ≡ some ctx
            → (is_listed n nodes ≡ true) × Wanted n
        by_choice pod now o (ok a) k s e =
            let (l, q) = adds-chosen n pod now o a k (ground arith) in
            (l, replaced (subst (λ x. Served n (ok x)) q s))
        by_choice pod now o (err x) k s e =
            let (l, q) = adds-default n ctx e r in (l, undecided x s q)

        go :
            (h : Option Reading)
            → holder n rs ≡ h
            → entry_of checked_add_minutes action n (is_listed n nodes) (initial n) h ≡ some ctx
            → (is_listed n nodes ≡ true) × Wanted n
        go none e f = let (l, q) = adds-default n ctx f r in (l, unserved e q)
        go (some (pod, now)) e f =
            let (o, seen, on) = holder_is_on n rs pod now e in
            by_choice pod now o _ refl (served pod now o e seen on refl) (rw seen at f)
