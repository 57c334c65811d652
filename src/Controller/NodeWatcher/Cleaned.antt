-- ===== src/Controller/NodeWatcher/Cleaned.antt =====
-- An Instance beside what `remove_node` makes of it.
use akri.Base.{
  String, Option, none, some, List, [], ◌∷◌, select, not, ◌==◌, if◌then◌else◌, eq_iff, ◌≡◌, ◌≢◌,
  refl, arith, Elem, ◌↔◌,
}
use akri.Base.HashMap.{get, map_option, get-map_entries}
use akri.Kube.Types.{Instance}
use akri.Controller.NodeWatcher.{remove_node}

-- The value of a slot after the removal of a node.
abbrev pub freed : String → String → String
freed v node = if v == node then "" else node

pub record IsCleanedOf (v : String) (before after : Instance) : Type 0 where
  -- A node stays in the list exactly if it is another one.
  pub nodes : (n : String) → Elem n after.nodes ↔ (Elem n before.nodes × (n ≢ v))
  -- A slot is free afterwards if the node held it, and unchanged else; no slot comes or goes.
  pub slots :
      (slot : String)
      → get slot after.device_usage ≡ map_option (freed v) (get slot before.device_usage)
  -- No slot names the node.
  pub unnamed : v ≢ "" → (slot : String) → get slot after.device_usage ≢ some v
  pub shared : after.shared ≡ before.shared
  pub configuration_name : after.configuration_name ≡ before.configuration_name
  pub metadata : after.metadata ≡ before.metadata
  pub rbac : after.rbac ≡ before.rbac

Elem-select :
    (v n : String) (xs : List String)
    → Elem n (select (λ node. not (v == node)) xs) ↔ (Elem n xs × (n ≢ v))
Elem-select v n [] = (λ e. elim e [ ], λ e. elim e.0 [ ])
Elem-select v n (x ∷ xs) = grind (arith, Elem-select v n xs, eq_iff v x)

freed-ne : (v : String) (o : Option String) → v ≢ "" → map_option (freed v) o ≢ some v
freed-ne v none h = λ e. cc
freed-ne v (some n) h = λ e. ground (arith, eq_iff v n)

-- `remove_node` takes the node out of the list of nodes and frees its slots, so that no slot names it if
-- its name is not empty, and leaves all else as it was.
pub remove_node-IsCleanedOf : (v : String) (i : Instance) → IsCleanedOf v i (remove_node v i)
unfolding remove_node
remove_node-IsCleanedOf v i = record {
  nodes = λ n. Elem-select v n i.nodes;
  slots = λ slot. get-map_entries (λ k node. freed v node) slot i.device_usage;
  unnamed = λ h slot.
      rw (get-map_entries (λ k node. freed v node) slot i.device_usage)
        (freed-ne v (get slot i.device_usage) h);
  shared = refl;
  configuration_name = refl;
  metadata = refl;
  rbac = refl;
}
