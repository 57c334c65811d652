-- ===== src/Kube/Pods.antt =====
-- shared/src/k8s/pod.rs and the ownership of shared/src/k8s/mod.rs: the names of broker Pods, and the
-- Pod that is created for an Instance on a node.
use Prim.Native.Char.{code}
use Prim.Native.String
use mathlib.Core.Logic.{ite}
use native.Mathlib.Decide.{ℕ_discrete}
use akri.Base.{
  String, Bool, true, Option, none, some, List, [], ◌∷◌, ◌++◌, map, Result, ok, if◌then◌else◌,
}
use akri.Base.HashMap.{HashMap, get, insert, remove}
use akri.Kube.Types.{
  OwnerReference, ResourceRequirements, Container, NodeSelectorTerm, Affinity, PodSpec, Pod,
}

-- `format!` of texts.
infixr 65 ◌<>◌
abbrev pub ◌<>◌ : String → String → String
s <> t = String.◌++◌ s t

abbrev pub api_version : String
api_version = "v0"

abbrev pub api_namespace : String
api_namespace = "akri.sh"

abbrev pub akri_prefix : String
akri_prefix = "akri.sh"

abbrev pub app_label_id : String
app_label_id = "app"

abbrev pub controller_label_id : String
controller_label_id = "controller"

abbrev pub akri_configuration_label_name : String
akri_configuration_label_name = "akri.sh/configuration"

abbrev pub akri_instance_label_name : String
akri_instance_label_name = "akri.sh/instance"

abbrev pub akri_target_node_label_name : String
akri_target_node_label_name = "akri.sh/target-node"

abbrev pub node_selector_op_in : String
node_selector_op_in = "In"

abbrev pub object_name_field : String
object_name_field = "metadata.name"

abbrev pub resource_requirements_key : String
resource_requirements_key = "{{PLACEHOLDER}}"

pub data OwnershipType : Type 0 where
  configuration instance pod service : OwnershipType

pub record OwnershipInfo : Type 0 where
  pub object_type : OwnershipType
  pub object_uid : String
  pub object_name : String

unfoldable pub get_api_version : OwnershipType → String
get_api_version instance = api_namespace <> "/" <> api_version
get_api_version configuration = api_namespace <> "/" <> api_version
get_api_version pod = "core/v1"
get_api_version service = "core/v1"

unfoldable pub get_kind : OwnershipType → String
get_kind instance = "Instance"
get_kind configuration = "Configuration"
get_kind pod = "Pod"
get_kind service = "Service"

-- `str::replace(".", "-")`.
unfoldable pub replace_dots : String → String
replace_dots String.[] = ""
replace_dots (String.◌∷◌ c s) =
    String.◌++◌ (ite (ℕ_discrete (code c) b'.') "-" (String.◌∷◌ c "")) (replace_dots s)

unfoldable pub create_pod_app_name : String → String → Bool → String → String
unfolding replace_dots
create_pod_app_name instance_name node_to_run_pod_on capability_is_shared app_name_suffix =
    let normalized_instance_name = replace_dots instance_name in
    if capability_is_shared
    then node_to_run_pod_on <> "-" <> normalized_instance_name <> "-" <> app_name_suffix
    else normalized_instance_name <> "-" <> app_name_suffix

-- The placeholder's quantity moves to the resource of the Instance.
unfoldable pub rename_placeholder : String → HashMap String → HashMap String
rename_placeholder resource_limit_name quantities =
    elim (get resource_requirements_key quantities) [
      | none ↦ quantities
      | some placeholder_value ↦
          remove resource_requirements_key (insert resource_limit_name placeholder_value quantities)
    ]

abbrev map_quantities : String → Option (HashMap String) → Option (HashMap String)
map_quantities name none = none
map_quantities name (some q) = some (rename_placeholder name q)

abbrev map_resources : String → Option ResourceRequirements → ResourceRequirements
map_resources name none = record { limits = none; requests = none }
map_resources name (some r) = record {
  limits = map_quantities name r.limits;
  requests = map_quantities name r.requests;
}

unfoldable pub modify_container : String → Container → Container
modify_container name c = record c { resources = some (map_resources name c.resources) }

-- `get_or_insert` on the path to the node selector's terms.
abbrev pub terms_of : Option Affinity → List NodeSelectorTerm
terms_of none = []
terms_of (some a) = elim a.node_affinity [
  | none ↦ []
  | some n ↦ elim n.required_during_scheduling_ignored_during_execution [
    | none ↦ []
    | some s ↦ s.node_selector_terms
  ]
]

abbrev pub node_term : String → NodeSelectorTerm
node_term node = record {
  match_expressions = none;
  match_fields = some (
      record { key = object_name_field; operator = node_selector_op_in; values = some (node ∷ []) }
      ∷ []);
}

unfoldable pub require_node : String → Option Affinity → Affinity
require_node node affinity = record {
  node_affinity = some (record {
    required_during_scheduling_ignored_during_execution =
        some (record { node_selector_terms = terms_of affinity ++ node_term node ∷ [] });
  });
}

unfoldable pub pod_labels : String → String → String → String → HashMap String
pod_labels app_name configuration_name instance_name node =
    insert akri_target_node_label_name node (
      insert akri_instance_label_name instance_name (
        insert akri_configuration_label_name configuration_name
          (insert controller_label_id api_namespace (insert app_label_id app_name []))))

unfoldable pub owner_reference : OwnershipInfo → OwnerReference
owner_reference o = record {
  api_version = get_api_version o.object_type;
  kind = get_kind o.object_type;
  controller = some true;
  block_owner_deletion = some true;
  name = o.object_name;
  uid = o.object_uid;
}

unfoldable pub create_new_pod_from_spec :
    String → String → String → OwnershipInfo → String → String → Bool → PodSpec → Result Pod
create_new_pod_from_spec pod_namespace instance_name configuration_name ownership
      resource_limit_name node_to_run_pod_on capability_is_shared pod_spec =
    let app_name =
      create_pod_app_name instance_name node_to_run_pod_on capability_is_shared "pod" in
    ok (record {
      spec = some (record {
        containers = map (modify_container resource_limit_name) pod_spec.containers;
        affinity = some (require_node node_to_run_pod_on pod_spec.affinity);
      });
      metadata = record {
        name = some app_name;
        namespace = some pod_namespace;
        labels = some (pod_labels app_name configuration_name instance_name node_to_run_pod_on);
        owner_references = some (owner_reference ownership ∷ []);
      };
    })
