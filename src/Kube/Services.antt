-- ===== src/Kube/Services.antt =====
-- shared/src/k8s/service.rs: the names and contents of the services of Instances and Configurations.
use akri.Base.{
  String, Bool, Option, none, some, List, [], ◌∷◌, ◌++◌, any, Result, ok, ◌==◌, if◌then◌else◌,
}
use akri.Base.HashMap.{HashMap, insert}
use akri.Kube.Types.{OwnerReference, ServiceSpec, Service, ServiceObject}
use akri.Kube.Pods.{
  ◌<>◌, api_namespace, app_label_id, controller_label_id, akri_configuration_label_name,
  akri_instance_label_name, OwnershipInfo, owner_reference, replace_dots,
}

unfoldable pub create_service_app_name : String → String → String → Bool → String
unfolding replace_dots
create_service_app_name configuration_name instance_name svc_suffix node_specific_svc =
    if node_specific_svc
    then replace_dots instance_name <> "-" <> svc_suffix
    else configuration_name <> "-" <> svc_suffix

-- The label of a service, which is its selector too.
abbrev pub insert_service_label : String → String → Bool → HashMap String → HashMap String
insert_service_label instance_name configuration_name node_specific_svc m =
    if node_specific_svc
    then insert akri_instance_label_name instance_name m
    else insert akri_configuration_label_name configuration_name m

abbrev or_empty : Option (HashMap String) → HashMap String
or_empty none = []
or_empty (some m) = m

unfoldable pub service_selector : String → String → Bool → ServiceSpec → HashMap String
service_selector instance_name configuration_name node_specific_svc svc_spec =
    insert_service_label instance_name configuration_name node_specific_svc
      (insert controller_label_id api_namespace (or_empty svc_spec.selector))

unfoldable pub create_new_service_from_spec :
    String → String → String → OwnershipInfo → ServiceSpec → Bool → Result Service
create_new_service_from_spec svc_namespace instance_name configuration_name ownership svc_spec
      node_specific_svc =
    let app_name =
      create_service_app_name configuration_name instance_name "svc" node_specific_svc in
    ok (record {
      spec = some (record svc_spec {
        selector =
            some (service_selector instance_name configuration_name node_specific_svc svc_spec);
      });
      metadata = record {
        name = some app_name;
        namespace = some svc_namespace;
        labels = some (
            insert_service_label instance_name configuration_name node_specific_svc
              (insert controller_label_id api_namespace (insert app_label_id app_name [])));
        owner_references = some (owner_reference ownership ∷ []);
      };
    })

abbrev with_references : List OwnerReference → ServiceObject → ServiceObject
with_references references svc = record svc {
  metadata = record (svc.metadata) { owner_references = references };
}

-- A reference is added only if none has its uid.
unfoldable pub update_ownership : ServiceObject → OwnershipInfo → Bool → ServiceObject
update_ownership svc_to_update ownership replace_references =
    if replace_references
    then with_references (owner_reference ownership ∷ []) svc_to_update
    else if any (λ r. r.uid == ownership.object_uid) svc_to_update.metadata.owner_references
    then svc_to_update
    else with_references (svc_to_update.metadata.owner_references ++ owner_reference ownership ∷ [])
        svc_to_update
