-- ===== src/Conditions/Types.antt =====
-- api/v1alpha1/stewardcontrolplane_conditions.go: the types of the tracked conditions.
use cluster_api_control_plan.Prelude.{String, List, [], ◌∷◌}

abbrev pub found_external_cluster_reference : String
found_external_cluster_reference = "FoundExternalReferenceClient"

abbrev pub tenant_control_plane_created : String
tenant_control_plane_created = "TenantControlPlaneCreated"

abbrev pub tenant_control_plane_address_ready : String
tenant_control_plane_address_ready = "TenantControlPlaneAddressReady"

abbrev pub control_plane_endpoint_patched : String
control_plane_endpoint_patched = "ControlPlaneEndpointPatched"

abbrev pub infrastructure_cluster_patched : String
infrastructure_cluster_patched = "InfrastructureClusterPatched"

abbrev pub steward_control_plane_initialized : String
steward_control_plane_initialized = "StewardControlPlaneIsInitialized"

abbrev pub steward_control_plane_ready : String
steward_control_plane_ready = "StewardControlPlaneIsReady"

abbrev pub kubeadm_resources_created_ready : String
kubeadm_resources_created_ready = "KubeadmResourcesCreated"

abbrev pub condition_types : List String
condition_types =
    found_external_cluster_reference ∷ tenant_control_plane_created
    ∷ tenant_control_plane_address_ready ∷ control_plane_endpoint_patched
    ∷ infrastructure_cluster_patched ∷ steward_control_plane_initialized
    ∷ steward_control_plane_ready ∷ kubeadm_resources_created_ready ∷ []
