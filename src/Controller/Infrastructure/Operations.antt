-- ===== src/Controller/Infrastructure/Operations.antt =====
-- The operations on the infrastructure cluster: read it, write the endpoint to it, or compare.
use Prim.Native.String.{◌++◌}
use cluster_api_control_plan.Prelude.{
  String, Bool, true, false, not, ◌&&◌, List, [], ◌∷◌, ◌==◌, eqb, if◌then◌else◌,
}
use cluster_api_control_plan.Prelude.Int.{ℤ, pos, negsuc}
use cluster_api_control_plan.Errors.{
  Error, message, unmanaged_control_plane_address, wrap, is_unmanaged_address, Result, ok, err,
  wrapped,
}
use cluster_api_control_plan.Api.{Opaque, ObjectReference}
use cluster_api_control_plan.Kube.{
  get_infrastructure, patch_infrastructure, Exec, Client, request, ◌>>=◌, ◌>>◌, lift,
}

-- A value that is stored in an unstructured object.
pub data Value : Type 0 where
  text : String → Value
  int : ℤ → Value
  flag : Bool → Value

-- `unstructured` of apimachinery and `patch.NewHelper` of Cluster API, over an object as JSON text.
-- The getters return the zero value where nothing is stored.
pub record Unstructured : Type 0 where
  pub nested_string : Opaque → List String → Result String
  pub nested_int64 : Opaque → List String → Result ℤ
  pub nested_bool : Opaque → List String → Result Bool
  pub set_nested_map : Opaque → List (String × Value) → List String → Result Opaque
  pub set_nested_field : Opaque → Value → List String → Result Opaque
  pub new_helper : Opaque → Result (Unit {0})

abbrev pub host_path : List String
host_path = "spec" ∷ "controlPlaneEndpoint" ∷ "host" ∷ []

abbrev pub port_path : List String
port_path = "spec" ∷ "controlPlaneEndpoint" ∷ "port" ∷ []

abbrev pub endpoint_path : List String
endpoint_path = "spec" ∷ "controlPlaneEndpoint" ∷ []

abbrev pub ready_path : List String
ready_path = "status" ∷ "ready" ∷ []

abbrev pub fixed_ip_path : List String
fixed_ip_path = "spec" ∷ "apiServerFixedIP" ∷ []

abbrev pub api_port_path : List String
api_port_path = "spec" ∷ "apiServerPort" ∷ []

abbrev pub equal_int : ℤ → ℤ → Bool
equal_int (pos m) (pos n) = eqb m n
equal_int (negsuc m) (negsuc n) = eqb m n
equal_int _ _ = false

-- The client, the object functions, and the set of kinds that may be patched dynamically.
pub record Patcher : Type 0 where
  pub client : Client
  pub objects : Unstructured
  pub is_dynamic : String → Bool

module _ (p : Patcher) (ref : ObjectReference) where
  -- `r.client.Get` of the referenced infrastructure cluster
  unfoldable pub get_infrastructure_cluster : Exec Opaque
  get_infrastructure_cluster trace =
      request (get_infrastructure ref)
        (wrapped ("cannot retrieve the " ++ (ref.kind ++ " resource"))
          (p.client.stored_infrastructure trace ref))
        trace

  -- `patchHelper.Patch`
  unfoldable pub send_patch : String → Opaque → Opaque → Exec (Unit {0})
  send_patch failure before after trace =
      request (patch_infrastructure before after)
        (wrapped failure (p.client.patched_infrastructure trace before after)) trace

  module _ (endpoint : String) (port : ℤ) where
    -- `if patchStatus { … }`, on the object with its endpoint set
    abbrev pub with_status : Bool → Result Opaque → Result Opaque
    with_status _ (err e) = err e
    with_status false (ok o) = ok o
    with_status true (ok o) =
        wrapped ("unable to set unstructured " ++ (ref.kind ++ " status patch"))
          (p.objects.set_nested_field o (flag true) ready_path)

    -- The object that `patchGenericCluster` sends.
    unfoldable pub generic_object : Bool → Opaque → Result Opaque
    generic_object patch_status infra = with_status patch_status (
        wrapped ("unable to set unstructured " ++ (ref.kind ++ " spec patch")) (
          p.objects.set_nested_map infra (("host", text endpoint) ∷ ("port", int port) ∷ [])
            endpoint_path))

    unfoldable pub patch_generic_cluster : Bool → Exec (Unit {0})
    unfolding get_infrastructure_cluster send_patch
    patch_generic_cluster patch_status = do
      infra ← get_infrastructure_cluster
      lift (wrapped "unable to create patch helper" (p.objects.new_helper infra))
      patched ← lift (generic_object patch_status infra)
      send_patch ("cannot perform PATCH update for the " ++ (ref.kind ++ " resource")) infra patched

    abbrev mismatching : String → Error
    mismatching what =
        message
          ("the " ++ (ref.kind ++ (" cluster has been provisioned with a mismatching " ++ what)))

    -- The tests of `checkGenericCluster`, once host and port are extracted.
    abbrev compare_host_port : String → ℤ → Result (Unit {0})
    compare_host_port cp_host cp_port =
        if cp_host == "" && equal_int cp_port (pos 0)
        then err (unmanaged_control_plane_address ref.kind)
        else if not (cp_host == endpoint)
        then err (mismatching "host")
        else if not (equal_int cp_port port)
        then err (mismatching "port")
        else ok tt

    unfoldable pub compare_endpoint : Opaque → Result (Unit {0})
    compare_endpoint gkc = elim (p.objects.nested_string gkc host_path) [
      | err e ↦ err (wrap "cannot extract control plane endpoint host" e)
      | ok cp_host ↦
          if cp_host == ""
          then err (unmanaged_control_plane_address ref.kind)
          else elim (p.objects.nested_int64 gkc port_path) [
            | err e ↦ err (wrap "cannot extract control plane endpoint host" e)
            | ok cp_port ↦ compare_host_port cp_host cp_port
          ]
    ]

    unfoldable pub check_generic_cluster : Exec (Unit {0})
    unfolding get_infrastructure_cluster
    check_generic_cluster = do gkc ← get_infrastructure_cluster; lift (compare_endpoint gkc)

    -- What `checkOrPatchGenericCluster` does with the outcome of the check.
    abbrev on_unmanaged : Result (Unit {0}) → Exec (Unit {0})
    on_unmanaged (ok _) trace = (ok tt, trace)
    on_unmanaged (err e) trace =
        if is_unmanaged_address e then patch_generic_cluster false trace else (err e, trace)

    unfoldable pub check_or_patch_generic_cluster : Exec (Unit {0})
    check_or_patch_generic_cluster trace =
        on_unmanaged (check_generic_cluster trace).0 (check_generic_cluster trace).1

    unfoldable pub open_stack_object : Opaque → Result Opaque
    open_stack_object osc = elim (p.objects.set_nested_field osc (text endpoint) fixed_ip_path) [
      | err e ↦
          err (wrap ("unable to set unstructured " ++ (ref.kind ++ " spec apiServerFixedIP")) e)
      | ok o ↦
          wrapped ("unable to set unstructured " ++ (ref.kind ++ " spec apiServerPort"))
            (p.objects.set_nested_field o (int port) api_port_path)
    ]

    unfoldable pub patch_open_stack_cluster : Exec (Unit {0})
    unfolding get_infrastructure_cluster send_patch
    patch_open_stack_cluster = do
      osc ← get_infrastructure_cluster
      lift (wrapped "unable to create patch helper" (p.objects.new_helper osc))
      patched ← lift (open_stack_object osc)
      send_patch "cannot perform PATCH update for the OpenStackCluster resource" osc patched
