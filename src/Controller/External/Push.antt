-- ===== src/Controller/External/Push.antt =====
-- `PushStewardChange`: a change of a remote TenantControlPlane is sent to the StewardControlPlanes that
-- have the UID in its name.
use cluster_api_control_plan.Prelude.{
  String, Option, none, some, List, [], ◌∷◌, ◌≡◌, ◌≢◌, arith, ◌==◌, eq_iff, if◌then◌else◌,
}
use cluster_api_control_plan.Errors.{Error, is_not_found, Result, ok, err}
use cluster_api_control_plan.Api.{
  Key, key_of, StewardControlPlane, ExternalClusterReference, TenantControlPlane,
}
use cluster_api_control_plan.Ecr.Names.{
  parse_steward_control_plane_uid_from_tenant_control_plane,
  generate_remote_tenant_control_plane_names, parse-generate_remote_names,
}

-- The events in the order in which they are sent.
abbrev pub events_of : List StewardControlPlane → List Key
events_of [] = []
events_of (scp ∷ rest) = key_of scp.meta ∷ events_of rest

-- The error, and the events sent to the channel.
module _ (stored_tenant : Key → Result TenantControlPlane)
    (with_uid : String → Result (List StewardControlPlane)) where
  unfoldable pub push_listed : Result (List StewardControlPlane) → Option Error × List Key
  push_listed (err e) = (some e, [])
  push_listed (ok items) = (none, events_of items)

  unfoldable pub push_steward_change : Key → Option Error × List Key
  push_steward_change request = elim (stored_tenant request) [
    | err e ↦ (if is_not_found e then none else some e, [])
    | ok tcp ↦
        let value = parse_steward_control_plane_uid_from_tenant_control_plane tcp.meta.name in
        if value == "" then (none, []) else push_listed (with_uid value)
  ]

  -- A change of a TenantControlPlane that has the remote name of a StewardControlPlane, whose UID
  -- is not empty, is sent to exactly the StewardControlPlanes that the index has under that UID.
  pub push_reaches :
      (request : Key) (tcp : TenantControlPlane) (kcp : StewardControlPlane)
      (ecr : ExternalClusterReference) (items : List StewardControlPlane)
      → stored_tenant request ≡ ok tcp
      → tcp.meta.name ≡ (generate_remote_tenant_control_plane_names kcp ecr).name
      → kcp.meta.uid ≢ ""
      → with_uid kcp.meta.uid ≡ ok items
      → push_steward_change request ≡ (none, events_of items)
  unfolding push_steward_change push_listed
  push_reaches request tcp kcp ecr items stored named has_uid listed =
      let same : parse_steward_control_plane_uid_from_tenant_control_plane tcp.meta.name
          ≡ kcp.meta.uid =
        rw named (parse-generate_remote_names kcp ecr) in
      ground (arith, same, eq_iff kcp.meta.uid "")
