-- ===== src/Controller/Reconcile/Completion.antt =====
-- What a reconciliation that runs to its end has established.
use cluster_api_control_plan.Prelude.{
  String, Bool, true, false, not, Option, none, some, ◌≡◌, ◌≢◌, refl, ap, ◌∙◌, sym, arith, ◌==◌,
  eq_iff, inl, inr, Bool-cases,
}
use cluster_api_control_plan.Errors.{Error, Result, ok, err, Result-cases}
use cluster_api_control_plan.Api.{
  key_of, Cluster, StewardControlPlane, VersionStatus, TenantControlPlane,
}
use cluster_api_control_plan.Kube.{Trace}
use cluster_api_control_plan.Conditions.Types.{
  tenant_control_plane_address_ready, steward_control_plane_ready, kubeadm_resources_created_ready,
}
use cluster_api_control_plan.Controller.Tenant.{RemoteClient, server_of}
use cluster_api_control_plan.Controller.Secrets.{create_required_resources}
use cluster_api_control_plan.Controller.Reconcile.Flow.{
  Ending, requeued, State, go_on, GoesOn, GoesOn-bind, GoesOn-then,
}
use cluster_api_control_plan.Controller.Reconcile.Steps.{
  Environment, Action, flow_of, enqueue_or_fail, stop_if, tracked, refetch_cluster, require_address,
  report_ready, update_status, is_ready,
}
use cluster_api_control_plan.Controller.Reconcile.Stages.{
  with_remote_client, tenant_stage, endpoint_stage, require_version, ready_stage, status_stage,
  completion_stage, stages,
}

pub flow_of_ok :
    {A : Type 0} (ending : Error → Ending) (r : Result A) (a : A)
    → flow_of ending r ≡ go_on a
    → r ≡ ok a
flow_of_ok ending (ok x) a h = cc
flow_of_ok ending (err e) a h = absurd (cc)

stop_if-false :
    (b : Bool) (e : Ending) (s s' : State) (u : Unit {0}) → GoesOn (stop_if b e) s u s' → b ≡ false
stop_if-false true e s s' u h = absurd (cc)
stop_if-false false e s s' u h = refl

require_version-some :
    (o : Option VersionStatus) (s s' : State) (v : VersionStatus)
    → GoesOn (require_version o) s v s'
    → o ≡ some v
unfolding require_version
require_version-some none s s' v h = absurd (cc)
require_version-some (some x) s s' v h = cc

same_pair : {A B : Type 0} (r : A × B) (a : A) (b : B) → r.0 ≡ a → r.1 ≡ b → r ≡ (a, b)
same_pair r a b h k = cc (h, k)

module _ (env : Environment) where
  pub tracked_ok :
      {A : Type 0} (type : String) (action : Action A) (ending : Error → Ending) (s s' : State)
      (a : A)
      → GoesOn (tracked env type action ending) s a s'
      → ((action s.scp s.trace).0 ≡ ok a) × ((action s.scp s.trace).1 ≡ s'.scp)
  unfolding tracked
  tracked_ok type action ending s s' a h =
      (flow_of_ok ending (action s.scp s.trace).0 a (ap (λ r. r.0) h), ap (λ r. r.1.scp) h)

  tracked_trace :
      {A : Type 0} (type : String) (action : Action A) (ending : Error → Ending) (s s' : State)
      (a : A)
      → GoesOn (tracked env type action ending) s a s'
      → (action s.scp s.trace).2 ≡ s'.trace
  unfolding tracked
  tracked_trace type action ending s s' a h = ap (λ r. r.1.trace) h

  -- The last callback succeeds only when the readiness that was written reads as true.
  report_ready_ok :
      (version : VersionStatus) (scp : StewardControlPlane) (t : Trace)
      → (report_ready env version scp t).0 ≡ ok tt
      → (report_ready env version scp t).1.status.ready ≡ true
  unfolding report_ready
  report_ready_ok version scp t h =
      let written =
        update_status env (λ s. record s.status { ready = is_ready env version }) scp t in
      elim (Result-cases written.0) [
        | inr (e, refused) ↦ absurd (ground arith)
        | inl (u, success) ↦ elim (Bool-cases written.1.status.ready) [
          | inl ready ↦ ready
          | inr unready ↦ absurd (ground arith)
        ]
      ]

  tenant_stage_ok :
      (cluster : Cluster) (remote : RemoteClient) (s s' : State) (tcp : TenantControlPlane)
      → GoesOn (tenant_stage env cluster remote) s tcp s'
      → tcp.status.control_plane_endpoint ≢ ""
  unfolding tenant_stage
  tenant_stage_ok cluster remote s s' tcp h =
      let (p, s0, recovered, from) = GoesOn-then _ _ s s' tcp h in
      let (x, s1, created, rest) = GoesOn-bind _ _ s0 s' tcp from in
      let (u, s2, addressed, last) = GoesOn-then _ _ s1 s' tcp rest in
      let (has_address, _) =
        tracked_ok tenant_control_plane_address_ready (require_address env x) (λ _. requeued) s1 s2
          u addressed in
      let same : go_on x ≡ go_on tcp = ap (λ r. r.0) last in
      ground (arith, eq_iff x.status.control_plane_endpoint "")

  -- The cluster that is returned is the one that is stored when it is read again.
  endpoint_stage_ok :
      (cluster fresh : Cluster) (tcp : TenantControlPlane) (s s' : State)
      → GoesOn (endpoint_stage env cluster tcp) s fresh s'
      → (t : Trace) × (env.reconciler.client.stored_cluster t (key_of cluster.meta) ≡ ok fresh)
  unfolding endpoint_stage refetch_cluster
  endpoint_stage_ok cluster fresh tcp s s' h =
      let (u, s1, patched, r1) = GoesOn-then _ _ s s' fresh h in
      let (w, s2, decoded, r2) = GoesOn-then _ _ s1 s' fresh r1 in
      let (x, s3, fetched, r3) = GoesOn-bind _ _ s2 s' fresh r2 in
      let (v, s4, infrastructure, r4) = GoesOn-then _ _ s3 s' fresh r3 in
      let same : go_on x ≡ go_on fresh = ap (λ r. r.0) r4 in
      let read = flow_of_ok _ _ x (ap (λ r. r.0) fetched) in (s2.trace, read ∙ ap ok (cc same))

  ready_stage_ok :
      (cluster : Cluster) (tcp : TenantControlPlane) (s s' : State) (version : VersionStatus)
      → GoesOn (ready_stage env cluster tcp) s version s'
      → (cluster.control_plane_endpoint.host ≢ "")
        × (cluster.infrastructure_ready ≡ true)
        × (tcp.status.version_status ≡ some version)
  unfolding ready_stage
  ready_stage_ok cluster tcp s s' version h =
      let (u, s1, host, rest) = GoesOn-then _ _ s s' version h in
      let (v, s2, infrastructure, last) = GoesOn-then _ _ s1 s' version rest in
      let no_empty =
        stop_if-false (cluster.control_plane_endpoint.host == "") requeued s s1 u host in
      let no_wait =
        stop_if-false (not cluster.infrastructure_ready) requeued s1 s2 v infrastructure in
      (
        ground (arith, eq_iff cluster.control_plane_endpoint.host ""),
        ground arith,
        require_version-some tcp.status.version_status s2 s' version last,
      )

  -- A completed reconciliation: what its stages returned, from state to state, and what holds of it.
  pub record IsComplete (cluster : Cluster) (s s' : State) : Type 0 where
    pub remote : RemoteClient
    pub tcp : TenantControlPlane
    pub fresh : Cluster
    pub version : VersionStatus
    pub connected : State
    pub created : State
    pub fetched : State
    pub checked : State
    pub reported : State
    pub replicated : State
    pub got_remote : GoesOn (with_remote_client env) s remote connected
    pub got_tenant : GoesOn (tenant_stage env cluster remote) connected tcp created
    pub got_cluster : GoesOn (endpoint_stage env cluster tcp) created fresh fetched
    pub got_version : GoesOn (ready_stage env fresh tcp) fetched version checked
    pub wrote_status : GoesOn (status_stage env version tcp) checked tt reported
    pub read_again :
        (t : Trace) × (env.reconciler.client.stored_cluster t (key_of cluster.meta) ≡ ok fresh)
    pub address : tcp.status.control_plane_endpoint ≢ ""
    pub host : fresh.control_plane_endpoint.host ≢ ""
    pub infrastructure : fresh.infrastructure_ready ≡ true
    pub has_version : tcp.status.version_status ≡ some version
    pub has_secrets :
        create_required_resources env.secret_library env.reconciler.client env.secrets env.retry
          (server_of remote)
          fresh
          reported.scp
          tcp
          reported.trace
        ≡ (ok tt, replicated.trace)
    pub is_ready : s'.scp.status.ready ≡ true

  -- When the stages run to the end, the TenantControlPlane that the tenant stage returned has an
  -- address and a version, the cluster that the endpoint stage read again has a host and a ready
  -- infrastructure, the required secrets were replicated in the state that the status stage left, and
  -- the StewardControlPlane reads as ready.
  pub stages-IsComplete :
      (cluster : Cluster) (s s' : State)
      → GoesOn (stages env cluster) s tt s'
      → IsComplete cluster s s'
  unfolding stages completion_stage
  stages-IsComplete cluster s s' h =
      let (remote, s1, got_remote, r1) = GoesOn-bind _ _ s s' tt h in
      let (tcp, s2, got_tenant, r2) = GoesOn-bind _ _ s1 s' tt r1 in
      let (fresh, s3, got_cluster, r3) = GoesOn-bind _ _ s2 s' tt r2 in
      let (version, s4, got_version, r4) = GoesOn-bind _ _ s3 s' tt r3 in
      let (u, s5, reported, r5) = GoesOn-then _ _ s4 s' tt r4 in
      let (v, s6, replicated, r6) = GoesOn-then _ _ s5 s' tt r5 in
      let (host, infrastructure, has_version) =
        ready_stage_ok fresh tcp s3 s4 version got_version in
      let (last, written) =
        tracked_ok steward_control_plane_ready (report_ready env version) enqueue_or_fail s6 s' tt
          r6 in
      let (stored, _) =
        tracked_ok kubeadm_resources_created_ready _ enqueue_or_fail s5 s6 v replicated in
      record {
        remote = remote;
        tcp = tcp;
        fresh = fresh;
        version = version;
        connected = s1;
        created = s2;
        fetched = s3;
        checked = s4;
        reported = s5;
        replicated = s6;
        got_remote = got_remote;
        got_tenant = got_tenant;
        got_cluster = got_cluster;
        got_version = got_version;
        wrote_status = reported;
        read_again = endpoint_stage_ok cluster fresh tcp s2 s3 got_cluster;
        address = tenant_stage_ok cluster remote s1 s2 tcp got_tenant;
        host = host;
        infrastructure = infrastructure;
        has_version = has_version;
        has_secrets =
            same_pair _ (ok tt) s6.trace stored
              (tracked_trace _ _ enqueue_or_fail s5 s6 v replicated);
        is_ready =
            ap (λ x. x.status.ready) (sym written) ∙ report_ready_ok version s6.scp s6.trace last;
      }
