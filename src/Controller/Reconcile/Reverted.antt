-- ===== src/Controller/Reconcile/Reverted.antt =====
-- The conditions that share the object's array when the answer to the endpoint's patch is decoded.
use mathlib.Core.Path.{subst}
use cluster_api_control_plan.Prelude.{false, none, some, List, ◌∷◌, ◌≡◌, refl, ap, ◌∙◌}
use cluster_api_control_plan.Errors.{ok}
use cluster_api_control_plan.Api.{
  key_of, Cluster, Condition, StewardControlPlane, TenantControlPlane,
}
use cluster_api_control_plan.Kube.{
  get_steward_control_plane, update_steward_control_plane_status, Trace,
}
use cluster_api_control_plan.Conditions.{ConditionLaws}
use cluster_api_control_plan.Conditions.Types.{tenant_control_plane_address_ready}
use cluster_api_control_plan.Controller.Status.{modified, update_steward_control_plane_status_of}
use cluster_api_control_plan.Controller.Status.Laws.{Captured, update_status-SentLast}
use cluster_api_control_plan.Controller.Tenant.{RemoteClient}
use cluster_api_control_plan.Controller.Reconcile.{reconcile_objects}
use cluster_api_control_plan.Controller.Reconcile.Flow.{
  finished, State, Step, go_on, GoesOn, GoesOn-bind, GoesOn-then, Preserves,
}
use cluster_api_control_plan.Controller.Reconcile.Steps.{
  Environment, decode_conditions, refetch_cluster,
}
use cluster_api_control_plan.Controller.Reconcile.Stages.{
  tenant_stage, infrastructure_stage, endpoint_stage, ready_stage, status_stage, completion_stage,
  stages, with_remote_client,
}
use cluster_api_control_plan.Controller.Reconcile.Unchanged.{
  Finds, infrastructure_stage-Finds, ready_stage-Finds, status_stage-Finds, completion_stage-Finds,
}
use cluster_api_control_plan.Controller.Reconcile.Truth.{IsTrue}
use cluster_api_control_plan.Controller.Reconcile.Truth.Stagewise.{tenant_stage-Keeps}
use cluster_api_control_plan.Controller.Reconcile.Truth.Reported.{
  start_of, reporting, ended, reconcile_objects_completed,
}

-- What a step preserves holds where it goes on.
preserved :
    {A : Type 0} (R : State → Type 0) (m : Step A) (s s' : State) (a : A)
    → Preserves R m
    → GoesOn m s a s'
    → R s
    → R s'
preserved R m s s' a keeps h before = subst R (ap (λ r. r.1) h) (keeps s before)

module _ (env : Environment) (laws : ConditionLaws env.conditions) (c : Condition)
    (shared : (t : Trace) (cs : List Condition)
      → env.conditions.find_status_condition
          (env.shared_conditions t cs)
          tenant_control_plane_address_ready
        ≡ some c) where
  abbrev HasCondition : State → Type 0
  HasCondition = Finds env laws tenant_control_plane_address_ready refl (some c)

  endpoint_stage-Finds :
      (cluster fresh : Cluster) (tcp : TenantControlPlane) (s s' : State)
      → GoesOn (endpoint_stage env cluster tcp) s fresh s'
      → HasCondition s'
  unfolding endpoint_stage decode_conditions refetch_cluster
  endpoint_stage-Finds cluster fresh tcp s s' h =
      let (u, s1, patched, r1) = GoesOn-then _ _ s s' fresh h in
      let (w, s2, decoded, r2) = GoesOn-then _ _ s1 s' fresh r1 in
      let (x, s3, fetched, r3) = GoesOn-bind _ _ s2 s' fresh r2 in
      let (v, s4, infrastructure, r4) = GoesOn-then _ _ s3 s' fresh r3 in
      let at2 : HasCondition s2 =
        subst HasCondition (ap (λ r. r.1) decoded) (shared s1.trace s1.conditions) in
      let at3 : HasCondition s3 =
        preserved HasCondition (refetch_cluster env cluster) s2 s3 x (λ y k. k) fetched at2 in
      let at4 : HasCondition s4 =
        preserved HasCondition
          (infrastructure_stage env x tcp env.reconciler.features.skip_infra_cluster_patch) s3 s4 v
          (infrastructure_stage-Finds env laws tenant_control_plane_address_ready refl (some c) x
            tcp _)
          infrastructure at3 in
      subst HasCondition (ap (λ r. r.1) r4) at4

  -- The run's tenant stage, which made the condition true.
  abbrev pub WasTrue : Cluster → State → Type 0
  WasTrue cluster s =
      (remote : RemoteClient) × (connected created : State) × (tcp : TenantControlPlane) × GoesOn
        (with_remote_client env) s remote connected
      × GoesOn (tenant_stage env cluster remote) connected tcp created
      × IsTrue env laws tenant_control_plane_address_ready created

  stages-Finds :
      (cluster : Cluster) (s s' : State)
      → GoesOn (stages env cluster) s tt s'
      → WasTrue cluster s × HasCondition s'
  unfolding stages
  stages-Finds cluster s s' h =
      let (remote, s1, got_remote, r1) = GoesOn-bind _ _ s s' tt h in
      let (tcp, s2, got_tenant, r2) = GoesOn-bind _ _ s1 s' tt r1 in
      let (fresh, s3, got_cluster, r3) = GoesOn-bind _ _ s2 s' tt r2 in
      let (version, s4, got_version, r4) = GoesOn-bind _ _ s3 s' tt r3 in
      let (u, s5, reported, r5) = GoesOn-then _ _ s4 s' tt r4 in
      let (kept, created, addressed) =
        tenant_stage-Keeps env laws cluster remote s1 s2 tcp got_tenant in
      let type = tenant_control_plane_address_ready in
      let at4 =
        preserved HasCondition (ready_stage env fresh tcp) s3 s4 version
          (ready_stage-Finds env laws type refl (some c) fresh tcp) got_version
          (endpoint_stage-Finds cluster fresh tcp s2 s3 got_cluster) in
      let at5 =
        preserved HasCondition (status_stage env version tcp) s4 s5 u
          (status_stage-Finds env laws type refl (some c) version tcp) reported at4 in
      (
        (remote, s1, s2, tcp, got_remote, got_tenant, addressed),
        preserved HasCondition (completion_stage env fresh remote tcp version) s5 s' tt
            (completion_stage-Finds env laws type refl (some c) fresh remote tcp version) r5 at5,
      )

-- If the answer to the patch of the endpoint is decoded over the condition of the address that the
-- reconciliation has tracked, a completed reconciliation of an object that is neither paused nor deleted
-- sends, in its last status update, if that is accepted, the condition of the answer, although the
-- tenant stage has made it true. The functions on conditions have their laws.
pub shared_condition_reverts :
    (env : Environment) (laws : ConditionLaws env.conditions) (c : Condition)
    (shared : (t : Trace) (cs : List Condition)
      → env.conditions.find_status_condition
          (env.shared_conditions t cs)
          tenant_control_plane_address_ready
        ≡ some c)
    (scp : StewardControlPlane) (cluster : Cluster) (trace : Trace)
    → env.is_paused cluster scp ≡ false
    → scp.meta.deletion_timestamp ≡ none
    → (stages env cluster (start_of scp trace)).0 ≡ go_on tt
    → (update_steward_control_plane_status_of env.reconciler.client env.retry
        (reporting (ended env laws scp cluster trace))
        (ended env laws scp cluster trace).scp
        (ended env laws scp cluster trace).trace).0
      ≡ none
    → WasTrue env laws c shared cluster (start_of scp trace)
      × ((held fresh : StewardControlPlane) × (rest : Trace) × Captured env.reconciler.client
            (reporting (ended env laws scp cluster trace))
            env.retry
            (ended env laws scp cluster trace).scp
            held
          × (env.reconciler.client.stored_steward_control_plane rest (key_of held.meta) ≡ ok fresh)
          × (reconcile_objects env scp cluster trace ≡ (
            finished,
            update_steward_control_plane_status
                  (modified (reporting (ended env laws scp cluster trace)) fresh)
                ∷ get_steward_control_plane (key_of held.meta)
                ∷ rest,
          ))
          × (env.conditions.find_status_condition
                (modified (reporting (ended env laws scp cluster trace)) fresh).status.conditions
                tenant_control_plane_address_ready
              ≡ some c))
shared_condition_reverts env laws c shared scp cluster trace unpaused live completed accepted =
    let last = ended env laws scp cluster trace in
    let (held, fresh, rest, captured, stored, sent) =
      update_status-SentLast env.reconciler.client (reporting last) env.retry last.scp last.trace
        accepted in
    let (was_true, found) =
      stages-Finds env laws c shared cluster (start_of scp trace) last (cc completed) in
    (
      was_true,
      (
        held,
        fresh,
        rest,
        captured,
        stored,
        reconcile_objects_completed env laws scp cluster trace unpaused live completed
            ∙ ap (λ t. (finished, t)) sent,
        found,
      ),
    )
