-- ===== src/Controller/Secrets/Contract.antt =====
-- When the contract on the secrets is satisfied.
use mathlib.Core.Path.{subst}
use Prim.Native.String.{◌++◌}
use cluster_api_control_plan.Prelude.{
  String, Option, none, ◌∷◌, ◌≡◌, ◌≢◌, sym, arith, ◌==◌, eq_iff, inl, inr, Option-cases, Bool-cases,
}
use cluster_api_control_plan.Errors.{Error, Result, ok, Result-cases}
use cluster_api_control_plan.Api.{Key, Secret, Cluster, StewardControlPlane, TenantControlPlane}
use cluster_api_control_plan.Kube.{Server, management, get_secret, Trace, Client, ◌>>=◌}
use cluster_api_control_plan.Kube.Retry.{Body, Retry, Runs-induction}
use cluster_api_control_plan.Kube.Writer.{Applied, Writer}
use cluster_api_control_plan.Controller.Secrets.{
  read_secret, write_secret, create_or_update_certificate_authority, create_or_update_kubeconfig,
  create_required_resources,
}
use cluster_api_control_plan.Controller.Secrets.Mutations.{
  SecretLibrary, new_secret, mutate_certificate_authority, mutate_kubeconfig,
}

module _ (l : SecretLibrary) (client : Client) (writer : Writer Secret) (retry : Retry) where
  abbrev Anything : Secret → Trace → Type 0
  Anything o t = Unit

  -- The latest run of the write, which succeeded, and the mutation that it applied.
  pub record Written (mutate : Secret → Result Secret) (after : Trace) : Type 0 where
    pub given : Secret
    pub object : Secret
    pub before : Trace
    pub ran : writer.create_or_update management mutate given before ≡ (none, object, after)
    pub applied : Applied (writer.written management) mutate object

  abbrev WasWritten : (Secret → Result Secret) → Option Error × Secret × Trace → Type 0
  WasWritten mutate r = r.0 ≡ none → Written mutate r.2

  write_step :
      (mutate : Secret → Result Secret) (o : Secret) (t : Trace)
      → WasWritten mutate (writer.create_or_update management mutate o t)
  write_step mutate o t h = record {
    given = o;
    object = (writer.create_or_update management mutate o t).1;
    before = t;
    ran = cc h;
    applied = writer.applies management mutate o t h;
  }

  write_secret_ok :
      (mutate : Secret → Result Secret) (failure : String) (capi : Secret) (t : Trace)
      → (write_secret l client writer retry mutate failure capi t).0 ≡ ok tt
      → Written mutate (write_secret l client writer retry mutate failure capi t).1
  write_secret_ok mutate failure capi t h =
      let body : Body Secret = writer.create_or_update management mutate in
      let (_, wrote) =
        Runs-induction body Anything (WasWritten mutate) (λ o s u. (tt, write_step mutate o s))
          (retry.runs Secret body capi t) tt in
      elim (Option-cases (retry.retry_on_conflict Secret body capi t).0) [
        | inr (e, failed) ↦ absurd (ground arith)
        | inl success ↦ wrote success
      ]

  -- A secret of the TenantControlPlane that was read after these calls, a write of a secret of the
  -- workload cluster that was made from it, and the calls so far.
  pub record Replicated (reader : Server) (key : Key) (mutate : Secret → Secret → Result Secret)
      (capi : Secret) (before after : Trace) : Type 0 where
    pub source : Secret
    pub stored : client.stored_secret before reader key ≡ ok source
    pub failure : String
    pub wrote :
        write_secret l client writer retry
          (mutate source)
          failure
          capi
          (get_secret reader key ∷ before)
        ≡ (ok tt, after)
    pub written : Written (mutate source) after

  replicate_ok :
      (reader : Server) (read_failure write_failure : String) (key : Key)
      (mutate : Secret → Secret → Result Secret) (capi : Secret) (t : Trace)
      → ((read_secret l client writer retry reader read_failure key >>= λ source.
            write_secret l client writer retry (mutate source) write_failure capi)
          t).0
        ≡ ok tt
      → Replicated reader key mutate capi t
          ((read_secret l client writer retry reader read_failure key >>= λ source.
              write_secret l client writer retry (mutate source) write_failure capi)
            t).1
  replicate_ok reader read_failure write_failure key mutate capi t h =
      elim (Result-cases (client.stored_secret t reader key)) [
        | inr (e, failed) ↦ absurd (ground arith)
        | inl (source, stored) ↦
            let done =
              write_secret l client writer retry (mutate source) write_failure capi
                (get_secret reader key ∷ t) in
            let success : done.0 ≡ ok tt = ground arith in
            let same : done ≡ (ok tt, done.1) = cc success in
            let written =
              write_secret_ok (mutate source) write_failure capi (get_secret reader key ∷ t)
                success in
            record {
              source = source;
              stored = stored;
              failure = write_failure;
              wrote = rw stored same;
              written = rw stored written;
            }
      ]

  module _ (reader : Server) (cluster : Cluster) (scp : StewardControlPlane)
      (tcp : TenantControlPlane) where
    abbrev pub admin_key : Key
    admin_key = record {
      namespace = tcp.meta.namespace;
      name = tcp.status.admin_kubeconfig_secret_name;
    }

    abbrev pub ca_key : Key
    ca_key = record { namespace = tcp.meta.namespace; name = tcp.status.ca_secret_name }

    kubeconfig_ok :
        (t : Trace)
        → (create_or_update_kubeconfig l client writer retry reader cluster scp tcp t).0 ≡ ok tt
        → Replicated reader admin_key
            (mutate_kubeconfig l cluster scp tcp)
            (new_secret (cluster.meta.name ++ "-kubeconfig") cluster.meta.namespace)
            t
            (create_or_update_kubeconfig l client writer retry reader cluster scp tcp t).1
    unfolding create_or_update_kubeconfig
    kubeconfig_ok t h =
        replicate_ok reader _ _ admin_key (mutate_kubeconfig l cluster scp tcp) _ t h

    certificate_authority_ok :
        (t : Trace)
        → (create_or_update_certificate_authority l client writer retry reader cluster scp tcp t).0
          ≡ ok tt
        → Replicated reader ca_key
            (mutate_certificate_authority l cluster scp tcp)
            (new_secret (cluster.meta.name ++ "-ca") cluster.meta.namespace)
            t
            (create_or_update_certificate_authority l client writer retry reader cluster scp tcp
              t).1
    unfolding create_or_update_certificate_authority
    certificate_authority_ok t h =
        replicate_ok reader _ _ ca_key (mutate_certificate_authority l cluster scp tcp) _ t h

    -- The contract on the secrets is satisfied only when the TenantControlPlane names both of its
    -- secrets; the admin kubeconfig was read first, from the reader's server, and the workload cluster's
    -- kubeconfig was written next, by the mutation on what was read; the certificate authority was read
    -- right after that write, and written likewise, and the calls end there. A write that succeeds has
    -- applied its mutation, and the object is then what that made, or the server's answer to it.
    pub create_required_resources_ok :
        (t : Trace)
        → (create_required_resources l client writer retry reader cluster scp tcp t).0 ≡ ok tt
        → (tcp.status.admin_kubeconfig_secret_name ≢ "")
          × (tcp.status.ca_secret_name ≢ "")
          × ((between : Trace) × Replicated reader admin_key
                (mutate_kubeconfig l cluster scp tcp)
                (new_secret (cluster.meta.name ++ "-kubeconfig") cluster.meta.namespace)
                t
                between
              × Replicated reader ca_key
                  (mutate_certificate_authority l cluster scp tcp)
                  (new_secret (cluster.meta.name ++ "-ca") cluster.meta.namespace)
                  between
                  (create_required_resources l client writer retry reader cluster scp tcp t).1)
    unfolding create_required_resources
    create_required_resources_ok t h =
        let first = create_or_update_kubeconfig l client writer retry reader cluster scp tcp t in
        elim (Bool-cases (tcp.status.admin_kubeconfig_secret_name == "")) [
          | inl unset ↦ absurd (ground arith)
          | inr has_admin ↦ elim (Result-cases first.0) [
            | inr (e, failed) ↦ absurd (ground arith)
            | inl (u, admin) ↦ elim (Bool-cases (tcp.status.ca_secret_name == "")) [
              | inl unset ↦ absurd (ground arith)
              | inr has_ca ↦
                  let second =
                    create_or_update_certificate_authority l client writer retry reader cluster scp
                      tcp first.1 in
                  let ends : create_required_resources l client writer retry reader cluster scp tcp
                        t
                      ≡ second =
                    ground arith in
                  (
                    ground (arith, eq_iff tcp.status.admin_kubeconfig_secret_name ""),
                    ground (arith, eq_iff tcp.status.ca_secret_name ""),
                    (
                      first.1,
                      kubeconfig_ok t admin,
                      subst
                          (λ r.
                            Replicated reader ca_key
                              (mutate_certificate_authority l cluster scp tcp)
                              (new_secret (cluster.meta.name ++ "-ca") cluster.meta.namespace)
                              first.1 r.1)
                          (sym ends) (certificate_authority_ok first.1 (cc (ends, h))),
                    ),
                  )
            ]
          ]
        ]
