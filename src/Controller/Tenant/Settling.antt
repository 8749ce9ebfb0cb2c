-- ===== src/Controller/Tenant/Settling.antt =====
-- The mutation settles: what it has written once it does not change again, where its
-- input is the same.
use cluster_api_control_plan.Prelude.{String, Option, none, some, List, [], ◌∷◌, ◌≡◌, refl, arith}
use cluster_api_control_plan.Api.{
  Cluster, ClusterNetwork, LoadBalancerConfig, StewardControlPlane, NetworkProfile,
  TenantControlPlaneSpec,
}
use cluster_api_control_plan.Controller.Tenant.Mutation.{
  TenantLibrary, first_or, or_old, or_kept, unless_empty, with_cluster_network, with_load_balancer,
  dns_service_ips_of, cert_sans_of, spec_of,
}

first_or_again : (o : Option (List String)) (x : String) → first_or o (first_or o x) ≡ first_or o x
first_or_again none x = refl
first_or_again (some []) x = refl
first_or_again (some (c ∷ cs)) x = refl

or_old_again {ℓ} : {A : Type ℓ} (o : Option A) (x : A) → or_old o (or_old o x) ≡ or_old o x
or_old_again none x = refl
or_old_again (some a) x = refl

or_kept_again {ℓ} : {A : Type ℓ} (o x : Option A) → or_kept o (or_kept o x) ≡ or_kept o x
or_kept_again none x = refl
or_kept_again (some a) x = refl

unless_empty_again :
    (new old : String) → unless_empty new (unless_empty new old) ≡ unless_empty new old
unless_empty_again new old = ground arith

-- The assignments between the two tests.
abbrev assigned : String → List String → List String → NetworkProfile → NetworkProfile
assigned address ips names p = record p {
  dns_service_ips = ips;
  address = address;
  cert_sans = names;
}

abbrev profile :
    Option ClusterNetwork
    → Option LoadBalancerConfig
    → String
    → List String
    → List String
    → NetworkProfile
    → NetworkProfile
profile n c address ips names p =
    with_load_balancer c (assigned address ips names (with_cluster_network n p))

profile_again :
    (n : Option ClusterNetwork) (c : Option LoadBalancerConfig) (address : String)
    (ips names : List String) (p : NetworkProfile)
    → profile n c address ips names (profile n c address ips names p)
      ≡ profile n c address ips names p
profile_again none none address ips names p = refl
profile_again none (some c) address ips names p = simp (or_kept_again)
profile_again (some n) none address ips names p = simp (or_old_again, first_or_again)
profile_again (some n) (some c) address ips names p =
    simp (or_old_again, first_or_again, or_kept_again)

-- The specification that the mutation makes is a fixed point of the mutation.
pub spec_of-spec_of :
    (l : TenantLibrary) (cluster : Cluster) (scp : StewardControlPlane) (s : TenantControlPlaneSpec)
    → spec_of l cluster scp (spec_of l cluster scp s) ≡ spec_of l cluster scp s
unfolding spec_of
spec_of-spec_of l cluster scp s =
    let f = scp.spec.fields in
    simp (
      unless_empty_again,
      profile_again cluster.cluster_network f.network.load_balancer_config f.network.service_address
          (dns_service_ips_of f) (cert_sans_of f.network) s.network_profile,
    )
