-- ===== src/Samples/Parameters.antt =====
-- The parameters of the model as concrete functions, with their laws.
use cluster_api_control_plan.Prelude.{
  String, false, not, ◌&&◌, Option, none, some, inl, List, [], ◌∷◌, ◌++◌, ◌≡◌, ◌≢◌, refl, ap, arith,
  ◌==◌, eq_iff, elem, if◌then◌else◌,
}
use cluster_api_control_plan.Prelude.Int.{ℤ, pos}
use cluster_api_control_plan.Errors.{Error, message, Result, ok, err}
use cluster_api_control_plan.Api.{Opaque, Condition}
use cluster_api_control_plan.Conditions.{ConditionFunctions, ConditionLaws, write_back}
use cluster_api_control_plan.Kube.{Trace, Client}
use cluster_api_control_plan.Kube.Writer.{Applied, Writer}
use cluster_api_control_plan.Controller.Tenant.Mutation.{TenantLibrary}
use cluster_api_control_plan.Controller.Secrets.Mutations.{SecretLibrary}
use cluster_api_control_plan.Controller.External.Loops.{Managers}
use cluster_api_control_plan.Kube.Retry.{last, Retry}
use cluster_api_control_plan.Kube.Sets.{StringSets, SetLaws}
use cluster_api_control_plan.Controller.Infrastructure.Operations.{
  Value, text, int, Unstructured, equal_int,
}
use cluster_api_control_plan.Controller.Infrastructure.Checks.{equal_int_iff}
use cluster_api_control_plan.Controller.Infrastructure.Writes.{UnstructuredLaws}
use cluster_api_control_plan.Samples.Objects.{sample_control_plane, sample_secret}

abbrev remove : List String → String → List String
remove [] y = []
remove (z ∷ s) y = if z == y then remove s y else z ∷ remove s y

-- Sets as lists.
abbrev pub list_sets : StringSets
list_sets = record {
  new = λ l. l;
  has = λ s x. elem x s;
  insert = λ s y. y ∷ s;
  delete = remove;
  unsorted_list = λ s. s;
}

elem-remove : (s : List String) (y x : String) → elem x (remove s y) ≡ (not (y == x) && elem x s)
elem-remove [] y x = ground arith
elem-remove (z ∷ s) y x = ground (arith, elem-remove s y x, eq_iff z y, eq_iff y x, eq_iff z x)

pub list_sets_laws : SetLaws list_sets
list_sets_laws = record {
  has-new = λ l x. refl;
  has-insert = λ s y x. refl;
  has-delete = elem-remove;
  elem-unsorted_list = λ s x. refl;
}

-- A retry that gives up after the first run.
abbrev pub single_run : Retry
single_run = record { retry_on_conflict = λ L body. body; runs = λ L body l t. last refl }

abbrev find_first : List Condition → String → Option Condition
find_first [] type = none
find_first (c ∷ cs) type = if c.type == type then some c else find_first cs type

abbrev put : List Condition → Condition → Option Condition → List Condition
put cs c none = cs ++ c ∷ []
put cs c (some old) = write_back cs c.type c

abbrev pub list_conditions : ConditionFunctions
list_conditions = record {
  find_status_condition = find_first;
  set_status_condition = λ cs c. put cs c (find_first cs c.type);
  error_text = λ e. "failed";
}

put_present :
    (cs : List Condition) (c : Condition)
    → find_first cs c.type ≡ some c
    → write_back cs c.type c ≡ cs
unfolding write_back
put_present [] c h = refl
put_present (d ∷ cs) c h = ground (arith, put_present cs c, eq_iff d.type c.type)

find-append_other :
    (cs : List Condition) (c : Condition) (type : String)
    → c.type ≢ type
    → find_first (cs ++ c ∷ []) type ≡ find_first cs type
find-append_other [] c type other = ground (arith, eq_iff c.type type)
find-append_other (d ∷ cs) c type other =
    ap (λ r. if d.type == type then some d else r) (find-append_other cs c type other)

find-write_back_other :
    (cs : List Condition) (c : Condition) (type : String)
    → c.type ≢ type
    → find_first (write_back cs c.type c) type ≡ find_first cs type
unfolding write_back
find-write_back_other [] c type other = refl
find-write_back_other (d ∷ cs) c type other = ground (
  arith,
  find-write_back_other cs c type other,
  eq_iff d.type c.type,
  eq_iff d.type type,
  eq_iff c.type type,
)

put_other :
    (o : Option Condition) (cs : List Condition) (c : Condition) (type : String)
    → c.type ≢ type
    → find_first (put cs c o) type ≡ find_first cs type
put_other none cs c type other = find-append_other cs c type other
put_other (some d) cs c type other = find-write_back_other cs c type other

pub list_conditions_laws : ConditionLaws list_conditions
list_conditions_laws = record {
  find-nil = λ type. refl;
  find-cons = λ c cs type. refl;
  set_absent = λ cs c t absent time. ground arith;
  set_present = λ cs c there. ground (arith, put_present cs c there);
  set_other = λ cs c type other. put_other (find_first cs c.type) cs c type other;
}

-- An infrastructure cluster that knows one endpoint.
abbrev known : String → ℤ → Result Opaque
known h n =
    if h == "10.0.0.1" && equal_int n (pos 6443) then ok "patched" else err (message "unknown")

abbrev set_map : List (String × Value) → Result Opaque
set_map ((k, text h) ∷ (j, int n) ∷ []) = known h n
set_map _ = err (message "unknown")

abbrev pub one_endpoint : Unstructured
one_endpoint = record {
  nested_string = λ o path. ok (if o == "patched" then "10.0.0.1" else "");
  nested_int64 = λ o path. ok (if o == "patched" then pos 6443 else pos 0);
  nested_bool = λ o path. ok false;
  set_nested_map = λ o fields path. set_map fields;
  set_nested_field = λ o v path. ok o;
  new_helper = λ o. ok tt;
}

pub one_endpoint_laws : UnstructuredLaws one_endpoint
one_endpoint_laws = record {
  host-set_nested_map = λ o o' host port set.
      ground (arith, eq_iff host "10.0.0.1", eq_iff o' "patched", equal_int_iff port (pos 6443));
  port-set_nested_map = λ o o' host port set.
      ground (arith, eq_iff host "10.0.0.1", eq_iff o' "patched", equal_int_iff port (pos 6443));
  host-set_ready = λ o o' b set. ground arith;
  port-set_ready = λ o o' b set. ground arith;
}

-- An API server with one control plane, one secret and one infrastructure cluster, which accepts every
-- write, and answers a deletion as given.
abbrev pub sample_client : List String → Result (Unit {0}) → Opaque → Client
sample_client finalizers deleted infrastructure = record {
  stored_steward_control_plane = λ t key. ok (sample_control_plane finalizers);
  stored_cluster = λ t key. err (message "no cluster");
  stored_secret = λ t server key. ok sample_secret;
  stored_infrastructure = λ t ref. ok infrastructure;
  updated_steward_control_plane = λ t scp. ok scp;
  updated_status = λ t scp. ok scp;
  patched_steward_control_plane = λ t old new. ok new;
  patched_infrastructure = λ t old new. ok tt;
  deleted_tenant_control_plane = λ t server key. deleted;
}

abbrev after_mutation {ℓ} : {T : Type ℓ} → T → Trace → Result T → Option Error × T × Trace
after_mutation o t (ok made) = (none, made, t)
after_mutation o t (err e) = (some e, o, t)

pub Applied-of :
    {T : Type 0} (f : T → Result T) (o : T) (t : Trace) (r : Result T)
    → f o ≡ r
    → (after_mutation o t r).0 ≡ none
    → Applied (λ u x. ok x) f (after_mutation o t r).1
Applied-of f o t (ok made) e h = record { base = o; sent = made; made = e; returned = inl refl }
Applied-of f o t (err x) e h = absurd (cc)

-- Nothing is stored: the function is applied to the object that is given.
abbrev pub creating : (T : Type 0) → Writer T
creating T = record {
  written = λ s t x. ok x;
  create_or_update = λ s f o t. after_mutation o t (f o);
  applies = λ s f o t h. Applied-of f o t (f o) refl h;
}

abbrev pub sample_tenant_library : TenantLibrary
sample_tenant_library = record {
  last_applied_config_annotation = "last-applied";
  kubeconfig_secret_key_annotation = "kubeconfig-secret-key";
  empty_addon_spec = "{}";
  set_controller_reference = λ scp meta. ok meta;
}

abbrev pub sample_secret_library : SecretLibrary
sample_secret_library = record {
  cluster_name_label = "cluster-name";
  cluster_secret_type = "cluster-secret";
  kubeconfig_secret_key_annotation = "kubeconfig-secret-key";
  tls_cert_key = "tls.crt";
  tls_private_key_key = "tls.key";
  set_controller_reference = λ scp meta. ok meta;
}

abbrev pub sample_managers : Managers
sample_managers = record {
  referring = λ key. ok (sample_control_plane [] ∷ []);
  rest_config_from_kube_config = λ b. ok "config";
  new_manager = λ store cfg. ok 5;
  setup_push = λ mgr. ok tt;
  with_cancel = λ store mgr. 6;
}
