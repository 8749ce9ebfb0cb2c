-- ===== src/Lib.antt =====
-- The Steward control plane provider for Cluster API: a model of its controllers, whose functions have
-- the names that they have in the Go source, with theorems about them.
--
-- A StewardControlPlane asks for a Kubernetes control plane. Its controller deploys a
-- TenantControlPlane for it, on the management cluster or on an external one, waits for the endpoint
-- that this reports, writes the endpoint to the StewardControlPlane and to the infrastructure
-- cluster, and records each step as a condition. A second controller keeps a manager for each
-- external cluster that is referred to, in a store that the first reads.
--
-- The parts, with the files of the source that they are about:
--   Api          api/v1alpha1/stewardcontrolplane_types.go and stewardcontrolplanetemplate_types.go, and
--                of third-party types the fields that the controllers use; a value that is only
--                copied is an opaque text
--   Conditions   controllers/conditions.go; Types is api/v1alpha1/stewardcontrolplane_conditions.go
--   Endpoint     controllers/stewardcontrolplane_controller_cluster_patch.go, to line 74
--   Controller/Infrastructure   the rest of that file: patchCluster and what it calls, and
--                patchControlPlaneEndpoint
--   Controller/Remote      controllers/stewardcontrolplane_controller_externalreference.go
--   Controller/Finalizer   controllers/stewardcontrolplane_finalizer.go
--   Controller/Features    pkg/features/features.go
--   Controller/Tenant      controllers/stewardcontrolplane_controller_tcp.go: Mutation is the function
--                          that CreateOrUpdate runs
--   Controller/Secrets     controllers/stewardcontrolplane_controller_resources.go
--   Controller/Status      updateStewardControlPlaneStatus
--   Controller/Reconcile   Reconcile of controllers/stewardcontrolplane_controller.go: Steps and Stages
--                          in the order of the source, over a flow that a stage may stop; Truth,
--                          Unchanged, Kept, Reverted and Failures follow the conditions, Securing the
--                          finalizer
--   Controller/External    controllers/externalclusterreference_controller.go: Loops and Push are the two
--                          reconciliations, Watches the map function, Serving what the first and
--                          Remote do together, and Threads the goroutines beside the first
--   Controller/Setup       the SetupWithManager of the three controllers
--   Startup      main.go, as steps each of which may end the process
--   Ecr          pkg/externalclusterreference (Names, Store) and pkg/indexers (Indexers)
--   Net, Strconv, Strings  what the source uses of Go's standard library
--   Errors       errors as values, with what errors.As and errors.Is find in them
--   Prelude, Samples, Examples  shared helpers; concrete inputs; the theorems at these inputs
--
-- State and effects. A call of an API server is recorded in a trace, the latest call first, with the
-- objects that it sends, and its answer is any function of the calls before it (Kube): another
-- client may have changed every object between two calls. A function that fails returns a `Result`;
-- one that also leaves a changed object behind returns the error, the object and the trace. The
-- store of managers is a record with an association list, and the stop functions that it has
-- called. `RetryOnConflict`, string sets, the functions on conditions and on unstructured objects
-- are parameters, with their documented behaviour as records of laws, and so is `CreateOrUpdate`.
--
-- Interleaving. Each method of the store holds its mutex, and is one step. Threads has a step relation
-- on the store, the goroutines in `startManager`, and the manager that is launched and not yet added:
-- one worker reconciles the secrets, as is the default of the builder, and a goroutine may return
-- between any two of its calls of the store. A goroutine's context is cancelled by its cancel function
-- only; the context of the process is not.
--
-- Aliasing and panics. The conditions that Reconcile tracks start as the slice of the object and share
-- its array. What that does to the object is not read again, for no patch sends it; what the answer to
-- the patch of the endpoint, decoded into the object, does to the conditions is a parameter that may be
-- any function, and a theorem that needs more of it says so. Every other call that changes the object
-- replaces it first by a copy from the cache. The panic on a reference that is lost ends the stages
-- with its error, after the deferred functions, as its recovery in the caller does.
--
-- Numbers. `int32` wraps, as Go's conversion does; `ParseInt` has its bound written out for each bit
-- size. The loop that writes a number in decimal runs on fuel, one more than the number, which is
-- proved to spell it in full.
--
-- Not modelled: logging; the text that a third-party error prints; the registration of the scheme
-- (groupversion_info.go and the functions init), which only calls a library; the generated deep
-- copies, which are the identity on values; and the set-up of the test environment.
pub mod Prelude
pub mod Strconv
pub mod Net
pub mod Strings
pub mod Errors
pub mod Api
pub mod Conditions
pub mod Kube
pub mod Ecr
pub mod Endpoint
pub mod Controller
pub mod Startup
pub mod Samples
pub mod Examples
