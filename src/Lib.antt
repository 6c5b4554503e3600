-- ===== src/Lib.antt =====
-- testenv-vm creates test environments of SSH keys, networks and virtual machines through provider
-- processes, and deletes them again. A specification is validated (pkg/spec/validator.go), its
-- resources become the nodes of a dependency graph (pkg/orchestrator/dag.go) whose edges come from
-- template references (pkg/spec/template.go) and from fields that name a network, and the graph is
-- sorted into phases. The executor (pkg/orchestrator/executor.go) runs the phases one after the
-- other: it renders the templates of a resource, calls a provider and stores the result in the
-- state; deletion and rollback (pkg/orchestrator/rollback.go) run the phases backwards. The
-- orchestrator (pkg/orchestrator/orchestrator.go) puts these together: it reads the specification
-- from a map (api/v1/zz_generated.spec.go), starts the providers (pkg/provider/manager.go), saves the
-- state and returns an artifact that lists what was made.
--
-- Files:
--   Api/Config.antt    the records of api/v1/zz_generated.spec.go, with JSON values for free-form fields
--   Api/State.antt     the persisted state, api/v1/state.go; errors are values of `Failure`
--   Api/Provider.antt  requests and results of api/provider/v1
--   Codec.antt         the functions `…FromMap` and the methods `ToMap` of api/v1/zz_generated.spec.go,
--                      field by field; Codec/FromMap.antt and Codec/ToMap.antt struct by struct;
--                      Codec/Report.antt cmd/testenv-vm/zz_generated.validate.go; the other files of
--                      Codec hold proofs
--   Dag.antt           `DAG`, `AddNode`, `AddEdge`, `TopologicalSort`; Dag/Cycle.antt `HasCycle`;
--                      Dag/Reach.antt `DependsOn`, `Nodes`;
--                      Dag/Build.antt `BuildDAG`; the proofs are in the files below them
--   Spec/Template.antt `ExtractTemplateRefs` and `IsTemplated`; Spec/Texts.antt and Spec/Render.antt the
--                      walks that the code makes by reflection, written out for each record
--   Spec/Validator.antt  `ValidateEarly` and `ValidateResourceRefsLate`, with the files below it
--   Executor/Create.antt `createResource`; Executor/Phases.antt `ExecuteCreate`;
--                      Executor/Delete.antt `ExecuteDelete` and `Rollback`; Executor/Convert.antt
--                      `convertNetworkSpec` and `convertVMSpec`; Executor/Resources.antt the state and
--                      the template context; Executor/Isolation.antt and Executor/Prefix.antt the names
--                      and addresses of parallel environments; the other files hold proofs
--   Store.antt         `Save`, `Load` and `Delete` of pkg/state/store.go; Store/Listing.antt `List`
--                      and `Exists`
--   Provider.antt      `Manager` of pkg/provider/manager.go; Provider/Engine.antt `resolveEngine`;
--                      Provider/Registry.antt pkg/provider/registry.go; the other files hold proofs
--   Stub.antt          `Provider` of internal/providers/stub/provider.go; Stub/Transport.antt the way of a
--                      result through `toMCPResult` and `CallWithContext`; Stub/Refinement.antt the
--                      abstract tables beside it
--   Orchestrator.antt  `Create` and `Delete`; Orchestrator/Artifact.antt `buildArtifact`;
--                      Orchestrator/Stored.antt the services over the store of pkg/state; the other
--                      files hold proofs
--   Provisioner.antt   `RuntimeProvisioner` of pkg/client/provisioner.go; the files below it hold proofs
--   Tests              sample inputs and the theorems at them
--
-- Go maps are association lists with one entry for each key; where the code iterates over a map, the
-- model takes the order of insertion. The state, the template context and the world outside are
-- passed explicitly.
--
-- `Executor.Backend` stands for what is outside the executor: the provider manager, the state store,
-- the image cache, text/template, the deep copies through encoding/json and `filepath.Join`, over a type
-- of worlds. A goroutine of a phase is modelled as one turn, in an order that the backend chooses; `IsFair` says that each goroutine that
-- is started takes a turn. The interleaving of two provider calls is thereby not modelled; the code
-- holds a lock over each update of the state.
--
-- Fuel: `topological_sort` has as many rounds as the graph has nodes, since each round places one, and
-- `has_cycle` one more level than there are nodes, since each level marks one. The search for go.work has
-- one more step than the working directory has characters, since each step up shortens the path.
-- `depends_on` has one more round than the graph has edges, since a node fills the queue once.
--
-- `Store.Files` stands for package os and encoding/json under the store; the laws that the theorems
-- need of it are the record `IsFileSystem`; `Listing.Directories` stands for its directories.
-- `Orchestrator.Services` stands for what `Create` and `Delete` call: package os, the provider manager
-- and the store, which `Orchestrator.Stored` fills with that of pkg/state. The verb %q of package fmt is
-- a parameter of the stub provider. `Provisioner.Runtime` stands for
-- what the runtime provisioner calls. `Provider.Processes` stands for the clients of
-- provider processes, and `Provider.Engine.Host` for what the resolution of an engine reads.
--
-- A map that `FromMap` reads is the function that looks up its keys, so a nil map and an empty one are
-- one value. `ToMap` writes a list of fields, and so do the free-form maps.
--
-- Not modelled: the image cache, the libvirt provider, the pipes of the provider client, the SSH
-- client, the commands and the MCP servers; time stamps; log lines; and the texts of wrapped errors,
-- which are constructors instead.
pub mod Prelude
pub mod Api
pub mod Codec
pub mod Dag
pub mod Spec
pub mod Executor
pub mod Store
pub mod Provider
pub mod Stub
pub mod Orchestrator
pub mod Provisioner
pub mod Tests
