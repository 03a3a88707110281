-- ===== src/Lib.antt =====
-- Schooner: the core of the client, modelled and verified.
--
-- Schooner registers remote machines ("boxes"), prepares them, and creates or destroys them at a
-- provider. A command resolves a box (internal/box/resolver.go) and runs a workflow
-- (internal/box/service.go, internal/acquisition/acquisition.go). A workflow reads and writes the
-- local inventory (internal/inventory/sqlite) and acts on the machine through a runtime (OpenSSH and
-- the host executable) and on the provider through its interface. Versions are compared by
-- internal/semver, and a local Worktree is linked to a box by internal/link. A workspace is started or
-- resumed on a box from what is observed there (internal/workcontext), and its content is pushed to a
-- remote Worktree or pulled from it (internal/workspacetransfer). The credential that the provider is
-- asked with is a profile of internal/credentials.
--
-- Files and the code that they model:
--   Semver: internal/semver/semver.go. parse, compare_texts (Compare), is_valid (Valid), is_stable
--     (Stable), over the bytes of a text. Semver/Order, Semver/Numeric, Semver/Build: proofs.
--   Box/Types: internal/box/types.go and errors.go.
--   Box/Validate: internal/box/validate.go. The regular expression of a name is matches_name.
--   Box/Service: the interfaces Inventory and Runtime of internal/box/types.go, runStep, certify and
--     missingTools. Box/Service/Prepare: prepareHost. Box/Service/Add: Service.Add.
--     Box/Service/Maintain: Status, Setup, Update, Remove, Get, PrepareSSH, ListEntries.
--     Box/Service/Keeps, Yields, Success, Maintained, Reservation: what the workflows keep and
--     establish.
--   Box/Resolver: internal/box/resolver.go.
--   Acquisition/Types: the values of internal/provider/types.go and internal/acquisition.
--     Acquisition/Service/Provision and Destroy: Service.Provision and Service.Destroy, with the
--     interface of the provider's side in Acquisition/Service. Stops, Safety, Destruction: proofs.
--   Inventory: internal/inventory/sqlite/store.go over the schema of its migrations. A table is the
--     list of its rows, and a statement does to it what its SQL says. Inventory/Operations: the
--     rows of provisioning and destruction. Inventory/Interface: the store as the workflows see it.
--     Inventory/Valid, Recorded, Reach, Laws, Resume, Selection, Workflows: proofs.
--   Link: internal/link/link.go with the links of the store. Link/Laws: proofs.
--   Repository, Session: the values of internal/repository and internal/session that are observed on a
--     box, with Repository/Checkout for the state and manifest of a checkout.
--   WorkContext: internal/workcontext/context.go, PlanStart and PlanResume. WorkContext/Start and
--     WorkContext/Resume: proofs.
--   Transfer: internal/workspacetransfer. Transfer/Push: push.go; Transfer/Pull: pull.go;
--     Transfer/Pages: the end of a page of the manifest. Paging, PushLaws, PushSteps, PushSound,
--     PullLaws, PullSound: proofs.
--   Credentials: internal/credentials/credentials.go. Credentials/Manager: the steps of the Manager, List
--     and Disconnect; Credentials/Resolve and Connect: the calls of these names; Credentials/Rows: the
--     profile rows of internal/inventory/sqlite/store.go. Valid, Settled, Keeps,
--     Bindings, Ends, Reach, Written, Bound, Forgotten, Refs: proofs.
--   Prelude: tests, lists, texts, orders, sorting, tables (Prelude/Table), the result types
--     (Prelude/Results) and what their steps keep (Prelude/Steps). Scenario and Tests:
--     a concrete machine and provider, and runs on them.
--
-- How it is modelled. A method that changes state takes the state and returns an outcome: a value
-- or an error, with the new state on both paths (Prelude/Results). The state of a workflow is the
-- store, the environment (machine, provider, clock, random source) and the progress events.
-- Everything that acts outside the process is a field of an interface, an argument of the workflow;
-- the theorems hold for every such argument, or name what they need of it. Every loop of the
-- modelled code runs over a list, except the paging loop of Push, which recurses on the number of
-- files as fuel: a page takes at least one file, so it never runs out (Transfer/Paging). The origin
-- key of internal/repository is an argument of the work context, and the JSON encoding of a page is
-- an argument of Push. A number of changed files is an integer, which may be negative. A time is a
-- number, 0 for the zero time. A text is its bytes where its bytes matter. An error has its code
-- and the format text of its message; causes and the arguments of messages are left out. Sorting is
-- a stable insertion sort.
--
-- Not modelled: failures of the database itself, opening, backup and migration of the inventory,
-- the rows of source access, the text form of times and lists, random identifiers, the catalogue of
-- the provider, cancellation, and the parts of the program outside these packages: the adapters to
-- OpenSSH, to the provider and to the operating system, the host protocol, the capture of a
-- checkout and its application to a directory, the life cycle of Worktrees, tmux, self-update, and
-- the command line.
pub mod Prelude
pub mod Semver
pub mod Box
pub mod Acquisition
pub mod Inventory
pub mod Link
pub mod Scenario
pub mod Repository
pub mod Session
pub mod WorkContext
pub mod Transfer
pub mod Credentials
pub mod Tests
