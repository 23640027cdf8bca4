-- ===== src/Lib.antt =====
-- kshutdown: groups of Kubernetes workloads that are shut down and started up together.
--
-- A ShutdownGroup names target workloads (Deployments, StatefulSets, CronJobs) by namespace and label
-- selector. A user asks for a shutdown or a startup by an annotation on the group. The admission
-- webhook adds who asks and checks that this user may patch the workloads; the reconciler records the
-- replicas in the group's status, scales the workloads down, and restores them on a startup.
--
-- The Kubernetes client is a parameter, `Api.Client`: a state, the calls that the program makes, and
-- the `World` that a state shows (the group objects, the replicas or the suspension of every workload,
-- the listings by selector, and the authorizer's answers). `IsLawful C MayFail` is what the code relies
-- on: a read returns what is there, a patch changes its one object or fails and changes nothing, and a
-- call on an object that is there fails only if `MayFail` holds. So `MayFail = ⊥` is a client whose
-- calls do not fail, and other values of it leave every call free to. Calls return a `Result` with the
-- next state (`Base.Effects`), so that a failure part of the way through an operation leaves the writes
-- before it.
--
-- Files, and the code they are about:
--   * Base: shared names; Base.Lists, Base.Tests: lists and tests over the native numbers; Base.GoMap:
--     a Go map of strings; Base.Text: strings.Split, SplitN, Join and TrimSpace; Base.Effects:
--     (value, error) results, early returns and fmt.Errorf wrapping.
--   * Api: api/v1alpha1/shutdowngroup_types.go and constants.go. Api.Client: the client. Api.Reads:
--     calls that only read.
--   * Store: what pointers, slices and maps refer to (Layout is how a value is read through it, Deep what
--     a deep copy is). Api.DeepCopy: zz_generated.deepcopy.go over the store; Cells has the API types with
--     their references, Layouts what they stand for, Laws and Later what the copies do.
--   * Authz: internal/authz/sar.go, `CheckFor`, and the `sarCheck` methods.
--   * Targets: the loops over a group's targets, which `collectTargets`, `checkDownTargets` and
--     `checkDownPermissions` share, with the loop's body as an argument.
--   * Controller: internal/controller/shutdowngroup_controller.go. Collect is `collectTargets`;
--     Workloads is `scaleToZero`, `suspendCronJob`, `restoreReplicas`, `unsuspendCronJob` and the two
--     loops over the snapshot; Group is `appendHistory`, `consumeAnnotations` and the status patches;
--     Reconcile is `reconcileDown`, `reconcileUp` and `Reconcile`, where Written describes the stored
--     group field by field and Ends says how the two end. Stored is `appendHistory` and
--     `consumeAnnotations` over the store, where the copy for MergeFrom and the object can share cells.
--   * Webhook: internal/webhook/shutdowngroup_webhook.go. The mutator's `Default`, and the validator's
--     `ValidateCreate`, `ValidateUpdate`, `validateCommand`, `checkDownTargets` and `checkUpTargets`.
--   * Authz.Caller: internal/authz/selfsar.go, `CheckPatch` and `CurrentUsername`.
--   * System: runs of `Reconcile` with changes of the object between them. Invariant and Preservation
--     are its invariant, Trace has the theorems over runs, Progress (with Reading) one run where calls
--     do not fail, Cycle a shutdown and the startup after it, Triggered and Restarted a shutdown and a
--     startup from the plugin through the webhooks to the workloads, Unmutated a shutdown that the mutator
--     has not seen, Unreviewed an update that keeps a pending shutdown, and Shown what the plugin then shows.
--   * Command: cmd/kubectl-kshutdown/down.go and up.go, the two commands and `checkDownPermissions`.
--     What they print is an outcome, and `clientFactory` is a parameter; Sent is the patch that they send, and
--     Full and Admitted relate the shutdown to the webhooks. Command.Define: define.go,
--     `parseLabelSelector` and the command, with the client's Create as a parameter. Command.Show:
--     the commands of list.go, status.go and history.go, which return what they print. Command.Age:
--     `formatAge` of list.go. Command.Export: export.go, with the YAML writer as a parameter.
--     Command.Clients: `newClients` of main.go. Command.Line: the flags of main.go and of the commands.
--     Command.Main: `main` for one command, with cobra as a parameter; IsCobra is what is relied on.
--   * Manager: cmd/main.go, the options that the flags give (Http) and the order of the set-up (Order),
--     over controller-runtime as a parameter.
--   * Tests: a client over an in-memory cluster, with a proof that it is lawful, one whose calls can
--     fail (Faulty), and the theorems at concrete groups of them.
--
-- The loops are recursion on lists, so there is no fuel. An int32 is the number of its bit pattern: the
-- code only copies such values and compares them with 0. A timestamp is the clock's value at the start
-- of a call; the code reads the clock again for each field. A dependent type, `Spec`, gives each type
-- of workload the field that is patched: the replicas pointer, or the suspend pointer of a CronJob.
--
-- A duration is a whole number of nanoseconds, and the float arithmetic of `formatAge` is read as exact.
--
-- Not modelled: logging, what SetupWithManager and the webhooks' set-up register with controller-runtime,
-- the parsing of the manager's flags, scheme registration, cobra's choice of a command by its name, and
-- the layout of what the kubectl plugin prints. Object and list metadata are the parts that the code
-- reads. Outside Store, Api.DeepCopy and Controller.Stored, values hold no references. Reads show the
-- current state: the delay of the manager's read cache is left out.
pub mod Base
pub mod Store
pub mod Api
pub mod Targets
pub mod Authz
pub mod Controller
pub mod Webhook
pub mod Command
pub mod System
pub mod Manager
pub mod Tests
