-- ===== src/Lib.antt =====
-- kubeEphemerals: the operator that gives a pull request a short-lived environment.
--
-- An `EphemeralEnv` resource names a set of Helm charts, a gateway and a time to live. The reconciler
-- of internal/controller/ephemeralenv_controller.go creates a namespace for it, gives developers
-- access, isolates it, deploys the charts by the Helm client of internal/helm/client.go, finds the
-- service to publish, routes a host name to it, and cleans up after it when the environment
-- expires or is deleted. The types and the small computations on them are in api/v1alpha1. The server
-- of internal/ui shows the environments in dashboards and has an API to create, delete and extend
-- them, to read logs, to get a kubeconfig, and to keep templates.
--
-- Which file models which part:
--   Api/Types, Api/Template: api/v1alpha1/ephemeralenv_types.go and environmenttemplate_types.go.
--   Api/Helpers: api/v1alpha1/ephemeralenv_helpers.go, with its laws in Names and Ttl.
--   Kube/Objects, Kube/Client, Kube/Library: the Kubernetes objects that the code writes, the client
--     that it calls and the library functions that it uses. The client and the functions are not
--     part of the repository: they are records that every definition takes as a parameter, and a
--     theorem that relies on one of them states so as a hypothesis.
--   Kube/Trace: a client that writes each call with its answer into a log, the newest first.
--   Helm/Client, Helm/Mock: the interface `Client` and the `MockClient` of internal/helm/client.go,
--     and what the mock records in Recorded.
--   Helm/Sdk: its `SDKClient`, over the Helm SDK and the file system as a parameter; the files that it
--     takes for charts in Charts. Helm/Store is what a Helm client promises of its releases, which
--     Helm/Sdk/Store shows of this one and Controller/Components/Installed relies on.
--   Controller/Base: the `EphemeralEnvReconciler`, the state of a run, `reconcileStepOnError`.
--   Controller/Sanitize: `sanitizeName`.
--   Controller/Resources: `ensureNamespace`, `ensureDeveloperAccessRBAC`, `ensureNetworkPolicy`, and
--     in Isolated the meaning of a network policy.
--   Controller/Routes: `ensureHTTPRoute`, `ensureAdminHTTPRoute`, `ensureReferenceGrant`.
--   Controller/Components: `resolveComponents`, `getTemplate`, `deployComponent`,
--     `ensureHelmRelease`.
--   Controller/Discovery: `getPrimaryComponentName`, `discoverService`.
--   Controller/Cleanup: `cleanupNamespace`, `cleanupHTTPRoute`, `cleanupAdminHTTPRoute`,
--     `uninstallHelmRelease`, `handleDeletion`, `handleExpiration`.
--   Controller/Reconcile: `Reconcile` and `reconcileHelmFailed`; the order of its calls in the files
--     Activation, Guarded and Finalizer, its times in Requeue and Initial, and its end on a
--     cluster that serves it in Progress; the statuses that it writes, and the histories of an
--     environment that come of them, in Lifetime; the calls of its handlers in Handlers. Controller/Setup: `SetupWithManager`.
--   Controller/Frame, the files Frame of the components, and Controller/Traced: which calls a
--     function makes, so that a statement that those calls keep is kept by the function.
--   Ui/Http, Ui/Services: what the server uses of net/http, and what it calls, as parameters.
--   Ui/Config, Ui/Respond: the configuration and the `Server` of internal/ui/server.go, what its
--     handlers write, `renderTemplate`, `jsonResponse`, `jsonError`, `envContextMiddleware`.
--   Ui/Envs, Ui/Ttl, Ui/Pods, Ui/Logs, Ui/Router: its handlers for environments, for their lifetime,
--     for pods and for logs, and `setupRouter`. Ui/Funcs: `templateFuncs`. Ui/Setup: `NewServer` and
--     `Start`.
--   Ui/Kubeconfig: internal/ui/kubeconfig.go; with `resolveKubeconfigServerURL` of
--     internal/ui/server.go in Resolve and `handleKubeconfigByName` in Download.
--   Ui/Templates: internal/ui/templates.go, with `handleCreateTemplate` in Create.
--   Ui/Frame: what a handler keeps of the world, whatever it answers.
--   Cmd/Flags, Cmd/Options, Cmd/Main: the flags, the options made of them and `main` of cmd/main.go, over
--     controller-runtime as a parameter; with the calls noted in Cmd/Traced.
--   Exec, Prelude: Go functions that change state and return an error; shared names and lemmas.
--   Tests: a small cluster, and runs on it.
--
-- A run is a function on a `Session`: the client's world, which is the cluster with all that happens
-- in it between two calls, and the environment that the handlers change in place and pass on. A
-- function that returns an error is an `Exec`, which gives a result and the state after it, since what
-- was changed before an error stays changed. A handler gives an `Outcome`: the delay and the error
-- that `Reconcile` returns. A write of the environment that succeeds replaces it by what the server
-- stored, as the client does. A handler of the server is a function on an `Exchange`: the world and
-- the response, whose header is sent with the first status that is written. The loops of the code run
-- over lists and are structural recursions, but for the one over a stream of logs: it has fuel, gives
-- `none` when that is used up, and is shown to end with any fuel above a number that each read makes
-- smaller, such as the bytes that are left. Durations and instants are integers in nanoseconds;
-- `time.Until` saturates at the ends of an `int64`. Ports are plain numbers, since the schema of the
-- resource bounds them. A name is sanitised by its code points; of a character that is not ASCII each
-- byte is dropped.
--
-- Not modelled: the parsing of the flags, and the registration of the schemes in `init` of cmd/main.go;
-- the goroutine of `Start` that shuts the listener down; the matching of a request by a route, which is
-- gorilla/mux's; log output, contexts and cancellation, the closing of streams, and generated code: the
-- deep copies give values that are equal, and a value of the model is its own copy.
pub mod Prelude
pub mod Exec
pub mod Api
pub mod Kube
pub mod Helm
pub mod Controller
pub mod Ui
pub mod Cmd
pub mod Tests
