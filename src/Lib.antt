-- ===== src/Lib.antt =====
-- Registration of managed clusters on a hub.
--
-- The program is three processes. On the hub, controllers accept clusters, approve the renewal of
-- their agents' certificates, watch their leases, and clean up after them (pkg/hub). Webhooks check
-- and complete the objects that users write (pkg/webhook). On each managed cluster an agent creates
-- its cluster on the hub, obtains and rotates a client certificate (pkg/clientcert), and reports
-- leases, health and claims (pkg/spoke). They meet only in the objects of the hub's API server: an
-- administrator sets `hubAcceptsClient`, which a webhook allows; the hub's controller then applies
-- the cluster's roles and sets the condition HubAcceptedManagedCluster; that condition starts the
-- agent's lease routine, and the hub's lease controller reads the lease.
--
-- The files and the code they model:
--   Base                    lists, maps and the tests of texts and numbers
--   Kube                    API objects, API calls and their errors, and the client interfaces
--   Helpers.Status          pkg/helpers/helpers.go: status updates, predicates
--   Helpers.Cleanup         pkg/helpers/helpers.go: removal of manifests and of binding subjects
--   Helpers.Assets          pkg/helpers/helpers.go: manifest files made of templates
--   Hub.ManagedCluster      pkg/hub/managedcluster/controller.go
--   Hub.RbacFinalizer       pkg/hub/rbacfinalizerdeletion/controller.go
--   Hub.Csr                 pkg/hub/csr/controller.go, pkg/hub/user/identity.go
--   Hub.Lease               pkg/hub/lease/controller.go
--   Hub.ClusterSet          pkg/hub/managedclusterset/controller.go
--   Hub.ClusterRole         pkg/hub/clusterrole/controller.go
--   Hub.AddOnHealth         pkg/hub/addon/healthcheck_controller.go
--   Webhook.Cluster         pkg/webhook/cluster
--   Webhook.ClusterSetBinding  pkg/webhook/clustersetbinding
--   ClientCert.Certificate  pkg/clientcert/certificate.go
--   ClientCert.Controller   pkg/clientcert/cert_controller.go
--   Spoke.Lease             pkg/spoke/managedcluster/lease_controller.go
--   Spoke.Creating          pkg/spoke/managedcluster/creating_controller.go
--   Spoke.Joining           pkg/spoke/managedcluster/joining_controller.go
--   Spoke.HealthCheck       pkg/spoke/managedcluster/healthcheck_controller.go
--   Spoke.Claims            pkg/spoke/managedcluster/claim_controller.go
--   Spoke.Registration      pkg/spoke/managedcluster/registration.go
--   Spoke.Secret            pkg/spoke/managedcluster/secret_controller.go
--   Spoke.Agent             pkg/spoke/spokeagent.go
--   Spoke.AddOn             pkg/spoke/addon
--   Wiring                  what the controllers watch, pkg/hub/manager.go, pkg/features and the
--                           controllers that pkg/spoke/spokeagent.go starts
--   Protocol                pkg/hub and pkg/spoke together, on one API server
--   Tests                   instances and runs on small inputs
-- The lemmas about a module stand in the modules below it.
--
-- A controller's `sync` is a function `sync` of its module. It runs in `Exec`: from the trace of all
-- API calls and events before it to a result or an error, and the trace after it. An API server and
-- an informer's cache are records of answers that may depend on the whole trace before the call, so
-- the theorems hold whatever other processes do in between and whatever a call answers. A controller
-- with fields of its own passes them as a record beside the trace.
--
-- Go's nil and its error results are `Option` and `Result`. An int32 is its bit pattern, and a
-- product wraps around at 2 ^ 32. Times are numbers of seconds. A random number is an argument.
-- The vendored packages are parameters: condition lists and semantic equality (`Machinery`, with the
-- laws `IsMachinery`), the retry on conflicts (`IsRetry`), decoding of JSON, YAML and PEM, URL
-- parsing and cryptography. The number of retries is that of `IsRetry`, and is arbitrary.
-- Error texts are shortened where only their being errors matters, and log lines are left out.
--
-- The agent's file system is a map of files beside the trace, and its operations may fail. The start
-- of the agent is a step relation, in which the bootstrap controller, the copy of the secret, the
-- poll and the passing of time take turns in any order; so is what the add-on registration
-- controller reaches by runs for any keys and with any answers. Where runs of the hub and of the
-- agent meet, the server is assumed to keep and to answer what is written (`IsServer` and
-- `IsLeaseServer`), and the caches to be up to date.
--
-- A constructor of a controller is the record of what it passes to library-go: the informers with
-- the filter and the queue key of their events, and the period of the resyncs. The server makes the
-- name of a request of its prefix and may cut a long one (`KeepsShortPrefixes`).
--
-- The maximal number of custom claims is a natural number, though the flag is an int. The call that
-- applies a manifest carries the file without the name of the cluster, since a run is for one cluster.
--
-- Not modelled: the delivery of events from the informers to the queues and the retries of queues,
-- the clock of periodic routines, the start of the processes and their flags, and the generated
-- manifests.
pub mod Base
pub mod Kube
pub mod Helpers
pub mod Hub
pub mod Webhook
pub mod ClientCert
pub mod Spoke
pub mod Wiring
pub mod Protocol
mod Tests
