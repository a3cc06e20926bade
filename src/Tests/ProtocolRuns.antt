-- ===== src/Tests/ProtocolRuns.antt =====
-- A cluster that joins through a server that keeps what is written.
use ocm_registration.Base.{
  ◌<>◌, string_eq, contains, inl, ℕ, String, true, false, List, [], ◌∷◌, some, ◌≡◌, refl, arith,
}
use ocm_registration.Kube.{
  Result, ok, Trace, Call, update_cluster, update_cluster_status, ClusterApi, LeaseApi, Lease,
  create_lease, update_lease, Manifest, At, ClusterClaim, other_manifest, namespace_manifest,
  ManagedCluster, RoleBinding, RbacApi,
}
use ocm_registration.Hub.ManagedCluster.{
  hub_accepted, accepted_condition, managed_cluster_finalizer, manifest_dir,
}
use ocm_registration.Hub.ManagedCluster as Hub
use ocm_registration.Hub.ManagedCluster.Removed.{IsCleanedUp}
use ocm_registration.Hub.Lease.{check_cluster}
use ocm_registration.Spoke.Lease.{update}
use ocm_registration.Spoke.HealthCheck.{Answer, sync}
use ocm_registration.Spoke.Claims.{joined}
use ocm_registration.Spoke.Joining.{Node, joined_condition}
use ocm_registration.Protocol.Server.{IsServer, writes_cluster}
use ocm_registration.Protocol.Accepting.{IsTrue, run}
use ocm_registration.Protocol.Heartbeat.{
  IsLeaseServer, writes_lease, Alive, begin, renew, check, Alive-no_status,
}
use ocm_registration.Protocol.Settling.{Settles, third_run-writes}
use ocm_registration.Protocol.Recovering.{Reports, sync-Reports}
use ocm_registration.Protocol.Lapsing.{IsUnknown, check_cluster-IsUnknown}
use ocm_registration.Protocol.Joining.{join, cluster_joins}
use ocm_registration.Protocol.Exposing.{HasBoth, expose, check_health, either_order}
use ocm_registration.Helpers.Assets.{managed_cluster_asset_fn}
use ocm_registration.Protocol.Leaving.{cluster_leaves}
use ocm_registration.Helpers.Cleanup.Succeeds.{IsRbacServer, HasFile}
use ocm_registration.Tests.Fixtures.{
  machinery, machinery_laws, machinery_compares, machinery_claims, retry, retry_is_retry,
}
use ocm_registration.Tests.Apis.{cluster_with, has_bindings, error_text}

abbrev first : ManagedCluster
first = cluster_with "c1" [] false true []

abbrev stored_after : Trace → ManagedCluster
stored_after [] = first
stored_after (update_cluster c ∷ h) = record c { status = (stored_after h).status }
stored_after (update_cluster_status c ∷ h) = record (stored_after h) { status = c.status }
stored_after (_ ∷ h) = stored_after h

abbrev store : ClusterApi
store = record {
  get = λ h name. ok (stored_after h);
  create = λ h new. ok new;
  update = λ h new. ok new;
  update_status = λ h new. ok new;
  lister_get = λ h name. ok (stored_after h);
  lister_list = λ h. ok (stored_after h ∷ []);
}

stored_after_other :
    (h : Trace) (c : Call) → writes_cluster c ≡ false → stored_after (c ∷ h) ≡ stored_after h
stored_after_other h c p = ground (arith, p)

abbrev server : IsServer "c1" store
server = record {
  stored = stored_after;
  gets = λ h. refl;
  lists = λ h. refl;
  updates = λ h c. refl;
  update_status = λ h c. refl;
  stored-update = λ h c. refl;
  stored-update_status = λ h c. refl;
  stored_other = stored_after_other;
}

abbrev node_lister : Trace → Result (List Node)
node_lister h = ok []

abbrev server_version : Trace → Result String
server_version h = ok "v1"

abbrev as_int64 : ℕ → ℕ
as_int64 q = q

abbrev asset : String → String → Result String
asset name file = ok file

abbrev decode : String → Result Manifest
decode text = ok (other_manifest text)

cluster_joins_example :
    let hub =
      run machinery machinery_laws machinery_compares "c1" store server
        (has_bindings [])
        retry_is_retry
        asset
        decode
        error_text in
    let h' = hub (hub []) in
    let out =
      join machinery machinery_laws machinery_compares "c1" store server retry_is_retry node_lister
        server_version as_int64 some h' in
    (out.0 ≡ ok tt)
    × IsTrue machinery machinery_laws machinery_compares "c1" store server hub_accepted out.1
    × IsTrue machinery machinery_laws machinery_compares "c1" store server joined out.1
cluster_joins_example =
    cluster_joins machinery machinery_laws machinery_compares "c1" store server retry_is_retry
      node_lister server_version as_int64 some (has_bindings []) asset decode error_text [] [] "v1"
      (refl, refl) refl refl

abbrev lease_after : Trace → Lease
lease_after [] = record {
  namespace = "c1";
  name = "managed-cluster-lease";
  labels = [];
  holder_identity = "managed-cluster-lease";
  renew_time = 0;
}
lease_after (create_lease l ∷ h) = l
lease_after (update_lease l ∷ h) = l
lease_after (_ ∷ h) = lease_after h

abbrev lease_store : LeaseApi
lease_store = record {
  get = λ h namespace name. ok (lease_after h);
  create = λ h new. ok new;
  update = λ h new. ok new;
  lister_get = λ h namespace name. ok (lease_after h);
}

lease_after_other :
    (h : Trace) (c : Call) → writes_lease c ≡ false → lease_after (c ∷ h) ≡ lease_after h
lease_after_other h c p = ground (arith, p)

abbrev lease_server : IsLeaseServer "c1" lease_store
lease_server = record {
  stored = lease_after;
  gets = λ h. refl;
  lists = λ h. refl;
  updates = λ h l. refl;
  stored-update = λ h l. refl;
  stored_other = lease_after_other;
}

abbrev accepted_cluster : ManagedCluster
accepted_cluster = cluster_with "c1" [] false true (accepted_condition ∷ [])

-- Rounds at 100 and 160, and a check at 400.
abbrev checked : Trace
checked =
    let h = (update lease_store "c1" 160 (update lease_store "c1" 100 []).1).1 in
    (check_cluster machinery store lease_store retry 400 accepted_cluster h).1

alive : Alive machinery store lease_store retry "c1" lease_server [] 160 checked
alive =
    check 160 400 accepted_cluster _ (renew 100 160 _ (begin 100)) refl (ground arith)
      (ground arith)

Alive-no_status_example :
    ((lease_after checked).renew_time ≡ 160)
    × ((updated : ManagedCluster) (g : Trace)
        → At (update_cluster_status updated) g checked
        → At (update_cluster_status updated) g [])
Alive-no_status_example =
    Alive-no_status machinery store lease_store retry "c1" lease_server [] 160 checked alive

check_cluster-IsUnknown_example :
    let out = check_cluster machinery store lease_store retry 300 accepted_cluster [] in
    (out.0 ≡ ok tt)
    × IsUnknown machinery machinery_laws machinery_compares "c1" store server lease_store
        retry_is_retry 300 out.1
unfolding string_eq
check_cluster-IsUnknown_example =
    check_cluster-IsUnknown machinery machinery_laws machinery_compares "c1" store server
      lease_store retry_is_retry 300 accepted_cluster [] refl (ground arith) refl
      (lease_after [], refl, ground arith) (lease_after [], refl, ground arith)

abbrev hub_run : Trace → Trace
hub_run =
    run machinery machinery_laws machinery_compares "c1" store server (has_bindings [])
      retry_is_retry asset decode error_text

third_run-writes_example :
    Settles machinery machinery_laws machinery_compares "c1" store server
      (has_bindings [])
      retry_is_retry
      asset
      decode
      error_text
      (hub_run (hub_run []))
      (hub_run (hub_run (hub_run [])))
unfolding ocm_registration.Hub.ManagedCluster.sync
third_run-writes_example =
    third_run-writes machinery machinery_laws machinery_compares "c1" store server (has_bindings [])
      retry_is_retry asset decode error_text [] (refl, refl) refl

abbrev number_text : ℕ → String
number_text n = "0"

abbrev livez : Answer
livez = record { status_code = 403; raw = ok "" }

abbrev healthz : Answer
healthz = record { status_code = 200; raw = ok "" }

sync-Reports_example :
    let out = sync machinery store retry number_text error_text "c1" livez healthz [] in
    (out.0 ≡ ok tt)
    × Reports machinery machinery_laws machinery_compares "c1" store server retry_is_retry
        number_text error_text livez healthz
        (stored_after [])
        (stored_after out.1)
sync-Reports_example =
    sync-Reports machinery machinery_laws machinery_compares "c1" store server retry_is_retry
      number_text error_text livez healthz []

-- A group is bound with another one, and alone.
abbrev shared_binding : RoleBinding
shared_binding = record {
  namespace = "c1";
  name = "shared";
  finalizers = [];
  deleting = false;
  subjects =
      record { kind = "Group"; namespace = ""; name = "system:open-cluster-management:c1" }
      ∷ record { kind = "Group"; namespace = ""; name = "others" }
      ∷ [];
}

abbrev bindings : RbacApi
bindings = has_bindings (shared_binding ∷ [])

rbac_server : IsRbacServer bindings
rbac_server = record {
  deletes = λ h o. inl refl;
  lists_cluster = λ h. (shared_binding ∷ [], refl);
  lists = λ h. (shared_binding ∷ [], refl);
  deletes_cluster_binding = λ h name. refl;
  updates_cluster_binding = λ h b. (b, refl);
  deletes_binding = λ h namespace name. refl;
  updates_binding = λ h b. (b, refl);
}

abbrev decode_namespace : String → Result Manifest
decode_namespace text = ok (namespace_manifest text)

abbrev deleted : Trace
deleted = update_cluster (cluster_with "c1" (managed_cluster_finalizer ∷ []) true true []) ∷ []

-- Each template makes a file with the name of the cluster.
abbrev cluster_asset : String → String → Result String
cluster_asset =
    managed_cluster_asset_fn (λ dir file. dir <> "/" <> file) (λ path. path)
      (λ file template cluster. cluster) manifest_dir

cluster_leaves_example :
    let out =
      Hub.sync machinery store bindings retry cluster_asset decode_namespace error_text "c1"
        deleted in
    (out.0 ≡ ok tt)
    × IsCleanedUp machinery bindings cluster_asset decode_namespace "c1" deleted out.1
    × (contains (stored_after out.1).finalizers managed_cluster_finalizer ≡ false)
unfolding string_eq
cluster_leaves_example =
    let file : HasFile (cluster_asset "c1") decode_namespace "" =
      ("c1", namespace_manifest "c1", refl, refl, refl) in
    cluster_leaves machinery machinery_laws "c1" store server bindings rbac_server retry
      cluster_asset decode_namespace error_text (file, (file, (file, (file, tt)))) deleted refl refl

abbrev claims : List ClusterClaim
claims = record { name = "b"; value = "" } ∷ record { name = "id.k8s.io"; value = "7" } ∷ []

abbrev claim_lister : Trace → Result (List ClusterClaim)
claim_lister h = ok claims

abbrev after_join : Trace
after_join = update_cluster_status (cluster_with "c1" [] false true (joined_condition ∷ [])) ∷ []

abbrev run_claims : Trace → Result (Unit {0}) × Trace
run_claims =
    expose machinery machinery_laws machinery_compares machinery_claims "c1" store server
      retry_is_retry number_text error_text claim_lister ("id.k8s.io" ∷ []) 1

abbrev report_health : Trace → Result (Unit {0}) × Trace
report_health =
    check_health machinery machinery_laws machinery_compares machinery_claims "c1" store server
      retry_is_retry number_text error_text claim_lister ("id.k8s.io" ∷ []) 1 livez healthz

abbrev BothReported : Trace → Type 0
BothReported =
    HasBoth machinery machinery_laws machinery_compares machinery_claims "c1" store server
      retry_is_retry number_text error_text claim_lister ("id.k8s.io" ∷ []) 1 claims livez healthz
      after_join

either_order_example :
    let exposed_first = report_health (run_claims after_join).1 in
    let checked_first = run_claims (report_health after_join).1 in
    ((run_claims after_join).0 ≡ ok tt)
    × (exposed_first.0 ≡ ok tt)
    × BothReported exposed_first.1
    × ((report_health after_join).0 ≡ ok tt)
    × (checked_first.0 ≡ ok tt)
    × BothReported checked_first.1
unfolding string_eq
either_order_example =
    either_order machinery machinery_laws machinery_compares machinery_claims "c1" store server
      retry_is_retry number_text error_text claim_lister ("id.k8s.io" ∷ []) 1 claims livez healthz
      after_join (λ g. refl) refl
