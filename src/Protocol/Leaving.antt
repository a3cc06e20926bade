-- ===== src/Protocol/Leaving.antt =====
-- A cluster that is deleted is cleaned up and released by the hub.
use ocm_registration.Base.{
  String, ◌<>◌, Bool, true, false, List, ◌∷◌, ◌≡◌, ◌∙◌, sym, ap, subst, inr, arith, All, contains,
  contains-keep_if, contains-any, length-keep_if-lt, ◌==◌, string_eq, not,
}
use ocm_registration.Kube.{
  Err, Result, ok, Exec, Trace, update_cluster, Manifest, Machinery, IsMachinery, ClusterApi,
  RbacApi, ManagedCluster, ManagedClusterStatus,
}
use ocm_registration.Helpers.Cleanup.{
  clean_up_managed_cluster_manifests, clean_up_group_from_cluster_role_bindings,
}
use ocm_registration.Helpers.Cleanup.Succeeds.{
  IsRbacServer, HasFile, clean_up_files-nil, cluster_bindings_done, bindings_done,
}
use ocm_registration.Hub.ManagedCluster.{
  managed_cluster_finalizer, other_finalizers, static_files, remove_managed_cluster_resources,
  remove_managed_cluster_finalizer, sync,
}
use ocm_registration.Hub.ManagedCluster.Removed.{
  IsCleanedUp, IsCleanedUp-Grows, remove_managed_cluster_resources-IsCleanedUp,
}
use ocm_registration.Hub.ManagedCluster.Deletion.{sync-deleting, without_finalizer}
use ocm_registration.Protocol.Server.{IsServer}

module _ (m : Machinery) (k : IsMachinery m) (name : String) (clusters : ClusterApi)
    (server : IsServer name clusters) (rbac : RbacApi) (rbac_server : IsRbacServer rbac)
    (retry : Exec (ManagedClusterStatus × Bool) → Exec (ManagedClusterStatus × Bool))
    (asset : String → String → Result String) (decode : String → Result Manifest)
    (error_text : Err → String) where
  removal_done :
      All (HasFile (asset name) decode) static_files
      → (h : Trace)
      → (remove_managed_cluster_resources m clusters rbac retry asset decode error_text name h).0
        ≡ ok tt
  unfolding remove_managed_cluster_resources clean_up_managed_cluster_manifests
  removal_done files h =
      let group = "system:open-cluster-management:" <> name in
      let first = clean_up_managed_cluster_manifests m rbac (asset name) decode static_files h in
      let second = clean_up_group_from_cluster_role_bindings rbac group first.1 in
      let none_left =
        clean_up_files-nil rbac rbac_server m (asset name) decode static_files h files in
      let cleaned : first.0 ≡ ok tt = ground (arith, none_left, k.aggregate-nil) in
      ground (
        arith,
        cleaned,
        cluster_bindings_done rbac rbac_server group first.1,
        bindings_done rbac rbac_server group second.1,
        k.aggregate-nil,
      )

  other_finalizers-lack :
      (fs : List String) → contains (other_finalizers fs) managed_cluster_finalizer ≡ false
  other_finalizers-lack fs = ground (
    arith,
    contains-keep_if (λ f. not (f == managed_cluster_finalizer)) fs managed_cluster_finalizer,
  )

  -- A cluster that is being deleted leaves in one run of the hub: the run succeeds, every manifest of
  -- the cluster is gone, every binding that the run listed is deleted, if no subject but the group of
  -- the cluster was left, or written without the group, if it had it, and the cluster on the server
  -- does not have the clean-up finalizer any more. The files of its manifests are there and of kinds
  -- that are handled, and the server refuses nothing, but may have lost a manifest.
  pub cluster_leaves :
      All (HasFile (asset name) decode) static_files
      → (h : Trace) → (server.stored h).deleting ≡ true
      → contains (server.stored h).finalizers managed_cluster_finalizer ≡ true
      → let out = sync m clusters rbac retry asset decode error_text name h in
        (out.0 ≡ ok tt)
        × IsCleanedUp m rbac asset decode name h out.1
        × (contains (server.stored out.1).finalizers managed_cluster_finalizer ≡ false)
  unfolding remove_managed_cluster_finalizer
  cluster_leaves files h gone present =
      let c = server.stored h in
      let out =
        remove_managed_cluster_resources m clusters rbac retry asset decode error_text name h in
      let done = removal_done files h in
      let step =
        sync-deleting m clusters rbac retry asset decode error_text name h (server.lists h) gone in
      let end : sync m clusters rbac retry asset decode error_text name h ≡ (
        ok tt,
        update_cluster (without_finalizer m clusters rbac retry asset decode error_text c) ∷ out.1,
      ) =
        step
        ∙ ground (
          arith,
          done,
          present,
          contains-any c.finalizers managed_cluster_finalizer,
          length-keep_if-lt (λ (f : String). f == managed_cluster_finalizer) c.finalizers,
          server.updates out.1 (without_finalizer m clusters rbac retry asset decode error_text c),
        ) in
      (
        ap (λ (x : Result (Unit {0}) × Trace). x.0) end,
        subst (λ (x : Result (Unit {0}) × Trace). IsCleanedUp m rbac asset decode name h x.1)
            (sym end)
            (IsCleanedUp-Grows m rbac asset decode name h out.1
              (update_cluster (without_finalizer m clusters rbac retry asset decode error_text c)
                ∷ out.1)
              (λ c g a. inr a)
              (remove_managed_cluster_resources-IsCleanedUp m rbac asset decode k clusters retry
                error_text name h done)),
        ap
              (λ (x : Result (Unit {0}) × Trace).
                contains (server.stored x.1).finalizers managed_cluster_finalizer)
              end
            ∙ ap (λ (x : ManagedCluster). contains x.finalizers managed_cluster_finalizer)
                (server.stored-update out.1
                  (without_finalizer m clusters rbac retry asset decode error_text c))
            ∙ other_finalizers-lack c.finalizers,
      )
