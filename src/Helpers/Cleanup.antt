-- ===== src/Helpers/Cleanup.antt =====
-- pkg/helpers/helpers.go: the clean-up of a cluster's manifests and of the bindings that name its
-- group. `asset` reads a manifest file and `decode` makes an object of its text.
pub mod Manifests
pub mod Each
pub mod Bindings
pub mod Calls
pub mod Succeeds
use ocm_registration.Base.{
  String, ◌<>◌, Bool, true, false, List, [], ◌∷◌, Option, none, some, ◌==◌, string_eq, nat_eq, not,
  ◌&&◌, length, keep_if, if◌then◌else◌,
}
use ocm_registration.Kube.{
  Err, Result, ok, err, failure, is_not_found, Exec, Trace, Machinery, RbacApi, Manifest,
  namespace_manifest, role_manifest, role_binding_manifest, cluster_role_manifest,
  cluster_role_binding_manifest, other_manifest, RoleBinding, Subject, result_of, event, request,
  ◌>>=◌, ◌>>◌, pure, record_event, delete_manifest, list_cluster_role_bindings,
  delete_cluster_role_binding, update_cluster_role_binding, list_role_bindings, delete_role_binding,
  update_role_binding,
}

abbrev manifest_kind : Manifest → String
manifest_kind (namespace_manifest name) = "Namespace"
manifest_kind (role_manifest namespace name) = "Role"
manifest_kind (role_binding_manifest namespace name) = "RoleBinding"
manifest_kind (cluster_role_manifest name) = "ClusterRole"
manifest_kind (cluster_role_binding_manifest name) = "ClusterRoleBinding"
manifest_kind (other_manifest kind) = kind

abbrev pub is_handled : Manifest → Bool
is_handled (other_manifest kind) = false
is_handled _ = true

abbrev pub and_errors : Option Err → List Err → List Err
and_errors none errs = errs
and_errors (some e) errs = e ∷ errs

module _ (api : RbacApi) where
  -- The `switch` on the object's type, and the tests of the error after it.
  unfoldable pub clean_up_object : Manifest → Trace → Option Err × Trace
  clean_up_object o h =
      if is_handled o
      then elim (api.delete_manifest h o) [
        | ok _ ↦
            (none, event ("ManagedCluster" <> manifest_kind o <> "Deleted") ∷ delete_manifest o ∷ h)
        | err e ↦ ((if is_not_found e then none else some e), delete_manifest o ∷ h)
      ]
      else (some (failure ("unhandled type " <> manifest_kind o)), h)

module _ (m : Machinery) (api : RbacApi) (asset : String → Result String)
    (decode : String → Result Manifest) where
  -- One round of the loop, with the error that it appends.
  unfoldable pub clean_up_file : String → Trace → Option Err × Trace
  unfolding clean_up_object
  clean_up_file file h = elim (asset file) [
    | err e ↦ (some e, h)
    | ok raw ↦ elim (decode raw) [ err e ↦ (some e, h) | ok o ↦ clean_up_object api o h ]
  ]

  unfoldable pub clean_up_files : List String → Trace → List Err × Trace
  unfolding clean_up_file
  clean_up_files [] h = ([], h)
  clean_up_files (file ∷ files) h =
      let (e, h') = clean_up_file file h in
      let (errs, h'') = clean_up_files files h' in (and_errors e errs, h'')

  unfoldable pub clean_up_managed_cluster_manifests : List String → Exec (Unit {0})
  unfolding clean_up_files
  clean_up_managed_cluster_manifests files h =
      let (errs, h') = clean_up_files files h in (result_of (m.new_multi_line_aggregate errs), h')

-- The subject is the group of the managed cluster.
abbrev pub is_group : String → Subject → Bool
is_group group s = s.kind == "Group" && s.name == group

abbrev pub other_subjects : String → List Subject → List Subject
other_subjects group = keep_if (λ s. not (is_group group s))

module _ (api : RbacApi) (group : String) where
  clean_up_cluster_role_binding : RoleBinding → Exec (Unit {0})
  clean_up_cluster_role_binding b =
      let new_subjects = other_subjects group b.subjects in
      if length new_subjects == 0
      then (do
        request (delete_cluster_role_binding b.name) (λ h. api.delete_cluster_role_binding h b.name)
        record_event "ClusterRoleBindingDeleted")
      else if not (length new_subjects == length b.subjects)
      then (do
        let updated = record b { subjects = new_subjects }
        request (update_cluster_role_binding updated)
            (λ h. api.update_cluster_role_binding h updated)
        record_event "ClusterRoleBindingUpdated")
      else pure tt

  clean_up_cluster_role_binding_items : List RoleBinding → Exec (Unit {0})
  unfolding clean_up_cluster_role_binding
  clean_up_cluster_role_binding_items [] = pure tt
  clean_up_cluster_role_binding_items (b ∷ bs) = do
    clean_up_cluster_role_binding b
    clean_up_cluster_role_binding_items bs

  unfoldable pub clean_up_group_from_cluster_role_bindings : Exec (Unit {0})
  unfolding clean_up_cluster_role_binding_items
  clean_up_group_from_cluster_role_bindings = do
    items ← request list_cluster_role_bindings api.list_cluster_role_bindings
    clean_up_cluster_role_binding_items items

  clean_up_role_binding : RoleBinding → Exec (Unit {0})
  clean_up_role_binding b =
      let new_subjects = other_subjects group b.subjects in
      if length new_subjects == 0
      then (do
        request (delete_role_binding b.namespace b.name)
            (λ h. api.delete_role_binding h b.namespace b.name)
        record_event "RoleBindingDeleted")
      else if not (length new_subjects == length b.subjects)
      then (do
        let updated = record b { subjects = new_subjects }
        request (update_role_binding updated) (λ h. api.update_role_binding h updated)
        record_event "RoleBindingUpdated")
      else pure tt

  clean_up_role_binding_items : List RoleBinding → Exec (Unit {0})
  unfolding clean_up_role_binding
  clean_up_role_binding_items [] = pure tt
  clean_up_role_binding_items (b ∷ bs) = do clean_up_role_binding b; clean_up_role_binding_items bs

  unfoldable pub clean_up_group_from_role_bindings : Exec (Unit {0})
  unfolding clean_up_role_binding_items
  clean_up_group_from_role_bindings = do
    items ← request list_role_bindings api.list_role_bindings
    clean_up_role_binding_items items
