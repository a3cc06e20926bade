-- ===== src/Helpers/Cleanup/Calls.antt =====
-- What the clean-up calls: it lists, deletes, and writes bindings, and does nothing else.
use ocm_registration.Base.{String, Bool, true, false, List, [], ◌∷◌, inl, inr, arith}
use ocm_registration.Kube.{
  Result, Result-cases, Trace, Call, Only, Grows, Machinery, RbacApi, Manifest, RoleBinding,
  delete_manifest, list_cluster_role_bindings, delete_cluster_role_binding,
  update_cluster_role_binding, list_role_bindings, delete_role_binding, update_role_binding, event,
}
use ocm_registration.Helpers.Cleanup.{
  clean_up_file, clean_up_files, clean_up_managed_cluster_manifests, clean_up_cluster_role_binding,
  clean_up_cluster_role_binding_items, clean_up_group_from_cluster_role_bindings,
  clean_up_role_binding, clean_up_role_binding_items, clean_up_group_from_role_bindings,
}

abbrev pub is_cleanup : Call → Bool
is_cleanup (delete_manifest o) = true
is_cleanup list_cluster_role_bindings = true
is_cleanup (delete_cluster_role_binding name) = true
is_cleanup (update_cluster_role_binding b) = true
is_cleanup list_role_bindings = true
is_cleanup (delete_role_binding namespace name) = true
is_cleanup (update_role_binding b) = true
is_cleanup (event reason) = true
is_cleanup _ = false

module _ (m : Machinery) (api : RbacApi) (asset : String → Result String)
    (decode : String → Result Manifest) where
  clean_up_file-Only :
      (file : String) (h : Trace) → Only is_cleanup h (clean_up_file m api asset decode file h).1
  unfolding clean_up_file
  clean_up_file-Only file h c g p a = ground arith

  clean_up_files-Only :
      (files : List String) (h : Trace)
      → Only is_cleanup h (clean_up_files m api asset decode files h).1
  unfolding clean_up_files
  clean_up_files-Only [] h c g p a = a
  clean_up_files-Only (file ∷ files) h c g p a =
      clean_up_file-Only file h c g p (clean_up_files-Only files _ c g p a)

  pub clean_up_managed_cluster_manifests-Only :
      (files : List String) (h : Trace)
      → Only is_cleanup h (clean_up_managed_cluster_manifests m api asset decode files h).1
  unfolding clean_up_managed_cluster_manifests
  clean_up_managed_cluster_manifests-Only files h = clean_up_files-Only files h

module _ (api : RbacApi) (group : String) where
  clean_up_cluster_role_binding-Only :
      (b : RoleBinding) (h : Trace)
      → Only is_cleanup h (clean_up_cluster_role_binding api group b h).1
  unfolding clean_up_cluster_role_binding
  clean_up_cluster_role_binding-Only b h c g p a = ground arith

  clean_up_cluster_role_binding_items-Only :
      (bs : List RoleBinding) (h : Trace)
      → Only is_cleanup h (clean_up_cluster_role_binding_items api group bs h).1
  unfolding clean_up_cluster_role_binding_items
  clean_up_cluster_role_binding_items-Only [] h c g p a = a
  clean_up_cluster_role_binding_items-Only (b ∷ bs) h c g p a = ground (
    arith,
    clean_up_cluster_role_binding-Only b h c g p,
    clean_up_cluster_role_binding_items-Only bs (clean_up_cluster_role_binding api group b h).1 c g
        p,
  )

  pub clean_up_group_from_cluster_role_bindings-Only :
      (h : Trace) → Only is_cleanup h (clean_up_group_from_cluster_role_bindings api group h).1
  unfolding clean_up_group_from_cluster_role_bindings
  clean_up_group_from_cluster_role_bindings-Only h c g p a =
      elim (Result-cases (api.list_cluster_role_bindings h)) [
        | inl (items, listed) ↦ ground (
          arith,
          clean_up_cluster_role_binding_items-Only items (list_cluster_role_bindings ∷ h) c g p,
        )
        | inr (e, failed) ↦ ground arith
      ]

  clean_up_role_binding-Only :
      (b : RoleBinding) (h : Trace) → Only is_cleanup h (clean_up_role_binding api group b h).1
  unfolding clean_up_role_binding
  clean_up_role_binding-Only b h c g p a = ground arith

  clean_up_role_binding_items-Only :
      (bs : List RoleBinding) (h : Trace)
      → Only is_cleanup h (clean_up_role_binding_items api group bs h).1
  unfolding clean_up_role_binding_items
  clean_up_role_binding_items-Only [] h c g p a = a
  clean_up_role_binding_items-Only (b ∷ bs) h c g p a = ground (
    arith,
    clean_up_role_binding-Only b h c g p,
    clean_up_role_binding_items-Only bs (clean_up_role_binding api group b h).1 c g p,
  )

  pub clean_up_group_from_role_bindings-Only :
      (h : Trace) → Only is_cleanup h (clean_up_group_from_role_bindings api group h).1
  unfolding clean_up_group_from_role_bindings
  clean_up_group_from_role_bindings-Only h c g p a =
      elim (Result-cases (api.list_role_bindings h)) [
        | inl (items, listed) ↦
            ground (arith, clean_up_role_binding_items-Only items (list_role_bindings ∷ h) c g p)
        | inr (e, failed) ↦ ground arith
      ]

  clean_up_cluster_role_binding_items-Grows :
      (bs : List RoleBinding) (h : Trace)
      → Grows h (clean_up_cluster_role_binding_items api group bs h).1
  unfolding clean_up_cluster_role_binding_items
  clean_up_cluster_role_binding_items-Grows [] h c g a = a
  clean_up_cluster_role_binding_items-Grows (b ∷ bs) h c g a = ground (
    arith,
    clean_up_cluster_role_binding_items-Grows bs (clean_up_cluster_role_binding api group b h).1 c
        g,
  )

  pub clean_up_group_from_cluster_role_bindings-Grows :
      (h : Trace) → Grows h (clean_up_group_from_cluster_role_bindings api group h).1
  unfolding clean_up_group_from_cluster_role_bindings
  clean_up_group_from_cluster_role_bindings-Grows h c g a =
      elim (Result-cases (api.list_cluster_role_bindings h)) [
        | inl (items, listed) ↦ ground (
          arith,
          clean_up_cluster_role_binding_items-Grows items (list_cluster_role_bindings ∷ h) c g,
        )
        | inr (e, failed) ↦ ground arith
      ]

  clean_up_role_binding_items-Grows :
      (bs : List RoleBinding) (h : Trace) → Grows h (clean_up_role_binding_items api group bs h).1
  unfolding clean_up_role_binding_items
  clean_up_role_binding_items-Grows [] h c g a = a
  clean_up_role_binding_items-Grows (b ∷ bs) h c g a =
      ground
        (arith, clean_up_role_binding_items-Grows bs (clean_up_role_binding api group b h).1 c g)

  pub clean_up_group_from_role_bindings-Grows :
      (h : Trace) → Grows h (clean_up_group_from_role_bindings api group h).1
  unfolding clean_up_group_from_role_bindings
  clean_up_group_from_role_bindings-Grows h c g a = elim (Result-cases (api.list_role_bindings h)) [
    | inl (items, listed) ↦
        ground (arith, clean_up_role_binding_items-Grows items (list_role_bindings ∷ h) c g)
    | inr (e, failed) ↦ ground arith
  ]
