-- ===== src/Helpers/Cleanup/Succeeds.antt =====
-- pkg/helpers/helpers.go: the clean-up on a server that does what it is asked.
use ocm_registration.Base.{
  String, true, List, [], ◌∷◌, none, ◌≡◌, refl, ◌⊎◌, inl, inr, arith, All, string_eq, nat_eq,
}
use ocm_registration.Kube.{
  not_found, Result, ok, err, Trace, list_cluster_role_bindings, list_role_bindings, Manifest,
  Machinery, RbacApi, RoleBinding,
}
use ocm_registration.Helpers.Cleanup.{
  is_handled, clean_up_object, clean_up_file, clean_up_files, other_subjects,
  clean_up_cluster_role_binding, clean_up_cluster_role_binding_items,
  clean_up_group_from_cluster_role_bindings, clean_up_role_binding, clean_up_role_binding_items,
  clean_up_group_from_role_bindings,
}

-- The server lists bindings, deletes and writes what it is asked to, and deletes a manifest unless it
-- is gone already.
pub record IsRbacServer (rbac : RbacApi) : Type 0 where
  pub deletes :
      (h : Trace) (o : Manifest)
      → (rbac.delete_manifest h o ≡ ok tt) ⊎ (rbac.delete_manifest h o ≡ err not_found)
  pub lists_cluster :
      (h : Trace) → (bs : List RoleBinding) × (rbac.list_cluster_role_bindings h ≡ ok bs)
  pub lists : (h : Trace) → (bs : List RoleBinding) × (rbac.list_role_bindings h ≡ ok bs)
  pub deletes_cluster_binding :
      (h : Trace) (name : String) → rbac.delete_cluster_role_binding h name ≡ ok tt
  pub updates_cluster_binding :
      (h : Trace) (b : RoleBinding)
      → (c : RoleBinding) × (rbac.update_cluster_role_binding h b ≡ ok c)
  pub deletes_binding :
      (h : Trace) (namespace name : String) → rbac.delete_role_binding h namespace name ≡ ok tt
  pub updates_binding :
      (h : Trace) (b : RoleBinding) → (c : RoleBinding) × (rbac.update_role_binding h b ≡ ok c)

-- The file is there, and holds a manifest of a kind that the clean-up handles.
abbrev pub HasFile : (String → Result String) → (String → Result Manifest) → String → Type 0
HasFile asset decode file =
    (raw : String) × (o : Manifest) × (asset file ≡ ok raw)
    × (decode raw ≡ ok o)
    × (is_handled o ≡ true)

module _ (rbac : RbacApi) (server : IsRbacServer rbac) where
  clean_up_file-none :
      (m : Machinery) (asset : String → Result String) (decode : String → Result Manifest)
      (file : String) (h : Trace)
      → HasFile asset decode file
      → (clean_up_file m rbac asset decode file h).0 ≡ none
  unfolding clean_up_file clean_up_object
  clean_up_file-none m asset decode file h (raw, o, read, good, handled) =
      elim (server.deletes h o) [
        | inl done ↦ ground (arith, read, good, handled, done)
        | inr gone ↦ ground (arith, read, good, handled, gone)
      ]

  pub clean_up_files-nil :
      (m : Machinery) (asset : String → Result String) (decode : String → Result Manifest)
      (fs : List String) (h : Trace)
      → All (HasFile asset decode) fs
      → (clean_up_files m rbac asset decode fs h).0 ≡ []
  unfolding clean_up_files
  clean_up_files-nil m asset decode [] h files = refl
  clean_up_files-nil m asset decode (f ∷ fs) h (file, files) = ground (
    arith,
    clean_up_file-none m asset decode f h file,
    clean_up_files-nil m asset decode fs (clean_up_file m rbac asset decode f h).1 files,
  )

  cluster_binding_done :
      (group : String) (b : RoleBinding) (h : Trace)
      → (clean_up_cluster_role_binding rbac group b h).0 ≡ ok tt
  unfolding clean_up_cluster_role_binding
  cluster_binding_done group b h =
      let written = record b { subjects = other_subjects group b.subjects } in
      let (c, answer) = server.updates_cluster_binding h written in
      ground (arith, answer, server.deletes_cluster_binding h b.name)

  binding_done :
      (group : String) (b : RoleBinding) (h : Trace)
      → (clean_up_role_binding rbac group b h).0 ≡ ok tt
  unfolding clean_up_role_binding
  binding_done group b h =
      let written = record b { subjects = other_subjects group b.subjects } in
      let (c, answer) = server.updates_binding h written in
      ground (arith, answer, server.deletes_binding h b.namespace b.name)

  cluster_items_done :
      (group : String) (bs : List RoleBinding) (h : Trace)
      → (clean_up_cluster_role_binding_items rbac group bs h).0 ≡ ok tt
  unfolding clean_up_cluster_role_binding_items
  cluster_items_done group [] h = refl
  cluster_items_done group (b ∷ bs) h =
      rw (cluster_binding_done group b h) (cluster_items_done group bs _)

  items_done :
      (group : String) (bs : List RoleBinding) (h : Trace)
      → (clean_up_role_binding_items rbac group bs h).0 ≡ ok tt
  unfolding clean_up_role_binding_items
  items_done group [] h = refl
  items_done group (b ∷ bs) h = rw (binding_done group b h) (items_done group bs _)

  pub cluster_bindings_done :
      (group : String) (h : Trace)
      → (clean_up_group_from_cluster_role_bindings rbac group h).0 ≡ ok tt
  unfolding clean_up_group_from_cluster_role_bindings
  cluster_bindings_done group h =
      let (bs, listed) = server.lists_cluster h in
      rw listed (cluster_items_done group bs (list_cluster_role_bindings ∷ h))

  pub bindings_done :
      (group : String) (h : Trace) → (clean_up_group_from_role_bindings rbac group h).0 ≡ ok tt
  unfolding clean_up_group_from_role_bindings
  bindings_done group h =
      let (bs, listed) = server.lists h in rw listed (items_done group bs (list_role_bindings ∷ h))
