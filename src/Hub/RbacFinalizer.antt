-- ===== src/Hub/RbacFinalizer.antt =====
-- pkg/hub/rbacfinalizerdeletion/controller.go: the finalizer that keeps the work agent's role and
-- role binding until the ManifestWorks of the cluster's namespace are gone. `split_key` stands for
-- client-go's `SplitMetaNamespaceKey`, and `works_left` makes the error that
-- says how many works a namespace still has.
pub mod Laws
use ocm_registration.Base.{
  ℕ, String, ◌<>◌, Bool, true, false, List, [], ◌∷◌, Option, none, some, ◌==◌, string_eq, nat_eq,
  not, ◌&&◌, ◌||◌, length, keep_if, contains, if◌then◌else◌,
}
use ocm_registration.Kube.{
  Err, Result, ok, err, failure, is_not_found, Exec, Trace, ClusterApi, RbacApi, Role, RoleBinding,
  Namespace, ManagedCluster, request, ◌>>=◌, ◌>>◌, handle, pure, raise, read, update_role,
  update_role_binding,
}

abbrev pub manifest_work_finalizer : String
manifest_work_finalizer = "cluster.open-cluster-management.io/manifest-work-cleanup"

-- What `meta.Accessor` gives of a role or a role binding; `none` is a nil object.
pub record ObjectMeta : Type 0 where
  pub finalizers : List String
  pub deleting : Bool

abbrev pub role_meta : Option Role → Option ObjectMeta
role_meta none = none
role_meta (some r) = some (record { finalizers = r.finalizers; deleting = r.deleting })

abbrev pub role_binding_meta : Option RoleBinding → Option ObjectMeta
role_binding_meta none = none
role_binding_meta (some b) = some (record { finalizers = b.finalizers; deleting = b.deleting })

unfoldable pub has_finalizer : Option ObjectMeta → String → Bool
has_finalizer none finalizer = false
has_finalizer (some o) finalizer = contains o.finalizers finalizer

-- The loop of `removeFinalizer`, which says whether the finalizer was found.
unfoldable pub split_finalizers : List String → String → Bool × List String
split_finalizers [] name = (false, [])
split_finalizers (f ∷ fs) name =
    let (found, rest) = split_finalizers fs name in
    if f == name then (true, rest) else (found, f ∷ rest)

-- The finalizers that the object is given, if any was removed.
unfoldable pub remove_finalizer : List String → String → Option (List String)
unfolding split_finalizers
remove_finalizer finalizers name =
    let (found, rest) = split_finalizers finalizers name in if found then some rest else none

unfoldable pub pending_finalization : Option ObjectMeta → Bool
pending_finalization none = false
pending_finalization (some o) = o.deleting

abbrev pub is_deleting : Option ManagedCluster → Bool
is_deleting none = false
is_deleting (some c) = c.deleting

-- An error other than "not found" is returned; a missing object is nil.
abbrev optional : {A : Type 0} → (Trace → Result A) → Exec (Option A)
optional answer =
    handle (read answer)
      λ r. elim r [ ok a ↦ pure (some a) | err e ↦ if is_not_found e then pure none else raise e ]

module _ (rbac : RbacApi) where
  unfoldable remove_finalizer_from_role : Option Role → String → Exec (Unit {0})
  remove_finalizer_from_role none finalizer = pure tt
  remove_finalizer_from_role (some role) finalizer =
      elim (remove_finalizer role.finalizers finalizer) [
        | none ↦ pure tt
        | some rest ↦ (do
          let updated = record role { finalizers = rest }
          request (update_role updated) (λ h. rbac.update_role h updated)
          pure tt)
      ]

  unfoldable pub remove_finalizer_from_role_binding : Option RoleBinding → String → Exec (Unit {0})
  remove_finalizer_from_role_binding none finalizer = pure tt
  remove_finalizer_from_role_binding (some b) finalizer =
      elim (remove_finalizer b.finalizers finalizer) [
        | none ↦ pure tt
        | some rest ↦ (do
          let updated = record b { finalizers = rest }
          request (update_role_binding updated) (λ h. rbac.update_role_binding h updated)
          pure tt)
      ]

  -- The last part of `syncRoleAndRoleBinding`.
  unfoldable pub finalize : Option Role → Option RoleBinding → Exec (Unit {0})
  unfolding remove_finalizer_from_role remove_finalizer_from_role_binding
  finalize role binding = do
    (if pending_finalization (role_meta role)
        then remove_finalizer_from_role role manifest_work_finalizer
        else pure tt)
    (if pending_finalization (role_binding_meta binding)
        then remove_finalizer_from_role_binding binding manifest_work_finalizer
        else pure tt)

  unfoldable pub sync_role_and_role_binding :
      (ℕ → String → Err)
      → Option Role
      → Option RoleBinding
      → Namespace
      → Option ManagedCluster
      → Exec (Unit {0})
  unfolding finalize
  sync_role_and_role_binding works_left role binding ns cluster =
      if not (has_finalizer (role_meta role) manifest_work_finalizer)
        && not (has_finalizer (role_binding_meta binding) manifest_work_finalizer)
      then pure tt
      else if ns.deleting || is_deleting cluster
      then (do
        works ← read (λ h. rbac.manifest_work_lister h ns.name)
        (if not (length works == 0)
            then raise (works_left (length works) ns.name)
            else finalize role binding))
      else finalize role binding

  unfoldable get_role_and_role_binding : String → String → Exec (Option Role × Option RoleBinding)
  get_role_and_role_binding namespace name = do
    role ← optional (λ h. rbac.role_lister h namespace name)
    binding ← optional (λ h. rbac.role_binding_lister h namespace name)
    pure (role, binding)

  unfoldable pub sync :
      ClusterApi
      → (String → Result (String × String))
      → (ℕ → String → Err)
      → String
      → Exec (Unit {0})
  unfolding sync_role_and_role_binding get_role_and_role_binding
  sync clusters split_key works_left key = elim (split_key key) [
    | err e ↦ pure tt
    | ok (namespace, name) ↦ (do
      cluster ← optional (λ h. clusters.lister_get h namespace)
      ns ← read (λ h. rbac.namespace_lister h namespace)
      found ← get_role_and_role_binding namespace name
      sync_role_and_role_binding works_left found.0 found.1 ns cluster)
  ]
