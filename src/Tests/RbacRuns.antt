-- ===== src/Tests/RbacRuns.antt =====
-- Runs of the finalizer controller and of the approving controller.
use ocm_registration.Base.{
  arith, ap, ℕ, String, ◌<>◌, Bool, true, false, List, [], ◌∷◌, Option, none, some, ◌≡◌, ◌≢◌, refl,
  ◌⊎◌, inl, inr, ◌↔◌, contains, string_eq, nat_eq, starts_with, keep_if, not, ◌==◌,
}
use ocm_registration.Kube.{
  Err, failure, ok, At, Role, Namespace, update_role, Csr, create_access_review,
}
use ocm_registration.Hub.RbacFinalizer.{
  manifest_work_finalizer, sync_role_and_role_binding, has_finalizer, role_meta, role_binding_meta,
}
use ocm_registration.Hub.RbacFinalizer.Laws.{Ends, without, sync_role_and_role_binding-role}
use ocm_registration.Hub.RbacFinalizer.{remove_finalizer}
use ocm_registration.Hub.Csr.{
  Name, Block, managed_clusters_group, is_renewal_subject, renew_review, sync,
}
use ocm_registration.Hub.Csr.Renewal.{is_renewal_subject_any_suffix}
use ocm_registration.Hub.Csr.Approval.{Approvable, approved, sync-approves_only}
use ocm_registration.Tests.Apis.{has_bindings, has_csr, allows_all, user_with, csr_with}

abbrev works_left : ℕ → String → Err
works_left n namespace = failure namespace

abbrev role : Role
role = record {
  namespace = "c1";
  name = "role1";
  finalizers = "other" ∷ manifest_work_finalizer ∷ [];
  deleting = true;
}

abbrev released : Role
released = record { namespace = "c1"; name = "role1"; finalizers = "other" ∷ []; deleting = true }

abbrev namespace_of : Bool → Namespace
namespace_of deleting = record { name = "c1"; deleting = deleting }

sync_role_and_role_binding-role_example :
    At (update_role released) [] []
    ⊎ ((r : Role) × (some role ≡ some r)
        × (r.deleting ≡ true)
        × (contains r.finalizers manifest_work_finalizer ≡ true)
        × (released ≡ record r { finalizers = without (has_bindings []) works_left r.finalizers })
        × (Ends (has_bindings []) works_left (namespace_of false) none
            → (has_bindings []).manifest_work_lister [] "c1" ≡ ok []))
unfolding sync_role_and_role_binding has_finalizer string_eq
    ocm_registration.Hub.RbacFinalizer.pending_finalization remove_finalizer
sync_role_and_role_binding-role_example =
    sync_role_and_role_binding-role (has_bindings []) works_left (some role) none
      (namespace_of false) none [] [] released (inl (refl, refl))

abbrev subject : Name
subject = record {
  common_name = "system:open-cluster-management:c1:agent1";
  organization = "system:open-cluster-management:c1" ∷ managed_clusters_group ∷ [];
}

-- The agent of the cluster "c10", and the group of "c1".
is_renewal_subject_any_suffix_example :
    is_renewal_subject "c1" "system:open-cluster-management:c10:agent1" (record {
      common_name = "system:open-cluster-management:c10:agent1";
      organization = "system:open-cluster-management:c1" ∷ [];
    })
    ≡ true
unfolding string_eq
is_renewal_subject_any_suffix_example = is_renewal_subject_any_suffix "c1" "0:agent1" (λ p.
    let q : false ≡ true = ap (λ (s : String). s == managed_clusters_group) p in
    absurd (ground (arith, q)))

abbrev csr : Csr
csr = csr_with (user_with "system:open-cluster-management:c1:agent1" []) [] ""

abbrev decode_request : String → Option Block
decode_request pem = some (record { type = "CERTIFICATE REQUEST"; subject = some subject })

sync-approves_only_example :
    (c : Csr) × (ok csr ≡ ok c)
    × Approvable (has_csr csr) allows_all decode_request c []
    × (approved (has_csr csr) allows_all decode_request csr
        ≡ approved (has_csr csr) allows_all decode_request c)
unfolding sync ocm_registration.Base.Dict.lookup string_eq nat_eq
sync-approves_only_example =
    sync-approves_only (has_csr csr) allows_all decode_request "csr1"
      (approved (has_csr csr) allows_all decode_request csr)
      (create_access_review (renew_review csr) ∷ []) (inr (inl (refl, refl)))
