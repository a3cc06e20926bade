-- ===== src/Webhook/Cluster/Mutation.antt =====
-- The mutating hook: a cluster that it lets pass has a lease duration.
use ocm_registration.Base.{
  String, true, Option, none, some, ◌≡◌, ◌↔◌, ◌==◌, string_eq, nat_eq, arith, if◌then◌else◌,
}
use ocm_registration.Kube.{Err, ManagedCluster}
use ocm_registration.Webhook.Admission.{AdmissionRequest}
use ocm_registration.Webhook.Cluster.{
  is_managed_cluster, is_create_or_update, default_lease_duration_seconds_patch, admit,
}

module _ (unmarshal : String → ManagedCluster × Option Err) (error_text : Err → String)
    (apply_patch : String → ManagedCluster → ManagedCluster) where
  -- What the API server stores: the object, patched if the response has a patch.
  abbrev pub stored : Option String → ManagedCluster → ManagedCluster
  stored none c = c
  stored (some patch) c = apply_patch patch c

  -- The patch replaces the lease duration by 60, as RFC 6902 has it.
  abbrev ReplacesLease : Type 0
  ReplacesLease =
      (c : ManagedCluster)
      → apply_patch default_lease_duration_seconds_patch c
        ≡ record c { lease_duration_seconds = 60 }

  -- A created or updated cluster is refused exactly when it does not decode. One that passes is
  -- stored with a lease duration that is not 0: its own if it had one, and else 60, with nothing
  -- else changed.
  pub admit-lease :
      ReplacesLease
      → (request : AdmissionRequest) → is_managed_cluster request ≡ true
      → is_create_or_update request.operation ≡ true
      → let (c, failed) = unmarshal request.object in
        let response = admit unmarshal error_text request in
        ((response.allowed ≡ true) ↔ (failed ≡ none))
        × (response.allowed ≡ true
            → stored response.patch c ≡ (
                if c.lease_duration_seconds == 0
                then record c { lease_duration_seconds = 60 }
                else c))
  unfolding admit
  admit-lease replaces request ours changes =
      let c = (unmarshal request.object).0 in
      ((λ p. ground arith, λ p. ground arith), λ p. ground (arith, replaces c))
