-- ===== src/Spoke/AddOn/Lease/Reported.antt =====
-- What is reported of an add-on, and which add-on a lease is for.
use ocm_registration.Base.{ℕ, String, Bool, true, Option, ◌≡◌, ◌⊎◌, string_eq, ◌<◌, ◌≤◌, ◌+◌}
use ocm_registration.Kube.{
  Err, ok, err, is_not_found, event, get_lease, Trace, Exec, Call, Machinery, IsMachinery,
  ManagedClusterAddOn, AddOnStatus, Condition, condition_true, condition_false, condition_unknown,
  Lease, AddOnApi, LeaseApi,
}
use ocm_registration.Helpers.Status.{IsRetry}
use ocm_registration.Helpers.Status.AddOns.{Reports}

-- The condition's status and reason are those of a lease, which lasts 300 seconds from its renewal.
abbrev pub Says : ℕ → Lease → Condition → Type 0
Says now lease c =
    ((c.status ≡ condition_true)
      × (c.reason ≡ "ManagedClusterAddOnLeaseUpdated")
      × (now < lease.renew_time + 300))
    ⊎ ((c.status ≡ condition_false)
        × (c.reason ≡ "ManagedClusterAddOnLeaseUpdateStopped")
        × (lease.renew_time + 300 ≤ now))

-- What the condition rests on: the lease of the cluster, and if there is none, that of the hub, and
-- if that cannot be read, nothing.
abbrev pub Justified :
    LeaseApi → LeaseApi → ℕ → String → ManagedClusterAddOn → Trace → Condition → Type 0
Justified leases hub_leases now namespace addon h c =
    ((lease : Lease) × (leases.lister_get h namespace addon.name ≡ ok lease) × Says now lease c)
    ⊎ ((e : Err) × (leases.lister_get h namespace addon.name ≡ err e)
        × (is_not_found e ≡ true)
        × (((lease : Lease) × (hub_leases.get h addon.namespace addon.name ≡ ok lease)
              × Says now lease c)
            ⊎ ((e' : Err) × (hub_leases.get h addon.namespace addon.name ≡ err e')
                × (c.status ≡ condition_unknown)
                × (c.reason ≡ "ManagedClusterAddOnLeaseNotFound"))))

module _ (m : Machinery) (k : IsMachinery m) (addons : AddOnApi) (leases hub_leases : LeaseApi)
    {retry : Exec (AddOnStatus × Bool) → Exec (AddOnStatus × Bool)} (r : IsRetry retry)
    (split_key : String → Option (String × String)) (cluster_name : String) where
  -- A read of the hub's lease, an event, or a report of a condition that is justified.
  abbrev pub Allowed : ℕ → String → ManagedClusterAddOn → Trace → Call → Type 0
  Allowed now namespace addon h call =
      (call ≡ get_lease addon.namespace addon.name)
      ⊎ ((reason : String) × (call ≡ event reason))
      ⊎ ((c : Condition) × (c.type ≡ "Available")
          × Justified leases hub_leases now namespace addon h c
          × Reports m c call)
