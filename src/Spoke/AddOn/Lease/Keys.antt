-- ===== src/Spoke/AddOn/Lease/Keys.antt =====
-- From a lease to the run for its add-on, through the queue.
use text.Mathlib.TextLemmas.{cons-append, nil-append}
use ocm_registration.Base.{
  ℕ, String, ◌<>◌, Bool, true, false, Option, some, ◌≡◌, ◌≢◌, refl, ap, ◌∙◌, arith, string_eq,
  nat_eq, subst,
}
use ocm_registration.Base.Texts.{occurs, occurs-append}
use ocm_registration.Kube.{
  ok, Trace, Exec, Machinery, ManagedClusterAddOn, AddOnStatus, Lease, AddOnApi, LeaseApi,
}
use ocm_registration.Spoke.AddOn.Configuration.{get_addon_installation_namespace}
use ocm_registration.Spoke.AddOn.Lease.{sync_single, sync, queue_key_func, default_queue_key}

key_has_slash : (namespace name : String) → occurs b'/' (namespace <> ("/" <> name)) ≡ true
key_has_slash namespace name =
    let slash : "/" <> name ≡ String.◌∷◌ "/" name =
      cons-append "/" "" name ∙ ap (λ t. String.◌∷◌ "/" t) (nil-append name) in
    rw slash (occurs-append b'/' namespace name "/" refl)

key_is_not_default : (namespace name : String) → namespace <> ("/" <> name) ≢ default_queue_key
unfolding occurs nat_eq
key_is_not_default namespace name p =
    let lacks : occurs b'/' default_queue_key ≡ false = refl in
    let has : occurs b'/' default_queue_key ≡ true =
      subst (λ s. occurs b'/' s ≡ true) p (key_has_slash namespace name) in
    absurd (ground (arith, lacks, has))

module _ (m : Machinery) (addons : AddOnApi) (leases hub_leases : LeaseApi)
    (retry : Exec (AddOnStatus × Bool) → Exec (AddOnStatus × Bool))
    (split_key : String → Option (String × String)) (cluster_name : String) where
  -- A lease in the namespace that its add-on is installed in gets a key for the queue, and a run for
  -- that key is the run for the add-on with the lease's name and the lease's namespace. A lease
  -- anywhere else gets the empty key. The key of the lease splits into what it was joined from, and
  -- the add-on is still in the cache at the run.
  pub sync-queue_key_func :
      (now : ℕ) (lease : Lease) (addon addon' : ManagedClusterAddOn) (h g : Trace)
      → split_key (lease.namespace <> ("/" <> lease.name)) ≡ some (lease.namespace, lease.name)
      → addons.lister_get h cluster_name lease.name ≡ ok addon
      → addons.lister_get g cluster_name lease.name ≡ ok addon'
      → let key = queue_key_func addons cluster_name lease h in
        (lease.namespace ≡ get_addon_installation_namespace addon
          → sync m addons leases hub_leases retry split_key cluster_name now key g
            ≡ sync_single m addons leases hub_leases retry split_key cluster_name now
                lease.namespace addon' g)
        × (lease.namespace ≢ get_addon_installation_namespace addon → key ≡ "")
  unfolding sync queue_key_func
  sync-queue_key_func now lease addon addon' h g splits found found' = (
    λ here.
        let differ = key_is_not_default lease.namespace lease.name in
        ground (arith, found, here, splits, found', differ),
    λ elsewhere. ground (arith, found, elsewhere),
  )
