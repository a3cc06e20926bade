-- ===== src/Spoke/AddOn/Registration.antt =====
-- pkg/spoke/addon/registration_controller.go: a client certificate controller runs for each
-- registration of each add-on. Whoever starts a controller gets the number of it to stop it by; a
-- number is used once. Go visits the entries of a map in any order, here in the list's.
pub mod Stopping
pub mod Starting
pub mod NoLeak
pub mod Preserved
pub mod Reachable
pub mod Reserved
pub mod Settled
pub mod Deletes
pub mod Unwanted
use ocm_registration.Base.{
  ℕ, suc, String, ◌<>◌, Bool, true, false, List, [], ◌∷◌, Option, none, some, ◌==◌, string_eq,
  nat_eq, not, keep_if, length, if◌then◌else◌,
}
use ocm_registration.Base.Dict.{Dict, lookup, insert, erase, at}
use ocm_registration.Kube.{
  Err, is_not_found, Result, ok, err, result_of, enqueue, delete_secret, Trace, Machinery, Csr,
  Registration, ManagedClusterAddOn, AddOnApi, SecretApi,
}
use ocm_registration.Hub.Csr.{spoke_cluster_name_label, kube_apiserver_client_signer_name}
use ocm_registration.ClientCert.Certificate.{kubeconfig_file}
use ocm_registration.ClientCert.Controller.{Options}
use ocm_registration.Spoke.AddOn.Configuration.{
  RegistrationConfig, X509Subject, x509_subject, get_registration_configs,
}

abbrev pub addon_name_label : String
addon_name_label = "open-cluster-management.io/addon-name"

abbrev default_queue_key : String
default_queue_key = "key"

-- A controller that was started: its number, its options, and the rest of the request's subject and
-- the DNS names.
pub record Started : Type 0 where
  pub id : ℕ
  pub options : Options
  pub subject : X509Subject
  pub dns_names : List String

-- `addOnRegistrationConfigs`, and the controllers that run.
pub record State : Type 0 where
  pub configs : Dict (Dict RegistrationConfig)
  pub running : List Started
  pub next : ℕ

abbrev pub initial : State
initial = record { configs = []; running = []; next = 0 }

unfoldable pub is_addon_csr : String → String → String → Csr → Bool
unfolding at
is_addon_csr cluster_name addon_name signer_name csr =
    if not (at csr.labels spoke_cluster_name_label == cluster_name)
    then false
    else if not (at csr.labels addon_name_label == addon_name)
    then false
    else if csr.signer_name == ""
    then false
    else csr.signer_name == signer_name

-- A call of the `CancelFunc`; nothing happens at a second one.
unfoldable pub cancel : Option ℕ → State → State
cancel none s = s
cancel (some id) s = record s { running = keep_if (λ x. not (x.id == id)) s.running }

abbrev map_or_nil : Option (Dict RegistrationConfig) → Dict RegistrationConfig
map_or_nil none = []
map_or_nil (some d) = d

-- Indexing the map of maps.
abbrev pub cached : String → State → Dict RegistrationConfig
cached addon_name s = map_or_nil (lookup addon_name s.configs)

abbrev pub forget : String → State → State
forget addon_name s = record s { configs = erase addon_name s.configs }

abbrev pub store : String → Dict RegistrationConfig × State → State
store addon_name ([], s) = forget addon_name s
store addon_name (c ∷ cs, s) = record s { configs = insert addon_name (c ∷ cs) s.configs }

abbrev pub has_key : Dict RegistrationConfig → String → Bool
has_key d hash = elim (lookup hash d) [ none ↦ false | some _ ↦ true ]

module _ (secrets : SecretApi) where
  abbrev unless_gone : Result (Unit {0}) → Result (Unit {0})
  unless_gone (ok _) = ok tt
  unless_gone (err e) = if is_not_found e then ok tt else err e

  unfoldable pub stop_registration :
      RegistrationConfig → State → Trace → Result (Unit {0}) × State × Trace
  unfolding cancel
  stop_registration c s h = (
    unless_gone (secrets.delete h c.installation_namespace c.secret_name),
    cancel c.stop_func s,
    delete_secret c.installation_namespace c.secret_name ∷ h,
  )

  -- The loops that stop the entries of a map, less those whose key passes the test, and collect the
  -- errors.
  unfoldable pub stop_unless :
      (String → Bool) → Dict RegistrationConfig → State → Trace → List Err × State × Trace
  unfolding stop_registration
  stop_unless keep [] s h = ([], s, h)
  stop_unless keep ((hash, c) ∷ rest) s h =
      let skipped = stop_unless keep rest s h in
      let (r, s', h') = stop_registration c s h in
      let (errs, s'', h'') = stop_unless keep rest s' h' in
      if keep hash then skipped else ((elim r [ ok _ ↦ errs | err e ↦ e ∷ errs ]), s'', h'')

module _ (cluster_name agent_name kubeconfig_data : String) where
  unfoldable pub options_for : RegistrationConfig → Options
  unfolding x509_subject
  options_for c = record {
    secret_namespace = c.installation_namespace;
    secret_name = c.secret_name;
    additional_secret_data =
        if c.registration.signer_name == kube_apiserver_client_signer_name
        then (kubeconfig_file, kubeconfig_data) ∷ []
        else [];
    object_name = "addon-" <> cluster_name <> "-" <> c.addon_name <> "-";
    object_labels =
        (spoke_cluster_name_label, cluster_name) ∷ (addon_name_label, c.addon_name) ∷ [];
    subject = (x509_subject c cluster_name agent_name).common_name;
    signer_name = c.registration.signer_name;
  }

  -- The new state; the number is the old state's `next`.
  unfoldable pub start_registration : RegistrationConfig → State → State
  unfolding options_for
  start_registration c s = record s {
    running =
        (record {
          id = s.next;
          options = options_for c;
          subject = x509_subject c cluster_name agent_name;
          dns_names = (c.addon_name <> ".addon.open-cluster-management.io") ∷ [];
        })
        ∷ s.running;
    next = suc s.next;
  }

  -- The loop that builds `syncedConfigs`.
  unfoldable pub start_new :
      Dict RegistrationConfig
      → Dict RegistrationConfig
      → Dict RegistrationConfig
      → State
      → Dict RegistrationConfig × State
  unfolding start_registration insert lookup
  start_new old [] synced s = (synced, s)
  start_new old ((hash, c) ∷ rest) synced s = elim (lookup hash old) [
    | some kept ↦ start_new old rest (insert hash kept synced) s
    | none ↦
        start_new old rest (insert hash (record c { stop_func = some s.next }) synced)
          (start_registration c s)
  ]

module _ (m : Machinery) (addons : AddOnApi) (secrets : SecretApi)
    (hash_of : Registration → Result String)
    (cluster_name agent_name kubeconfig_data : String) where
  abbrev pub if_stopped :
      (State → State) → List Err × State × Trace → Result (Unit {0}) × State × Trace
  if_stopped f (errs, s, h) = elim (m.new_multi_line_aggregate errs) [
    | some e ↦ (err e, s, h)
    | none ↦ (ok tt, f s, h)
  ]

  unfoldable pub cleanup : String → State → Trace → Result (Unit {0}) × State × Trace
  unfolding stop_unless erase lookup
  cleanup addon_name s h =
      if_stopped (forget addon_name) (stop_unless secrets (λ _. false) (cached addon_name s) s h)

  abbrev pub reconcile :
      String → State → Trace → Result (Dict RegistrationConfig) → Result (Unit {0}) × State × Trace
  reconcile addon_name s h (err e) = (err e, s, h)
  reconcile addon_name s h (ok configs) =
      let old = cached addon_name s in
      if_stopped
        (λ s'.
          store addon_name (start_new cluster_name agent_name kubeconfig_data old configs [] s'))
        (stop_unless secrets (has_key configs) old s h)

  abbrev sync_found :
      String → State → Trace → Result ManagedClusterAddOn → Result (Unit {0}) × State × Trace
  sync_found addon_name s h (err e) =
      if is_not_found e then cleanup addon_name s h else (err e, s, h)
  sync_found addon_name s h (ok addon) =
      if addon.deleting
      then cleanup addon_name s h
      else reconcile addon_name s h (get_registration_configs hash_of addon)

  unfoldable pub sync_addon : String → State → Trace → Result (Unit {0}) × State × Trace
  unfolding cleanup get_registration_configs start_new
  sync_addon addon_name s h =
      sync_found addon_name s h (addons.lister_get h cluster_name addon_name)

  -- One round of the loop of a resync.
  abbrev resync_one :
      String → State → Trace → Result ManagedClusterAddOn → Result (Unit {0}) × State × Trace
  resync_one addon_name s h (ok _) = (ok tt, s, enqueue addon_name ∷ h)
  resync_one addon_name s h (err e) =
      if is_not_found e then cleanup addon_name s h else (err e, s, h)

  unfoldable pub resync : Dict (Dict RegistrationConfig) → State → Trace → List Err × State × Trace
  unfolding cleanup
  resync [] s h = ([], s, h)
  resync ((addon_name, _) ∷ rest) s h =
      let (r, s', h') = resync_one addon_name s h (addons.lister_get h cluster_name addon_name) in
      let (errs, s'', h'') = resync rest s' h' in
      ((elim r [ ok _ ↦ errs | err e ↦ e ∷ errs ]), s'', h'')

  unfoldable pub sync : String → State → Trace → Result (Unit {0}) × State × Trace
  unfolding sync_addon resync
  sync queue_key s h =
      if not (queue_key == default_queue_key)
      then sync_addon queue_key s h
      else let (errs, s', h') = resync s.configs s h in
        (result_of (m.new_multi_line_aggregate errs), s', h')
