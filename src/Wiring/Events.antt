-- ===== src/Wiring/Events.antt =====
-- Which events lead to a run of a controller.
use text.Mathlib.TextPositions.{starts_with-append, len-append}
use Prim.Native.String.{len}
use ocm_registration.Base.{
  String, ◌<>◌, true, false, List, [], ◌∷◌, ◌==◌, string_eq, contains, take, ◌++◌, some,
  starts_with, ◌≤◌, ◌≡◌, ◌≢◌, refl, arith,
}
use ocm_registration.Base.Dict.{Dict, lookup, at}
use ocm_registration.Kube.{ManagedCluster, Csr, CsrApi, SecretApi, UserInfo}
use ocm_registration.ClientCert.Controller.{Options, Crypto, new_csr}
use ocm_registration.Hub.Csr.{spoke_cluster_name_label}
use ocm_registration.Hub.ClusterSet.{
  current_cluster_set_queue_key, original_cluster_set_queue_key, names_of, update_cluster_sets_map,
}
use ocm_registration.Hub.ClusterSet.Members.{update_cluster_sets_map_lem}
use ocm_registration.Spoke.Registration.{client_cert_for_hub_options, is_own_csr}
use ocm_registration.Spoke.AddOn.Configuration.{RegistrationConfig}
use ocm_registration.Spoke.AddOn.Registration.{addon_name_label, options_for, is_addon_csr}
use ocm_registration.Wiring.Factory.{Controller, cluster_keys, csr_keys}
use ocm_registration.Wiring.Hub.{new_managed_cluster_set_controller}
use ocm_registration.Wiring.Spoke.{
  new_client_certificate_controller, new_client_cert_for_hub_controller, new_addon_cert_controller,
}

-- What an event of a cluster queues: the controller registers two handlers for it, the first of which
-- runs while the map is `d`, and the second when workers may have made it `d'`.
abbrev second : List String → List String
second (x ∷ y ∷ rest) = y ∷ []
second _ = []

abbrev pub queued : Dict String → Dict String → ManagedCluster → List String
queued d d' cluster =
    take 1 (cluster_keys (new_managed_cluster_set_controller d).watches cluster)
    ++ second (cluster_keys (new_managed_cluster_set_controller d').watches cluster)

-- If the map has a set for a cluster that its label does not name any more, the event of the cluster
-- queues the new set and that former set when no set is synchronised between the two handlers. But
-- when the new set is, with the cluster among those that are listed for it, the event queues the new
-- set, and the empty key instead of the former set, since the handler for the current set is
-- registered before that for the original one.
pub cluster_keys-missed :
    (d : Dict String) (cluster : ManagedCluster) (former : String) (listed : List ManagedCluster)
    → lookup cluster.name d ≡ some former
    → current_cluster_set_queue_key cluster ≢ former
    → contains (names_of listed) cluster.name ≡ true
    → let set = current_cluster_set_queue_key cluster in
      (queued d d cluster ≡ set ∷ former ∷ [])
      × (queued d (update_cluster_sets_map set listed d) cluster ≡ set ∷ "" ∷ [])
unfolding new_managed_cluster_set_controller current_cluster_set_queue_key
    original_cluster_set_queue_key at
cluster_keys-missed d cluster former listed was moved members =
    let set = current_cluster_set_queue_key cluster in
    let seen = update_cluster_sets_map_lem set listed d cluster.name in
    (ground (arith, was, moved), ground (arith, seen, members))

-- A change of a cluster queues every set whose synchronisation would change the map at the cluster,
-- as the map is when the second handler runs, whatever it was before: the set that its label names,
-- and the set that the map still has for it. The list of clusters for the set has the cluster exactly
-- if the label names the set, and the set's name is not empty.
pub cluster_keys-moved :
    (before d : Dict String) (cluster : ManagedCluster) (set : String)
    (listed : List ManagedCluster)
    → contains (names_of listed) cluster.name ≡ (current_cluster_set_queue_key cluster == set)
    → lookup cluster.name (update_cluster_sets_map set listed d) ≢ lookup cluster.name d
    → set ≢ ""
    → contains (queued before d cluster) set ≡ true
unfolding new_managed_cluster_set_controller current_cluster_set_queue_key
    original_cluster_set_queue_key at
cluster_keys-moved before d cluster set listed members moved named =
    let seen = update_cluster_sets_map_lem set listed d cluster.name in
    ground (arith, seen, members, moved, named)

dash : len "-" ≡ 1
dash = refl

labels_differ : (addon_name_label == spoke_cluster_name_label) ≡ false
unfolding string_eq
labels_differ = refl

-- The server makes a name of a prefix by adding to it, and may cut a prefix of more than 58 bytes.
abbrev pub KeepsShortPrefixes : (String → String) → Type 0
KeepsShortPrefixes generate_name =
    (prefix : String)
    → len prefix ≤ 58
    → (suffix : String) × (generate_name prefix ≡ prefix <> suffix)

module _ (crypto : Crypto) (secrets : SecretApi) (csrs : CsrApi) (request : String)
    (generate_name : String → String) (user : UserInfo) where
  -- A request with the options, as the server has it, which makes the name of the prefix.
  abbrev pub requested : Options → Csr
  requested options = record (new_csr options crypto secrets csrs request) {
    name = generate_name options.object_name;
    user = user;
  }

  abbrev pub Hears : Controller → Csr → Type 0
  Hears controller csr = csr_keys controller.watches csr ≡ csr.name ∷ []

  -- The controller of a client certificate hears of the events of the requests that it makes itself:
  -- that of the agent, and that of an add-on with a signer. The name of the cluster has at most 57
  -- bytes, so that the server keeps it, with the dash after it, as the start of the name of the agent's
  -- request. Each hears of no request that does not have the label of its cluster.
  pub csr_keys_own :
      (cluster_name agent_name namespace secret_name kubeconfig_data controller_name : String)
      (c : RegistrationConfig)
      → KeepsShortPrefixes generate_name
      → len cluster_name ≤ 57
      → let agent =
          new_client_cert_for_hub_controller cluster_name agent_name namespace secret_name
            kubeconfig_data controller_name in
        let addon = new_addon_cert_controller cluster_name agent_name kubeconfig_data c in
        Hears agent (
          requested (
            client_cert_for_hub_options cluster_name agent_name namespace secret_name
              kubeconfig_data))
        × (c.registration.signer_name ≢ ""
            → Hears addon (requested (options_for cluster_name agent_name kubeconfig_data c)))
        × ((other : Csr)
            → at other.labels spoke_cluster_name_label ≢ cluster_name
            → (csr_keys agent.watches other ≡ []) × (csr_keys addon.watches other ≡ []))
  unfolding new_client_cert_for_hub_controller new_addon_cert_controller
      new_client_certificate_controller is_own_csr is_addon_csr client_cert_for_hub_options
      options_for at lookup
  csr_keys_own cluster_name agent_name namespace secret_name kubeconfig_data controller_name c keeps
        short =
      let (suffix, named) =
        keeps (cluster_name <> "-") (ground (arith, len-append cluster_name "-", dash, short)) in
      let starts : starts_with (generate_name (cluster_name <> "-")) (cluster_name <> "-") ≡ true =
        rw named (starts_with-append (cluster_name <> "-") suffix) in
      (
        ground (arith, starts),
        λ signed. ground (arith, signed, labels_differ),
        λ other far. (ground (arith, far), ground (arith, far)),
      )
