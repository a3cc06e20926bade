-- ===== src/Spoke/Agent/Bootstrap/Entered.antt =====
-- When the agent leaves the bootstrap.
use ocm_registration.Base.{
  ℕ, String, Bool, true, false, List, ◌∷◌, Option, some, ◌≡◌, refl, ◌≤◌, All, subst, ap,
}
use ocm_registration.Base.Texts.{occurs}
use ocm_registration.Kube.{Result, ok, err, Trace, Secret, SecretApi, CsrApi}
use ocm_registration.ClientCert.Certificate.{Cert, tls_cert_file}
use ocm_registration.Spoke.Registration.{agent_subject}
use ocm_registration.Spoke.Registration.Names.{get_names-agent_subject}
use ocm_registration.Spoke.Secret.{Files, Disk, path_join, read_file}
use ocm_registration.Spoke.Secret.Repeated.{IsSound}
use ocm_registration.Spoke.Agent.{SpokeAgentOptions, validate, has_valid_hub_client_config}
use ocm_registration.Spoke.Agent.Options.{IsOwnCert, has_valid_hub_client_config_iff}
use ocm_registration.Spoke.Agent.Restart.{registered_data, read_registered, valid_of_files}
use ocm_registration.Spoke.Agent.Bootstrap.{
  Phase, bootstrapping, running, failed, World, decide, check, dumped, dump, request_certificate,
  poll, wait, Reach, start, later,
}

module _ (disk : Disk) (secrets : SecretApi) (csrs : CsrApi)
    (parse_certs : String → Option (List Cert)) (parse_url : String → Option String)
    (kubeconfig_data : String) where
  -- The files of an agent that runs made a valid configuration at the time.
  abbrev Entered : SpokeAgentOptions → Phase → Type 0
  Entered o bootstrapping = Unit
  Entered o (failed e) = Unit
  Entered o (running files now) =
      (g : Trace) × (has_valid_hub_client_config disk parse_certs now o files g ≡ ok true)

  decide-Entered :
      (o : SpokeAgentOptions) (w : World) (r : Result Bool)
      → check disk secrets csrs parse_certs parse_url kubeconfig_data o w ≡ r
      → Entered o (decide r w)
  unfolding decide
  decide-Entered o w (err e) p = tt
  decide-Entered o w (ok false) p = tt
  decide-Entered o w (ok true) p = (w.trace, p)

  Reach-Entered :
      (o : SpokeAgentOptions) (p : Phase) (w : World)
      → Reach disk secrets csrs parse_certs parse_url kubeconfig_data o p w
      → (validate parse_url o ≡ ok tt) × Entered o p
  Reach-Entered _ _ _ (start new_cluster new_agent o o' w w' completed valid fresh) =
      (valid, decide-Entered o' w' _ refl)
  Reach-Entered _ _ _ (later o p q w w' before (dump _ _)) = Reach-Entered o p w before
  Reach-Entered _ _ _ (later o p q w w' before (request_certificate crypto scale draw _)) =
      Reach-Entered o p w before
  Reach-Entered _ _ _ (later o p q w w' before (poll _ _ e)) =
      ((Reach-Entered o p w before).0, subst (Entered o) e (decide-Entered o w _ refl))
  Reach-Entered _ _ _ (later o p q w w' before (wait _ _ d)) = Reach-Entered o p w before

  -- Whenever the agent runs, after any steps, it does so with valid options, and the files and the
  -- time at which it left the bootstrap were such that the certificate's file could be read and held
  -- a chain that carries the agent's own names and of which no certificate had expired.
  pub Reach-IsOwnCert :
      (o : SpokeAgentOptions) (files : Files) (now : ℕ) (w : World)
      → Reach disk secrets csrs parse_certs parse_url kubeconfig_data o (running files now) w
      → (validate parse_url o ≡ ok tt)
        × ((g : Trace) × (cert_data : String) × (read_file disk
                (path_join o.hub_kubeconfig_dir tls_cert_file)
                files
                g
              ≡ ok cert_data)
            × IsOwnCert disk parse_certs now o cert_data)
  Reach-IsOwnCert o files now w r =
      let (valid, (g, entered)) = Reach-Entered o (running files now) w r in
      let (_, _, cert_data, got, own) =
        (has_valid_hub_client_config_iff disk parse_certs now o files g).0 entered in
      (valid, (g, cert_data, got, own))

  -- On a disk that works, a bootstrapping agent whose secret holds a registration under the agent's
  -- names, which have no colon, leaves the bootstrap after one run of the secret's controller and one
  -- poll, if no certificate of the chain has expired.
  pub bootstrap_ends :
      (sound : IsSound disk) (o : SpokeAgentOptions) (w : World) (kubeconfig key cert_data : String)
      (secret : Secret) (cert : Cert) (certs : List Cert)
      → Reach disk secrets csrs parse_certs parse_url kubeconfig_data o bootstrapping w
      → secrets.get w.trace o.component_namespace o.hub_kubeconfig_secret ≡ ok secret
      → secret.contents ≡ registered_data o.cluster_name o.agent_name kubeconfig key cert_data
      → occurs b':' o.cluster_name ≡ false
      → occurs b':' o.agent_name ≡ false
      → parse_certs cert_data ≡ some (cert ∷ certs)
      → cert.common_name ≡ (agent_subject o.cluster_name o.agent_name).common_name
      → All (λ (x : Cert). w.now ≤ x.not_after) (cert ∷ certs)
      → let w' = dumped disk secrets csrs parse_certs parse_url kubeconfig_data o w in
        Reach disk secrets csrs parse_certs parse_url kubeconfig_data o (running w'.files w'.now) w'
  unfolding decide
  bootstrap_ends sound o w kubeconfig key cert_data secret cert certs r got same p q parsed is
        lasts =
      let w' = dumped disk secrets csrs parse_certs parse_url kubeconfig_data o w in
      let names =
        get_names-agent_subject parse_certs cert_data o.cluster_name o.agent_name cert certs p q
          parsed is in
      let there = λ (k v : String).
        read_registered disk sound secrets parse_certs o.cluster_name o.agent_name kubeconfig key
          cert_data o.component_namespace o.hub_kubeconfig_secret o.hub_kubeconfig_dir k v w.files
          w.trace secret got same in
      let valid =
        valid_of_files disk sound secrets parse_certs o.cluster_name o.agent_name kubeconfig key
          cert_data o w'.files cert certs refl refl parsed names there w.now w'.trace lasts in
      let ready : decide (check disk secrets csrs parse_certs parse_url kubeconfig_data o w') w'
          ≡ running w'.files w'.now =
        ap (λ a. decide a w') valid in
      later o bootstrapping (running w'.files w'.now) w' w'
        (later o bootstrapping bootstrapping w w' r (dump bootstrapping w))
        (poll w' (running w'.files w'.now) ready)
