-- ===== src/Spoke/Agent/Restart.antt =====
-- An agent that starts with the secret of an earlier registration.
use ocm_registration.Base.{
  ℕ, String, true, false, List, [], ◌∷◌, Option, some, ◌≡◌, refl, ◌⊎◌, ◌≤◌, string_eq, arith, All,
  subst, sym,
}
use ocm_registration.Base.Dict.{Dict, lookup, insert, IsMap}
use ocm_registration.Base.Texts.{occurs}
use ocm_registration.Kube.{ok, Result, Trace, Secret, SecretApi}
use ocm_registration.ClientCert.Certificate.{Cert, kubeconfig_file, tls_key_file, tls_cert_file}
use ocm_registration.ClientCert.Controller.{append}
use ocm_registration.Spoke.Registration.{
  agent_subject, client_cert_for_hub_options, cluster_name_file, agent_name_file,
  get_cluster_agent_names_from_certificate, names_of,
}
use ocm_registration.Spoke.Registration.Names.{get_names-agent_subject}
use ocm_registration.Spoke.Secret.{Files, Disk, path_join, read_file, is_missing, dump_secret}
use ocm_registration.Spoke.Secret.Dumped.{dump_secret_holds}
use ocm_registration.Spoke.Secret.Repeated.{IsSound, dump_secret_done}
use ocm_registration.Spoke.Agent.{
  SpokeAgentOptions, get_or_generate_cluster_agent_names, complete, has_valid_hub_client_config,
  namespace_file,
}
use ocm_registration.Spoke.Agent.Options.{has_valid_hub_client_config_iff}

-- What the client certificate controller of an agent writes to its secret.
abbrev pub registered_data : String → String → String → String → String → Dict String
registered_data cluster_name agent_name kubeconfig key cert_data =
    append (insert tls_key_file key (insert tls_cert_file cert_data []))
      (client_cert_for_hub_options cluster_name agent_name "" "" kubeconfig).additional_secret_data

registered_data_lem :
    (cluster_name agent_name kubeconfig key cert_data : String)
    → let d = registered_data cluster_name agent_name kubeconfig key cert_data in
      IsMap d
      × (lookup tls_key_file d ≡ some key)
      × (lookup tls_cert_file d ≡ some cert_data)
      × (lookup kubeconfig_file d ≡ some kubeconfig)
      × (lookup cluster_name_file d ≡ some cluster_name)
      × (lookup agent_name_file d ≡ some agent_name)
unfolding append insert lookup client_cert_for_hub_options string_eq
registered_data_lem cluster_name agent_name kubeconfig key cert_data =
    ((refl, (refl, (refl, (refl, (refl, tt))))), refl, refl, refl, refl, refl)

names_of_certs :
    (parse_certs : String → Option (List Cert)) (cert_data cluster_name agent_name : String)
    (certs : List Cert)
    → parse_certs cert_data ≡ some certs
    → get_cluster_agent_names_from_certificate parse_certs cert_data ≡ ok (cluster_name, agent_name)
    → names_of certs ≡ (cluster_name, agent_name)
unfolding get_cluster_agent_names_from_certificate
names_of_certs parse_certs cert_data cluster_name agent_name certs parsed names =
    ground (arith, parsed, names)

module _ (disk : Disk) (sound : IsSound disk) (secrets : SecretApi)
    (parse_certs : String → Option (List Cert)) where
  -- What can be read from the files that an earlier registration's secret is copied to.
  pub read_registered :
      (cluster_name agent_name kubeconfig key cert_data namespace name dir k v : String)
      (files : Files) (h : Trace) (secret : Secret)
      → secrets.get h namespace name ≡ ok secret
      → secret.contents ≡ registered_data cluster_name agent_name kubeconfig key cert_data
      → lookup k (registered_data cluster_name agent_name kubeconfig key cert_data) ≡ some v
      → (g : Trace)
      → let files' = (dump_secret disk secrets namespace name dir files h).1 in
        (read_file disk (path_join dir k) files' g ≡ ok v)
        × (is_missing disk (path_join dir k) files' g ≡ false)
  unfolding read_file is_missing
  read_registered cluster_name agent_name kubeconfig key cert_data namespace name dir k v files h
        secret got same has g =
      let (u, _, _, _, _, _) =
        registered_data_lem cluster_name agent_name kubeconfig key cert_data in
      let (holds, _) =
        dump_secret_holds disk secrets namespace name dir files h secret got
          (subst IsMap (sym same) u) in
      let done = dump_secret_done disk sound secrets namespace name dir files h secret got in
      let own : lookup k secret.contents ≡ some v =
        subst (λ d. lookup k d ≡ some v) (sym same) has in
      ground
        (arith, own, holds done k, sound.reads g (path_join dir k), sound.stats g (path_join dir k))

  names_read :
      (new_cluster_name new_agent_name cluster_name agent_name cert_data : String)
      (o : SpokeAgentOptions) (files : Files) (h : Trace)
      → (o.cluster_name ≡ "") ⊎ (o.cluster_name ≡ cluster_name)
      → get_cluster_agent_names_from_certificate parse_certs cert_data
        ≡ ok (cluster_name, agent_name)
      → read_file disk (path_join o.hub_kubeconfig_dir tls_cert_file) files h ≡ ok cert_data
      → read_file disk (path_join o.hub_kubeconfig_dir cluster_name_file) files h ≡ ok cluster_name
      → read_file disk (path_join o.hub_kubeconfig_dir agent_name_file) files h ≡ ok agent_name
      → get_or_generate_cluster_agent_names disk parse_certs new_cluster_name new_agent_name o files
          h
        ≡ (cluster_name, agent_name)
  unfolding get_or_generate_cluster_agent_names
  names_read new_cluster_name new_agent_name cluster_name agent_name cert_data o files h asked names
        read_cert read_cluster read_agent =
      ground (arith, asked, names, read_cert, read_cluster, read_agent)

  complete_done :
      (new_cluster_name new_agent_name cluster_name agent_name namespace : String)
      (o : SpokeAgentOptions) (files : Files) (h : Trace)
      → read_file disk namespace_file files h ≡ ok namespace
      → (dump_secret disk secrets namespace o.hub_kubeconfig_secret o.hub_kubeconfig_dir files h).0
        ≡ ok tt
      → get_or_generate_cluster_agent_names disk parse_certs new_cluster_name new_agent_name
          (record o { component_namespace = namespace })
          (dump_secret disk secrets namespace o.hub_kubeconfig_secret o.hub_kubeconfig_dir files
            h).1
          (dump_secret disk secrets namespace o.hub_kubeconfig_secret o.hub_kubeconfig_dir files
            h).2
        ≡ (cluster_name, agent_name)
      → complete disk parse_certs secrets new_cluster_name new_agent_name o files h ≡ (
        ok tt,
        (record o {
          component_namespace = namespace;
          cluster_name = cluster_name;
          agent_name = agent_name;
        }),
        (dump_secret disk secrets namespace o.hub_kubeconfig_secret o.hub_kubeconfig_dir files h).1,
        (dump_secret disk secrets namespace o.hub_kubeconfig_secret o.hub_kubeconfig_dir files h).2,
      )
  unfolding complete
  complete_done new_cluster_name new_agent_name cluster_name agent_name namespace o files h here
        done names =
      ground (arith, here, done, names)

  pub valid_of_files :
      (cluster_name agent_name kubeconfig key cert_data : String) (o : SpokeAgentOptions)
      (files : Files) (cert : Cert) (certs : List Cert)
      → o.cluster_name ≡ cluster_name
      → o.agent_name ≡ agent_name
      → parse_certs cert_data ≡ some (cert ∷ certs)
      → get_cluster_agent_names_from_certificate parse_certs cert_data
        ≡ ok (cluster_name, agent_name)
      → ((k v : String)
          → lookup k (registered_data cluster_name agent_name kubeconfig key cert_data) ≡ some v
          → (g : Trace)
          → (read_file disk (path_join o.hub_kubeconfig_dir k) files g ≡ ok v)
            × (is_missing disk (path_join o.hub_kubeconfig_dir k) files g ≡ false))
      → (now : ℕ) (g : Trace) → All (λ (x : Cert). now ≤ x.not_after) (cert ∷ certs)
      → has_valid_hub_client_config disk parse_certs now o files g ≡ ok true
  valid_of_files cluster_name agent_name kubeconfig key cert_data o files cert certs own own' parsed
        names there now g lasts =
      let (_, has_key, has_cert, has_config, _, _) =
        registered_data_lem cluster_name agent_name kubeconfig key cert_data in
      let carries =
        names_of_certs parse_certs cert_data cluster_name agent_name (cert ∷ certs) parsed names in
      (has_valid_hub_client_config_iff disk parse_certs now o files g).1 (
        (there kubeconfig_file kubeconfig has_config g).1,
        (there tls_key_file key has_key g).1,
        cert_data,
        (there tls_cert_file cert_data has_cert g).0,
        (cert ∷ certs, parsed, rw (own, own') carries, (λ e. absurd (ground (arith, e))), lasts),
      )

  -- The options have the names, and with them the configuration is valid while the chain is.
  abbrev pub Restarted :
      String → String → List Cert → Result (Unit {0}) × SpokeAgentOptions × Files × Trace → Type 0
  Restarted cluster_name agent_name certs out =
      (out.0 ≡ ok tt)
      × (out.1.cluster_name ≡ cluster_name)
      × (out.1.agent_name ≡ agent_name)
      × ((now : ℕ) (g : Trace)
          → All (λ (x : Cert). now ≤ x.not_after) certs
          → has_valid_hub_client_config disk parse_certs now out.1 out.2 g ≡ ok true)

  -- On a disk that works, an agent that starts with the secret of an earlier registration, and with
  -- no cluster name or the registered one as its option, completes its options with the registered
  -- names; and its configuration is then valid at every time at which no certificate of the chain
  -- has expired, so that it need not bootstrap again. The certificate is for the registered names,
  -- which have no colon.
  pub complete_restart :
      (new_cluster_name new_agent_name cluster_name agent_name kubeconfig key cert_data : String)
      (namespace : String) (o : SpokeAgentOptions) (files : Files) (h : Trace) (secret : Secret)
      (cert : Cert) (certs : List Cert)
      → occurs b':' cluster_name ≡ false
      → occurs b':' agent_name ≡ false
      → (o.cluster_name ≡ "") ⊎ (o.cluster_name ≡ cluster_name)
      → read_file disk namespace_file files h ≡ ok namespace
      → secrets.get h namespace o.hub_kubeconfig_secret ≡ ok secret
      → secret.contents ≡ registered_data cluster_name agent_name kubeconfig key cert_data
      → parse_certs cert_data ≡ some (cert ∷ certs)
      → cert.common_name ≡ (agent_subject cluster_name agent_name).common_name
      → Restarted cluster_name agent_name
          (cert ∷ certs)
          (complete disk parse_certs secrets new_cluster_name new_agent_name o files h)
  complete_restart new_cluster_name new_agent_name cluster_name agent_name kubeconfig key cert_data
        namespace o files h secret cert certs p q asked here got same parsed is =
      let dumped =
        dump_secret disk secrets namespace o.hub_kubeconfig_secret o.hub_kubeconfig_dir files h in
      let there = λ (k v : String).
        read_registered cluster_name agent_name kubeconfig key cert_data namespace
          o.hub_kubeconfig_secret o.hub_kubeconfig_dir k v files h secret got same in
      let (_, _, has_cert, _, has_cluster, has_agent) =
        registered_data_lem cluster_name agent_name kubeconfig key cert_data in
      let names =
        get_names-agent_subject parse_certs cert_data cluster_name agent_name cert certs p q parsed
          is in
      let completed =
        names_read new_cluster_name new_agent_name cluster_name agent_name cert_data
          (record o { component_namespace = namespace }) dumped.1 dumped.2 asked names
          (there tls_cert_file cert_data has_cert dumped.2).0
          (there cluster_name_file cluster_name has_cluster dumped.2).0
          (there agent_name_file agent_name has_agent dumped.2).0 in
      let o' : SpokeAgentOptions = record o {
        component_namespace = namespace;
        cluster_name = cluster_name;
        agent_name = agent_name;
      } in
      let whole =
        complete_done new_cluster_name new_agent_name cluster_name agent_name namespace o files h
          here
          (dump_secret_done disk sound secrets namespace o.hub_kubeconfig_secret
            o.hub_kubeconfig_dir files h secret got)
          completed in
      subst (Restarted cluster_name agent_name (cert ∷ certs)) (sym whole) (
        refl,
        refl,
        refl,
        valid_of_files cluster_name agent_name kubeconfig key cert_data o' dumped.1 cert certs refl
            refl parsed names there,
      )
