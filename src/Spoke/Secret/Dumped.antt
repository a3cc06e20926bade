-- ===== src/Spoke/Secret/Dumped.antt =====
-- What the files hold after the secret is copied.
use text.Mathlib.TextLemmas.{append_cancel_left}
use ocm_registration.Base.{
  String, [], ◌∷◌, none, some, ◌≡◌, ◌≢◌, refl, arith, string_eq, inl, inr, Option-cases,
}
use ocm_registration.Base.Dict.{Dict, lookup, IsMap, or_else, lookup-insert}
use ocm_registration.Kube.{get_secret, ok, Trace, Result-cases, Secret, SecretApi}
use ocm_registration.Spoke.Secret.{
  Files, Disk, path_join, dump_file, dump_files, dump_secret, read_file, write_file,
}

path_join_inj : (dir j k : String) → path_join dir j ≡ path_join dir k → j ≡ k
path_join_inj dir j k p = append_cancel_left "/" j k (append_cancel_left dir _ _ p)

module _ (disk : Disk) where
  write_file_other :
      (filename contents name : String) (files : Files) (h : Trace)
      → filename ≢ name
      → lookup name (write_file disk filename contents files h).1 ≡ lookup name files
  unfolding write_file
  write_file_other filename contents name files h p =
      elim (Option-cases (disk.write_fault h filename)) [
        | inl sound ↦ ground (arith, sound, p, lookup-insert name filename contents files)
        | inr ((e, left), broken) ↦ elim (Option-cases left) [
          | inl same ↦ ground (arith, broken, same)
          | inr (torn, cut) ↦ ground (arith, broken, cut, p, lookup-insert name filename torn files)
        ]
      ]

  -- A file is written by its own round only.
  dump_file_other :
      (filename contents name : String) (files : Files) (h : Trace)
      → filename ≢ name
      → lookup name (dump_file disk filename contents files h).1 ≡ lookup name files
  unfolding dump_file
  dump_file_other filename contents name files h p =
      ground (arith, p, write_file_other filename contents name files h)

  write_file_ok :
      (filename contents : String) (files : Files) (h : Trace)
      → (write_file disk filename contents files h).0 ≡ ok tt
      → lookup filename (write_file disk filename contents files h).1 ≡ some contents
  unfolding write_file
  write_file_ok filename contents files h p =
      ground (arith, p, lookup-insert filename filename contents files)

  read_file_ok :
      (filename contents : String) (files : Files) (h : Trace)
      → read_file disk filename files h ≡ ok contents
      → lookup filename files ≡ some contents
  unfolding read_file
  read_file_ok filename contents files h p = ground (arith, p)

  dump_file_ok :
      (filename contents : String) (files : Files) (h : Trace)
      → (dump_file disk filename contents files h).0 ≡ ok tt
      → lookup filename (dump_file disk filename contents files h).1 ≡ some contents
  unfolding dump_file
  dump_file_ok filename contents files h p =
      ground
        (arith, p, write_file_ok filename contents files h, read_file_ok filename contents files h)

  dump_files_other :
      (dir name : String) (contents : Dict String) (files : Files) (h : Trace)
      → ((k : String) → path_join dir k ≡ name → lookup k contents ≡ none)
      → lookup name (dump_files disk dir contents files h).1 ≡ lookup name files
  unfolding dump_files lookup
  dump_files_other dir name [] files h p = refl
  dump_files_other dir name ((key, c) ∷ rest) files h p =
      let filename = path_join dir key in
      let one = dump_file disk filename c files h in
      let differ : filename ≢ name = λ q. absurd (ground (arith, p key q)) in
      let absent : (k : String) → path_join dir k ≡ name → lookup k rest ≡ none =
        λ k q. ground (arith, p k q) in
      ground (
        arith,
        dump_file_other filename c name files h differ,
        dump_files_other dir name rest one.1 one.2 absent,
        Result-cases one.0,
      )

  dump_files_ok :
      (dir k : String) (contents : Dict String) (files : Files) (h : Trace)
      → IsMap contents
      → (dump_files disk dir contents files h).0 ≡ ok tt
      → lookup (path_join dir k) (dump_files disk dir contents files h).1
        ≡ or_else (lookup k contents) (lookup (path_join dir k) files)
  unfolding dump_files lookup
  dump_files_ok dir k [] files h u p = refl
  dump_files_ok dir k ((key, c) ∷ rest) files h (fresh, u) p =
      let filename = path_join dir key in
      let one = dump_file disk filename c files h in
      elim (Result-cases one.0) [
        | inr (e, failed) ↦ absurd (ground (arith, failed, p))
        | inl (_, done) ↦
            let later = dump_files_ok dir k rest one.1 one.2 u (ground (arith, done, p)) in
            elim (string_eq.dec key k) [
              | yes same ↦
                  ground (arith, done, later, same, fresh, dump_file_ok filename c files h done)
              | no differ ↦
                  let away : filename ≢ path_join dir k = λ q. differ (path_join_inj dir key k q) in
                  ground (
                    arith,
                    done,
                    later,
                    differ,
                    dump_file_other filename c (path_join dir k) files h away,
                  )
            ]
      ]

  module _ (secrets : SecretApi) (secret_namespace secret_name output_dir : String) where
    -- After a successful copy of a secret that exists, the file of each key in the directory holds
    -- the secret's data for the key, or what it held before if the secret does not have the key.
    -- No other file changes, and when the copy fails none changes but those of the secret's keys.
    pub dump_secret_holds :
        (files : Files) (h : Trace) (secret : Secret)
        → secrets.get h secret_namespace secret_name ≡ ok secret
        → IsMap secret.contents
        → ((dump_secret disk secrets secret_namespace secret_name output_dir files h).0 ≡ ok tt
            → (key : String)
            → lookup
                (path_join output_dir key)
                (dump_secret disk secrets secret_namespace secret_name output_dir files h).1
              ≡ or_else (lookup key secret.contents) (lookup (path_join output_dir key) files))
          × ((name : String)
              → ((key : String)
                  → path_join output_dir key ≡ name
                  → lookup key secret.contents ≡ none)
              → lookup name
                  (dump_secret disk secrets secret_namespace secret_name output_dir files h).1
                ≡ lookup name files)
    unfolding dump_secret
    dump_secret_holds files h secret got u =
        let h' = get_secret secret_namespace secret_name ∷ h in
        (
          λ p key. ground (arith, got, p, dump_files_ok output_dir key secret.contents files h' u),
          λ name p.
              ground (arith, got, dump_files_other output_dir name secret.contents files h' p),
        )
