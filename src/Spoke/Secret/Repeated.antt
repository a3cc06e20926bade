-- ===== src/Spoke/Secret/Repeated.antt =====
-- Copies that succeed: of a secret whose data the files hold already, and on a disk that works.
use ocm_registration.Base.{String, [], ◌∷◌, none, some, ◌≡◌, refl, arith, string_eq}
use ocm_registration.Base.Dict.{Dict, lookup, IsMap}
use ocm_registration.Kube.{get_secret, ok, Trace, Secret, SecretApi}
use ocm_registration.Spoke.Secret.Dumped.{dump_secret_holds}
use ocm_registration.Spoke.Secret.{
  Files, Disk, path_join, dump_file, dump_files, dump_secret, read_file, write_file,
}

module _ (disk : Disk) where
  dump_file-settled :
      (filename contents : String) (files : Files) (h : Trace)
      → disk.read_fault h filename ≡ none
      → lookup filename files ≡ some contents
      → dump_file disk filename contents files h ≡ (ok tt, files, h)
  unfolding dump_file read_file
  dump_file-settled filename contents files h sound same = ground (arith, sound, same)

  dump_files-settled :
      (dir : String) (contents : Dict String) (files : Files) (h : Trace)
      → IsMap contents
      → ((name : String) → disk.read_fault h name ≡ none)
      → ((k c : String) → lookup k contents ≡ some c → lookup (path_join dir k) files ≡ some c)
      → dump_files disk dir contents files h ≡ (ok tt, files, h)
  unfolding dump_files lookup
  dump_files-settled dir [] files h u sound holds = refl
  dump_files-settled dir ((key, c) ∷ rest) files h (fresh, u) sound holds =
      let one =
        dump_file-settled (path_join dir key) c files h (sound (path_join dir key))
          (holds key c (ground arith)) in
      let later : (k d : String)
          → lookup k rest ≡ some d
          → lookup (path_join dir k) files ≡ some d =
        λ k d q. holds k d (ground (arith, q, fresh)) in
      ground (arith, one, dump_files-settled dir rest files h u sound later)

  -- Two copies in a row: if the first succeeds, the secret is the same at the second, and the
  -- directory and the files can be read then, the second changes no file and makes no call but the
  -- one that gets the secret.
  pub dump_secret_repeated :
      (secrets : SecretApi) (secret_namespace secret_name output_dir : String) (files : Files)
      (h g : Trace) (secret : Secret)
      → secrets.get h secret_namespace secret_name ≡ ok secret
      → secrets.get g secret_namespace secret_name ≡ ok secret
      → IsMap secret.contents
      → (dump_secret disk secrets secret_namespace secret_name output_dir files h).0 ≡ ok tt
      → disk.mkdir_fault (get_secret secret_namespace secret_name ∷ g) output_dir ≡ none
      → ((name : String)
          → disk.read_fault (get_secret secret_namespace secret_name ∷ g) name ≡ none)
      → dump_secret disk secrets secret_namespace secret_name output_dir
          (dump_secret disk secrets secret_namespace secret_name output_dir files h).1
          g
        ≡ (
          ok tt,
          (dump_secret disk secrets secret_namespace secret_name output_dir files h).1,
          get_secret secret_namespace secret_name ∷ g,
        )
  unfolding dump_secret
  dump_secret_repeated secrets secret_namespace secret_name output_dir files h g secret got again u
        done made sound =
      let (holds, _) =
        dump_secret_holds disk secrets secret_namespace secret_name output_dir files h secret got
          u in
      let h' = get_secret secret_namespace secret_name ∷ g in
      let files' = (dump_secret disk secrets secret_namespace secret_name output_dir files h).1 in
      let settled =
        dump_files-settled output_dir secret.contents files' h' u sound
          (λ k c q. ground (arith, holds done k, q)) in
      ground (arith, again, made, settled)

-- No operation on a file fails.
pub record IsSound (disk : Disk) : Type 0 where
  pub stats : (h : Trace) (name : String) → disk.stat_fault h name ≡ none
  pub makes : (h : Trace) (name : String) → disk.mkdir_fault h name ≡ none
  pub reads : (h : Trace) (name : String) → disk.read_fault h name ≡ none
  pub writes : (h : Trace) (name : String) → disk.write_fault h name ≡ none

module _ (disk : Disk) (sound : IsSound disk) where
  dump_file_done :
      (filename contents : String) (files : Files) (h : Trace)
      → (dump_file disk filename contents files h).0 ≡ ok tt
  unfolding dump_file read_file write_file
  dump_file_done filename contents files h =
      ground (arith, sound.reads h filename, sound.writes h filename)

  dump_files_done :
      (dir : String) (contents : Dict String) (files : Files) (h : Trace)
      → (dump_files disk dir contents files h).0 ≡ ok tt
  unfolding dump_files
  dump_files_done dir [] files h = refl
  dump_files_done dir ((key, c) ∷ rest) files h =
      let one = dump_file disk (path_join dir key) c files h in
      ground
        (arith, dump_file_done (path_join dir key) c files h, dump_files_done dir rest one.1 one.2)

  pub dump_secret_done :
      (secrets : SecretApi) (secret_namespace secret_name output_dir : String) (files : Files)
      (h : Trace) (secret : Secret)
      → secrets.get h secret_namespace secret_name ≡ ok secret
      → (dump_secret disk secrets secret_namespace secret_name output_dir files h).0 ≡ ok tt
  unfolding dump_secret
  dump_secret_done secrets secret_namespace secret_name output_dir files h secret got =
      let h' = get_secret secret_namespace secret_name ∷ h in
      ground
        (arith, got, sound.makes h' output_dir, dump_files_done output_dir secret.contents files h')
