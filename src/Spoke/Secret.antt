-- ===== src/Spoke/Secret.antt =====
-- pkg/spoke/managedcluster/secret_controller.go: the secret with the hub's kubeconfig is copied to
-- the agent's file system. The file system is the map of its files. The directory is a clean path,
-- and a key of a secret is a plain file name, so that a slash joins them. An operation on a file may
-- fail; a write that fails may leave the file as it was, or with other contents.
pub mod Dumped
pub mod Repeated
use ocm_registration.Base.{
  String, ◌<>◌, Bool, true, false, List, [], ◌∷◌, Option, none, some, ◌==◌, string_eq,
  if◌then◌else◌,
}
use ocm_registration.Base.Dict.{Dict, lookup, insert}
use ocm_registration.Kube.{
  Err, not_found, wrapped, is_not_found, Result, ok, err, event, get_secret, Trace, Secret,
  SecretApi,
}

abbrev pub Files : Type 0
Files = Dict String

-- The failures of `os.Stat`, `os.MkdirAll`, `ioutil.ReadFile` and `ioutil.WriteFile`. The second
-- part of a failed write is what the file then holds, `none` if that is unchanged.
pub record Disk : Type 0 where
  pub stat_fault : Trace → String → Option Err
  pub mkdir_fault : Trace → String → Option Err
  pub read_fault : Trace → String → Option Err
  pub write_fault : Trace → String → Option (Err × Option String)

-- A result, with the files and the trace after it.
abbrev pub Outcome : Type 0
Outcome = Result (Unit {0}) × Files × Trace

abbrev pub path_join : String → String → String
path_join dir key = dir <> ("/" <> key)

module _ (disk : Disk) where
  unfoldable pub read_file : String → Files → Trace → Result String
  unfolding lookup
  read_file filename files h = elim (disk.read_fault h filename) [
    | some e ↦ err e
    | none ↦ elim (lookup filename files) [ none ↦ err not_found | some contents ↦ ok contents ]
  ]

  -- `os.IsNotExist` of the error of `os.Stat`.
  unfoldable pub is_missing : String → Files → Trace → Bool
  unfolding lookup
  is_missing filename files h = elim (disk.stat_fault h filename) [
    | some e ↦ is_not_found e
    | none ↦ elim (lookup filename files) [ none ↦ true | some _ ↦ false ]
  ]

  unfoldable pub write_file : String → String → Files → Trace → Result (Unit {0}) × Files
  unfolding insert
  write_file filename contents files h = elim (disk.write_fault h filename) [
    | none ↦ (ok tt, insert filename contents files)
    | some (e, none) ↦ (err e, files)
    | some (e, some torn) ↦ (err e, insert filename torn files)
  ]

  abbrev recorded : String → Trace → Result (Unit {0}) × Files → Outcome
  recorded reason h (ok _, files) = (ok tt, files, event reason ∷ h)
  recorded reason h (err e, files) = (err (wrapped "unable to write file" e), files, h)

  abbrev save : String → String → Files → Trace → Result String → Outcome
  save filename contents files h (err e) =
      if is_not_found e
      then recorded "FileCreated" h (write_file filename contents files h)
      else (err (wrapped "unable to read file" e), files, h)
  save filename contents files h (ok last) =
      if last == contents
      then (ok tt, files, h)
      else recorded "FileUpdated" h (write_file filename contents files h)

  -- One round of the loop.
  unfoldable pub dump_file : String → String → Files → Trace → Outcome
  unfolding read_file write_file
  dump_file filename contents files h = save filename contents files h (read_file filename files h)

  unfoldable pub dump_files : String → Dict String → Files → Trace → Outcome
  unfolding dump_file
  dump_files dir [] files h = (ok tt, files, h)
  dump_files dir ((key, contents) ∷ rest) files h =
      let (r, files', h') = dump_file (path_join dir key) contents files h in
      let others = dump_files dir rest files' h' in
      elim r [ ok _ ↦ others | err e ↦ (err e, files', h') ]

  module _ (secrets : SecretApi) (secret_namespace secret_name output_dir : String) where
    abbrev dump : Files → Trace → Result Secret → Outcome
    dump files h (err e) =
        if is_not_found e
        then (ok tt, files, h)
        else (err (wrapped "unable to get secret" e), files, h)
    dump files h (ok secret) = elim (disk.mkdir_fault h output_dir) [
      | some e ↦ (err (wrapped "unable to create dir" e), files, h)
      | none ↦ dump_files output_dir secret.contents files h
    ]

    -- `DumpSecret`, which is all that the controller's `sync` does.
    unfoldable pub dump_secret : Files → Trace → Outcome
    unfolding dump_files
    dump_secret files h =
        dump files (get_secret secret_namespace secret_name ∷ h)
          (secrets.get h secret_namespace secret_name)
