-- ===== src/Helpers/Assets.antt =====
-- pkg/helpers/helpers.go: the manifest file of a managed cluster, made of an embedded template.
-- `join` stands for `filepath.Join`, `must_asset` for the generated `MustAsset`, and
-- `create_asset_from_template` for `MustCreateAssetFromTemplate` of library-go, of a file's name, its
-- template and the name of the cluster.
use ocm_registration.Base.{String}
use ocm_registration.Kube.{Result, ok}

module _ (join : String → String → String) (must_asset : String → String)
    (create_asset_from_template : String → String → String → String) where
  abbrev pub managed_cluster_asset_fn : String → String → String → Result String
  managed_cluster_asset_fn manifest_dir managed_cluster_name name =
      ok
        (create_asset_from_template name (must_asset (join manifest_dir name)) managed_cluster_name)
