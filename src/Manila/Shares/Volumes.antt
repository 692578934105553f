-- ===== src/Manila/Shares/Volumes.antt =====
-- The volume of a share.
use arca_storage.Base.{ℕ, Option, none, some, Text, nat_order}
use arca_storage.Results.{Result, ok, err}
use arca_storage.Manila.{
  share_not_found, share_exists, DriverError, share_backend, share_resource_not_found,
  not_implemented,
}
use arca_storage.Manila.Svms.{NetworkAllocator, SvmApi, Driver}
use arca_storage.Manila.Shares.{
  Share, ShareApi, ShareConfig, filled, get_svm_for_share, ensure_svm_for_share, volume_of,
  apply_qos_to_share,
}

module _ {W : Type 0} (api : ShareApi W) where
  -- A volume was made on an SVM: its export path is the share's, and the SVM's name is kept.
  unfoldable pub finish_share : Share → Text → Option Text → W → Result DriverError Text × W
  unfolding apply_qos_to_share
  finish_share share svm_name export_path w = elim (filled export_path) [
    | none ↦ (err share_backend, w)
    | some path ↦ (
      ok path,
      apply_qos_to_share api share (volume_of share.id) svm_name
          (api.persist_share_metadata share.id svm_name w),
    )
  ]

  -- `create_volume` of `create_share`, and what follows; a volume that is there is looked up.
  unfoldable pub create_on : Share → Text → W → Result DriverError Text × W
  unfolding finish_share
  create_on share svm_name w =
      let (r, w1) = api.create_volume (volume_of share.id) svm_name share.size w in
      elim r [
        | ok export_path ↦ finish_share share svm_name export_path w1
        | err e ↦ elim e [
          | share_exists ↦
              let (g, w2) = api.get_volume (volume_of share.id) svm_name w1 in
              elim g [
                | err _ ↦ (err share_backend, w2)
                | ok export_path ↦ elim (filled export_path) [
                  | none ↦ (err share_backend, w2)
                  | some path ↦ (ok path, w2)
                ]
              ]
          | _ ↦ (err share_backend, w1)
        ]
      ]

  -- `create_share`: the path of its export location. An SVM that is not found out is a failure.
  unfoldable pub create_share :
      NetworkAllocator W
      → SvmApi W
      → ShareConfig
      → Share
      → Driver W
      → Result DriverError Text × Driver W
  unfolding ensure_svm_for_share create_on
  create_share net svms cfg share s =
      let (found, s1) = ensure_svm_for_share net svms cfg share s in
      elim found [
        | err _ ↦ (err share_backend, s1)
        | ok answer ↦ elim answer [
          | none ↦ (err share_backend, s1)
          | some svm_name ↦
              let (r, w) = create_on share svm_name s1.world in (r, record s1 { world = w })
        ]
      ]

  -- `delete_share`: a share that is not there is deleted already.
  unfoldable pub delete_share : ShareConfig → Share → W → Result DriverError (Unit {0}) × W
  unfolding get_svm_for_share
  delete_share cfg share w = elim (get_svm_for_share cfg share) [
    | err _ ↦ (err share_backend, w)
    | ok svm_name ↦
        let (r, w') = api.delete_volume (volume_of share.id) svm_name w in
        elim r [
          | ok _ ↦ (ok tt, w')
          | err e ↦ elim e [ share_not_found ↦ (ok tt, w') | _ ↦ (err share_backend, w') ]
        ]
  ]

  unfoldable pub extend_share : ShareConfig → Share → ℕ → W → Result DriverError (Unit {0}) × W
  unfolding get_svm_for_share
  extend_share cfg share new_size w = elim (get_svm_for_share cfg share) [
    | err _ ↦ (err share_backend, w)
    | ok svm_name ↦
        let (r, w') = api.resize_volume (volume_of share.id) svm_name new_size w in
        elim r [
          | ok _ ↦ (ok tt, w')
          | err e ↦ elim e [
            | share_not_found ↦ (err share_resource_not_found, w')
            | _ ↦ (err share_backend, w')
          ]
        ]
  ]

  -- XFS file systems do not shrink.
  unfoldable pub shrink_share : Share → ℕ → W → Result DriverError (Unit {0}) × W
  shrink_share share new_size w = (err not_implemented, w)
