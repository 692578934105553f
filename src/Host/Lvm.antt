-- ===== src/Host/Lvm.antt =====
-- cli/lib/lvm.py: logical volumes by the commands of LVM.
use arca_storage.Base.{ℕ, Bool, List, [], ◌∷◌, ◌++◌, Text, codes, decimal, if◌then◌else◌}
use arca_storage.Results.{
  lv_exists, lv_missing, source_lv_missing, snapshot_exists, create_lv_failed, resize_lv_failed,
  delete_lv_failed, create_snapshot_failed,
}
use arca_storage.Actions.{Action, pure, ◌>>=◌, ◌>>◌, raise_when}
use arca_storage.Host.{Host, succeeded, failed, command}

-- f"/dev/{vg_name}/{lv_name}"
unfoldable pub lv_path_of : Text → Text → Text
lv_path_of vg_name lv_name = codes "/dev/" ++ (vg_name ++ b'/' ∷ lv_name)

-- f"{size_gib}G"
abbrev gib : ℕ → Text
gib n = decimal n ++ codes "G"

abbrev pub lvdisplay : Text → List Text
lvdisplay lv_path = codes "lvdisplay" ∷ lv_path ∷ []

abbrev pub lvremove : Text → List Text
lvremove lv_path = codes "lvremove" ∷ codes "-f" ∷ lv_path ∷ []

abbrev pub lvcreate : Text → Text → ℕ → Bool → Text → List Text
lvcreate vg_name lv_name size_gib thin thinpool_name =
    if thin
    then codes "lvcreate"
      ∷ codes "-V"
      ∷ gib size_gib
      ∷ codes "-T"
      ∷ (vg_name ++ b'/' ∷ thinpool_name)
      ∷ codes "-n"
      ∷ lv_name
      ∷ []
    else codes "lvcreate" ∷ codes "-L" ∷ gib size_gib ∷ codes "-n" ∷ lv_name ∷ vg_name ∷ []

abbrev pub lvcreate_snapshot : Text → Text → List Text
lvcreate_snapshot snap_lv source_path =
    codes "lvcreate" ∷ codes "--snapshot" ∷ codes "--name" ∷ snap_lv ∷ source_path ∷ []

module _ {W : Type 0} (h : Host W) where
  unfoldable pub create_lv : Text → Text → ℕ → Bool → Text → Action W Text
  create_lv vg_name lv_name size_gib thin thinpool_name = do
    let lv_path = lv_path_of vg_name lv_name
    result ← command h (lvdisplay lv_path)
    raise_when (succeeded result) (lv_exists lv_path)
    created ← command h (lvcreate vg_name lv_name size_gib thin thinpool_name)
    raise_when (failed created) (create_lv_failed created.stderr)
    pure lv_path

  unfoldable pub resize_lv : Text → Text → ℕ → Action W (Unit {0})
  resize_lv vg_name lv_name new_size_gib = do
    let lv_path = lv_path_of vg_name lv_name
    result ← command h (lvdisplay lv_path)
    raise_when (failed result) (lv_missing lv_path)
    resized ← command h (codes "lvextend" ∷ codes "-L" ∷ gib new_size_gib ∷ lv_path ∷ [])
    raise_when (failed resized) (resize_lv_failed resized.stderr)

  -- A logical volume that does not exist is passed over.
  unfoldable pub delete_lv : Text → Text → Action W (Unit {0})
  delete_lv vg_name lv_name = do
    let lv_path = lv_path_of vg_name lv_name
    result ← command h (lvdisplay lv_path)
    if failed result then pure tt else do
      removed ← command h (lvremove lv_path)
      raise_when (failed removed) (delete_lv_failed removed.stderr)

  unfoldable pub create_snapshot_lv : Text → Text → Text → Action W Text
  create_snapshot_lv vg_name source_lv snap_lv = do
    let source_path = lv_path_of vg_name source_lv
    let snap_path = lv_path_of vg_name snap_lv
    source ← command h (lvdisplay source_path)
    raise_when (failed source) (source_lv_missing source_path)
    old ← command h (lvdisplay snap_path)
    raise_when (succeeded old) (snapshot_exists snap_path)
    created ← command h (lvcreate_snapshot snap_lv source_path)
    raise_when (failed created) (create_snapshot_failed created.stderr)
    pure snap_path

  unfoldable pub delete_snapshot_lv : Text → Text → Action W (Unit {0})
  unfolding delete_lv
  delete_snapshot_lv vg_name snap_lv = delete_lv vg_name snap_lv
