-- ===== src/Services/Qos.antt =====
-- qos_service.py: the limits on a volume's input and output, kept in a cgroup.
pub mod IoMax
pub mod Lines
pub mod RoundTrip
pub mod Tests
use arca_storage.Base.{
  ℕ, Bool, true, false, not, Option, none, some, List, [], ◌∷◌, ◌++◌, Text, codes, ℤ, split, strip,
  parse_hex, int_text, join, is_empty, if◌then◌else◌,
}
use arca_storage.Results.{
  Error, Result, Checked, ok, err, or_raise, volume_not_found, no_lv_path, cgroup_base_failed,
  cgroup_failed, device_failed, write_failed, read_failed,
}
use arca_storage.Validators.{validate_name}
use arca_storage.Actions.{Action, pure, lift, raise, ◌>>=◌, ◌>>◌, raise_when}
use arca_storage.State.Files.{Volume, Files, list_volumes}
use arca_storage.Host.{Host, Completed, failed, command}
use arca_storage.Services.{Store, on_host}
use arca_storage.Services.Qos.IoMax.{Limits, no_limits, io_max_content, unlimited, parse_io_max}

-- The file system below the program. A call that fails gives the text of its exception.
pub record FileSystem (W : Type 0) : Type 0 where
  pub mkdir : Text → W → Option Text × W
  pub write : Text → Text → W → Option Text × W
  pub read : Text → W → Result Text Text

-- What a request answers; the limits are `none` where `qos_enabled` is false.
pub record QosSettings : Type 0 where
  pub svm : Text
  pub volume : Text
  pub device_id : Text
  pub cgroup_path : Text
  pub limits : Limits

abbrev pub cgroup_base : Text
cgroup_base = codes "/sys/fs/cgroup/arca"

unfoldable pub cgroup_path_of : Text → Text → Text
cgroup_path_of svm volume = cgroup_base ++ (codes "/svm_" ++ (svm ++ (codes "/vol_" ++ volume)))

abbrev pub io_max_file : Text → Text
io_max_file cgroup_path = cgroup_path ++ codes "/io.max"

-- "major:minor" of the hexadecimal numbers that `stat` prints
abbrev pub device_text : List Text → Option Text
device_text (hex_major ∷ hex_minor ∷ []) = elim (parse_hex hex_major) [
  | none ↦ none
  | some major ↦ elim (parse_hex hex_minor) [
    | none ↦ none
    | some minor ↦ some (int_text major ++ b':' ∷ int_text minor)
  ]
]
device_text _ = none

abbrev pub stat_command : Text → List Text
stat_command lv_path = codes "stat" ∷ codes "--format=%t:%T" ∷ lv_path ∷ []

module _ {W : Type 0} where
  -- The logical volume of the first record of the volume.
  unfoldable pub lv_path_in : Text → Text → Store W → Checked Text
  lv_path_in svm volume s = elim (list_volumes (some svm) (some volume) s.files) [
    | [] ↦ err (volume_not_found volume svm)
    | v ∷ vs ↦ if is_empty v.lv_path then err (no_lv_path volume) else ok v.lv_path
  ]

  abbrev pub find_lv_path : Text → Text → Action (Store W) Text
  find_lv_path svm volume s = (lv_path_in svm volume s, s)

  -- A call of the file system, whose exception is raised again.
  abbrev pub or_fail : Error → (W → Option Text × W) → Action W (Unit {0})
  or_fail e call w =
      let (fault, w') = call w in (elim fault [ none ↦ ok tt | some text ↦ err e ], w')

module _ {W : Type 0} (h : Host W) (fs : FileSystem W) where
  abbrev pub exists : Text → Action W Bool
  exists path w = (ok (h.exists path w), w)

  -- `if not path.exists(): path.mkdir(...)`
  abbrev pub ensure_directory : Error → Text → Action W (Unit {0})
  ensure_directory e path = do
    there ← exists path
    if there then pure tt else or_fail e (fs.mkdir path)

  unfoldable pub get_device_id : Text → Action W Text
  get_device_id lv_path = do
    result ← command h (stat_command lv_path)
    raise_when (failed result) (device_failed lv_path)
    lift (or_raise (device_text (split b':' (strip result.stdout))) (device_failed lv_path))

  unfoldable pub write_io_max : Text → Text → Action W (Unit {0})
  write_io_max cgroup_path content =
      or_fail (write_failed (io_max_file cgroup_path)) (fs.write (io_max_file cgroup_path) content)

  unfoldable pub apply_qos_to_volume : Text → Text → Limits → Action (Store W) QosSettings
  apply_qos_to_volume svm volume limits = do
    lift (validate_name svm)
    lift (validate_name volume)
    lv_path ← find_lv_path svm volume
    let cgroup_path = cgroup_path_of svm volume
    on_host (ensure_directory (cgroup_base_failed cgroup_base) cgroup_base)
    on_host (ensure_directory (cgroup_failed cgroup_path) cgroup_path)
    device_id ← on_host (get_device_id lv_path)
    on_host (write_io_max cgroup_path (io_max_content device_id limits))
    pure (record {
      svm = svm;
      volume = volume;
      device_id = device_id;
      cgroup_path = cgroup_path;
      limits = limits;
    })

  unfoldable pub remove_qos_from_volume : Text → Text → Action (Store W) (Unit {0})
  remove_qos_from_volume svm volume = do
    lift (validate_name svm)
    lift (validate_name volume)
    lv_path ← find_lv_path svm volume
    let cgroup_path = cgroup_path_of svm volume
    there ← on_host (exists cgroup_path)
    if not there then pure tt else do
      device_id ← on_host (get_device_id lv_path)
      on_host (write_io_max cgroup_path (unlimited device_id))

  abbrev pub read_io_max : Text → Action W Text
  read_io_max path w = elim (fs.read path w) [
    | ok text ↦ (ok (strip text), w)
    | err fault ↦ (err (read_failed path), w)
  ]

  -- `none` stands for an answer with `qos_enabled` false.
  unfoldable pub get_qos_settings : Text → Text → Action (Store W) (Option QosSettings)
  get_qos_settings svm volume = do
    lift (validate_name svm)
    lift (validate_name volume)
    lv_path ← find_lv_path svm volume
    let cgroup_path = cgroup_path_of svm volume
    there ← on_host (exists cgroup_path)
    if not there then pure none else do
      device_id ← on_host (get_device_id lv_path)
      has_file ← on_host (exists (io_max_file cgroup_path))
      if not has_file then pure none else do
        content ← on_host (read_io_max (io_max_file cgroup_path))
        limits ← lift (parse_io_max device_id content)
        pure (
            some (record {
              svm = svm;
              volume = volume;
              device_id = device_id;
              cgroup_path = cgroup_path;
              limits = limits;
            }))
