-- ===== src/State/Files.antt =====
-- The operations on svms.json, volumes.json and snapshots.json.
pub mod Keys
pub mod Refine
pub mod Maps
use arca_storage.Base.{
  ℕ, ◌≡◌, Bool, true, false, ◌&&◌, not, Option, none, some, List, [], ◌∷◌, Text, is_empty, length,
  filter, nat_eqb, list_eqb, nat_order, if◌then◌else◌,
}
use arca_storage.State.Table.{Key, put}

pub record Svm : Type 0 where
  pub name : Text
  pub vlan_id : ℕ
  pub ip_cidr : Text
  pub gateway : Text
  pub mtu : ℕ
  pub namespace : Text
  pub vip : Text
  pub ifname : Text
  pub status : Text
  pub created_at : Option Text

pub record Volume : Type 0 where
  pub svm : Text
  pub name : Text
  pub size_gib : ℕ
  pub thin : Bool
  pub fs_type : Text
  pub mount_path : Text
  pub lv_path : Text
  pub lv_name : Text
  pub status : Text
  pub created_at : Option Text

pub record Snapshot : Type 0 where
  pub svm : Text
  pub volume : Text
  pub name : Text
  pub lv_path : Text
  pub lv_name : Text
  pub status : Text
  pub created_at : Option Text

-- The three files; `none` is a file that does not exist.
pub record Files : Type 0 where
  pub svms : Option (List Svm)
  pub volumes : Option (List Volume)
  pub snapshots : Option (List Snapshot)

-- The items of a file, `_load_json(path, {"items": []}).get("items", [])`.
abbrev pub items_of {ℓ} : {R : Type ℓ} → Option (List R) → List R
items_of none = []
items_of (some items) = items

-- `if "created_at" not in record: record["created_at"] = now`
abbrev pub stamp : Text → Option Text → Option Text
stamp now none = some now
stamp now (some t) = some t

-- `if value: items = [i for i in items if i.get(field) == value]`
abbrev pub narrow {ℓ} : {R : Type ℓ} → (R → Text) → Option Text → List R → List R
narrow field none items = items
narrow field (some v) items = if is_empty v then items else filter (λ i. list_eqb (field i) v) items

abbrev pub svm_key : Svm → Key
svm_key s = s.name ∷ []

abbrev pub volume_key : Volume → Key
volume_key v = v.svm ∷ v.name ∷ []

abbrev pub snapshot_key : Snapshot → Key
snapshot_key s = s.svm ∷ s.volume ∷ s.name ∷ []

abbrev pub is_svm : Text → Svm → Bool
is_svm name i = list_eqb i.name name

abbrev pub is_volume : Text → Text → Volume → Bool
is_volume svm name i = list_eqb i.svm svm && list_eqb i.name name

abbrev pub is_snapshot : Text → Text → Text → Snapshot → Bool
is_snapshot svm volume name i =
    list_eqb i.svm svm && list_eqb i.volume volume && list_eqb i.name name

unfoldable pub list_svms : Option Text → Files → List Svm
list_svms name files = narrow (λ s. s.name) name (items_of files.svms)

unfoldable pub upsert_svm : Text → Svm → Files → Files
upsert_svm now svm files =
    let svm' : Svm = record svm { created_at = stamp now svm.created_at } in
    record files { svms = some (put svm_key (λ i r. is_svm r.name i) svm' (items_of files.svms)) }

-- The file is written only where the removal shortens the list.
abbrev pub removed {ℓ} : {R : Type ℓ} → (R → Bool) → Option (List R) → Option (List R) × Bool
removed p file =
    let new_items = filter (λ i. not (p i)) (items_of file) in
    if nat_eqb (length new_items) (length (items_of file))
    then (file, false)
    else (some new_items, true)

unfoldable pub delete_svm : Text → Files → Files × Bool
delete_svm name files =
    let (file, done) = removed (is_svm name) files.svms in (record files { svms = file }, done)

unfoldable pub list_volumes : Option Text → Option Text → Files → List Volume
list_volumes svm name files =
    narrow (λ v. v.name) name (narrow (λ v. v.svm) svm (items_of files.volumes))

unfoldable pub upsert_volume : Text → Volume → Files → Files
upsert_volume now volume files =
    let volume' : Volume = record volume { created_at = stamp now volume.created_at } in
    record files {
      volumes =
          some (put volume_key (λ i r. is_volume r.svm r.name i) volume' (items_of files.volumes));
    }

unfoldable pub delete_volume : Text → Text → Files → Files × Bool
delete_volume svm name files =
    let (file, done) = removed (is_volume svm name) files.volumes in
    (record files { volumes = file }, done)

unfoldable pub list_snapshots : Option Text → Option Text → Option Text → Files → List Snapshot
list_snapshots svm volume name files =
    narrow (λ s. s.name) name
      (narrow (λ s. s.volume) volume (narrow (λ s. s.svm) svm (items_of files.snapshots)))

unfoldable pub upsert_snapshot : Text → Snapshot → Files → Files
upsert_snapshot now snapshot files =
    let snapshot' : Snapshot = record snapshot { created_at = stamp now snapshot.created_at } in
    record files {
      snapshots = some (
          put snapshot_key (λ i r. is_snapshot r.svm r.volume r.name i) snapshot'
            (items_of files.snapshots));
    }

unfoldable pub delete_snapshot : Text → Text → Text → Files → Files × Bool
delete_snapshot svm volume name files =
    let (file, done) = removed (is_snapshot svm volume name) files.snapshots in
    (record files { snapshots = file }, done)
