-- ===== src/Manila/Served.antt =====
-- openstack/manila/client.py over api/main.py: what the calls of the client on volumes and snapshots
-- come to where this program serves them, and every answer arrives in time. A name stands in the
-- path of a request as it is.
pub mod Creations
pub mod Deletions
pub mod Svms
pub mod Shares
mod Tests
use arca_storage.Base.{
  ℕ, leb, ltb, length, is_empty, Bool, true, false, not, ◌&&◌, ◌||◌, Option, none, some, List, [],
  ◌∷◌, ◌++◌, Text, codes, nat_eqb, all, contains, list_eqb, list_order, nat_order, if◌then◌else◌,
}
use arca_storage.Results.{Error, Result, ok, err}
use arca_storage.Validators.{matches_name}
use arca_storage.State.Files.{Volume, Snapshot}
use arca_storage.Host.{Host}
use arca_storage.Services.{StorageConfig, Store}
use arca_storage.Services.Volumes.{VolumeCreate}
use arca_storage.Services.Snapshots.{SnapshotCreate, VolumeCloneCreate}
use arca_storage.Manila.{ApiError, share_not_found}
use arca_storage.Manila.Client.{response_error}
use arca_storage.Manila.Shares.{ShareApi}
use arca_storage.Api.Statuses.{Reply, answered, failed}
use arca_storage.Api

-- What the client finds as the message of an answer; `str_of` is `str` of an exception.
abbrev pub detail : (Error → Text) → ℕ → Error → Text
detail str_of status e = if nat_eqb status 500 then codes "Internal server error" else str_of e

-- `_make_request` of an answer
unfoldable pub result_of : {A : Type 0} → (Error → Text) → Text → Reply A → Result ApiError A
result_of str_of path (answered _ a) = ok a
result_of str_of path (failed status e) = err (response_error status path (detail str_of status e))

-- The keys of a volume's answer whose values are texts, besides `created_at`.
abbrev pub text_fields : Volume → List (Text × Text)
text_fields v =
    (codes "name", v.name)
    ∷ (codes "svm", v.svm)
    ∷ (codes "fs_type", v.fs_type)
    ∷ (codes "mount_path", v.mount_path)
    ∷ (codes "lv_path", v.lv_path)
    ∷ (codes "lv_name", v.lv_name)
    ∷ (codes "status", v.status)
    ∷ []

unfoldable pub get_field : Text → List (Text × Text) → Option Text
get_field key [] = none
get_field key ((k, v) ∷ fields) =
    let rest = get_field key fields in if list_eqb k key then some v else rest

-- `volume_info.get("export_path")`
abbrev pub export_path_of : Volume → Option Text
export_path_of v = get_field (codes "export_path") (text_fields v)

abbrev pub map_ok : {A B : Type 0} → (A → B) → Result ApiError A → Result ApiError B
map_ok f (ok a) = ok (f a)
map_ok f (err e) = err e

-- `if not items: raise ArcaShareNotFound(...)`, and `items[0]`
abbrev pub first_volume : Reply (List Volume) → Result ApiError (Option Text)
first_volume (answered _ (v ∷ vs)) = ok (export_path_of v)
first_volume _ = err share_not_found

-- The fields of VolumeCloneCreate that a request must have, and the keys that the client sends.
abbrev pub required_fields : List Text
required_fields = codes "name" ∷ codes "svm" ∷ codes "snapshot" ∷ []

abbrev pub clone_keys : List Text
clone_keys = codes "name" ∷ codes "svm" ∷ codes "snapshot_name" ∷ codes "size_gib" ∷ []

abbrev pub has_fields : List Text → List Text → Bool
has_fields required keys = all (λ field. contains field keys) required

abbrev pub volume_url : Text → Text
volume_url name = codes "/v1/volumes/" ++ name

abbrev pub snapshot_url : Text → Text
snapshot_url name = codes "/v1/snapshots/" ++ name

-- The volume that the client asks for.
abbrev pub request_of : Text → Text → ℕ → VolumeCreate
request_of name svm size_gib = record {
  name = name;
  svm = svm;
  size_gib = size_gib;
  thin = true;
  fs_type = codes "xfs";
}

-- What the request models ask of a name, and of the numbers and names of a request.
abbrev pub is_model_name : Text → Bool
is_model_name t = not (is_empty t) && leb (length t) 64 && matches_name t

abbrev pub is_volume_create : VolumeCreate → Bool
is_volume_create d = is_model_name d.name && is_model_name d.svm && ltb 0 d.size_gib

abbrev pub is_volume_resize : ℕ → Bool
is_volume_resize new_size_gib = ltb 0 new_size_gib

abbrev pub is_snapshot_create : SnapshotCreate → Bool
is_snapshot_create d = is_model_name d.name && is_model_name d.svm && is_model_name d.volume

-- A request that its model refuses is answered with 422 and reaches no service.
unfoldable pub if_accepted :
    {A W : Type 0} → Bool → Text → Result ApiError A × W → W → Result ApiError A × W
if_accepted true path answer w = answer
if_accepted false path answer w = (err (response_error 422 path (codes "Value error")), w)

module _ {W : Type 0} (h : Host W) (cfg : StorageConfig) (now : Text) (str_of : Error → Text) where
  unfoldable pub create_volume : Text → Text → ℕ → Store W → Result ApiError Volume × Store W
  unfolding result_of if_accepted
  create_volume name svm size_gib s =
      let request = request_of name svm size_gib in
      let (reply, s') = Api.create_volume h cfg now request s in
      if_accepted (is_volume_create request) (codes "/v1/volumes")
        (result_of str_of (codes "/v1/volumes") reply, s') s

  unfoldable pub get_volume : Text → Text → Store W → Result ApiError (Option Text) × Store W
  get_volume name svm s = (first_volume (Api.list_volumes (some svm) (some name) 100 s.files), s)

  unfoldable pub delete_volume : Text → Text → Store W → Result ApiError (Unit {0}) × Store W
  unfolding result_of
  delete_volume name svm s =
      let (reply, s') = Api.delete_volume h cfg name svm s in
      (result_of str_of (volume_url name) reply, s')

  unfoldable pub resize_volume : Text → Text → ℕ → Store W → Result ApiError Volume × Store W
  unfolding result_of if_accepted
  resize_volume name svm new_size_gib s =
      let (reply, s') = Api.resize_volume h cfg now name svm new_size_gib s in
      if_accepted (is_volume_resize new_size_gib) (volume_url name)
        (result_of str_of (volume_url name) reply, s') s

  unfoldable pub create_snapshot : Text → Text → Text → Store W → Result ApiError Snapshot × Store W
  unfolding result_of if_accepted
  create_snapshot name svm volume s =
      let request : SnapshotCreate = record { name = name; svm = svm; volume = volume } in
      let (reply, s') = Api.create_snapshot h cfg now request s in
      if_accepted (is_snapshot_create request) (codes "/v1/snapshots")
        (result_of str_of (codes "/v1/snapshots") reply, s') s

  unfoldable pub delete_snapshot :
      Text → Text → Text → Store W → Result ApiError (Unit {0}) × Store W
  unfolding result_of
  delete_snapshot name svm volume s =
      let (reply, s') = Api.delete_snapshot h cfg name svm volume s in
      (result_of str_of (snapshot_url name) reply, s')

  -- A request in which a field is missing is answered with 422 as well.
  unfoldable pub clone_volume_from_snapshot :
      Text → Text → Text → Text → ℕ → Store W → Result ApiError (Option Text) × Store W
  unfolding result_of
  clone_volume_from_snapshot name svm source_volume snapshot_name size_gib s =
      let path = volume_url (source_volume ++ codes "/clone") in
      if not (has_fields required_fields clone_keys)
      then (err (response_error 422 path (codes "Field required")), s)
      else let request : VolumeCloneCreate = record {
        name = name;
        svm = svm;
        snapshot = snapshot_name;
        size_gib = some size_gib;
      } in
        let (reply, s') = Api.clone_volume_from_snapshot h cfg now source_volume request s in
        (map_ok export_path_of (result_of str_of path reply), s')

  -- The calls of the driver, of which QoS and Manila's own records are as they were.
  abbrev pub served : ShareApi (Store W) → ShareApi (Store W)
  served api = record api {
    create_volume = λ name svm size s.
        let (r, s') = create_volume name svm size s in (map_ok export_path_of r, s');
    get_volume = λ name svm s. get_volume name svm s;
    delete_volume = λ name svm s. delete_volume name svm s;
    resize_volume =
        λ name svm size s. let (r, s') = resize_volume name svm size s in (map_ok (λ v. tt) r, s');
    create_snapshot = λ name svm volume s.
        let (r, s') = create_snapshot name svm volume s in (map_ok (λ n. none) r, s');
    delete_snapshot = λ name svm volume s. delete_snapshot name svm volume s;
    clone_volume_from_snapshot = λ name svm source snapshot size s.
        clone_volume_from_snapshot name svm source snapshot size s;
  }
