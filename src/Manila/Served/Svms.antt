-- ===== src/Manila/Served/Svms.antt =====
-- The client's calls on SVMs, exports and QoS, over the endpoints that serve them. The requests are
-- ones that the models of the API accept; one that they refuse is answered with 422.
use arca_storage.Base.{
  ℕ, Bool, Option, none, some, List, [], ◌∷◌, ◌++◌, Text, codes, is_empty, nat_eqb, if◌then◌else◌,
}
use arca_storage.Results.{Error, Result, ok, err}
use arca_storage.State.Files.{Svm, Files}
use arca_storage.Ganesha.{Config, World, Outside}
use arca_storage.Ganesha.Exports.{Listed}
use arca_storage.Host.{Host}
use arca_storage.Services.{Store}
use arca_storage.Services.Svms.{SvmAnswer, SvmCreate, SvmConfig, Site}
use arca_storage.Services.Exports.{ExportCreate, ExportAnswer}
use arca_storage.Services.Qos.{FileSystem, QosSettings}
use arca_storage.Services.Qos.IoMax.{Limits}
use arca_storage.Manila.{ApiError, svm_not_found}
use arca_storage.Manila.Served.{result_of, volume_url}
use arca_storage.Api

-- `if gateway:` and `if svm:`
abbrev pub unless_empty : Option Text → Option Text
unless_empty none = none
unless_empty (some t) = if is_empty t then none else some t

-- `if root_volume_size_gib:`
abbrev pub unless_zero : Option ℕ → Option ℕ
unless_zero none = none
unless_zero (some n) = if nat_eqb n 0 then none else some n

-- `if not items: raise ArcaSVMNotFound(...)`, and `items[0]`
abbrev pub first_svm : Result ApiError (List Svm) → Result ApiError Svm
first_svm (ok []) = err svm_not_found
first_svm (ok (svm ∷ svms)) = ok svm
first_svm (err e) = err e

-- `sec`, or `["sys"]`
abbrev pub sec_or_sys : Option (List Text) → List Text
sec_or_sys none = codes "sys" ∷ []
sec_or_sys (some sec) = sec

module _ (str_of : Error → Text) where
  unfoldable pub get_svm : Text → Files → Result ApiError Svm
  unfolding result_of
  get_svm name files =
      first_svm (result_of str_of (codes "/v1/svms") (Api.list_svms (some name) 100 files))

  -- The first page of the listing.
  unfoldable pub list_svms : Files → Result ApiError (List Svm)
  unfolding result_of
  list_svms files = result_of str_of (codes "/v1/svms") (Api.list_svms none 100 files)

module _ {W : Type 0} (h : Host W) (sha256 : Text → ℕ) (o : Outside) (cfg : SvmConfig)
    (gcfg : Config) (now : Text) (str_of : Error → Text) where
  unfoldable pub create_svm :
      Text → ℕ → Text → Option Text → ℕ → Option ℕ → Site W → Result ApiError SvmAnswer × Site W
  unfolding result_of
  create_svm name vlan_id ip_cidr gateway mtu root_volume_size_gib s =
      let request : SvmCreate = record {
        name = name;
        vlan_id = vlan_id;
        ip_cidr = ip_cidr;
        gateway = unless_empty gateway;
        mtu = mtu;
        root_volume_size_gib = unless_zero root_volume_size_gib;
      } in
      let (reply, s') = Api.create_svm h sha256 o cfg gcfg now request s in
      (result_of str_of (codes "/v1/svms") reply, s')

module _ (o : Outside) (cfg : Config) (str_of : Error → Text) where
  unfoldable pub create_export :
      Text
      → Text
      → Text
      → Text
      → Bool
      → Option (List Text)
      → World
      → Result ApiError ExportAnswer × World
  unfolding result_of
  create_export svm volume client access root_squash sec w =
      let request : ExportCreate = record {
        svm = svm;
        volume = volume;
        client = client;
        access = access;
        root_squash = root_squash;
        sec = sec_or_sys sec;
      } in
      let (reply, w') = Api.add_export o cfg request w in
      (result_of str_of (codes "/v1/exports") reply, w')

  unfoldable pub delete_export : Text → Text → Text → World → Result ApiError (Unit {0}) × World
  unfolding result_of
  delete_export svm volume client w =
      let (reply, w') = Api.remove_export o cfg svm volume client w in
      (result_of str_of (codes "/v1/exports") reply, w')

-- The first page of the listing; `names` are the SVMs whose exports are kept in files.
unfoldable pub list_exports :
    (Error → Text) → List Text → Option Text → Option Text → World → Result ApiError (List Listed)
unfolding result_of
list_exports str_of names svm volume w =
    result_of str_of (codes "/v1/exports")
      (Api.list_exports names (unless_empty svm) (unless_empty volume) none 100 w)

module _ {W : Type 0} (h : Host W) (fs : FileSystem W) (str_of : Error → Text) where
  unfoldable pub apply_qos : Text → Text → Limits → Store W → Result ApiError QosSettings × Store W
  unfolding result_of
  apply_qos volume svm limits s =
      let (reply, s') = Api.apply_qos_to_volume h fs volume svm limits s in
      (result_of str_of (volume_url (volume ++ codes "/qos")) reply, s')

  unfoldable pub remove_qos : Text → Text → Store W → Result ApiError (Unit {0}) × Store W
  unfolding result_of
  remove_qos volume svm s =
      let (reply, s') = Api.remove_qos_from_volume h fs volume svm s in
      (result_of str_of (volume_url (volume ++ codes "/qos")) reply, s')
