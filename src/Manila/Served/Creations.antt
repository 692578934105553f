-- ===== src/Manila/Served/Creations.antt =====
-- What the client makes of a creation that fails.
use arca_storage.Base.{ℕ, ◌≡◌, refl, none, some, [], Text, codes}
use arca_storage.Results.{Error, Result, Checked, ok, err}
use arca_storage.Ganesha.{Config, World, Outside}
use arca_storage.Host.{Host}
use arca_storage.Services.{StorageConfig, Store}
use arca_storage.Services.Svms.{SvmCreate, SvmConfig, Site}
use arca_storage.Services.Svms as S
use arca_storage.Services.Volumes.{VolumeCreate}
use arca_storage.Services.Volumes as V
use arca_storage.Services.Exports.{ExportCreate}
use arca_storage.Services.Exports as E
use arca_storage.Manila.{ApiError, other}
use arca_storage.Manila.Client.{response_error}
use arca_storage.Manila.Served.{detail, result_of}
use arca_storage.Api.Statuses.{
  FaultKind, value_kind, runtime_kind, other_kind, fault_kind, clauses, clause_of, or_internal,
  status_of, reply_to,
}
use arca_storage.Api

-- The answer of a service, where every exception is the client's general one.
abbrev pub or_other : {A : Type 0} → Checked A → Result ApiError A
or_other (ok a) = ok a
or_other (err _) = err (other [])

plain-other :
    (path message : Text) (k : FaultKind)
    → response_error (or_internal (clause_of (clauses 201 (some 400) none) k)) path message
      ≡ other []
unfolding response_error
plain-other path message value_kind = refl
plain-other path message runtime_kind = refl
plain-other path message other_kind = refl

reply-other :
    {A : Type 0} (str_of : Error → Text) (path : Text) (r : Checked A)
    → result_of str_of path (reply_to (clauses 201 (some 400) none) r) ≡ or_other r
unfolding result_of status_of
reply-other str_of path (ok a) = refl
reply-other str_of path (err e) =
    let status = or_internal (clause_of (clauses 201 (some 400) none) (fault_kind e)) in
    rw (plain-other path (detail str_of status e) (fault_kind e)) refl

module _ {W : Type 0} (h : Host W) (sha256 : Text → ℕ) (o : Outside) (svm_cfg : SvmConfig)
    (gcfg : Config) (cfg : StorageConfig) (str_of : Error → Text) (now : Text) where
  -- Whatever fails in the creation of an SVM, of a volume or of an export, and whatever the
  -- exception says, the client raises its general exception: never those for an SVM or a share that
  -- exists or for a conflict of addresses. Where nothing fails, it has the answer of the service.
  pub creations-other :
      (svm : SvmCreate) (volume : VolumeCreate) (export : ExportCreate) (site : Site W)
      (s : Store W) (w : World)
      → (result_of str_of (codes "/v1/svms") (Api.create_svm h sha256 o svm_cfg gcfg now svm site).0
          ≡ or_other (S.create_svm h sha256 o svm_cfg gcfg now svm site).0)
        × (result_of str_of (codes "/v1/volumes") (Api.create_volume h cfg now volume s).0
            ≡ or_other (V.create_volume h cfg now volume s).0)
        × (result_of str_of (codes "/v1/exports") (Api.add_export o gcfg export w).0
            ≡ or_other (E.add_export o gcfg export w).0)
  unfolding Api.create_svm Api.create_volume Api.add_export
  creations-other svm volume export site s w = (
    reply-other str_of (codes "/v1/svms") (S.create_svm h sha256 o svm_cfg gcfg now svm site).0,
    reply-other str_of (codes "/v1/volumes") (V.create_volume h cfg now volume s).0,
    reply-other str_of (codes "/v1/exports") (E.add_export o gcfg export w).0,
  )
