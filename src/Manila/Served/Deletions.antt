-- ===== src/Manila/Served/Deletions.antt =====
-- The deletions of the driver, down to the services.
use arca_storage.Base.{
  ◌≡◌, refl, ap, ◌∙◌, Bool, true, false, none, some, [], Text, codes, has_text, starts_with, lower,
  if◌then◌else◌,
}
use arca_storage.Results.{Error, Result, Checked, ok, err}
use arca_storage.Host.{Host}
use arca_storage.Services.{StorageConfig, Store}
use arca_storage.Services.Volumes as V
use arca_storage.Services.Snapshots as N
use arca_storage.Manila.{
  ApiError, svm_exists, share_not_found, share_exists, snapshot_not_found, network_conflict, other,
  DriverError, share_backend,
}
use arca_storage.Manila.Client.{missing_error, is_ip_conflict, conflict_error, response_error}
use arca_storage.Manila.Shares.{
  Share, Snapshot, ShareApi, ShareConfig, get_svm_for_share, volume_of, snapshot_of,
}
use arca_storage.Manila.Shares.Volumes.{delete_share}
use arca_storage.Manila.Shares.Snapshots.{svm_of_snapshot, delete_snapshot}
use arca_storage.Manila.Served.{detail, result_of, volume_url, snapshot_url, served}
use arca_storage.Manila.Served as C
use arca_storage.Api.Statuses.{
  FaultKind, value_kind, runtime_kind, other_kind, fault_kind, clauses, clause_of, or_internal,
  status_of, reply_to,
}
use arca_storage.Api

-- What the driver makes of the answer of a service: a `ValueError`, which is a name that is not
-- valid, counts as a deletion.
abbrev pub of_kind : FaultKind → Result DriverError (Unit {0})
of_kind value_kind = ok tt
of_kind runtime_kind = err share_backend
of_kind other_kind = err share_backend

abbrev pub outcome : Checked (Unit {0}) → Result DriverError (Unit {0})
outcome (ok _) = ok tt
outcome (err e) = of_kind (fault_kind e)

-- The driver's handling of an exception of the client.
abbrev unless_share : Result ApiError (Unit {0}) → Result DriverError (Unit {0})
unless_share (ok _) = ok tt
unless_share (err share_not_found) = ok tt
unless_share (err _) = err share_backend

abbrev unless_snapshot : Result ApiError (Unit {0}) → Result DriverError (Unit {0})
unless_snapshot (ok _) = ok tt
unless_snapshot (err snapshot_not_found) = ok tt
unless_snapshot (err _) = err share_backend

each_conflict :
    (a b c : Bool)
    → unless_snapshot (
        err (
          if a
          then network_conflict
          else if b
          then (if c then svm_exists else share_exists)
          else other []))
      ≡ err share_backend
each_conflict true b c = refl
each_conflict false true true = refl
each_conflict false true false = refl
each_conflict false false c = refl

conflict-failure :
    (path message : Text) → unless_snapshot (err (conflict_error path message)) ≡ err share_backend
unfolding conflict_error
conflict-failure path message =
    let text = lower message in
    each_conflict (is_ip_conflict text) (has_text (codes "already exists") text)
      (has_text (codes "/svms") path)

volume-kind :
    (name message : Text) (k : FaultKind)
    → unless_share (
        err (
          response_error
            (or_internal (clause_of (clauses 200 (some 404) none) k))
            (volume_url name)
            message))
      ≡ of_kind k
unfolding response_error missing_error has_text starts_with
volume-kind name message value_kind = refl
volume-kind name message runtime_kind = refl
volume-kind name message other_kind = refl

in_snapshots : (name : Text) → has_text (codes "/snapshots/") (snapshot_url name) ≡ true
unfolding has_text starts_with
in_snapshots name = refl

snapshot-kind :
    (name message : Text) (k : FaultKind)
    → has_text (codes "/volumes/") (snapshot_url name) ≡ false
    → unless_snapshot (
        err (
          response_error
            (or_internal (clause_of (clauses 200 (some 404) (some 409)) k))
            (snapshot_url name)
            message))
      ≡ of_kind k
unfolding response_error missing_error
snapshot-kind name message value_kind h = rw (h, in_snapshots name) refl
snapshot-kind name message runtime_kind h = conflict-failure (snapshot_url name) message
snapshot-kind name message other_kind h = refl

module _ {W : Type 0} (w : W) where
  after_share :
      (r : Result ApiError (Unit {0}))
      → (elim r as (λ _. Result DriverError (Unit {0}) × W) [
        | ok _ ↦ (ok tt, w)
        | err e ↦ elim e [ share_not_found ↦ (ok tt, w) | _ ↦ (err share_backend, w) ]
      ])
        ≡ (unless_share r, w)
  after_share (ok _) = refl
  after_share (err share_not_found) = refl
  after_share (err _) = refl

  after_snapshot :
      (r : Result ApiError (Unit {0}))
      → (elim r as (λ _. Result DriverError (Unit {0}) × W) [
        | ok _ ↦ (ok tt, w)
        | err e ↦ elim e [ snapshot_not_found ↦ (ok tt, w) | _ ↦ (err share_backend, w) ]
      ])
        ≡ (unless_snapshot r, w)
  after_snapshot (ok _) = refl
  after_snapshot (err snapshot_not_found) = refl
  after_snapshot (err _) = refl

module _ {W : Type 0} (api : ShareApi W) (config : ShareConfig) where
  delete_share-unless :
      (share : Share) (svm : Text) (w : W)
      → get_svm_for_share config share ≡ ok svm
      → let r = api.delete_volume (volume_of share.id) svm w in
        delete_share api config share w ≡ (unless_share r.0, r.1)
  unfolding delete_share
  delete_share-unless share svm w known =
      let r = api.delete_volume (volume_of share.id) svm w in
      rw (delete_share, known) (after_share r.1 r.0)

  delete_snapshot-unless :
      (snapshot : Snapshot) (svm : Text) (w : W)
      → svm_of_snapshot config snapshot ≡ ok svm
      → let r = api.delete_snapshot (snapshot_of snapshot.id) svm (volume_of snapshot.share_id) w in
        delete_snapshot api config snapshot w ≡ (unless_snapshot r.0, r.1)
  unfolding delete_snapshot
  delete_snapshot-unless snapshot svm w known =
      let r = api.delete_snapshot (snapshot_of snapshot.id) svm (volume_of snapshot.share_id) w in
      rw (delete_snapshot, known) (after_snapshot r.1 r.0)

module _ {W : Type 0} (h : Host W) (cfg : StorageConfig) (now : Text) (str_of : Error → Text) where
  volume_reply :
      (name : Text) (r : Checked (Unit {0}))
      → unless_share (result_of str_of (volume_url name) (reply_to (clauses 200 (some 404) none) r))
        ≡ outcome r
  unfolding result_of status_of
  volume_reply name (ok _) = refl
  volume_reply name (err e) = volume-kind name _ (fault_kind e)

  snapshot_reply :
      (name : Text) (r : Checked (Unit {0}))
      → has_text (codes "/volumes/") (snapshot_url name) ≡ false
      → unless_snapshot
          (result_of str_of (snapshot_url name) (reply_to (clauses 200 (some 404) (some 409)) r))
        ≡ outcome r
  unfolding result_of status_of
  snapshot_reply name (ok _) h = refl
  snapshot_reply name (err e) h = snapshot-kind name _ (fault_kind e) h

  -- A share and a snapshot are deleted by this driver over this API, where their SVMs are known and
  -- the snapshot's id does not look like a path of volumes. The state is left as the service leaves
  -- it. The driver succeeds where the service returns or finds a name that is not valid, and raises
  -- a failure of the backend for every other exception of the service.
  pub deletions-served :
      (api : ShareApi (Store W)) (config : ShareConfig) (share : Share) (snapshot : Snapshot)
      (svm svm' : Text) (s : Store W)
      → get_svm_for_share config share ≡ ok svm
      → svm_of_snapshot config snapshot ≡ ok svm'
      → has_text (codes "/volumes/") (snapshot_url (snapshot_of snapshot.id)) ≡ false
      → let v = V.delete_volume h cfg (volume_of share.id) svm s in
        let n =
          N.delete_snapshot h cfg (snapshot_of snapshot.id) svm' (volume_of snapshot.share_id) s in
        (delete_share (served h cfg now str_of api) config share s ≡ (outcome v.0, v.1))
        × (delete_snapshot (served h cfg now str_of api) config snapshot s ≡ (outcome n.0, n.1))
  unfolding C.delete_volume C.delete_snapshot Api.delete_volume Api.delete_snapshot
  deletions-served api config share snapshot svm svm' s known known' plain =
      let v = V.delete_volume h cfg (volume_of share.id) svm s in
      let n =
        N.delete_snapshot h cfg (snapshot_of snapshot.id) svm' (volume_of snapshot.share_id) s in
      let over = served h cfg now str_of api in
      (
        delete_share-unless over config share svm s known
            ∙ ap (λ r. (r, v.1)) (volume_reply (volume_of share.id) v.0),
        delete_snapshot-unless over config snapshot svm' s known'
            ∙ ap (λ r. (r, n.1)) (snapshot_reply (snapshot_of snapshot.id) n.0 plain),
      )
