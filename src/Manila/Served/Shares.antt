-- ===== src/Manila/Served/Shares.antt =====
-- The making of shares over this API.
use arca_storage.Base.{
  Bool, true, false, if◌then◌else◌, codes, ◌≡◌, refl, sym, ap, Option-cases, ◌∙◌, List, arith, inl,
  inr, Option, none, some, [], ◌∷◌, Text, list_eqb, nat_order,
}
use arca_storage.Results.{ok-injective, Error, Result, Result-cases, ok, err}
use arca_storage.State.Files.{Volume}
use arca_storage.Host.{Host}
use arca_storage.Services.{StorageConfig, Store}
use arca_storage.Services.Volumes.{VolumeCreate}
use arca_storage.Services.Volumes as V
use arca_storage.Manila.{ApiError, share_exists, DriverError, share_backend}
use arca_storage.Manila.Svms.{NetworkAllocator, SvmApi, Driver}
use arca_storage.Manila.Shares.{
  Share, Snapshot, ShareApi, ShareConfig, volume_of, filled, ensure_svm_for_share,
}
use arca_storage.Manila.Shares.Volumes.{finish_share, create_on, create_share}
use arca_storage.Manila.Shares.Snapshots.{svm_for_clone, parent_of, create_share_from_snapshot}
use arca_storage.Manila.Served.{
  is_volume_create, if_accepted, result_of, get_field, export_path_of, map_ok, first_volume,
  request_of, get_volume, create_volume, clone_volume_from_snapshot, served,
}
use arca_storage.Api.Statuses.{Reply, answered, failed}
use arca_storage.Api

no_export_path : (v : Volume) → export_path_of v ≡ none
unfolding get_field list_eqb
no_export_path v = refl

module _ {W : Type 0} (api : ShareApi W) (share : Share) (svm : Text) where
  finish-no_path : (w : W) → finish_share api share svm none w ≡ (err share_backend, w)
  unfolding finish_share
  finish-no_path w = refl

  -- No lookup of a volume finds an export path, or changes anything.
  abbrev NoPath : Type 0
  NoPath =
      (w : W)
      → ((p : Option Text) → (api.get_volume (volume_of share.id) svm w).0 ≡ ok p → p ≡ none)
        × ((api.get_volume (volume_of share.id) svm w).1 ≡ w)

  -- The driver's handling of an exception of `create_volume`.
  abbrev after_exception : ApiError → W → Result DriverError Text × W
  after_exception e w1 = elim e [
    | share_exists ↦
        let (g, w2) = api.get_volume (volume_of share.id) svm w1 in
        elim g [
          | err _ ↦ (err share_backend, w2)
          | ok export_path ↦ elim (filled export_path) [
            | none ↦ (err share_backend, w2)
            | some path ↦ (ok path, w2)
          ]
        ]
    | _ ↦ (err share_backend, w1)
  ]

  found :
      (g : Result ApiError (Option Text)) (w2 : W)
      → ((p : Option Text) → g ≡ ok p → p ≡ none)
      → (elim g as (λ _. Result DriverError Text × W) [
        | err _ ↦ (err share_backend, w2)
        | ok export_path ↦ elim (filled export_path) [
          | none ↦ (err share_backend, w2)
          | some path ↦ (ok path, w2)
        ]
      ])
        ≡ (err share_backend, w2)
  found (err _) w2 h = refl
  found (ok p) w2 h = rw (h p refl) refl

  exception-fails : NoPath → (e : ApiError) (w : W) → after_exception e w ≡ (err share_backend, w)
  exception-fails looked_up share_exists w =
      let g = api.get_volume (volume_of share.id) svm w in
      found g.0 g.1 (looked_up w).0 ∙ ap (λ w2. (err share_backend, w2)) (looked_up w).1
  exception-fails looked_up _ w = refl

  create_on-no_path :
      (w : W)
      → ((p : Option Text)
          → (api.create_volume (volume_of share.id) svm share.size w).0 ≡ ok p
          → p ≡ none)
      → NoPath
      → create_on api share svm w
        ≡ (err share_backend, (api.create_volume (volume_of share.id) svm share.size w).1)
  unfolding create_on
  create_on-no_path w made looked_up =
      let r = api.create_volume (volume_of share.id) svm share.size w in
      elim (Result-cases r.0) [
        | inl (p, e) ↦ rw (create_on, e, made p e) (finish-no_path r.1)
        | inr (x, e) ↦ rw (create_on, e) (exception-fails looked_up x r.1)
      ]

accepted-state :
    {A W : Type 0} (b : Bool) (path : Text) (answer : Result ApiError A × W) (w : W)
    → (if_accepted b path answer w).1 ≡ (if b then answer.1 else w)
unfolding if_accepted
accepted-state true path answer w = refl
accepted-state false path answer w = refl

module _ {W : Type 0} (h : Host W) (cfg : StorageConfig) (now : Text) (str_of : Error → Text)
    (api : ShareApi (Store W)) where
  abbrev over : ShareApi (Store W)
  over = served h cfg now str_of api

  no_path_made :
      (r : Result ApiError Volume) (p : Option Text) → map_ok export_path_of r ≡ ok p → p ≡ none
  no_path_made (ok v) p e = sym (ok-injective e) ∙ no_export_path v
  no_path_made (err x) p e = absurd (grind (arith, e))

  no_path_found : (r : Reply (List Volume)) (p : Option Text) → first_volume r ≡ ok p → p ≡ none
  no_path_found (answered _ []) p e = absurd (grind (arith, e))
  no_path_found (answered _ (v ∷ vs)) p e = sym (ok-injective e) ∙ no_export_path v
  no_path_found (failed _ _) p e = absurd (grind (arith, e))

  -- What the service leaves behind, where the request's model accepts the request.
  abbrev state_after : Share → Text → Store W → Store W
  state_after share svm s =
      let request = request_of (volume_of share.id) svm share.size in
      if is_volume_create request then (V.create_volume h cfg now request s).1 else s

  made_state :
      (share : Share) (svm : Text) (s : Store W)
      → (over.create_volume (volume_of share.id) svm share.size s).1 ≡ state_after share svm s
  unfolding create_volume Api.create_volume
  made_state share svm s =
      let request = request_of (volume_of share.id) svm share.size in
      accepted-state (is_volume_create request) (codes "/v1/volumes")
        (
          result_of str_of (codes "/v1/volumes") (Api.create_volume h cfg now request s).0,
          (Api.create_volume h cfg now request s).1,
        )
        s

  create_on-served :
      (share : Share) (svm : Text) (s : Store W)
      → create_on over share svm s ≡ (err share_backend, state_after share svm s)
  unfolding create_volume get_volume Api.create_volume
  create_on-served share svm s =
      create_on-no_path over share svm s
        (no_path_made (create_volume h cfg now str_of (volume_of share.id) svm share.size s).0)
        (λ s'. (
          no_path_found (Api.list_volumes (some svm) (some (volume_of share.id)) 100 s'.files),
          refl,
        ))
      ∙ ap (λ s'. (err share_backend, s')) (made_state share svm s)

  create_share-fails :
      (net : NetworkAllocator (Store W)) (svms : SvmApi (Store W)) (config : ShareConfig)
      (share : Share) (d : Driver (Store W))
      → (create_share over net svms config share d).0 ≡ err share_backend
  unfolding create_share
  create_share-fails net svms config share d =
      let f = ensure_svm_for_share net svms config share d in
      elim (Result-cases f.0) [
        | inr (x, e) ↦ rw (create_share, e) refl
        | inl (answer, e) ↦ elim (Option-cases answer) [
          | inl n ↦ rw (create_share, e, n) refl
          | inr (svm, n) ↦
              rw (create_share, e, n) (ap (λ r. r.0) (create_on-served share svm f.1.world))
        ]
      ]

  clone-fails :
      (config : ShareConfig) (share : Share) (snapshot : Snapshot) (parent : Option Share)
      (s : Store W)
      → create_share_from_snapshot over config share snapshot parent s ≡ (err share_backend, s)
  unfolding create_share_from_snapshot clone_volume_from_snapshot list_eqb
  clone-fails config share snapshot parent s =
      elim (Result-cases (svm_for_clone config share (parent_of parent snapshot))) [
        | inr (x, e) ↦ rw (create_share_from_snapshot, e) refl
        | inl (svm, e) ↦ rw (create_share_from_snapshot, e) refl
      ]

  -- This driver makes no share over this API, whatever the machine, the SVMs and the network
  -- allocator do. A share on an SVM fails, since the answer for a volume has no export path; what the
  -- service has done for it is left behind, which is nothing where the API's model refuses the
  -- request. A share that is made from a snapshot fails
  -- before any service is reached, since the request's keys are not the ones that the API asks for.
  pub create_share-never :
      (net : NetworkAllocator (Store W)) (svms : SvmApi (Store W)) (config : ShareConfig)
      (share : Share) (svm : Text) (snapshot : Snapshot) (parent : Option Share)
      (d : Driver (Store W)) (s : Store W)
      → ((create_share over net svms config share d).0 ≡ err share_backend)
        × (create_on over share svm s ≡ (err share_backend, state_after share svm s))
        × (create_share_from_snapshot over config share snapshot parent s ≡ (err share_backend, s))
  create_share-never net svms config share svm snapshot parent d s = (
    create_share-fails net svms config share d,
    create_on-served share svm s,
    clone-fails config share snapshot parent s,
  )
