-- ===== src/State/Files/Maps.antt =====
-- The files refine three finite maps, and the answers of the removals and listings follow the maps.
use arca_storage.Base.{
  ◌≡◌, ◌≢◌, ◌↔◌, refl, ap, ◌∙◌, ◌⊎◌, inl, inr, Bool, true, false, ◌&&◌, Option, none, some, List,
  [], ◌∷◌, Text, filter, filter-filter, is_empty, list_eqb, nat_order, list_order, if◌then◌else◌,
}
use arca_storage.State.Table.{Key, key_eqb, find}
use arca_storage.State.Table.Find.{find-put}
use arca_storage.State.Files.{
  Svm, Volume, Snapshot, Files, items_of, stamp, narrow, removed, svm_key, volume_key, snapshot_key,
  is_svm, is_volume, is_snapshot, list_svms, upsert_svm, delete_svm, list_volumes, upsert_volume,
  delete_volume, list_snapshots, upsert_snapshot, delete_snapshot,
}
use arca_storage.State.Files.Keys.{
  is_svm_iff, is_volume_iff, is_snapshot_iff, removed_lem, one_or_none, filter_one,
}
use arca_storage.State.Files.Refine.{
  IsSane, svm_at, volume_at, snapshot_at, Op, put_svm, put_volume, put_snapshot, drop_svm,
  drop_volume, drop_snapshot, run_op,
}

-- The abstract store: a finite map for each kind of record.
pub record Maps : Type 0 where
  pub svms : Key → Option Svm
  pub volumes : Key → Option Volume
  pub snapshots : Key → Option Snapshot

abbrev pub maps_of : Files → Maps
maps_of files = record {
  svms = λ k. find svm_key k (items_of files.svms);
  volumes = λ k. find volume_key k (items_of files.volumes);
  snapshots = λ k. find snapshot_key k (items_of files.snapshots);
}

abbrev pub with_key {ℓ} : {R : Type ℓ} → Key → Option R → (Key → Option R) → Key → Option R
with_key j o m k = if key_eqb j k then o else m k

-- What each operation means for the maps.
abbrev pub spec_op : Op → Maps → Maps
spec_op (put_svm now s) m = record m {
  svms = with_key (svm_key s) (some (record s { created_at = stamp now s.created_at })) m.svms;
}
spec_op (put_volume now v) m = record m {
  volumes =
      with_key (volume_key v) (some (record v { created_at = stamp now v.created_at })) m.volumes;
}
spec_op (put_snapshot now s) m = record m {
  snapshots =
      with_key (snapshot_key s) (some (record s { created_at = stamp now s.created_at }))
        m.snapshots;
}
spec_op (drop_svm name) m = record m { svms = with_key (name ∷ []) none m.svms }
spec_op (drop_volume svm name) m = record m { volumes = with_key (svm ∷ name ∷ []) none m.volumes }
spec_op (drop_snapshot svm volume name) m = record m {
  snapshots = with_key (svm ∷ volume ∷ name ∷ []) none m.snapshots;
}

-- The same records under every key.
pub record SameMaps (m n : Maps) : Type 0 where
  pub svms : (k : Key) → m.svms k ≡ n.svms k
  pub volumes : (k : Key) → m.volumes k ≡ n.volumes k
  pub snapshots : (k : Key) → m.snapshots k ≡ n.snapshots k

-- Each update sets, and each removal clears, exactly one key of one of the three maps.
pub run_op-refines :
    (op : Op) (files : Files) → SameMaps (maps_of (run_op op files)) (spec_op op (maps_of files))
unfolding run_op upsert_svm upsert_volume upsert_snapshot delete_svm delete_volume delete_snapshot
run_op-refines (put_svm now s) files = record {
  svms = λ k.
      find-put svm_key (λ i r. is_svm r.name i) (λ i r. is_svm_iff r.name i) k
        (record s { created_at = stamp now s.created_at }) (items_of files.svms);
  volumes = λ k. refl;
  snapshots = λ k. refl;
}
run_op-refines (put_volume now v) files = record {
  svms = λ k. refl;
  volumes = λ k.
      find-put volume_key (λ i r. is_volume r.svm r.name i) (λ i r. is_volume_iff r.svm r.name i) k
        (record v { created_at = stamp now v.created_at }) (items_of files.volumes);
  snapshots = λ k. refl;
}
run_op-refines (put_snapshot now s) files = record {
  svms = λ k. refl;
  volumes = λ k. refl;
  snapshots = λ k.
      find-put snapshot_key (λ i r. is_snapshot r.svm r.volume r.name i)
        (λ i r. is_snapshot_iff r.svm r.volume r.name i) k
        (record s { created_at = stamp now s.created_at }) (items_of files.snapshots);
}
run_op-refines (drop_svm name) files = record {
  svms = λ k. (removed_lem svm_key (is_svm name) (name ∷ []) (is_svm_iff name) files.svms k).0;
  volumes = λ k. refl;
  snapshots = λ k. refl;
}
run_op-refines (drop_volume svm name) files = record {
  svms = λ k. refl;
  volumes = λ k.
      (removed_lem volume_key (is_volume svm name) (svm ∷ name ∷ []) (is_volume_iff svm name)
        files.volumes k).0;
  snapshots = λ k. refl;
}
run_op-refines (drop_snapshot svm volume name) files = record {
  svms = λ k. refl;
  volumes = λ k. refl;
  snapshots = λ k.
      (removed_lem snapshot_key (is_snapshot svm volume name) (svm ∷ volume ∷ name ∷ [])
        (is_snapshot_iff svm volume name) files.snapshots k).0;
}

true_or {ℓ} : {P : Type ℓ} (b : Bool) → (b ≡ false → P) → (b ≡ true) ⊎ P
true_or true h = inl refl
true_or false h = inr (h refl)

-- A removal answers `true` exactly where the map has the key, and one that answers `false` leaves
-- the files as they were: for SVMs, volumes and snapshots.
pub delete_answers :
    (svm volume name : Text) (files : Files)
    → (((delete_svm svm files).1 ≡ true) ↔ (svm_at files svm ≢ none))
      × (((delete_svm svm files).1 ≡ true) ⊎ ((delete_svm svm files).0 ≡ files))
      × (((delete_volume svm name files).1 ≡ true) ↔ (volume_at files svm name ≢ none))
      × (((delete_volume svm name files).1 ≡ true) ⊎ ((delete_volume svm name files).0 ≡ files))
      × (((delete_snapshot svm volume name files).1 ≡ true)
          ↔ (snapshot_at files svm volume name ≢ none))
      × (((delete_snapshot svm volume name files).1 ≡ true)
          ⊎ ((delete_snapshot svm volume name files).0 ≡ files))
unfolding delete_svm delete_volume delete_snapshot
delete_answers svm volume name files =
    let s = removed_lem svm_key (is_svm svm) (svm ∷ []) (is_svm_iff svm) files.svms [] in
    let v =
      removed_lem volume_key (is_volume svm name) (svm ∷ name ∷ []) (is_volume_iff svm name)
        files.volumes [] in
    let p =
      removed_lem snapshot_key (is_snapshot svm volume name) (svm ∷ volume ∷ name ∷ [])
        (is_snapshot_iff svm volume name) files.snapshots [] in
    (
      s.1,
      true_or (removed (is_svm svm) files.svms).1
          (λ h. ap (λ (f : Option (List Svm)). record files { svms = f }) (s.2 h)),
      v.1,
      true_or (removed (is_volume svm name) files.volumes).1
          (λ h. ap (λ (f : Option (List Volume)). record files { volumes = f }) (v.2 h)),
      p.1,
      true_or (removed (is_snapshot svm volume name) files.snapshots).1
          (λ h. ap (λ (f : Option (List Snapshot)). record files { snapshots = f }) (p.2 h)),
    )

narrow_to {ℓ} :
    {R : Type ℓ} (field : R → Text) (v : Text) (items : List R)
    → is_empty v ≡ false
    → narrow field (some v) items ≡ filter (λ i. list_eqb (field i) v) items
narrow_to field v items h = rw h refl

narrow_two {ℓ} :
    {R : Type ℓ} (f g : R → Text) (v w : Text) (items : List R)
    → is_empty v ≡ false
    → is_empty w ≡ false
    → narrow g (some w) (narrow f (some v) items)
      ≡ filter (λ i. list_eqb (f i) v && list_eqb (g i) w) items
narrow_two f g v w items hv hw =
    narrow_to g w (narrow f (some v) items) hw
    ∙ ap (filter (λ i. list_eqb (g i) w)) (narrow_to f v items hv)
    ∙ filter-filter (λ i. list_eqb (g i) w) (λ i. list_eqb (f i) v) items

-- In sane files, a listing by full name returns the record of the map and nothing else.
pub list_by_name :
    (svm volume name : Text) (files : Files)
    → IsSane files
    → is_empty svm ≡ false
    → is_empty volume ≡ false
    → is_empty name ≡ false
    → (list_svms (some svm) files ≡ one_or_none (svm_at files svm))
      × (list_volumes (some svm) (some volume) files ≡ one_or_none (volume_at files svm volume))
      × (list_snapshots (some svm) (some volume) (some name) files
          ≡ one_or_none (snapshot_at files svm volume name))
unfolding list_svms list_volumes list_snapshots
list_by_name svm volume name files sane hs hv hn = (
  narrow_to (λ i. i.name) svm (items_of files.svms) hs
      ∙ filter_one svm_key (is_svm svm) (svm ∷ []) (is_svm_iff svm) (items_of files.svms) sane.svms,
  narrow_two (λ i. i.svm) (λ i. i.name) svm volume (items_of files.volumes) hs hv
      ∙ filter_one volume_key (is_volume svm volume) (svm ∷ volume ∷ []) (is_volume_iff svm volume)
          (items_of files.volumes) sane.volumes,
  ap (narrow (λ i. i.name) (some name))
        (narrow_two (λ i. i.svm) (λ i. i.volume) svm volume (items_of files.snapshots) hs hv)
      ∙ narrow_to (λ i. i.name) name _ hn
      ∙ filter-filter (λ i. list_eqb i.name name)
          (λ i. list_eqb i.svm svm && list_eqb i.volume volume) (items_of files.snapshots)
      ∙ filter_one snapshot_key (is_snapshot svm volume name) (svm ∷ volume ∷ name ∷ [])
          (is_snapshot_iff svm volume name) (items_of files.snapshots) sane.snapshots,
)
