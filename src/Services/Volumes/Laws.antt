-- ===== src/Services/Volumes/Laws.antt =====
-- A request on a volume changes the record of that volume, and no record where it fails.
use arca_storage.Base.{◌≡◌, true, some, Text, ℕ, arith}
use arca_storage.Results.{Error, ok, err}
use arca_storage.Validators.{validate_name}
use arca_storage.State.Files.{Volume, upsert_volume}
use arca_storage.State.Files as F
use arca_storage.Host.{Host}
use arca_storage.Services.{StorageConfig, Store, Leaves, leaves, volume_lv}
use arca_storage.Services.Volumes.{VolumeCreate, create_volume, resize_volume, delete_volume}

module _ {W : Type 0} (h : Host W) (cfg : StorageConfig) where
  create_volume-err :
      (now : Text) (d : VolumeCreate) (s : Store W) (e : Error)
      → (create_volume h cfg now d s).0 ≡ err e
      → (create_volume h cfg now d s).1.files ≡ s.files
  unfolding create_volume
  create_volume-err now d s e failed = ground arith

  create_volume-ok :
      (now : Text) (d : VolumeCreate) (s : Store W) (v : Volume)
      → (create_volume h cfg now d s).0 ≡ ok v
      → ((create_volume h cfg now d s).1.files ≡ upsert_volume now v s.files)
        × (v.svm ≡ d.svm)
        × (v.name ≡ d.name)
        × (v.lv_name ≡ volume_lv d.svm d.name)
        × (validate_name d.name ≡ ok tt)
        × (validate_name d.svm ≡ ok tt)
  unfolding create_volume
  create_volume-ok now d s v done = ground arith

  -- A creation that raises, at whichever step, leaves the state files as they were; one that returns
  -- a record has found both names valid and has stored that record, which is of the volume asked for.
  pub create_volume-files :
      (now : Text) (d : VolumeCreate) (s : Store W)
      → Leaves
          (λ v after.
            (after ≡ upsert_volume now v s.files)
            × (v.svm ≡ d.svm)
            × (v.name ≡ d.name)
            × (v.lv_name ≡ volume_lv d.svm d.name)
            × (validate_name d.name ≡ ok tt)
            × (validate_name d.svm ≡ ok tt))
          s.files
          (create_volume h cfg now d s).0
          (create_volume h cfg now d s).1.files
  create_volume-files now d s =
      leaves _ (create_volume h cfg now d s).0 (create_volume-err now d s)
        (create_volume-ok now d s)

  resize_volume-err :
      (now name svm : Text) (size : ℕ) (s : Store W) (e : Error)
      → (resize_volume h cfg now name svm size s).0 ≡ err e
      → (resize_volume h cfg now name svm size s).1.files ≡ s.files
  unfolding resize_volume
  resize_volume-err now name svm size s e failed = ground arith

  resize_volume-ok :
      (now name svm : Text) (size : ℕ) (s : Store W) (v : Volume)
      → (resize_volume h cfg now name svm size s).0 ≡ ok v
      → ((resize_volume h cfg now name svm size s).1.files ≡ upsert_volume now v s.files)
        × (v.svm ≡ svm)
        × (v.name ≡ name)
        × (v.size_gib ≡ size)
        × (v.thin ≡ true)
        × (v.created_at ≡ some now)
  unfolding resize_volume
  resize_volume-ok now name svm size s v done = ground arith

  delete_volume-err :
      (name svm : Text) (s : Store W) (e : Error)
      → (delete_volume h cfg name svm s).0 ≡ err e
      → (delete_volume h cfg name svm s).1.files ≡ s.files
  unfolding delete_volume
  delete_volume-err name svm s e failed = ground arith

  delete_volume-ok :
      (name svm : Text) (s : Store W)
      → (delete_volume h cfg name svm s).0 ≡ ok tt
      → (delete_volume h cfg name svm s).1.files ≡ (F.delete_volume svm name s.files).0
  unfolding delete_volume
  delete_volume-ok name svm s done = ground arith

  -- A resize or a removal that raises leaves the state files as they were; a resize that returns has
  -- stored a record with the new size, as a thin volume created at this time, and a removal that
  -- returns has removed the record.
  pub resize_delete-files :
      (now name svm : Text) (size : ℕ) (s : Store W)
      → Leaves
          (λ v after.
            (after ≡ upsert_volume now v s.files)
            × (v.svm ≡ svm)
            × (v.name ≡ name)
            × (v.size_gib ≡ size)
            × (v.thin ≡ true)
            × (v.created_at ≡ some now))
          s.files
          (resize_volume h cfg now name svm size s).0
          (resize_volume h cfg now name svm size s).1.files
        × Leaves
            (λ u after. after ≡ (F.delete_volume svm name s.files).0)
            s.files
            (delete_volume h cfg name svm s).0
            (delete_volume h cfg name svm s).1.files
  resize_delete-files now name svm size s = (
    leaves _ (resize_volume h cfg now name svm size s).0 (resize_volume-err now name svm size s)
        (resize_volume-ok now name svm size s),
    leaves _ (delete_volume h cfg name svm s).0 (delete_volume-err name svm s)
        (λ u. delete_volume-ok name svm s),
  )
