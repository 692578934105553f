-- ===== src/Cinder/Snapshots/Sizes.antt =====
-- The size of a volume that is made from a snapshot.
use arca_storage.Base.{
  ℕ, ◌*◌, ◌≡◌, ◌≢◌, refl, sym, ap, ◌∙◌, inl, inr, some, ◌++◌, Text, codes, ltb, Bool-cases,
  if◌then◌else◌, arith,
}
use arca_storage.Results.{Result-cases, ok}
use arca_storage.Cinder.{Node, Op, pure, run_checked}
use arca_storage.Cinder.Paths.{join_path, basename}
use arca_storage.Cinder.Paths.Components.{IsComponent, basename-join_path}
use arca_storage.Cinder.Files.{gib, truncate_command, copy_sparse_file, extend_volume_file}
use arca_storage.Cinder.Files.Disk.{Disk}
use arca_storage.Cinder.Files.Temp.{temp_path_of-other}
use arca_storage.Cinder.Files.Atomic.{copy_sparse_file-Copied}
use arca_storage.Cinder.Driver.{
  Volume, Snapshot, CinderConfig, Backing, volume_file_name, snapshot_file_name,
}
use arca_storage.Cinder.Snapshots.{size_in_gib, volume_from_copy}

-- What `truncate` and `os.path.getsize` do: a file that was truncated has the size that was asked
-- for, and the size of a file is the number of its bytes.
pub record Sizing {W C : Type 0} {n : Node W} (k : Disk n C) : Type 0 where
  pub truncated :
      (w : W) (path : Text) (bytes : ℕ)
      → (run_checked n (truncate_command bytes path) 10 w).0 ≡ ok tt
      → (c : C) × (k.file (run_checked n (truncate_command bytes path) 10 w).1 path ≡ some c)
        × (k.size c ≡ bytes)
  pub measured :
      (w : W) (path : Text) (c : C) → k.file w path ≡ some c → n.get_size path w ≡ some (k.size c)

whole-size_in_gib : (g : ℕ) → size_in_gib (g * gib) ≡ g
whole-size_in_gib g = omega arith

-- The files of a volume and of a snapshot at one mount point are two.
files_apart :
    (mount_point volume_id snapshot_id : Text)
    → IsComponent volume_id
    → IsComponent snapshot_id
    → join_path mount_point (snapshot_file_name snapshot_id)
      ≢ join_path mount_point (volume_file_name volume_id)
files_apart mount_point volume_id snapshot_id v s e = heads (
    sym (basename-join_path mount_point (snapshot_file_name snapshot_id) s)
    ∙ ap basename e
    ∙ basename-join_path mount_point (volume_file_name volume_id) v)
  where
    heads : snapshot_file_name snapshot_id ≡ volume_file_name volume_id → ⊥
    heads q = absurd (grind (arith, q))

module _ {W C : Type 0} (b : Backing W) (cfg : CinderConfig) {k : Disk b.node C}
    (z : Sizing k) where
  extend-size :
      (mount_point name : Text) (size : ℕ) (w : W)
      → (extend_volume_file b.node mount_point name size w).0 ≡ ok tt
      → (c : C) × (k.file
            (extend_volume_file b.node mount_point name size w).1
            (join_path mount_point name)
          ≡ some c)
        × (k.size c ≡ size * gib)
  unfolding extend_volume_file
  extend-size mount_point name size w h =
      let path = join_path mount_point name in
      elim (Bool-cases (b.node.exists path w)) [
        | inr e ↦ absurd (grind (arith, e, h))
        | inl e ↦
            elim (Result-cases (run_checked b.node (truncate_command (size * gib) path) 10 w).0) [
              | inr (x, f) ↦ absurd (grind (arith, e, f, h))
              | inl (u, f) ↦
                  let (c, there, size_c) = z.truncated w path (size * gib) f in
                  (c, grind (arith, e, f, there), size_c)
            ]
      ]

  -- What is left to do once the copy is there.
  abbrev grow_to : Text → Volume → ℕ → Op W (Unit {0})
  grow_to mount_point volume g =
      if ltb g volume.size
      then extend_volume_file b.node mount_point (volume_file_name volume.id) volume.size
      else pure tt

  grow_to-size :
      (mount_point : Text) (volume : Volume) (g : ℕ) (w : W) (c : C)
      → k.file w (join_path mount_point (volume_file_name volume.id)) ≡ some c
      → k.size c ≡ g * gib
      → (grow_to mount_point volume g w).0 ≡ ok tt
      → (c' : C) × (k.file
            (grow_to mount_point volume g w).1
            (join_path mount_point (volume_file_name volume.id))
          ≡ some c')
        × (k.size c' ≡ (if ltb g volume.size then volume.size else g) * gib)
  grow_to-size mount_point volume g w c there whole h = elim (Bool-cases (ltb g volume.size)) [
    | inl e ↦ rw e (extend-size mount_point (volume_file_name volume.id) volume.size w (rw e at h))
    | inr e ↦ rw e (c, there, whole)
  ]

  copied-grow_to :
      (suffix mount_point : Text) (volume : Volume) (snapshot : Snapshot) (w : W) (g : ℕ)
      → let source = join_path mount_point (snapshot_file_name snapshot.id) in
        let r =
          copy_sparse_file b.node suffix source
            (join_path mount_point (volume_file_name volume.id))
            cfg.snapshot_copy_timeout
            w in
        r.0 ≡ ok tt
        → b.node.get_size source r.1 ≡ some (g * gib)
        → volume_from_copy b cfg suffix volume snapshot mount_point w
          ≡ grow_to mount_point volume g r.1
  unfolding volume_from_copy
  copied-grow_to suffix mount_point volume snapshot w g copied measured =
      rw copied (rw measured (rw (whole-size_in_gib g) refl))

  -- A volume that is made from a snapshot of a whole number of GiB, where the ids and the suffix have no
  -- slash: if that succeeds, the volume's file has as many GiB as the snapshot or, where that is
  -- more, as the volume is to have.
  pub volume_from_copy-size :
      (suffix mount_point : Text) (volume : Volume) (snapshot : Snapshot) (w : W) (c : C) (g : ℕ)
      → IsComponent suffix
      → IsComponent volume.id
      → IsComponent snapshot.id
      → k.file w (join_path mount_point (snapshot_file_name snapshot.id)) ≡ some c
      → k.size c ≡ g * gib
      → (volume_from_copy b cfg suffix volume snapshot mount_point w).0 ≡ ok tt
      → (c' : C) × (k.file
            (volume_from_copy b cfg suffix volume snapshot mount_point w).1
            (join_path mount_point (volume_file_name volume.id))
          ≡ some c')
        × (k.size c' ≡ (if ltb g volume.size then volume.size else g) * gib)
  unfolding volume_from_copy
  volume_from_copy-size suffix mount_point volume snapshot w c g x v s there whole h =
      let source = join_path mount_point (snapshot_file_name snapshot.id) in
      let dest = join_path mount_point (volume_file_name volume.id) in
      let st =
        temp_path_of-other dest suffix mount_point b's' (codes "napshot-" ++ snapshot.id) x s
          (λ e. absurd (omega (arith, e))) in
      let sd = files_apart mount_point volume.id snapshot.id v s in
      let r = copy_sparse_file b.node suffix source dest cfg.snapshot_copy_timeout w in
      let (apart, _, done) =
        copy_sparse_file-Copied k suffix source dest cfg.snapshot_copy_timeout w x st in
      elim (Result-cases r.0) [
        | inr (e, f) ↦ absurd (grind (arith, f, h))
        | inl (u, f) ↦
            let kept = apart source sd st ∙ there in
            let measured = z.measured r.1 source c kept ∙ ap some whole in
            let same = copied-grow_to suffix mount_point volume snapshot w g f measured in
            rw same (
              grow_to-size mount_point volume g r.1 c ((done f).0 ∙ there) whole
                (ap (λ y. y.0) (sym same) ∙ h))
      ]
