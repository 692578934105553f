-- ===== src/Cinder/Paths/MountPoints.antt =====
-- The mount points of SVMs lie side by side in one directory.
use arca_storage.Base.{
  ◌≡◌, refl, ap, sym, ◌∙◌, inl, inr, true, [], ◌∷◌, ◌++◌, Text, codes, Bool-cases, arith,
}
use arca_storage.Results.{ok}
use arca_storage.Validators.{matches_tail, matches_name}
use arca_storage.Cinder.Paths.{join_path, basename, get_mount_point_for_svm}
use arca_storage.Cinder.Paths.Components.{IsComponent, basename-join_path}

tail-IsComponent : (t : Text) → matches_tail t ≡ true → IsComponent t
unfolding matches_tail
tail-IsComponent [] h = refl
tail-IsComponent (c ∷ []) h = grind arith
tail-IsComponent (c ∷ d ∷ t) h = grind (arith, tail-IsComponent (d ∷ t))

name-IsComponent : (t : Text) → matches_name t ≡ true → IsComponent t
unfolding matches_name
name-IsComponent [] h = refl
name-IsComponent (c ∷ t) h = grind (arith, tail-IsComponent t)

-- A name that is accepted, and the mount point that it gets.
entry :
    (base name path : Text)
    → get_mount_point_for_svm base name ≡ ok path
    → (matches_name name ≡ true) × (path ≡ join_path base (codes "svm_" ++ name))
unfolding get_mount_point_for_svm
entry base name path h = elim (Bool-cases (matches_name name)) [
  | inl e ↦ (e, grind (arith, e, h))
  | inr e ↦ absurd (grind (arith, e, h))
]

entry-basename :
    (base name path : Text)
    → get_mount_point_for_svm base name ≡ ok path
    → basename path ≡ codes "svm_" ++ name
entry-basename base name path h =
    let (e, p) = entry base name path h in
    ap basename p ∙ basename-join_path base (codes "svm_" ++ name) (name-IsComponent name e)

-- A mount point is an entry of the base directory, named after its SVM, whatever the name that was
-- accepted: no name leads out of the directory. Two SVMs with one mount point are the same.
pub get_mount_point_for_svm-apart :
    (base name name' : Text) (path path' : Text)
    → get_mount_point_for_svm base name ≡ ok path
    → get_mount_point_for_svm base name' ≡ ok path'
    → (path ≡ join_path base (codes "svm_" ++ name))
      × (basename path ≡ codes "svm_" ++ name)
      × (path ≡ path' → name ≡ name')
get_mount_point_for_svm-apart base name name' path path' h h' = (
  (entry base name path h).1,
  entry-basename base name path h,
  λ same. same_name (
      sym (entry-basename base name path h)
      ∙ ap basename same
      ∙ entry-basename base name' path' h'),
)
  where
    same_name : codes "svm_" ++ name ≡ codes "svm_" ++ name' → name ≡ name'
    same_name q = cc
