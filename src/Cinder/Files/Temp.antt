-- ===== src/Cinder/Files/Temp.antt =====
-- The temporary file of a copy is neither its destination nor a file of a volume or snapshot.
use arca_storage.Base.{
  ℕ, ◌≡◌, ◌≢◌, sym, ◌∙◌, ap, [], ◌∷◌, ◌++◌, Text, codes, length, length-append, arith,
}
use arca_storage.Cinder.Paths.{join_path, dirname, basename}
use arca_storage.Cinder.Paths.Components.{IsComponent, basename-join_path, basename-IsComponent}
use arca_storage.Cinder.Files.{temp_path_of}

append-IsComponent : (s t : Text) → IsComponent s → IsComponent t → IsComponent (s ++ t)
append-IsComponent [] t h k = k
append-IsComponent (c ∷ s) t h k = grind (arith, append-IsComponent s t)

abbrev temp_name : Text → Text → Text
temp_name name random_suffix = b'.' ∷ (name ++ (codes ".tmp." ++ random_suffix))

basename-temp_path_of :
    (dest random_suffix : Text)
    → IsComponent random_suffix
    → basename (temp_path_of dest random_suffix) ≡ temp_name (basename dest) random_suffix
unfolding temp_path_of
basename-temp_path_of dest random_suffix h =
    basename-join_path (dirname dest) (temp_name (basename dest) random_suffix) (
      append-IsComponent (basename dest) (codes ".tmp." ++ random_suffix)
        (basename-IsComponent dest) h)

longer : (name random_suffix : Text) → temp_name name random_suffix ≢ name
longer name random_suffix e =
    let size = ap length e in
    absurd (omega (arith, size, length-append name (codes ".tmp." ++ random_suffix)))

pub temp_path_of-dest :
    (dest random_suffix : Text) → IsComponent random_suffix → temp_path_of dest random_suffix ≢ dest
temp_path_of-dest dest random_suffix h e =
    longer (basename dest) random_suffix
      (sym (basename-temp_path_of dest random_suffix h) ∙ ap basename e)

-- A file of which the name does not begin with a dot.
pub temp_path_of-other :
    (dest random_suffix dir : Text) (c : ℕ) (name : Text)
    → IsComponent random_suffix
    → IsComponent (c ∷ name)
    → c ≢ b'.'
    → join_path dir (c ∷ name) ≢ temp_path_of dest random_suffix
temp_path_of-other dest random_suffix dir c name h k apart e = apart (
    head-eq (
      sym (basename-join_path dir (c ∷ name) k)
      ∙ ap basename e
      ∙ basename-temp_path_of dest random_suffix h))
  where
    head-eq : c ∷ name ≡ temp_name (basename dest) random_suffix → c ≡ b'.'
    head-eq q = cc
