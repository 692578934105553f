-- ===== src/Cinder/Paths.antt =====
-- The functions of `os.path` that the helpers use, and the names of mount points.
pub mod Components
pub mod MountPoints
use arca_storage.Base.{
  ℕ, Bool, true, false, not, ◌&&◌, ◌||◌, List, [], ◌∷◌, ◌++◌, Text, codes, is_empty, all, nat_eqb,
  rstrip_by, if◌then◌else◌,
}
use arca_storage.Results.{Result, ok, err}
use arca_storage.Validators.{matches_name}
use arca_storage.Cinder.{Fault, storage_error}

abbrev pub is_slash : ℕ → Bool
is_slash c = nat_eqb c b'/'

abbrev pub begins_with_slash : Text → Bool
begins_with_slash [] = false
begins_with_slash (c ∷ t) = is_slash c

abbrev pub ends_with_slash : Text → Bool
ends_with_slash [] = false
ends_with_slash (c ∷ []) = is_slash c
ends_with_slash (c ∷ d ∷ t) = ends_with_slash (d ∷ t)

-- `os.path.join(a, b)`
unfoldable pub join_path : Text → Text → Text
join_path a b =
    if begins_with_slash b
    then b
    else if is_empty a || ends_with_slash a
    then a ++ b
    else a ++ b'/' ∷ b

-- The text up to the last slash, with it, and what stands behind.
unfoldable pub split_path : Text → Text × Text
split_path [] = ([], [])
split_path (c ∷ t) =
    let (head, tail) = split_path t in
    if is_empty head && not (is_slash c) then ([], c ∷ tail) else (c ∷ head, tail)

-- `os.path.dirname`: the slashes at its end are dropped, unless there is nothing else.
unfoldable pub dirname : Text → Text
unfolding split_path
dirname p =
    let (head, tail) = split_path p in if all is_slash head then head else rstrip_by is_slash head

-- `os.path.basename`
unfoldable pub basename : Text → Text
unfolding split_path
basename p = (split_path p).1

-- `get_mount_point_for_svm`
unfoldable pub get_mount_point_for_svm : Text → Text → Result Fault Text
unfolding join_path
get_mount_point_for_svm base_path svm_name =
    if not (matches_name svm_name)
    then err storage_error
    else ok (join_path base_path (codes "svm_" ++ svm_name))

-- `get_mount_point_for_volume`; `digest` is the hexadecimal SHA-256 digest of an id, cut to its
-- first 16 characters.
unfoldable pub get_mount_point_for_volume : (Text → Text) → Text → Text → Text
unfolding join_path
get_mount_point_for_volume digest base_path volume_id = join_path base_path (digest volume_id)

-- `get_volume_file_path`
unfoldable pub get_volume_file_path : Text → Text → Text
unfolding join_path
get_volume_file_path mount_point volume_name = join_path mount_point volume_name
