-- ===== src/Manila/Client/Resources.antt =====
-- openstack/manila/client.py: the resource that an exception of the client names.
use arca_storage.Base.{
  ◌≡◌, refl, ap, ◌∙◌, true, false, ◌||◌, Option, none, some, List, [], ◌∷◌, ◌++◌, Text, codes,
  is_empty, list_eqb, nat_order, contains, list_order, split, non_empty, is_free, split-free,
  split-append, if◌then◌else◌,
}

-- `[p for p in path.split("/") if p]`
abbrev pub parts_of : Text → List Text
parts_of path = non_empty (split b'/' path)

-- The part behind the first one that is `kind`, where there is one.
unfoldable pub part_behind : Text → List Text → Option Text
part_behind kind [] = none
part_behind kind (p ∷ []) = none
part_behind kind (p ∷ q ∷ ps) =
    let rest = part_behind kind (q ∷ ps) in if list_eqb p kind then some q else rest

-- A part that is the word itself or the version is no id.
abbrev pub unless_word : Text → Option Text → Option Text
unless_word kind none = none
unless_word kind (some p) = if list_eqb p kind || list_eqb p (codes "v1") then none else some p

unfoldable pub last_part : List Text → Text
last_part [] = codes "unknown"
last_part (p ∷ []) = p
last_part (p ∷ q ∷ ps) = last_part (q ∷ ps)

-- `json_data["name"]` of a POST that has one; `body` is the name in the body.
abbrev pub posted_name : Text → Option Text → Option Text
posted_name method body = if list_eqb method (codes "POST") then body else none

abbrev pub id_or : Option Text → Text → Text
id_or none t = t
id_or (some s) t = s

-- The id in the parts of a path.
unfoldable pub resource_in : List Text → Text → Option Text → Text
unfolding part_behind last_part
resource_in parts method body =
    let otherwise = id_or (posted_name method body) (last_part parts) in
    if contains (codes "volumes") parts
    then id_or (unless_word (codes "volumes") (part_behind (codes "volumes") parts)) otherwise
    else if contains (codes "snapshots") parts
    then id_or (unless_word (codes "snapshots") (part_behind (codes "snapshots") parts)) otherwise
    else if contains (codes "svms") parts
    then id_or (unless_word (codes "svms") (part_behind (codes "svms") parts)) otherwise
    else if contains (codes "exports") parts
    then id_or (posted_name method body) (codes "exports")
    else otherwise

-- `_extract_resource_id`
unfoldable pub extract_resource_id : Text → Text → Option Text → Text
unfolding resource_in
extract_resource_id path method body = resource_in (parts_of path) method body

parts-name :
    (name : Text)
    → is_free b'/' name ≡ true
    → is_empty name ≡ false
    → parts_of (codes "/v1/volumes/" ++ name) ≡ codes "v1" ∷ codes "volumes" ∷ name ∷ []
unfolding split
parts-name name h e = rw (split-free b'/' name h, e) refl

parts-action :
    (name action : Text)
    → is_free b'/' name ≡ true
    → is_empty name ≡ false
    → parts_of (codes "/v1/volumes/" ++ (name ++ b'/' ∷ action))
      ≡ codes "v1" ∷ codes "volumes" ∷ name ∷ parts_of action
unfolding split
parts-action name action h e = rw (split-append b'/' name action h, e) refl

in_volumes :
    (name method : Text) (rest : List Text) (body : Option Text)
    → list_eqb name (codes "volumes") ≡ false
    → list_eqb name (codes "v1") ≡ false
    → resource_in (codes "v1" ∷ codes "volumes" ∷ name ∷ rest) method body ≡ name
unfolding resource_in list_eqb
in_volumes name method rest body v w = rw (v, w) refl

-- A request on a volume names that volume, whatever action stands behind it in the path and whatever
-- the body says, where its name has no slash, is not empty and is neither `volumes` nor `v1`. A
-- request that makes a volume names the one in its body.
pub extract_resource_id-volume :
    (name action method : Text) (body : Option Text)
    → is_free b'/' name ≡ true
    → is_empty name ≡ false
    → list_eqb name (codes "volumes") ≡ false
    → list_eqb name (codes "v1") ≡ false
    → (extract_resource_id (codes "/v1/volumes/" ++ name) method body ≡ name)
      × (extract_resource_id (codes "/v1/volumes/" ++ (name ++ b'/' ∷ action)) method body ≡ name)
      × (extract_resource_id (codes "/v1/volumes") (codes "POST") (some name) ≡ name)
unfolding extract_resource_id list_eqb split
extract_resource_id-volume name action method body h e v w = (
  ap (λ parts. resource_in parts method body) (parts-name name h e)
      ∙ in_volumes name method [] body v w,
  ap (λ parts. resource_in parts method body) (parts-action name action h e)
      ∙ in_volumes name method (parts_of action) body v w,
  refl,
)
