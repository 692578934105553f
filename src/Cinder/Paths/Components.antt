-- ===== src/Cinder/Paths/Components.antt =====
-- The last component of a path that `os.path.join` makes.
use arca_storage.Base.{
  ◌≡◌, refl, inl, inr, true, false, not, [], ◌∷◌, ◌++◌, Text, is_empty, all, Bool-cases, arith,
}
use arca_storage.Cinder.Paths.{
  is_slash, begins_with_slash, ends_with_slash, join_path, split_path, basename,
}

-- A text without a slash.
abbrev pub IsComponent : Text → Type 0
IsComponent t = all (λ c. not (is_slash c)) t ≡ true

split-component : (t : Text) → IsComponent t → split_path t ≡ ([], t)
unfolding split_path
split-component [] h = refl
split-component (c ∷ t) h = grind (arith, split-component t)

split-behind :
    (a t : Text)
    → IsComponent t
    → (split_path (a ++ b'/' ∷ t)).1 ≡ t × (is_empty (split_path (a ++ b'/' ∷ t)).0 ≡ false)
unfolding split_path
split-behind [] t h = grind (arith, split-component t h)
split-behind (c ∷ a) t h = grind (arith, split-behind a t h)

split-IsComponent : (t : Text) → IsComponent (split_path t).1
unfolding split_path
split-IsComponent [] = refl
split-IsComponent (c ∷ t) = grind (arith, split-IsComponent t)

split-after_slash :
    (a t : Text)
    → IsComponent t
    → ends_with_slash a ≡ true
    → ((split_path (a ++ t)).1 ≡ t) × (is_empty (split_path (a ++ t)).0 ≡ false)
unfolding split_path
split-after_slash [] t h e = absurd (grind (arith, e))
split-after_slash (c ∷ []) t h e = grind (arith, split-component t h, e)
split-after_slash (c ∷ d ∷ a) t h e = grind (arith, split-after_slash (d ∷ a) t h e)

component-no_slash : (t : Text) → IsComponent t → begins_with_slash t ≡ false
component-no_slash [] h = refl
component-no_slash (c ∷ t) h = grind (arith, h)

-- `os.path.basename(os.path.join(a, t))` of a component
pub basename-join_path : (a t : Text) → IsComponent t → basename (join_path a t) ≡ t
unfolding basename join_path
basename-join_path a t h = elim (Bool-cases (ends_with_slash a)) [
  | inl e ↦ grind (arith, component-no_slash t h, e, (split-after_slash a t h e).0)
  | inr e ↦ in_front a e
]
  where
    in_front : (a : Text) → ends_with_slash a ≡ false → basename (join_path a t) ≡ t
    in_front [] e = grind (arith, component-no_slash t h, split-component t h)
    in_front (c ∷ a) e = grind (arith, component-no_slash t h, e, (split-behind (c ∷ a) t h).0)

pub basename-IsComponent : (p : Text) → IsComponent (basename p)
unfolding basename
basename-IsComponent p = split-IsComponent p
