-- ===== src/Manila/Access/Dicts.antt =====
-- A dict whose keys are texts, in the order in which they were first set.
use arca_storage.Base.{
  ◌≡◌, refl, Bool, true, false, ◌&&◌, ◌||◌, Option, none, some, List, [], ◌∷◌, ◌++◌, map, filter,
  Text, list_eqb, nat_order, list_order, eqb_refl, list_eqb_iff, contains, if◌then◌else◌, arith,
}

abbrev pub Dict : Type 0 → Type 0
Dict A = List (Text × A)

module _ {A : Type 0} where
  -- `d[k] = a`
  unfoldable pub dict_set : Text → A → Dict A → Dict A
  dict_set k a [] = (k, a) ∷ []
  dict_set k a ((k', a') ∷ d) =
      let rest = dict_set k a d in if list_eqb k' k then (k', a) ∷ d else (k', a') ∷ rest

  -- `d.get(k)`
  unfoldable pub look_up : Text → Dict A → Option A
  look_up k [] = none
  look_up k ((k', a) ∷ d) = let rest = look_up k d in if list_eqb k' k then some a else rest

  abbrev pub keys : Dict A → List Text
  keys d = map (λ e. e.0) d

-- `k in d`
abbrev pub is_some : {A : Type 0} → Option A → Bool
is_some none = false
is_some (some _) = true

abbrev pub has_key : {A : Type 0} → Text → Dict A → Bool
has_key k d = is_some (look_up k d)

module _ {A : Type 0} where
  pub look_up-set :
      (k k' : Text) (a : A) (d : Dict A)
      → look_up k (dict_set k' a d) ≡ (if list_eqb k' k then some a else look_up k d)
  unfolding look_up dict_set
  look_up-set k k' a [] = refl
  look_up-set k k' a ((k'', a'') ∷ d) = grind (arith, list_eqb_iff, eqb_refl, look_up-set k k' a d)

  pub contains-keys : (k : Text) (d : Dict A) → contains k (keys d) ≡ has_key k d
  unfolding look_up
  contains-keys k [] = refl
  contains-keys k ((k', a) ∷ d) = grind (arith, list_eqb_iff, eqb_refl, contains-keys k d)

pub contains-filter :
    (k : Text) (p : Text → Bool) (ks : List Text)
    → contains k (filter p ks) ≡ (contains k ks && p k)
contains-filter k p [] = refl
contains-filter k p (k' ∷ ks) = grind (arith, list_eqb_iff, eqb_refl, contains-filter k p ks)

pub contains-append :
    (k : Text) (ks ks' : List Text) → contains k (ks ++ ks') ≡ (contains k ks || contains k ks')
contains-append k [] ks' = refl
contains-append k (k' ∷ ks) ks' = grind (arith, contains-append k ks ks')
