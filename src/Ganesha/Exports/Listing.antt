-- ===== src/Ganesha/Exports/Listing.antt =====
-- The listing names each export's SVM and volume.
use mathlib.Core.List.{map-append}
use arca_storage.Base.{
  ℕ, ◌≡◌, ◌≢◌, refl, ap, Bool, true, false, not, Option, none, some, List, [], ◌∷◌, ◌++◌, map, Text,
  is_empty, is_free, add_to_first, split, split-free, filter, filter-append, nat_order, nat_eqb,
  rstrip_slash, inl, inr, Bool-cases, arith,
}
use arca_storage.Ganesha.{Export, Config, World, Outside}
use arca_storage.Ganesha.Exports.{
  load_exports, new_export, export_path, add_export, last_or, volume_from_path, Listed, listed_of,
  list_exports,
}
use arca_storage.Ganesha.Exports.Ids.{load-store_self}

split_nonempty : (sep : ℕ) (t : Text) → split sep t ≢ []
unfolding split
split_nonempty sep [] h = cc
split_nonempty sep (c ∷ t) h = ground (arith, split_nonempty sep t)

first-append :
    (c : ℕ) (ps qs : List Text) → ps ≢ [] → add_to_first c (ps ++ qs) ≡ add_to_first c ps ++ qs
first-append c [] qs h = absurd (h refl)
first-append c (p ∷ ps) qs h = refl

split-append-split : (sep : ℕ) (s t : Text) → split sep (s ++ sep ∷ t) ≡ split sep s ++ split sep t
unfolding split
split-append-split sep [] t = ground arith
split-append-split sep (c ∷ s) t = elim (Bool-cases (nat_eqb c sep)) [
  | inl e ↦ rw (split-append-split sep s t, e) refl
  | inr e ↦
      rw (split-append-split sep s t, e)
        (first-append c (split sep s) (split sep t) (split_nonempty sep s))
]

last_or-snoc : (d t : Text) (ts : List Text) → last_or d (ts ++ t ∷ []) ≡ t
last_or-snoc d t [] = refl
last_or-snoc d t (x ∷ ts) = last_or-snoc x t ts

last_or-end : (d t : Text) (ts us : List Text) → last_or d (ts ++ (us ++ t ∷ [])) ≡ t
last_or-end d t [] us = last_or-snoc d t us
last_or-end d t (x ∷ ts) us = last_or-end x t ts us

volume_of_path :
    (dir svm volume : Text)
    → is_free b'/' volume ≡ true
    → is_empty volume ≡ false
    → volume_from_path (export_path dir svm volume) ≡ volume
unfolding volume_from_path export_path
volume_of_path dir svm volume free full =
    rw
      (
        split-append-split b'/' dir (svm ++ b'/' ∷ volume),
        split-append-split b'/' svm volume,
        split-free b'/' volume free,
        filter-append (λ p. not (is_empty p)) (split b'/' dir) (split b'/' svm ++ volume ∷ []),
        filter-append (λ p. not (is_empty p)) (split b'/' svm) (volume ∷ []),
        full,
      )
      (last_or-end [] volume (filter (λ p. not (is_empty p)) (split b'/' dir))
        (filter (λ p. not (is_empty p)) (split b'/' svm)))

abbrev listed_entry : Text → Export → Listed
listed_entry svm e = record { svm = svm; volume = volume_from_path e.path; entry = e }

-- An addition of an export of a volume whose name is not empty and holds no slash adds one entry at
-- the end of the listing of its SVM, under the name of that volume.
pub list_exports-add :
    (o : Outside) (cfg : Config) (names : List Text) (svm_name volume_name client access : Text)
    (root_squash : Bool) (sec : Option (List Text)) (w : World)
    → is_empty svm_name ≡ false
    → is_free b'/' volume_name ≡ true
    → is_empty volume_name ≡ false
    → let w1 = (add_export o cfg svm_name volume_name client access root_squash sec w).1 in
      let f =
        new_export cfg
          (load_exports svm_name w)
          svm_name
          volume_name
          client
          access
          root_squash
          sec in
      list_exports names (some svm_name) none w1
      ≡ list_exports names (some svm_name) none w
        ++ record { svm = svm_name; volume = volume_name; entry = f } ∷ []
unfolding list_exports listed_of add_export new_export
list_exports-add o cfg names svm_name volume_name client access root_squash sec w named free full =
    let es = load_exports svm_name w in
    let f = new_export cfg es svm_name volume_name client access root_squash sec in
    rw (named, load-store_self o cfg svm_name (es ++ f ∷ []) w, map-append)
      (ap
        (λ (v : Text).
          map (listed_entry svm_name) es ++ record { svm = svm_name; volume = v; entry = f } ∷ [])
        (volume_of_path (rstrip_slash cfg.export_dir) svm_name volume_name free full))
