-- ===== src/Services/Volumes/Names.antt =====
-- The names of logical volumes: when they tell the volumes apart.
use mathlib.Core.List.{append_cancel_left}
use arca_storage.Base.{
  ◌≡◌, sym, ◌∙◌, ap, true, some, ◌∷◌, ◌++◌, Text, codes, is_free, split_once, split_once-append,
}
use arca_storage.Services.{volume_lv}

some-injective' : {a b : Text × Text} → some a ≡ some b → a ≡ b
some-injective' h = cc

-- Between SVMs whose names hold no underscore, the name of a logical volume tells its SVM and its
-- volume.
pub volume_lv-injective :
    (svm svm' name name' : Text)
    → is_free b'_' svm ≡ true
    → is_free b'_' svm' ≡ true
    → volume_lv svm name ≡ volume_lv svm' name'
    → (svm ≡ svm') × (name ≡ name')
unfolding volume_lv
volume_lv-injective svm svm' name name' free free' e =
    let tails = append_cancel_left (codes "vol_") (svm ++ b'_' ∷ name) (svm' ++ b'_' ∷ name') e in
    let parts =
      sym (split_once-append b'_' svm name free)
      ∙ ap (split_once b'_') tails
      ∙ split_once-append b'_' svm' name' free' in
    let pair = some-injective' parts in
    (ap (λ (t : Text × Text). t.0) pair, ap (λ (t : Text × Text). t.1) pair)
