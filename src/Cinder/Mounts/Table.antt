-- ===== src/Cinder/Mounts/Table.antt =====
-- /proc/mounts as the kernel writes it, and what the helper reads of it.
use arca_storage.Base.{
  Bool-cases, eqb_refl, ℕ, ◌≡◌, refl, ap, ◌∙◌, inl, inr, Bool, true, false, not, ◌&&◌, Option, none,
  some, List, [], ◌∷◌, ◌++◌, Text, codes, All, all, is_space, is_empty, is_free, is_free-append,
  nat_eqb, split, words, split_words, split-append, split_words-append, list_eqb, nat_order,
  if◌then◌else◌, arith,
}
use arca_storage.Cinder.Mounts.{ShareInfo, share_of, find_share}

-- A mount; the kernel writes a blank in one of these as an escape without blanks.
pub record Entry : Type 0 where
  pub device : Text
  pub place : Text
  pub fs_type : Text
  pub options : Text

abbrev pub is_word : Text → Bool
is_word t = all (λ c. not (is_space c)) t && not (is_empty t)

abbrev pub is_written : Entry → Bool
is_written e = is_word e.device && is_word e.place && is_word e.fs_type && is_word e.options

abbrev pub IsWritten : Entry → Type 0
IsWritten e = is_written e ≡ true

abbrev pub line_of : Entry → Text
line_of e =
    e.device ++ b' ' ∷ (e.place ++ b' ' ∷ (e.fs_type ++ b' ' ∷ (e.options ++ b' ' ∷ codes "0 0")))

unfoldable pub print : List Entry → Text
print [] = []
print (e ∷ es) = line_of e ++ 10 ∷ print es

abbrev pub info_of : Entry → ShareInfo
info_of e = record {
  device = e.device;
  mount_point = e.place;
  fs_type = e.fs_type;
  options = e.options;
}

-- The first mount at a place.
unfoldable pub first_at : Text → List Entry → Option ShareInfo
first_at mount_point [] = none
first_at mount_point (e ∷ es) =
    let rest = first_at mount_point es in
    if list_eqb e.place mount_point then some (info_of e) else rest

false-not-true : ¬ (false ≡ true)
false-not-true e = cc

some-not-none : {A : Type 0} {a : A} → ¬ (some a ≡ none)
some-not-none e = cc

and-true : (a b : Bool) → (a && b) ≡ true → (a ≡ true) × (b ≡ true)
and-true true b h = (refl, h)
and-true false b h = cc

not-true : (b : Bool) → not b ≡ true → b ≡ false
not-true true h = cc
not-true false h = refl

IsSolid-ne : (c : ℕ) → not (is_space c) ≡ true → nat_eqb c 10 ≡ false
IsSolid-ne c h = elim (Bool-cases (nat_eqb c 10)) [
  | inr e ↦ e
  | inl e ↦ absurd (newline_is_space c (eqb→eq10 c e) h)
]
  where
    eqb→eq10 : (d : ℕ) → nat_eqb d 10 ≡ true → d ≡ 10
    eqb→eq10 d e = ground arith

    newline_is_space : (d : ℕ) → d ≡ 10 → ¬ (not (is_space d) ≡ true)
    newline_is_space d e k = false-not-true (rw e at k)

word-free : (t : Text) → all (λ c. not (is_space c)) t ≡ true → is_free 10 t ≡ true
word-free [] h = refl
word-free (c ∷ t) h =
    let k = and-true (not (is_space c)) (all (λ d. not (is_space d)) t) h in
    rw (IsSolid-ne c k.0) (word-free t k.1)

is_word-parts :
    (t : Text) → is_word t ≡ true → (all (λ c. not (is_space c)) t ≡ true) × (is_empty t ≡ false)
is_word-parts t h =
    let k = and-true (all (λ c. not (is_space c)) t) (not (is_empty t)) h in
    (k.0, not-true (is_empty t) k.1)

written-parts :
    (e : Entry)
    → IsWritten e
    → (is_word e.device ≡ true)
      × (is_word e.place ≡ true)
      × (is_word e.fs_type ≡ true)
      × (is_word e.options ≡ true)
written-parts e h =
    let a =
      and-true (is_word e.device && is_word e.place && is_word e.fs_type) (is_word e.options) h in
    let b = and-true (is_word e.device && is_word e.place) (is_word e.fs_type) a.0 in
    let c = and-true (is_word e.device) (is_word e.place) b.0 in (c.0, c.1, b.1, a.1)

spaced-free :
    (t rest : Text)
    → is_word t ≡ true
    → is_free 10 rest ≡ true
    → is_free 10 (t ++ b' ' ∷ rest) ≡ true
spaced-free t rest h k = is_free-append 10 t (b' ' ∷ rest) (word-free t (is_word-parts t h).0) k

line-free : (e : Entry) → IsWritten e → is_free 10 (line_of e) ≡ true
line-free e h =
    let k = written-parts e h in
    spaced-free e.device _ k.0
      (spaced-free e.place _ k.1 (spaced-free e.fs_type _ k.2 (spaced-free e.options _ k.3 refl)))

words-word : (t rest : Text) → is_word t ≡ true → words (t ++ b' ' ∷ rest) ≡ t ∷ words rest
words-word t rest h =
    let k = is_word-parts t h in rw (split_words-append t b' ' rest k.0 refl, k.1) refl

words-line :
    (e : Entry)
    → IsWritten e
    → words (line_of e) ≡ e.device ∷ e.place ∷ e.fs_type ∷ e.options ∷ codes "0" ∷ codes "0" ∷ []
unfolding split_words
words-line e h =
    let k = written-parts e h in
    words-word e.device _ k.0
    ∙ ap (λ ws. e.device ∷ ws)
        (words-word e.place _ k.1
          ∙ ap (λ ws. e.place ∷ ws)
              (words-word e.fs_type _ k.2 ∙ ap (λ ws. e.fs_type ∷ ws) (words-word e.options _ k.3)))

first_or_rest :
    (mount_point : Text) (e : Entry) (es : List Entry) {rest : Option ShareInfo}
    → rest ≡ first_at mount_point es
    → (elim (if list_eqb e.place mount_point then some (info_of e) else none)
        as (λ _. Option ShareInfo) [ some info ↦ some info | none ↦ rest ])
      ≡ first_at mount_point (e ∷ es)
unfolding first_at
first_or_rest mount_point e es h = elim (Bool-cases (list_eqb e.place mount_point)) [
  | inl here ↦ rw here refl
  | inr here ↦ rw here h
]

find_share-line :
    (mount_point line : Text) (lines : List Text) (ws : List Text)
    → words line ≡ ws
    → find_share mount_point (line ∷ lines) ≡ elim (share_of mount_point ws) [
      | some info ↦ some info
      | none ↦ find_share mount_point lines
    ]
unfolding find_share
find_share-line mount_point line lines ws e =
    ap
      (λ vs. elim (share_of mount_point vs) as (λ _. Option ShareInfo) [
        | some info ↦ some info
        | none ↦ find_share mount_point lines
      ])
      e

pub find_share-print :
    (mount_point : Text) (es : List Entry)
    → All IsWritten es
    → find_share mount_point (split 10 (print es)) ≡ first_at mount_point es
unfolding find_share print first_at split split_words
find_share-print mount_point [] h = refl
find_share-print mount_point (e ∷ es) h =
    ap (find_share mount_point) (split-append 10 (line_of e) (print es) (line-free e h.0))
    ∙ find_share-line mount_point (line_of e) (split 10 (print es)) _ (words-line e h.0)
    ∙ first_or_rest mount_point e es (find_share-print mount_point es h.1)

pub first_at-snoc :
    (mount_point : Text) (es : List Entry) (e : Entry)
    → first_at mount_point es ≡ none
    → e.place ≡ mount_point
    → first_at mount_point (es ++ e ∷ []) ≡ some (info_of e)
unfolding first_at
first_at-snoc mount_point [] e h p = rw (p, eqb_refl mount_point) refl
first_at-snoc mount_point (x ∷ es) e h p = elim (Bool-cases (list_eqb x.place mount_point)) [
  | inl here ↦ absurd (some-not-none (rw here at h))
  | inr here ↦ rw here (first_at-snoc mount_point es e (rw here at h) p)
]
