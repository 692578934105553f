-- ===== src/Validators/Names.antt =====
-- What `validate_name` accepts.
use arca_storage.Base.{
  ℕ, ◌≤◌, ◌≡◌, ◌≢◌, refl, ap, ◌↔◌, ◌⊎◌, inl, inr, Bool, true, ◌&&◌, [], ◌∷◌, ◌++◌, Text, All,
  length, is_alnum, is_empty, nat_eqb, Option, none, some, All-append, Bool-cases, arith,
}
use arca_storage.Results.{ok}
use arca_storage.Validators.{is_name_char, matches_tail, matches_name, validate_name}

abbrev pub head? : Text → Option ℕ
head? [] = none
head? (c ∷ t) = some c

abbrev pub Alnum : ℕ → Type 0
Alnum c = is_alnum c ≡ true

abbrev pub NameChar : ℕ → Type 0
NameChar c = is_name_char c ≡ true

-- An alphanumeric followed by letters, digits, dots, underscores and hyphens.
abbrev pub IsPlainName : Text → Type 0
IsPlainName [] = ⊥
IsPlainName (c ∷ t) = Alnum c × All NameChar t

abbrev pub newline : Text
newline = 10 ∷ []

-- A plain name, or a plain name with one newline behind it, of at most 64 characters in all.
abbrev pub IsAcceptedName : Text → Type 0
IsAcceptedName name =
    (length name ≤ 64)
    × (IsPlainName name ⊎ ((base : Text) × IsPlainName base × (name ≡ base ++ newline)))

tail_sound :
    (t : Text)
    → matches_tail t ≡ true
    → All NameChar t ⊎ ((base : Text) × All NameChar base × (t ≡ base ++ newline))
unfolding matches_tail
tail_sound [] h = inl tt
tail_sound (c ∷ t) h = elim (Bool-cases (is_name_char c)) [
  | inl e ↦ elim (tail_sound t (rw e at h)) [
    | inl a ↦ inl (e, a)
    | inr (base, a, p) ↦ inr (c ∷ base, (e, a), ap (λ x. c ∷ x) p)
  ]
  | inr e ↦ inr ([], tt, newline_only c t (rw e at h))
]
  where
    newline_only : (d : ℕ) (u : Text) → (nat_eqb d 10 && is_empty u) ≡ true → d ∷ u ≡ newline
    newline_only d [] k = ground arith
    newline_only d (x ∷ u) k = ground arith

tail_complete : (t : Text) → All NameChar t → matches_tail t ≡ true
unfolding matches_tail
tail_complete [] h = refl
tail_complete (c ∷ t) h = rw h.0 (tail_complete t h.1)

tail_newline : (t : Text) → All NameChar t → matches_tail (t ++ newline) ≡ true
unfolding matches_tail
tail_newline [] h = refl
tail_newline (c ∷ t) h = rw h.0 (tail_newline t h.1)

regex_sound :
    (t : Text)
    → matches_name t ≡ true
    → IsPlainName t ⊎ ((base : Text) × IsPlainName base × (t ≡ base ++ newline))
unfolding matches_name
regex_sound [] h = cc
regex_sound (c ∷ t) h = elim (tail_sound t (second (is_alnum c) (matches_tail t) h)) [
  | inl a ↦ inl (first (is_alnum c) (matches_tail t) h, a)
  | inr (base, a, p) ↦ inr (c ∷ base, (first (is_alnum c) (matches_tail t) h, a), ap (λ x. c ∷ x) p)
]
  where
    first : (a b : Bool) → (a && b) ≡ true → a ≡ true
    first a b k = ground arith

    second : (a b : Bool) → (a && b) ≡ true → b ≡ true
    second a b k = ground arith

regex_plain : (t : Text) → IsPlainName t → matches_name t ≡ true
unfolding matches_name
regex_plain [] h = absurd h
regex_plain (c ∷ t) h = rw (h.0, tail_complete t h.1) refl

regex_newline : (t : Text) → IsPlainName t → matches_name (t ++ newline) ≡ true
unfolding matches_name
regex_newline [] h = absurd h
regex_newline (c ∷ t) h = rw (h.0, tail_newline t h.1) refl

regex_complete :
    (t : Text)
    → IsPlainName t ⊎ ((base : Text) × IsPlainName base × (t ≡ base ++ newline))
    → matches_name t ≡ true
regex_complete t (inl p) = regex_plain t p
regex_complete t (inr (base, p, e)) = rw e (regex_newline base p)

accepted→regex :
    (name : Text) → validate_name name ≡ ok tt → (length name ≤ 64) × (matches_name name ≡ true)
unfolding validate_name
accepted→regex [] h = cc
accepted→regex (c ∷ t) h = ground arith

regex→accepted :
    (name : Text) → length name ≤ 64 → matches_name name ≡ true → validate_name name ≡ ok tt
unfolding validate_name
regex→accepted [] l h = cc
regex→accepted (c ∷ t) l h = ground arith

-- `validate_name` accepts a name exactly when it has at most 64 characters and is a plain name, or
-- a plain name with one newline behind it.
pub validate_name_iff : (name : Text) → (validate_name name ≡ ok tt) ↔ IsAcceptedName name
validate_name_iff name = (
  λ h. let r = accepted→regex name h in (r.0, regex_sound name r.1),
  λ h. regex→accepted name h.0 (regex_complete name h.1),
)

NameChar-ne-slash : (c : ℕ) → NameChar c → c ≢ b'/'
NameChar-ne-slash c h = ground arith

abbrev pub IsNoSlash : ℕ → Type 0
IsNoSlash c = c ≢ b'/'

chars-IsNoSlash : (t : Text) → All NameChar t → All IsNoSlash t
chars-IsNoSlash [] h = tt
chars-IsNoSlash (c ∷ t) h = (NameChar-ne-slash c h.0, chars-IsNoSlash t h.1)

plain-IsNoSlash : (t : Text) → IsPlainName t → All IsNoSlash t
plain-IsNoSlash [] h = absurd h
plain-IsNoSlash (c ∷ t) h = (ground arith, chars-IsNoSlash t h.1)

newline-IsNoSlash : All IsNoSlash newline
newline-IsNoSlash = omega arith

matched-IsNoSlash :
    (t : Text)
    → IsPlainName t ⊎ ((base : Text) × IsPlainName base × (t ≡ base ++ newline))
    → All IsNoSlash t
matched-IsNoSlash t (inl p) = plain-IsNoSlash t p
matched-IsNoSlash t (inr (base, p, e)) =
    rw e (All-append IsNoSlash base newline (plain-IsNoSlash base p) newline-IsNoSlash)

regex-head : (t : Text) → matches_name t ≡ true → head? t ≢ some b'.'
unfolding matches_name
regex-head [] h = cc
regex-head (c ∷ t) h = ground arith

-- An accepted name holds no slash and does not begin with a dot.
pub validate_name-component :
    (name : Text) → validate_name name ≡ ok tt → All IsNoSlash name × (head? name ≢ some b'.')
validate_name-component name h =
    let r = accepted→regex name h in
    (matched-IsNoSlash name (regex_sound name r.1), regex-head name r.1)
