-- ===== src/Services/Qos/Lines.antt =====
-- A line of io.max and the parts that it is read into.
use arca_storage.Base.{
  ◌≡◌, refl, ap, ◌∙◌, true, false, not, List, [], ◌∷◌, ◌++◌, All, all, Text, codes, split-free,
  split_words-append, split_words-solid, words, non_empty, join, starts_with-append, is_free,
  is_free-append, is_empty, is_space, nat_order, strip, lstrip_by, rstrip_by, arith,
}
use arca_storage.Numerals.{IsSolid, rstrip-append, rstrip-snoc, rstrip-solid}
use arca_storage.Results.{Checked, ok, err, ◌>>=◌}
use arca_storage.Services.Qos.IoMax.{
  Limits, no_limits, read_parts, read_line, read_lines, parse_io_max,
}

-- A part of a line: not empty, and without white space.
abbrev pub IsPart : Text → Type 0
IsPart t = (is_empty t ≡ false) × All IsSolid t

all_solid : (t : Text) → All IsSolid t → all (λ d. not (is_space d)) t ≡ true
all_solid [] h = refl
all_solid (c ∷ t) h = ground (arith, all_solid t h.1)

words-join :
    (p : Text) (ps : List Text)
    → IsPart p
    → All IsPart ps
    → words (join (codes " ") (p ∷ ps)) ≡ p ∷ ps
words-join p [] h hs = ap non_empty (split_words-solid p (all_solid p h.1)) ∙ rw h.0 refl
words-join p (q ∷ ps) h hs =
    ap non_empty (split_words-append p b' ' (join (codes " ") (q ∷ ps)) (all_solid p h.1) refl)
    ∙ rw h.0 (ap (λ ts. p ∷ ts) (words-join q ps hs.0 hs.1))

solid_free : (t : Text) → All IsSolid t → is_free 10 t ≡ true
solid_free [] h = refl
solid_free (c ∷ t) h = ground (arith, solid_free t h.1)

free_join :
    (p : Text) (ps : List Text)
    → IsPart p
    → All IsPart ps
    → is_free 10 (join (codes " ") (p ∷ ps)) ≡ true
free_join p [] h hs = solid_free p h.1
free_join p (q ∷ ps) h hs =
    is_free-append 10 p (b' ' ∷ join (codes " ") (q ∷ ps)) (solid_free p h.1)
      (free_join q ps hs.0 hs.1)

rstrip_join :
    (p : Text) (ps : List Text)
    → IsPart p
    → All IsPart ps
    → rstrip_by is_space (join (codes " ") (p ∷ ps)) ≡ join (codes " ") (p ∷ ps)
rstrip_join p [] h hs = rstrip-solid p h.1
rstrip_join p (q ∷ ps) h hs =
    rstrip-append p (b' ' ∷ join (codes " ") (q ∷ ps))
      (rstrip-append (codes " ") (join (codes " ") (q ∷ ps)) (rstrip_join q ps hs.0 hs.1)
        (filled q ps hs.0))
      refl
  where
    filled : (r : Text) (rs : List Text) → IsPart r → is_empty (join (codes " ") (r ∷ rs)) ≡ false
    filled [] rs k = cc (k.0)
    filled (c ∷ r) [] k = refl
    filled (c ∷ r) (x ∷ rs) k = refl

lstrip-part : (p rest : Text) → IsPart p → lstrip_by is_space (p ++ rest) ≡ p ++ rest
unfolding lstrip_by
lstrip-part [] rest h = cc (h.0)
lstrip-part (c ∷ p) rest h = rw h.1.0 refl

-- A line of io.max for a device.
abbrev pub line_of : Text → Text → List Text → Text
line_of device_id p ps = join (codes " ") (device_id ∷ p ∷ ps)

read_line-parts :
    (device_id p : Text) (ps : List Text) (l : Limits)
    → IsPart device_id
    → IsPart p
    → All IsPart ps
    → read_line device_id (line_of device_id p ps) l ≡ read_parts (p ∷ ps) l
unfolding read_line
read_line-parts [] p ps l hd hp hs = cc (hd.0)
read_line-parts (c ∷ d) p ps l hd hp hs =
    rw
      (
        starts_with-append (c ∷ d) (b' ' ∷ join (codes " ") (p ∷ ps)),
        words-join (c ∷ d) (p ∷ ps) hd (hp, hs),
      )
      refl

-- A file with one line, with or without its newline, reads as the parts behind the device.
pub parse_line :
    (device_id p : Text) (ps : List Text)
    → IsPart device_id
    → IsPart p
    → All IsPart ps
    → parse_io_max device_id (line_of device_id p ps) ≡ read_parts (p ∷ ps) no_limits
unfolding parse_io_max read_lines
parse_line device_id p ps hd hp hs =
    rw
      (
        split-free 10 (line_of device_id p ps) (free_join device_id (p ∷ ps) hd (hp, hs)),
        read_line-parts device_id p ps no_limits hd hp hs,
      )
      (ok_again (read_parts (p ∷ ps) no_limits))
  where
    ok_again : (r : Checked Limits) → (r >>= (λ l. ok l)) ≡ r
    ok_again (ok l) = refl
    ok_again (err e) = refl

pub strip_line :
    (device_id p : Text) (ps : List Text)
    → IsPart device_id
    → IsPart p
    → All IsPart ps
    → (strip (line_of device_id p ps) ≡ line_of device_id p ps)
      × (strip (line_of device_id p ps ++ 10 ∷ []) ≡ line_of device_id p ps)
unfolding strip lstrip_by
strip_line device_id p ps hd hp hs =
    let whole = rstrip_join device_id (p ∷ ps) hd (hp, hs) in
    let line = line_of device_id p ps in
    (
      rw (lstrip-part device_id (b' ' ∷ join (codes " ") (p ∷ ps)) hd) whole,
      ap (rstrip_by is_space) (lstrip_line device_id (10 ∷ []) hd)
          ∙ rstrip-snoc line 10 refl
          ∙ whole,
    )
  where
    lstrip_line :
        (d rest : Text)
        → IsPart d
        → lstrip_by is_space (line_of d p ps ++ rest) ≡ line_of d p ps ++ rest
    lstrip_line [] rest k = cc (k.0)
    lstrip_line (c ∷ d) rest k = rw k.1.0 refl
