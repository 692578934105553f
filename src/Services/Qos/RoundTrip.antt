-- ===== src/Services/Qos/RoundTrip.antt =====
-- The limits that are written to io.max are the limits that are read from it.
use arca_storage.Base.{
  ◌≡◌, refl, ap, ◌∙◌, false, Option, none, some, List, [], ◌∷◌, ◌++◌, All, All-append, Text, codes,
  ℤ, pos, negsuc, split_once, list_eqb, nat_order, strip, int_text, arith,
}
use arca_storage.Numerals.{IsSolid, decimal-head, int_text-IsSolid, parse_int-int_text}
use arca_storage.Results.{ok}
use arca_storage.Services.Qos.IoMax.{
  Limits, no_limits, limit_part, limit_parts, written_line, io_max_content, set_limit, read_part,
  read_parts, parse_io_max,
}
use arca_storage.Services.Qos.Lines.{IsPart, line_of, parse_line, strip_line}

-- Four optional limits.
abbrev limits : Option ℤ → Option ℤ → Option ℤ → Option ℤ → Limits
limits rb wb ri wi = record { read_bps = rb; write_bps = wb; read_iops = ri; write_iops = wi }

-- A printed number is not "max".
not_max : (z : ℤ) → list_eqb (int_text z) (codes "max") ≡ false
unfolding list_eqb
not_max (pos n) = let (c, t, e, hc) = decimal-head n in rw e (ground arith)
not_max (negsuc n) = refl

abbrev part_of : Text → ℤ → Text
part_of key z = key ++ b'=' ∷ int_text z

module _ (rb wb ri wi : Option ℤ) (z : ℤ) where
  read_rbps :
      read_part (part_of (codes "rbps") z) (limits rb wb ri wi) ≡ ok (limits (some z) wb ri wi)
  unfolding read_part set_limit split_once list_eqb
  read_rbps = rw (not_max z, parse_int-int_text z) refl

  read_wbps :
      read_part (part_of (codes "wbps") z) (limits rb wb ri wi) ≡ ok (limits rb (some z) ri wi)
  unfolding read_part set_limit split_once list_eqb
  read_wbps = rw (not_max z, parse_int-int_text z) refl

  read_riops :
      read_part (part_of (codes "riops") z) (limits rb wb ri wi) ≡ ok (limits rb wb (some z) wi)
  unfolding read_part set_limit split_once list_eqb
  read_riops = rw (not_max z, parse_int-int_text z) refl

  read_wiops :
      read_part (part_of (codes "wiops") z) (limits rb wb ri wi) ≡ ok (limits rb wb ri (some z))
  unfolding read_part set_limit split_once list_eqb
  read_wiops = rw (not_max z, parse_int-int_text z) refl

-- A part of the form that the kernel prints: "max" stands for no limit.
abbrev pub kernel_part : Text → Option ℤ → Text
kernel_part key none = key ++ codes "=max"
kernel_part key (some z) = part_of key z

-- The line of io.max that the kernel prints for a device.
abbrev pub kernel_line : Text → Limits → Text
kernel_line device_id l = line_of device_id (kernel_part (codes "rbps") l.read_bps) (
    kernel_part (codes "wbps") l.write_bps
    ∷ kernel_part (codes "riops") l.read_iops
    ∷ kernel_part (codes "wiops") l.write_iops
    ∷ [])

-- One part sets its limit, in the form that is written and in the form that the kernel prints.
part_step :
    (key : Text) (set : Option ℤ → Limits) (o : Option ℤ) (ps : List Text)
    → ((z : ℤ) → read_part (part_of key z) (set none) ≡ ok (set (some z)))
    → read_part (key ++ codes "=max") (set none) ≡ ok (set none)
    → (read_parts (limit_part key o ps) (set none) ≡ read_parts ps (set o))
      × (read_parts (kernel_part key o ∷ ps) (set none) ≡ read_parts ps (set o))
unfolding read_parts
part_step key set none ps some_read max_read = (refl, rw max_read refl)
part_step key set (some z) ps some_read max_read = (rw (some_read z) refl, rw (some_read z) refl)

module _ (rb wb ri wi : Option ℤ) where
  rbps_step :
      (ps : List Text)
      → (read_parts (limit_part (codes "rbps") rb ps) no_limits
          ≡ read_parts ps (limits rb none none none))
        × (read_parts (kernel_part (codes "rbps") rb ∷ ps) no_limits
            ≡ read_parts ps (limits rb none none none))
  unfolding read_part split_once list_eqb
  rbps_step ps =
      part_step (codes "rbps") (λ o. limits o none none none) rb ps (read_rbps none none none none)
        refl

  wbps_step :
      (ps : List Text)
      → (read_parts (limit_part (codes "wbps") wb ps) (limits rb none none none)
          ≡ read_parts ps (limits rb wb none none))
        × (read_parts (kernel_part (codes "wbps") wb ∷ ps) (limits rb none none none)
            ≡ read_parts ps (limits rb wb none none))
  unfolding read_part split_once list_eqb
  wbps_step ps =
      part_step (codes "wbps") (λ o. limits rb o none none) wb ps (read_wbps rb none none none) refl

  riops_step :
      (ps : List Text)
      → (read_parts (limit_part (codes "riops") ri ps) (limits rb wb none none)
          ≡ read_parts ps (limits rb wb ri none))
        × (read_parts (kernel_part (codes "riops") ri ∷ ps) (limits rb wb none none)
            ≡ read_parts ps (limits rb wb ri none))
  unfolding read_part split_once list_eqb
  riops_step ps =
      part_step (codes "riops") (λ o. limits rb wb o none) ri ps (read_riops rb wb none none) refl

  wiops_step :
      (ps : List Text)
      → (read_parts (limit_part (codes "wiops") wi ps) (limits rb wb ri none)
          ≡ read_parts ps (limits rb wb ri wi))
        × (read_parts (kernel_part (codes "wiops") wi ∷ ps) (limits rb wb ri none)
            ≡ read_parts ps (limits rb wb ri wi))
  unfolding read_part split_once list_eqb
  wiops_step ps =
      part_step (codes "wiops") (λ o. limits rb wb ri o) wi ps (read_wiops rb wb ri none) refl

abbrev kernel_rest : Limits → List Text
kernel_rest l =
    kernel_part (codes "wbps") l.write_bps
    ∷ kernel_part (codes "riops") l.read_iops
    ∷ kernel_part (codes "wiops") l.write_iops
    ∷ []

read_kernel :
    (l : Limits)
    → read_parts (kernel_part (codes "rbps") l.read_bps ∷ kernel_rest l) no_limits ≡ ok l
unfolding read_parts
read_kernel l =
    let step : Option ℤ × Option ℤ × Option ℤ × Option ℤ =
      (l.read_bps, l.write_bps, l.read_iops, l.write_iops) in
    (rbps_step step.0 step.1 step.2 step.3 (kernel_rest l)).1
    ∙ (wbps_step step.0 step.1 step.2 step.3
        (kernel_part (codes "riops") l.read_iops ∷ kernel_part (codes "wiops") l.write_iops ∷ [])).1
    ∙ (riops_step step.0 step.1 step.2 step.3 (kernel_part (codes "wiops") l.write_iops ∷ [])).1
    ∙ (wiops_step step.0 step.1 step.2 step.3 []).1

read_written : (l : Limits) → read_parts (limit_parts l) no_limits ≡ ok l
unfolding read_parts
read_written l =
    let step : Option ℤ × Option ℤ × Option ℤ × Option ℤ =
      (l.read_bps, l.write_bps, l.read_iops, l.write_iops) in
    (rbps_step step.0 step.1 step.2 step.3 _).0
    ∙ (wbps_step step.0 step.1 step.2 step.3 _).0
    ∙ (riops_step step.0 step.1 step.2 step.3 _).0
    ∙ (wiops_step step.0 step.1 step.2 step.3 []).0

-- The parts that a line has.
part_of-IsPart : (key : Text) (z : ℤ) → IsPart key → IsPart (part_of key z)
part_of-IsPart [] z h = cc (h.0)
part_of-IsPart (c ∷ key) z h =
    (refl, All-append IsSolid (c ∷ key) (b'=' ∷ int_text z) h.1 (refl, int_text-IsSolid z))

kernel_part-IsPart : (key : Text) (o : Option ℤ) → IsPart key → IsPart (kernel_part key o)
kernel_part-IsPart key (some z) h = part_of-IsPart key z h
kernel_part-IsPart [] none h = cc (h.0)
kernel_part-IsPart (c ∷ key) none h =
    (refl, All-append IsSolid (c ∷ key) (codes "=max") h.1 (refl, (refl, (refl, (refl, tt)))))

limit_part-IsPart :
    (key : Text) (o : Option ℤ) (ps : List Text)
    → IsPart key
    → All IsPart ps
    → All IsPart (limit_part key o ps)
limit_part-IsPart key none ps h hs = hs
limit_part-IsPart key (some z) ps h hs = (part_of-IsPart key z h, hs)

rbps-IsPart : IsPart (codes "rbps")
rbps-IsPart = (refl, (refl, (refl, (refl, (refl, tt)))))

wbps-IsPart : IsPart (codes "wbps")
wbps-IsPart = (refl, (refl, (refl, (refl, (refl, tt)))))

riops-IsPart : IsPart (codes "riops")
riops-IsPart = (refl, (refl, (refl, (refl, (refl, (refl, tt))))))

wiops-IsPart : IsPart (codes "wiops")
wiops-IsPart = (refl, (refl, (refl, (refl, (refl, (refl, tt))))))

kernel_rest-IsPart : (l : Limits) → All IsPart (kernel_rest l)
kernel_rest-IsPart l = (
  kernel_part-IsPart (codes "wbps") l.write_bps wbps-IsPart,
  (
    kernel_part-IsPart (codes "riops") l.read_iops riops-IsPart,
    (kernel_part-IsPart (codes "wiops") l.write_iops wiops-IsPart, tt),
  ),
)

limit_parts-IsPart : (l : Limits) → All IsPart (limit_parts l)
limit_parts-IsPart l = limit_part-IsPart (codes "rbps") l.read_bps _ rbps-IsPart (
    limit_part-IsPart (codes "wbps") l.write_bps _ wbps-IsPart (
      limit_part-IsPart (codes "riops") l.read_iops _ riops-IsPart
        (limit_part-IsPart (codes "wiops") l.write_iops [] wiops-IsPart tt)))

-- The text that is written, for each list of parts.
written-reads :
    (device_id : Text) (l : Limits) (parts : List Text)
    → IsPart device_id
    → All IsPart parts
    → read_parts parts no_limits ≡ ok l
    → parse_io_max device_id (strip (written_line device_id parts)) ≡ ok l
unfolding read_parts
written-reads device_id l [] hd solid reads =
    ap (parse_io_max device_id)
      (strip_line device_id (codes "rbps=max") (kernel_rest no_limits) hd
        (kernel_part-IsPart (codes "rbps") none rbps-IsPart) (kernel_rest-IsPart no_limits)).0
    ∙ parse_line device_id (codes "rbps=max") (kernel_rest no_limits) hd
        (kernel_part-IsPart (codes "rbps") none rbps-IsPart) (kernel_rest-IsPart no_limits)
    ∙ read_kernel no_limits
    ∙ reads
written-reads device_id l (p ∷ ps) hd solid reads =
    ap (parse_io_max device_id) (strip_line device_id p ps hd solid.0 solid.1).0
    ∙ parse_line device_id p ps hd solid.0 solid.1
    ∙ reads

-- The limits that are written to io.max are read from it again, in the text that the program writes
-- and in the line, with a newline, that the kernel prints: for every device number that is not empty
-- and has no white space, and for every choice of limits, no limit at all included.
pub parse_io_max-limits :
    (device_id : Text) (l : Limits)
    → IsPart device_id
    → (parse_io_max device_id (strip (io_max_content device_id l)) ≡ ok l)
      × (parse_io_max device_id (strip (kernel_line device_id l ++ 10 ∷ [])) ≡ ok l)
unfolding io_max_content
parse_io_max-limits device_id l hd =
    let first = kernel_part-IsPart (codes "rbps") l.read_bps rbps-IsPart in
    (
      written-reads device_id l (limit_parts l) hd (limit_parts-IsPart l) (read_written l),
      ap (parse_io_max device_id)
            (strip_line device_id (kernel_part (codes "rbps") l.read_bps) (kernel_rest l) hd first
              (kernel_rest-IsPart l)).1
          ∙ parse_line device_id (kernel_part (codes "rbps") l.read_bps) (kernel_rest l) hd first
              (kernel_rest-IsPart l)
          ∙ read_kernel l,
    )
