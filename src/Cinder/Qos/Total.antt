-- ===== src/Cinder/Qos/Total.antt =====
-- What the limits of a volume's type are.
use arca_storage.Base.{ℤ, ◌≡◌, refl, ◌∙◌, Option, none, some, Text, codes}
use arca_storage.Cinder.Qos.{
  int_spec, unless_given, set_read_iops, set_write_iops, set_total_iops, set_read_bps,
  set_write_bps, get_qos_specs,
}
use arca_storage.Services.Qos.IoMax.{Limits, no_limits}

-- Each step sets its own keys and keeps the others.
set_bps-keeps :
    (rb wb : Option ℤ) (l : Limits)
    → l.read_bps ≡ none
    → l.write_bps ≡ none
    → let l' = set_write_bps wb (set_read_bps rb l) in
      (l'.read_iops ≡ l.read_iops)
      × (l'.write_iops ≡ l.write_iops)
      × (l'.read_bps ≡ rb)
      × (l'.write_bps ≡ wb)
set_bps-keeps none none l r w = (refl, refl, r, w)
set_bps-keeps none (some _) l r w = (refl, refl, r, refl)
set_bps-keeps (some _) none l r w = (refl, refl, refl, w)
set_bps-keeps (some _) (some _) l r w = (refl, refl, refl, refl)

set_total_iops-unless_given :
    (ri wi ti : Option ℤ)
    → let l = set_total_iops ti (set_write_iops wi (set_read_iops ri no_limits)) in
      (l.read_iops ≡ unless_given ri ti)
      × (l.write_iops ≡ unless_given wi ti)
      × (l.read_bps ≡ none)
      × (l.write_bps ≡ none)
set_total_iops-unless_given none none none = (refl, refl, refl, refl)
set_total_iops-unless_given none none (some _) = (refl, refl, refl, refl)
set_total_iops-unless_given none (some _) none = (refl, refl, refl, refl)
set_total_iops-unless_given none (some _) (some _) = (refl, refl, refl, refl)
set_total_iops-unless_given (some _) none none = (refl, refl, refl, refl)
set_total_iops-unless_given (some _) none (some _) = (refl, refl, refl, refl)
set_total_iops-unless_given (some _) (some _) none = (refl, refl, refl, refl)
set_total_iops-unless_given (some _) (some _) (some _) = (refl, refl, refl, refl)

each :
    (ri wi ti rb wb : Option ℤ)
    → let l =
        set_write_bps wb
          (set_read_bps rb (set_total_iops ti (set_write_iops wi (set_read_iops ri no_limits)))) in
      (l.read_iops ≡ unless_given ri ti)
      × (l.write_iops ≡ unless_given wi ti)
      × (l.read_bps ≡ rb)
      × (l.write_bps ≡ wb)
each ri wi ti rb wb =
    let iops = set_total_iops-unless_given ri wi ti in
    let l = set_total_iops ti (set_write_iops wi (set_read_iops ri no_limits)) in
    let bps = set_bps-keeps rb wb l iops.2 iops.3 in (bps.0 ∙ iops.0, bps.1 ∙ iops.1, bps.2, bps.3)

-- A limit on the operations of one direction is that direction's own, where it is a number, and
-- otherwise the total, where that is one; a limit on the bytes is that direction's own. A key that is
-- missing or no number takes no other limit away.
pub get_qos_specs-total :
    (specs : Option (Text → Option Text))
    → let total = int_spec specs (codes "arca_storage:total_iops_sec") in
      ((get_qos_specs specs).read_iops
        ≡ unless_given (int_spec specs (codes "arca_storage:read_iops_sec")) total)
      × ((get_qos_specs specs).write_iops
          ≡ unless_given (int_spec specs (codes "arca_storage:write_iops_sec")) total)
      × ((get_qos_specs specs).read_bps ≡ int_spec specs (codes "arca_storage:read_bytes_sec"))
      × ((get_qos_specs specs).write_bps ≡ int_spec specs (codes "arca_storage:write_bytes_sec"))
unfolding get_qos_specs
get_qos_specs-total specs =
    each (int_spec specs (codes "arca_storage:read_iops_sec"))
      (int_spec specs (codes "arca_storage:write_iops_sec"))
      (int_spec specs (codes "arca_storage:total_iops_sec"))
      (int_spec specs (codes "arca_storage:read_bytes_sec"))
      (int_spec specs (codes "arca_storage:write_bytes_sec"))
