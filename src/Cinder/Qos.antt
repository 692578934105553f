-- ===== src/Cinder/Qos.antt =====
-- driver.py: the limits that a volume's type asks for.
pub mod Total
use arca_storage.Base.{
  ℕ, ℤ, Bool, true, false, ◌&&◌, Option, none, some, List, [], ◌∷◌, Text, codes, parse_int,
  if◌then◌else◌,
}
use arca_storage.Results.{Result, ok, err}
use arca_storage.Services.Qos.IoMax.{Limits, no_limits}
use arca_storage.Cinder.Driver.{
  Volume, CinderConfig, CinderApi, Backing, Cinder, spec_of, get_svm_for_volume,
}

-- `int(extra_specs[key])`, `none` where the key is missing or the value no number
abbrev pub int_spec : Option (Text → Option Text) → Text → Option ℤ
int_spec specs key = elim (spec_of specs key) [ none ↦ none | some t ↦ parse_int t ]

-- `if "read_iops" not in qos_specs: ...`
abbrev pub unless_given : Option ℤ → Option ℤ → Option ℤ
unless_given none total = total
unless_given (some z) total = some z

-- The steps of `_get_qos_specs`, each on the dict that the one before leaves.
abbrev pub set_read_iops : Option ℤ → Limits → Limits
set_read_iops none l = l
set_read_iops (some z) l = record l { read_iops = some z }

abbrev pub set_write_iops : Option ℤ → Limits → Limits
set_write_iops none l = l
set_write_iops (some z) l = record l { write_iops = some z }

abbrev pub set_total_iops : Option ℤ → Limits → Limits
set_total_iops none l = l
set_total_iops (some z) l = record l {
  read_iops = unless_given l.read_iops (some z);
  write_iops = unless_given l.write_iops (some z);
}

abbrev pub set_read_bps : Option ℤ → Limits → Limits
set_read_bps none l = l
set_read_bps (some z) l = record l { read_bps = some z }

abbrev pub set_write_bps : Option ℤ → Limits → Limits
set_write_bps none l = l
set_write_bps (some z) l = record l { write_bps = some z }

-- `_get_qos_specs` of texts; a key that the dict has not is `none`.
unfoldable pub get_qos_specs : Option (Text → Option Text) → Limits
get_qos_specs specs =
    let l1 = set_read_iops (int_spec specs (codes "arca_storage:read_iops_sec")) no_limits in
    let l2 = set_write_iops (int_spec specs (codes "arca_storage:write_iops_sec")) l1 in
    let l3 = set_total_iops (int_spec specs (codes "arca_storage:total_iops_sec")) l2 in
    let l4 = set_read_bps (int_spec specs (codes "arca_storage:read_bytes_sec")) l3 in
    set_write_bps (int_spec specs (codes "arca_storage:write_bytes_sec")) l4

abbrev pub is_missing : Option ℤ → Bool
is_missing none = true
is_missing (some _) = false

-- `if not qos_specs`
abbrev pub is_unlimited : Limits → Bool
is_unlimited l =
    is_missing l.read_iops
    && is_missing l.write_iops
    && is_missing l.read_bps
    && is_missing l.write_bps

module _ {W : Type 0} (b : Backing W) (cfg : CinderConfig) where
  -- `_apply_qos_to_volume`: what fails in it is only logged.
  unfoldable pub apply_qos_to_volume : Volume → Cinder W → Cinder W
  unfolding get_qos_specs
  apply_qos_to_volume volume s = elim b.client [
    | none ↦ s
    | some client ↦
        let qos_specs = get_qos_specs volume.extra_specs in
        if is_unlimited qos_specs then s else elim (get_svm_for_volume cfg volume) [
          | err _ ↦ s
          | ok svm_name ↦ record s {
            world = (client.apply_qos volume.name svm_name qos_specs s.world).1;
          }
        ]
  ]

  -- `retype`: whether it succeeds, which it always does; `changed` is whether the diff has
  -- `qos_specs` or `extra_specs`.
  unfoldable pub retype :
      Text → Volume → Option (Text → Option Text) → Bool → Cinder W → Bool × Cinder W
  unfolding apply_qos_to_volume
  retype context volume new_extra_specs changed s =
      let s' : Cinder W = record s { context = some context } in
      let retyped : Volume = record volume { extra_specs = new_extra_specs } in
      (true, if changed then apply_qos_to_volume retyped s' else s')
