-- ===== src/Services/Qos/IoMax.antt =====
-- The limits, as they are written to io.max and read from it.
use arca_storage.Base.{
  Option, none, some, List, [], ◌∷◌, ◌++◌, Text, codes, ℤ, split, split_once, words, join,
  starts_with, is_empty, list_eqb, nat_order, parse_int, int_text, if◌then◌else◌,
}
use arca_storage.Results.{Checked, ok, or_raise, invalid_limit, ◌>>=◌}

-- `none` is no limit.
pub record Limits : Type 0 where
  pub read_bps : Option ℤ
  pub write_bps : Option ℤ
  pub read_iops : Option ℤ
  pub write_iops : Option ℤ

abbrev pub no_limits : Limits
no_limits = record { read_bps = none; write_bps = none; read_iops = none; write_iops = none }

-- f"{key}={value}" where there is a value
abbrev pub limit_part : Text → Option ℤ → List Text → List Text
limit_part key none parts = parts
limit_part key (some z) parts = (key ++ b'=' ∷ int_text z) ∷ parts

-- The list `limits`.
abbrev pub limit_parts : Limits → List Text
limit_parts l = limit_part (codes "rbps") l.read_bps (
    limit_part (codes "wbps") l.write_bps
      (limit_part (codes "riops") l.read_iops (limit_part (codes "wiops") l.write_iops [])))

abbrev pub unlimited : Text → Text
unlimited device_id = device_id ++ codes " rbps=max wbps=max riops=max wiops=max"

-- Where there are no limits, the ones that are there are lifted.
abbrev pub written_line : Text → List Text → Text
written_line device_id [] = unlimited device_id
written_line device_id (p ∷ ps) = device_id ++ b' ' ∷ join (codes " ") (p ∷ ps)

-- What is written to io.max.
unfoldable pub io_max_content : Text → Limits → Text
io_max_content device_id l = written_line device_id (limit_parts l)

-- The chain of `if key == ...`; another key is passed over before its value is read.
unfoldable pub set_limit : Text → Text → Limits → Checked Limits
set_limit key value l =
    let number = or_raise (parse_int value) (invalid_limit value) in
    if list_eqb key (codes "rbps")
    then number >>= (λ z. ok (record l { read_bps = some z }))
    else if list_eqb key (codes "wbps")
    then number >>= (λ z. ok (record l { write_bps = some z }))
    else if list_eqb key (codes "riops")
    then number >>= (λ z. ok (record l { read_iops = some z }))
    else if list_eqb key (codes "wiops")
    then number >>= (λ z. ok (record l { write_iops = some z }))
    else ok l

unfoldable pub read_part : Text → Limits → Checked Limits
unfolding set_limit
read_part part l = elim (split_once b'=' part) [
  | none ↦ ok l
  | some (key, value) ↦ if list_eqb value (codes "max") then ok l else set_limit key value l
]

unfoldable pub read_parts : List Text → Limits → Checked Limits
read_parts [] l = ok l
read_parts (p ∷ ps) l = read_part p l >>= read_parts ps

-- `parts[1:]`
abbrev pub drop_first : List Text → List Text
drop_first [] = []
drop_first (p ∷ ps) = ps

-- A line that does not begin with the device's number is passed over.
unfoldable pub read_line : Text → Text → Limits → Checked Limits
read_line device_id line l =
    if is_empty line
    then ok l
    else if starts_with device_id line
    then read_parts (drop_first (words line)) l
    else ok l

unfoldable pub read_lines : Text → List Text → Limits → Checked Limits
read_lines device_id [] l = ok l
read_lines device_id (line ∷ lines) l = read_line device_id line l >>= read_lines device_id lines

unfoldable pub parse_io_max : Text → Text → Checked Limits
unfolding read_lines
parse_io_max device_id content = read_lines device_id (split 10 content) no_limits
