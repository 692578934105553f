-- ===== src/Validators/Tests.antt =====
-- The validators at single inputs.
use arca_storage.Base.{◌≡◌, ◌↔◌, refl, Text, codes, ◌∷◌, [], ◌++◌, nat_order}
use arca_storage.Ipv4.{Interface, network_of}
use arca_storage.Results.{ok}
use arca_storage.Validators.{validate_name, matches_name, matches_tail, first_other, gateway_of}
use arca_storage.Validators.Names.{IsAcceptedName, validate_name_iff}

abbrev with_newline : Text
with_newline = codes "web" ++ 10 ∷ []

newline_accepted : validate_name with_newline ≡ ok tt
unfolding validate_name matches_name matches_tail
newline_accepted = refl

validate_name_iff_example : (validate_name with_newline ≡ ok tt) ↔ IsAcceptedName with_newline
validate_name_iff_example = validate_name_iff with_newline

-- 10.0.0.1/24
abbrev first_interface : Interface
first_interface = record { ip = 167772161; prefixlen = 24 }

second_host : gateway_of first_interface ≡ ok 167772162
unfolding gateway_of first_other network_of
second_host = refl
