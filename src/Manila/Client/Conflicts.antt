-- ===== src/Manila/Client/Conflicts.antt =====
-- What an answer with status 409 is taken for.
use mathlib.Core.List.{map-append}
use arca_storage.Base.{◌≡◌, refl, true, ◌++◌, Text, codes, lower, has_text-append, nat_order, arith}
use arca_storage.Manila.{network_conflict}
use arca_storage.Manila.Client.{is_ip_conflict, conflict_error, response_error}

lower-append : (s t : Text) → lower (s ++ t) ≡ lower s ++ lower t
lower-append s t = map-append _ s t

ip_already-conflict :
    (before after : Text) → is_ip_conflict (before ++ (codes "ip already" ++ after)) ≡ true
unfolding is_ip_conflict
ip_already-conflict before after = grind (arith, has_text-append before (codes "ip already") after)

-- A message in which a word that ends in "ip" stands before "already exists", such as the name of an
-- SVM or of a volume, is taken for a conflict of IP addresses, whatever the path of the request.
pub response_error-ip_suffix :
    (path before after : Text)
    → response_error 409 path (before ++ (codes "ip already exists" ++ after)) ≡ network_conflict
unfolding response_error conflict_error
response_error-ip_suffix path before after =
    let lowered = lower-append before (codes "ip already exists" ++ after) in
    rw (lowered, ip_already-conflict (lower before) (codes " exists" ++ lower after)) refl
