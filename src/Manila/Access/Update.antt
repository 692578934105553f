-- ===== src/Manila/Access/Update.antt =====
-- `update_access`, and the rules that it adds and deletes one by one.
use arca_storage.Base.{
  Bool, true, false, not, ◌&&◌, Option, none, some, List, [], ◌∷◌, ◌++◌, Text, codes, nat_order,
  if◌then◌else◌,
}
use arca_storage.Results.{Result, ok, err}
use arca_storage.Manila.{
  share_not_found, share_exists, DriverError, share_backend, invalid_share_access,
  access_rule_error,
}
use arca_storage.Manila.Access.{
  Rule, ExportApi, or_rw, is_level, is_ip, ip_network, reconcile_access_rules,
}

module _ {W : Type 0} (api : ExportApi W) (svm_name volume_name : Text) where
  -- `_add_access_rule`: the client is passed on as it stands in the rule.
  unfoldable pub add_access_rule :
      (Text → Option Text) → Rule → W → Result DriverError (Unit {0}) × W
  unfolding ip_network
  add_access_rule ipv6_network rule w =
      if not (is_ip rule.access_type)
      then (err invalid_share_access, w)
      else elim (ip_network ipv6_network rule.access_to) [
        | none ↦ (err invalid_share_access, w)
        | some network ↦
            if not (is_level (or_rw rule.access_level))
            then (err invalid_share_access, w)
            else let (r, w') =
                api.create_export svm_name volume_name rule.access_to (or_rw rule.access_level) true
                  w in
              elim r [
                | ok u ↦ (ok tt, w')
                | err e ↦ elim e [ share_exists ↦ (ok tt, w') | _ ↦ (err access_rule_error, w') ]
              ]
      ]

  -- `_delete_access_rule`
  unfoldable pub delete_access_rule : Rule → W → Result DriverError (Unit {0}) × W
  delete_access_rule rule w =
      if not (is_ip rule.access_type)
      then (ok tt, w)
      else let (r, w') = api.delete_export svm_name volume_name rule.access_to w in
        elim r [
          | ok u ↦ (ok tt, w')
          | err e ↦ elim e [ share_not_found ↦ (ok tt, w') | _ ↦ (err access_rule_error, w') ]
        ]

  -- The loops of `update_access` over its rules; a failure is only logged.
  unfoldable pub delete_rules_each : List Rule → W → W
  unfolding delete_access_rule
  delete_rules_each [] w = w
  delete_rules_each (rule ∷ rules) w = delete_rules_each rules (delete_access_rule rule w).1

  unfoldable pub add_rules_each : (Text → Option Text) → List Rule → W → W
  unfolding add_access_rule
  add_rules_each ipv6_network [] w = w
  add_rules_each ipv6_network (rule ∷ rules) w =
      add_rules_each ipv6_network rules (add_access_rule ipv6_network rule w).1

-- A list that the caller may leave out; an empty one is the same.
abbrev pub rules_of : Option (List Rule) → List Rule
rules_of none = []
rules_of (some rules) = rules

abbrev pub no_rules : Option (List Rule) → Bool
no_rules none = true
no_rules (some []) = true
no_rules (some (_ ∷ _)) = false

-- The last `except` of `update_access`: an invalid rule is raised as it is.
abbrev pub as_systemic : DriverError → DriverError
as_systemic invalid_share_access = invalid_share_access
as_systemic _ = share_backend

-- `update_access`; `svm_of` is `_get_svm_for_share` of the share.
unfoldable pub update_access :
    {W : Type 0}
    → ExportApi W
    → (Text → Option Text)
    → (W → Result DriverError Text × W)
    → Text
    → Option (List Rule)
    → Option (List Rule)
    → Option (List Rule)
    → W
    → Result DriverError (Unit {0}) × W
unfolding reconcile_access_rules delete_rules_each add_rules_each
update_access api ipv6_network svm_of share_id access_rules add_rules delete_rules w =
    let volume_name = codes "share-" ++ share_id in
    let (found, w1) = svm_of w in
    elim found [
      | err e ↦ (err (as_systemic e), w1)
      | ok svm_name ↦
          if not (no_rules access_rules) && no_rules add_rules && no_rules delete_rules
          then (let (r, w2) =
                reconcile_access_rules api svm_name volume_name ipv6_network (rules_of access_rules)
                  w1 in
              elim r [ err e ↦ (err (as_systemic e), w2) | ok u ↦ (ok tt, w2) ])
          else (
            ok tt,
            add_rules_each api svm_name volume_name ipv6_network (rules_of add_rules)
                (delete_rules_each api svm_name volume_name (rules_of delete_rules) w1),
          )
    ]
