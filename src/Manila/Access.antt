-- ===== src/Manila/Access.antt =====
-- The access rules of a share: their normal form, and the reconciliation of the backend with them.
pub mod Dicts
pub mod Loops
pub mod Reconcile
pub mod Update
pub mod Tests
use arca_storage.Base.{
  ℕ, zero, suc, Bool, true, false, not, ◌&&◌, ◌||◌, Option, none, some, List, [], ◌∷◌, ◌++◌, map,
  filter, Text, codes, decimal, strip, list_eqb, is_empty, nat_order, if◌then◌else◌,
}
use arca_storage.Results.{Result, ok, err}
use arca_storage.Ipv4.{Interface, parse_interface, address_text, network_of}
use arca_storage.Manila.{
  ApiError, share_not_found, share_exists, DriverError, raised, share_backend, invalid_share_access,
  access_rule_error, value_error,
}
use arca_storage.Manila.Access.Dicts.{Dict, dict_set, look_up, has_key, keys}

-- What the driver reads of an access rule; an `access_level` that is missing is "rw".
pub record Rule : Type 0 where
  pub access_type : Option Text
  pub access_to : Text
  pub access_level : Option Text

-- What the driver reads of an entry that `list_exports` returns.
pub record ExportInfo : Type 0 where
  pub client : Option Text
  pub access : Option Text

-- The calls of the API client on the exports of an SVM's volume.
pub record ExportApi (W : Type 0) : Type 0 where
  pub list_exports : Text → Text → W → Result ApiError (List ExportInfo) × W
  pub create_export : Text → Text → Text → Text → Bool → W → Result ApiError (Unit {0}) × W
  pub delete_export : Text → Text → Text → W → Result ApiError (Unit {0}) × W

abbrev pub rw_level : Text
rw_level = codes "rw"

-- `.get("access_level", "rw")`, and the same of an export's access
abbrev pub or_rw : Option Text → Text
or_rw none = rw_level
or_rw (some level) = level

abbrev pub is_level : Text → Bool
is_level level = list_eqb level rw_level || list_eqb level (codes "ro")

abbrev pub is_ip : Option Text → Bool
is_ip none = false
is_ip (some t) = list_eqb t (codes "ip")

-- `str(ip_network(t, strict=False))` of a text that is an IPv4 network
abbrev pub network_text : Interface → Text
network_text i = address_text (network_of i.ip i.prefixlen) ++ b'/' ∷ decimal i.prefixlen

module _ (ipv6_network : Text → Option Text) where
  -- `str(ip_network(t, strict=False))`, IPv4 before IPv6; `none` stands for its `ValueError`
  unfoldable pub ip_network : Text → Option Text
  ip_network t = elim (parse_interface t) [ some i ↦ some (network_text i) | none ↦ ipv6_network t ]

  unfoldable pub normalize_access_to : Text → Option Text
  unfolding ip_network
  normalize_access_to access_to = ip_network (strip access_to)

  -- The key and the level of a rule, checked as the loop checks them.
  unfoldable pub desired_entry : Rule → Result DriverError (Text × Text)
  desired_entry rule =
      if not (is_ip rule.access_type) || not (is_level (or_rw rule.access_level))
      then err invalid_share_access
      else elim (normalize_access_to rule.access_to) [
        | none ↦ err (raised value_error)
        | some key ↦ ok (key, or_rw rule.access_level)
      ]

  -- `desired`: what the rules ask for, the last rule of a client winning.
  unfoldable pub desired_from : Dict Text → List Rule → Result DriverError (Dict Text)
  desired_from d [] = ok d
  desired_from d (rule ∷ rules) = elim (desired_entry rule) [
    | err e ↦ err e
    | ok (key, level) ↦ desired_from (dict_set key level d) rules
  ]

  -- The key of a client: its normal form, or the stripped text where it has none.
  unfoldable pub client_key : Text → Text
  client_key raw = elim (normalize_access_to raw) [ none ↦ strip raw | some key ↦ key ]

  -- `current`: the client as the backend spells it and its level, by key.
  unfoldable pub current_from : Dict (Text × Text) → List ExportInfo → Dict (Text × Text)
  unfolding client_key
  current_from d [] = d
  current_from d (e ∷ es) = elim e.client [
    | none ↦ current_from d es
    | some raw ↦
        if is_empty raw
        then current_from d es
        else current_from (dict_set (client_key raw) (raw, or_rw e.access) d) es
  ]

unfoldable pub to_delete : Dict Text → Dict (Text × Text) → List Text
to_delete desired current = filter (λ k. not (has_key k desired)) (keys current)

unfoldable pub to_add : Dict Text → Dict (Text × Text) → List Text
to_add desired current = filter (λ k. not (has_key k current)) (keys desired)

-- `current[k][1] != desired[k]` of a key that both have
abbrev pub differs : Option Text → Option (Text × Text) → Bool
differs (some level) (some (raw, now)) = not (list_eqb now level)
differs _ _ = false

unfoldable pub to_update : Dict Text → Dict (Text × Text) → List Text
to_update desired current =
    filter (λ k. differs (look_up k desired) (look_up k current)) (keys desired)

module _ {W : Type 0} (api : ExportApi W) (svm_name volume_name : Text) where
  -- The loop of deletions; a failure is only logged.
  unfoldable pub delete_each : Dict (Text × Text) → List Text → W → W
  delete_each current [] w = w
  delete_each current (k ∷ ks) w = elim (look_up k current) [
    | none ↦ delete_each current ks w
    | some (raw, now) ↦ delete_each current ks (api.delete_export svm_name volume_name raw w).1
  ]

  -- The loop of additions; a failure is only logged.
  unfoldable pub create_each : Dict Text → List Text → W → W
  create_each desired [] w = w
  create_each desired (k ∷ ks) w = elim (look_up k desired) [
    | none ↦ create_each desired ks w
    | some level ↦ create_each desired ks (api.create_export svm_name volume_name k level true w).1
  ]

  unfoldable pub apply_changes : Dict Text → Dict (Text × Text) → W → W
  unfolding delete_each create_each to_delete to_add to_update
  apply_changes desired current w =
      create_each desired (to_add desired current ++ to_update desired current)
        (delete_each current (to_delete desired current ++ to_update desired current) w)

  unfoldable pub reconcile_access_rules :
      (Text → Option Text) → List Rule → W → Result DriverError (Unit {0}) × W
  unfolding apply_changes desired_from current_from
  reconcile_access_rules ipv6_network access_rules w =
      elim (desired_from ipv6_network [] access_rules) [
        | err e ↦ (err e, w)
        | ok desired ↦
            let (listed, w') = api.list_exports svm_name volume_name w in
            elim listed [
              | err e ↦ (err share_backend, w')
              | ok exports ↦
                  (ok tt, apply_changes desired (current_from ipv6_network [] exports) w')
            ]
      ]
