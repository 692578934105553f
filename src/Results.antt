-- ===== src/Results.antt =====
-- The exceptions that the program raises, and actions that change a state and may raise. What was
-- written before a raise stays written, so the state comes back beside the exception too.
use mathlib.Core.Path.{◌≡◌, refl}
use mathlib.Core.Bool.{Bool, true, false}
use mathlib.Core.Option.{Option, none, some}
use mathlib.Core.List.{List}
use mathlib.Core.Logic.{◌⊎◌, inl, inr}
use arca_storage.Base.{Text}

-- The `ValueError`s, by the check that raises them.
pub data ValueFault : Type 0 where
  name_empty name_length name_chars vlan_range cidr_format ipv4_format : ValueFault
  gateway_cidr gateway_prefix gateway_none : ValueFault

-- What a `RuntimeError` or a `FileNotFoundError` says, with the path, or the name, and the standard
-- error output that its message quotes.
pub data Error : Type 0 where
  value_error : ValueFault → Error
  lv_exists lv_missing source_lv_missing snapshot_exists : Text → Error
  create_lv_failed resize_lv_failed delete_lv_failed create_snapshot_failed : Text → Error
  device_missing not_mounted : Text → Error
  format_failed mount_failed umount_failed grow_failed : Text → Error
  reload_failed : Text → Error
  config_snapshot_missing : Text → Error
  snapshot_not_found : Text → Text → Error
  export_not_created ifnames_exhausted : Error
  create_namespace_failed delete_namespace_failed : Text → Error
  command_failed : List Text → Error
  start_unit_failed stop_unit_failed : Text → Text → Error
  drbd_failed drbd_master_failed order_failed colocation_failed : Text → Error
  volume_not_found : Text → Text → Error
  no_lv_path cgroup_base_failed : Text → Error
  cgroup_failed device_failed write_failed read_failed : Text → Error
  invalid_limit : Text → Error
  filesystem_failed netns_failed ganesha_failed group_failed delete_group_failed : Text → Error

pub data Result {ℓ κ} (E : Type ℓ) (A : Type κ) : Type (ℓ ⊔ κ) where
  ok : A → Result E A
  err : E → Result E A

-- What a function of the command line tools and of the API services returns.
abbrev pub Checked {ℓ} : Type ℓ → Type ℓ
Checked A = Result Error A

infixl 5 ◌>>=◌ ◌>>◌
abbrev pub ◌>>=◌ {ℓ κ μ} :
    {E : Type ℓ} {A : Type κ} {B : Type μ} → Result E A → (A → Result E B) → Result E B
ok a >>= f = f a
err e >>= f = err e

abbrev pub ◌>>◌ {ℓ κ μ} :
    {E : Type ℓ} {A : Type κ} {B : Type μ} → Result E A → Result E B → Result E B
m >> k = m >>= λ _. k

-- `if b: raise e`
abbrev pub raise_if {ℓ} : {E : Type ℓ} → Bool → E → Result E (Unit {0})
raise_if true e = err e
raise_if false e = ok tt

abbrev pub or_raise {ℓ κ} : {E : Type ℓ} {A : Type κ} → Option A → E → Result E A
or_raise none e = err e
or_raise (some a) e = ok a

pub ok-injective {ℓ κ} :
    {E : Type ℓ} {A : Type κ} {a b : A} → ◌≡◌ {A = Result E A} (ok a) (ok b) → a ≡ b
ok-injective h = cc

-- A chain that succeeds has succeeded at each step.
pub >>=-steps {ℓ κ μ} :
    {E : Type ℓ} {A : Type κ} {B : Type μ} (first : Result E A) (next : A → Result E B) {answer : B}
    → (first >>= next) ≡ ok answer
    → (x : A) × (first ≡ ok x) × (next x ≡ ok answer)
>>=-steps (err fault) next done = cc
>>=-steps (ok x) next done = (x, refl, done)

pub Result-cases {ℓ κ} :
    {E : Type ℓ} {A : Type κ} (r : Result E A) → ((a : A) × (r ≡ ok a)) ⊎ ((e : E) × (r ≡ err e))
Result-cases (ok a) = inl (a, refl)
Result-cases (err e) = inr (e, refl)
