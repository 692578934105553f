-- ===== src/Cinder/Setup.antt =====
-- driver.py: the start of the driver.
use arca_storage.Base.{
  Bool, true, false, Option, none, some, Text, codes, list_eqb, nat_order, if◌then◌else◌,
}
use arca_storage.Results.{Result, ok, err}
use arca_storage.Cinder.{Fault, backend_error, Op, pure, ◌>>◌}
use arca_storage.Cinder.Driver.{
  CinderConfig, CinderApi, Backing, Cinder, given, get_export_path, as_backend,
}

-- What only the start reads: the endpoint of the API, the client that is made for it, and the
-- option `nfs_mount_options`, where there is one.
pub record Setup (W : Type 0) : Type 0 where
  pub api_endpoint : Option Text
  pub make_client : Result (Unit {0}) (CinderApi W)
  pub nfs_mount_options : Option Text

abbrev pub default_mount_options : Text
default_mount_options = codes "rw,noatime,nodiratime,vers=4.1"

-- The driver's own mount options, or where these are the default ones the standard option.
unfoldable pub choose_mount_options : Text → Option Text → Text
choose_mount_options own standard =
    if list_eqb own default_mount_options
    then elim (given standard) [ none ↦ own | some options ↦ options ]
    else own

-- The client, where the API is to be used.
abbrev pub choose_client :
    {W : Type 0} → Setup W → Bool → Option (CinderApi W) → Result Fault (Option (CinderApi W))
choose_client setup false client = ok client
choose_client setup true client = elim (given setup.api_endpoint) [
  | none ↦ err backend_error
  | some _ ↦ elim setup.make_client [ ok made ↦ ok (some made) | err _ ↦ err backend_error ]
]

module _ {W : Type 0} (b : Backing W) (cfg : CinderConfig) where
  -- `do_setup`: the driver's client and its options from here on.
  unfoldable pub do_setup : Setup W → Text → Op (Cinder W) (Backing W × CinderConfig)
  unfolding choose_mount_options
  do_setup setup context s =
      let s' : Cinder W = record s { context = some context } in
      elim (choose_client setup cfg.use_api b.client) [
        | err e ↦ (err e, s')
        | ok client ↦ (
          ok (
            record b { client = client },
            record cfg {
              mount_options = choose_mount_options cfg.mount_options setup.nfs_mount_options;
            },
          ),
          s',
        )
      ]

  -- `check_for_setup_error`
  unfoldable pub check_for_setup_error : Op (Cinder W) (Unit {0})
  check_for_setup_error = as_backend (
      if list_eqb cfg.svm_strategy (codes "shared")
      then (get_export_path b cfg cfg.default_svm >> pure tt)
      else pure tt)
