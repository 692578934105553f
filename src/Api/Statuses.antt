-- ===== src/Api/Statuses.antt =====
-- The statuses that exceptions become.
use arca_storage.Base.{ℕ, Option, none, some}
use arca_storage.Results.{Error, Checked, ok, err}
use arca_storage.Results as R
use arca_storage.Actions.{Action}

-- What the `except` clauses of the endpoints tell apart. A limit that is no number raises the
-- `ValueError` of `int`. A command that fails with `check=True` and a
-- file that is not there are neither `ValueError` nor `RuntimeError`.
pub data FaultKind : Type 0 where
  value_kind runtime_kind other_kind : FaultKind

unfoldable pub fault_kind : Error → FaultKind
fault_kind (R.value_error _) = value_kind
fault_kind (R.invalid_limit _) = value_kind
fault_kind (R.command_failed _) = other_kind
fault_kind (R.config_snapshot_missing _) = other_kind
fault_kind _ = runtime_kind

-- The status of a success and those of the clauses `except ValueError` and `except RuntimeError`,
-- where an endpoint has them.
pub record Clauses : Type 0 where
  pub success : ℕ
  pub on_value_error : Option ℕ
  pub on_runtime_error : Option ℕ

-- An answer: a status of success with its data, or a status of failure with the exception.
pub data Reply (A : Type 0) : Type 0 where
  answered : ℕ → A → Reply A
  failed : ℕ → Error → Reply A

-- `global_exception_handler`
abbrev pub or_internal : Option ℕ → ℕ
or_internal none = 500
or_internal (some status) = status

abbrev pub clause_of : Clauses → FaultKind → Option ℕ
clause_of c value_kind = c.on_value_error
clause_of c runtime_kind = c.on_runtime_error
clause_of c other_kind = none

unfoldable pub status_of : Clauses → Error → ℕ
unfolding fault_kind
status_of c e = or_internal (clause_of c (fault_kind e))

abbrev pub reply_to : {A : Type 0} → Clauses → Checked A → Reply A
reply_to c (ok a) = answered c.success a
reply_to c (err e) = failed (status_of c e) e

-- An endpoint that calls a service.
abbrev pub respond : {S A : Type 0} → Clauses → Action S A → S → Reply A × S
respond c service s = let (r, s') = service s in (reply_to c r, s')

abbrev pub clauses : ℕ → Option ℕ → Option ℕ → Clauses
clauses success on_value_error on_runtime_error = record {
  success = success;
  on_value_error = on_value_error;
  on_runtime_error = on_runtime_error;
}
