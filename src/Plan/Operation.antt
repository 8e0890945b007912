-- ===== src/Plan/Operation.antt =====
-- internal/plan/plan.go: one ordered action of a plan.
use depengine.Prelude.{
  String, Bool, ◌||◌, ◌&&◌, not, List, [], ◌∷◌, ◌==◌, ◌!=◌, string_eq, is_empty, trim_space,
  contains_nul, Result, ok, err, ◌>>◌, fail_if,
}

-- The empty string and any other spelling are `unlisted`.
pub data OperationEffect : Type 0 where
  read_only mutation : OperationEffect
  unlisted : String → OperationEffect

pub record Operation : Type 0 where
  pub kind : String
  pub description : String
  pub effect : OperationEffect
  pub command : List String
  pub arbitrary_code : Bool

check_effect : OperationEffect → Result (Unit {0})
check_effect (OperationEffect.unlisted _) = err "operation has invalid effect"
check_effect _ = ok tt

check_arguments : List String → Result (Unit {0})
check_arguments [] = ok tt
check_arguments (arg ∷ args) =
    let rest = check_arguments args in
    fail_if (contains_nul arg) "operation command argument contains NUL" >> rest

check_command : List String → Result (Unit {0})
unfolding check_arguments
check_command [] = ok tt
check_command (executable ∷ args) = do
  fail_if (trim_space executable == "") "operation command executable is empty"
  check_arguments (executable ∷ args)

-- Operation.Validate
unfoldable pub validate_operation : Operation → Result (Unit {0})
unfolding check_effect check_command
validate_operation o = do
  fail_if (trim_space o.kind != o.kind || o.kind == "")
      "operation kind is required and must not contain surrounding whitespace"
  check_effect o.effect
  fail_if (not (is_empty o.command) && not o.arbitrary_code)
      "operation has a command but is not marked arbitrary code"
  check_command o.command

abbrev pub is_mutation : OperationEffect → Bool
is_mutation OperationEffect.mutation = Bool.true
is_mutation _ = Bool.false

abbrev pub is_read_only : OperationEffect → Bool
is_read_only OperationEffect.read_only = Bool.true
is_read_only _ = Bool.false
