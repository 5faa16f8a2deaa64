-- ===== src/Application/Context.antt =====
-- What src/application.cpp's applications run in, and the checks that come before the kernels.
use bennu.Prelude.{
  ℕ, ◌+◌, Bool, false, ◌||◌, List, [], ◌∷◌, Option, none, some, length, if◌then◌else◌, ◌==◌, nat_eq,
}
use bennu.Scalar.Types.{
  ScalarValue, boolean, integer, double_precision, scalar_type_eq, container_eq,
}
use bennu.Scalar.Binary64.{FloatingPointUnit}
use bennu.Primitive.Types.{PrimitiveDescriptor, PrimitiveSignature, id_eq}
use bennu.Error.{Error, SourceLocation, invalid_value, Outcome, HostAllocator}
use bennu.Value.{Value, scalar_value, make_bool_value, make_int_value, make_double_value, is_valid}
use bennu.Resources.Types.{EvaluationResources}
use bennu.Resources.World.{World, Host}
use bennu.Resources.Validate.{validate_value}
use bennu.Application.Errors.{primitive_error}

abbrev pub maximum_application_arity : ℕ
maximum_application_arity = 2

-- The context that an application runs in, with what it changes: the resources, the world and the
-- count of the calls of the kernel.
pub record PrimitiveApplicationContext : Type 0 where
  pub unit : FloatingPointUnit
  pub host : Host
  pub resources : EvaluationResources
  pub world : World
  pub scalar_kernel_invocations : ℕ

pub record PrimitiveApplicationResult : Type 0 where
  pub outcome : Outcome Value
  pub resources : EvaluationResources
  pub world : World
  pub scalar_kernel_invocations : ℕ

abbrev pub application_result :
    PrimitiveApplicationContext → Outcome Value → PrimitiveApplicationResult
application_result context outcome = record {
  outcome = outcome;
  resources = context.resources;
  world = context.world;
  scalar_kernel_invocations = context.scalar_kernel_invocations;
}

unfoldable pub value_from_scalar : ScalarValue → Value
unfolding make_bool_value make_int_value make_double_value
value_from_scalar s = elim s.kind [
  | boolean ↦ scalar_value (make_bool_value s.boolean_field)
  | integer ↦ scalar_value (make_int_value s.integer_field)
  | double_precision ↦ scalar_value (make_double_value s.double_bits)
]

unfoldable pub arity_exists : List PrimitiveSignature → ℕ → Bool
arity_exists [] arity = false
arity_exists (s ∷ signatures) arity =
    (length s.parameters == arity) || arity_exists signatures arity

-- The loop that validates the arguments: the error of the first that is refused.
unfoldable pub invalid_argument :
    World → HostAllocator → PrimitiveDescriptor → SourceLocation → ℕ → List Value → Option Error
unfolding primitive_error
invalid_argument world host descriptor location index [] = none
invalid_argument world host descriptor location index (a ∷ arguments) =
    if is_valid (validate_value world a)
    then invalid_argument world host descriptor location (index + 1) arguments
    else some (record (primitive_error host invalid_value descriptor location) {
      argument_position = some (index + 1);
      value = some (validate_value world a);
    })

-- An error of the resources is told the identifier of the primitive.
unfoldable pub with_primitive_id : PrimitiveDescriptor → Error → Error
with_primitive_id descriptor error = record error {
  primitive = elim error.primitive [
    | none ↦ none
    | some context ↦ some (record context { id = some descriptor.id })
  ];
}
