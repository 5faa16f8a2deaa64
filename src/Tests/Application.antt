-- ===== src/Tests/Application.antt =====
-- Applications of primitives to vectors: src/application.cpp.
use bennu.Prelude.{
  ℕ, ◌≡◌, ◌+◌, ◌<◌, ◌⊎◌, refl, true, false, [], ◌∷◌, List, some, codes, nat_eq, arith,
}
use bennu.Prelude.Int.{pos, int64_max}
use bennu.Scalar.Types.{integer}
use bennu.Scalar.Binary64.{FloatingPointUnit}
use bennu.Primitive.Types.{PrimitiveDescriptor, PrimitiveSignature}
use bennu.Primitive.Types
use bennu.Primitive.Table.{add_signatures, scalar_int, int_parameters}
use bennu.Error.{start_location}
use bennu.HostStorage.Registry.{Registry, vector_payload}
use bennu.HostStorage.Aliasing.{holds_buffer}
use bennu.Value.{Value, VectorValue, vector_value, scalar_value, make_int_value}
use bennu.Resources.World.{Host, payload_address}
use bennu.Resources.Unaliasing.{HandsOutFree}
use bennu.Application.Context.{PrimitiveApplicationContext}
use bennu.Application.Elements.{Call}
use bennu.Application.Lifted.{call_of, apply_vector}
use bennu.Application.Apply.{apply_primitive}
use bennu.Application.Accounting.{Accounted, apply_primitive-Accounted}
use bennu.Application.Refunds.{Refused, Applied, CutShort, apply_vector-cases}
use bennu.Tests.Resources.{resources, world_with, held, world-SoundWorld, world-Unaliased}

-- An address above every block of the registry.
above : Registry → ℕ
above [] = 2048
above (r ∷ registry) = r.payload + above registry

abbrev host : Host
host = record {
  names = record { grants = λ bytes. true };
  malloc = λ registry bytes. some (above registry);
  header_size = 96;
  header_alignment = 1;
}

above-free :
    (registry : Registry) (address : ℕ)
    → above registry < address
    → holds_buffer registry address ≡ false
unfolding above holds_buffer
above-free [] address h = refl
above-free (r ∷ registry) address h = ground (arith, above-free registry address (omega (arith, h)))

host-HandsOutFree : HandsOutFree host
unfolding HandsOutFree
host-HandsOutFree registry bytes address e =
    above-free registry (payload_address host address) (ground (arith, e))

abbrev add_descriptor : PrimitiveDescriptor
add_descriptor = record {
  id = Types.add;
  name = codes "add";
  lifting = Types.elementwise;
  signatures = add_signatures;
}

abbrev add_int : PrimitiveSignature
add_int = record {
  parameters = int_parameters;
  result = scalar_int;
  implementation = Types.add_integer;
  address = 2;
}

-- The vector of 7 and the greatest Int, on the buffer of the owner.
abbrev two : VectorValue
two = record {
  element_type = integer;
  storage = 512;
  elements = make_int_value (pos 7) ∷ make_int_value int64_max ∷ [];
  canonical_bytes = 16;
  accounting_active = true;
  accounting_owner = 1;
  allocation_ordinal = some 0;
}

abbrev arguments : List Value
arguments = vector_value two ∷ scalar_value (make_int_value (pos 1)) ∷ []

abbrev unit : FloatingPointUnit
unit = record { run = λ operation left right. left }

abbrev context : PrimitiveApplicationContext
context = record {
  unit = unit;
  host = host;
  resources = resources;
  world = world_with (held 2 vector_payload);
  scalar_kernel_invocations = 5;
}

abbrev call : Call
call = call_of context add_descriptor add_int arguments start_location true

apply_primitive-Accounted_example :
    Accounted (apply_primitive context add_descriptor arguments start_location).world
apply_primitive-Accounted_example =
    apply_primitive-Accounted context add_descriptor arguments start_location host-HandsOutFree
      (world-SoundWorld 2 vector_payload, world-Unaliased 2 vector_payload)

apply_vector-cases_example :
    let result = apply_vector context call 2 in
    Refused context call 2 result ⊎ (Applied context call 2 result ⊎ CutShort context call 2 result)
apply_vector-cases_example = apply_vector-cases context call 2
