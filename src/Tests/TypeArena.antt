-- ===== src/Tests/TypeArena.antt =====
-- Types in the arena of src/type.cpp.
use bennu.Prelude.{◌↔◌, true, ◌+◌, ◌≡◌, refl, [], ◌∷◌, none, some, length, List, codes, false}
use bennu.Scalar.Types.{boolean, integer}
use bennu.HostStorage.Registry.{no_failure}
use bennu.TypeArena.Types.{
  TypeArena, scalar, vector, tuple, type_nodes, TypeValidationResult, valid_type, make_vector_type,
  make_scalar_type, non_postorder_tuple_child, invalid_type,
}
use bennu.TypeArena.Validate.{
  HostAnswers, read, write, fill, claim_children, push_children, visit_leaf, visit_tuple,
  visit_node, walk_types, first_unset, find_orphans, request, first_failure, allocate_walk,
  validate_type,
}
use bennu.TypeArena.Ends.{validate_type-IsSome}
use bennu.TypeArena.Tree.{IsTree, validate_type-IsTree}
use bennu.TypeArena.Shape.{size, type_shape}
use bennu.TypeArena.Sizes.{validate_type-size}
use bennu.TypeArena.Equal.{
  TypeEqualityResult, equality_result, push_pairs, compare_nodes, compare_types, compare_accepted,
  validation_requests, structural_type_equal,
}
use bennu.TypeArena.Arrays.{push_all}
use bennu.TypeArena.Equality.{Says, structural_type_equal-Says}
use bennu.TypeArena.Format.{
  TypeFormattingResult, formatted_type, scalar_type_name, append_text, push_action, push_elements,
  format_scalar, format_vector, format_tuple, format_action, format_actions, capacities_overflow,
  format_accepted, format_type,
}
use bennu.TypeArena.Construct.{
  TypeConstructionResult, constructed_type, measure_elements, moved_node, gather_element,
  gather_elements, close_tuple, allocate_tuple, build_tuple, make_tuple_type, clone_type,
}
use bennu.TypeArena.Constructed.{Builds, make_tuple_type-Builds}
use bennu.TypeArena.Cloned.{Copies, clone_type-Copies}
use bennu.TypeArena.Readable.{structural_type_equal-format_type}
use bennu.TypeArena.Printed.{Prints, format_type-Prints}

abbrev grants_all : HostAnswers
grants_all = λ ordinal count. no_failure

-- The tuple of an Int and a vector of Bool.
abbrev pair : TypeArena
pair = record {
  nodes =
      record { kind = scalar; element = integer; first_child = 0; child_count = 0 }
      ∷ record { kind = vector; element = boolean; first_child = 0; child_count = 0 }
      ∷ record { kind = tuple; element = boolean; first_child = 0; child_count = 2 }
      ∷ [];
  child_indexes = 0 ∷ 1 ∷ [];
  root_index = 2;
  inline_leaf = none;
}

-- A tuple that is its own child.
abbrev knot : TypeArena
knot = record {
  nodes = record { kind = tuple; element = boolean; first_child = 0; child_count = 1 } ∷ [];
  child_indexes = 0 ∷ [];
  root_index = 0;
  inline_leaf = none;
}

pair_accepted : validate_type grants_all pair ≡ some valid_type
unfolding validate_type walk_types visit_node visit_leaf visit_tuple claim_children push_children
    find_orphans first_unset allocate_walk request first_failure read write fill type_nodes
pair_accepted = refl

knot_refused : validate_type grants_all knot ≡ some (invalid_type non_postorder_tuple_child 0 0)
unfolding validate_type walk_types visit_node visit_leaf visit_tuple claim_children push_children
    find_orphans first_unset allocate_walk request first_failure read write fill type_nodes
knot_refused = refl

leaf_accepted : validate_type grants_all (make_vector_type integer) ≡ some valid_type
unfolding validate_type walk_types visit_node visit_leaf visit_tuple claim_children push_children
    find_orphans first_unset allocate_walk request first_failure read write fill type_nodes
    make_vector_type
leaf_accepted = refl

validate_type-IsTree_example : IsTree pair
unfolding valid_type
validate_type-IsTree_example = validate_type-IsTree grants_all pair valid_type pair_accepted refl

validate_type-IsSome_example : (r : TypeValidationResult) × (validate_type grants_all knot ≡ some r)
validate_type-IsSome_example = validate_type-IsSome grants_all knot

pair_printed :
    format_type grants_all pair ≡ some (formatted_type (codes "Tuple<Int, Vector<Bool>>"))
unfolding format_type format_accepted format_actions format_action format_scalar format_vector
    format_tuple push_elements push_action append_text push_all scalar_type_name capacities_overflow
    formatted_type validate_type walk_types visit_node visit_leaf visit_tuple claim_children
    push_children find_orphans first_unset allocate_walk request first_failure read write fill
    type_nodes valid_type validation_requests
pair_printed = refl

pair_differs :
    structural_type_equal grants_all pair (make_vector_type integer) ≡ some (equality_result false)
unfolding structural_type_equal compare_accepted compare_types compare_nodes push_pairs
    equality_result validate_type walk_types visit_node visit_leaf visit_tuple claim_children
    push_children find_orphans first_unset allocate_walk request first_failure read write fill
    type_nodes make_vector_type valid_type validation_requests
pair_differs = refl

validate_type-size_example :
    (size (type_shape pair) ≡ length (type_nodes pair))
    × (length pair.child_indexes + 1 ≡ length (type_nodes pair))
unfolding valid_type
validate_type-size_example = validate_type-size grants_all pair valid_type pair_accepted refl

structural_type_equal-Says_example :
    (r : TypeEqualityResult) × (structural_type_equal grants_all pair pair ≡ some r)
    × Says grants_all pair pair r
structural_type_equal-Says_example = structural_type_equal-Says grants_all pair pair

format_type-Prints_example :
    (v : TypeFormattingResult) × (format_type grants_all pair ≡ some v) × Prints grants_all pair v
format_type-Prints_example = format_type-Prints grants_all pair

abbrev pair_elements : List TypeArena
pair_elements = make_scalar_type integer ∷ make_vector_type boolean ∷ []

pair_built : make_tuple_type grants_all pair_elements ≡ some (constructed_type pair)
unfolding make_tuple_type measure_elements build_tuple gather_elements gather_element close_tuple
    allocate_tuple push_all moved_node constructed_type validate_type walk_types visit_node
    visit_leaf visit_tuple claim_children push_children find_orphans first_unset allocate_walk
    request first_failure read write fill type_nodes make_vector_type make_scalar_type valid_type
    validation_requests
pair_built = refl

make_tuple_type-Builds_example :
    (v : TypeConstructionResult) × (make_tuple_type grants_all pair_elements ≡ some v)
    × Builds grants_all pair_elements v
make_tuple_type-Builds_example = make_tuple_type-Builds grants_all pair_elements

clone_type-Copies_example :
    (v : TypeConstructionResult) × (clone_type grants_all pair ≡ some v) × Copies grants_all pair v
clone_type-Copies_example = clone_type-Copies grants_all pair

abbrev printed_pair : TypeFormattingResult
printed_pair = formatted_type (codes "Tuple<Int, Vector<Bool>>")

abbrev printed_leaf : TypeFormattingResult
printed_leaf = formatted_type (codes "Vector<Int>")

leaf_printed : format_type grants_all (make_vector_type integer) ≡ some printed_leaf
unfolding format_type format_accepted format_actions format_action format_scalar format_vector
    format_tuple push_elements push_action append_text push_all scalar_type_name capacities_overflow
    formatted_type validate_type walk_types visit_node visit_leaf visit_tuple claim_children
    push_children find_orphans first_unset allocate_walk request first_failure read write fill
    type_nodes valid_type validation_requests make_vector_type
leaf_printed = refl

structural_type_equal-format_type_example :
    ((equality_result false).equal ≡ true) ↔ (printed_pair.formatted ≡ printed_leaf.formatted)
unfolding formatted_type equality_result
structural_type_equal-format_type_example =
    structural_type_equal-format_type grants_all grants_all grants_all pair
      (make_vector_type integer) printed_pair printed_leaf (equality_result false) pair_printed refl
      leaf_printed refl pair_differs refl
