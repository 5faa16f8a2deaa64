-- ===== src/TypeArena/Types.antt =====
-- The types of include/bennu/type.hpp, and the leaves of src/type.cpp. Enumerations hold their
-- enumerators only, so the refusals of other values have no counterpart.
use bennu.Prelude.{ℕ, Bool, true, false, List, [], ◌∷◌, Option, none, some, ◌≡◌, ◌↔◌, arith, Eq}
use bennu.Scalar.Types.{ScalarType}
use bennu.HostStorage.Registry.{HostResourceErrorReason, no_failure}

pub data TypeKind : Type 0 where
  scalar vector tuple : TypeKind

abbrev pub same_type_kind : TypeKind → TypeKind → Bool
same_type_kind scalar scalar = true
same_type_kind vector vector = true
same_type_kind tuple tuple = true
same_type_kind _ _ = false

pub same_type_kind_iff : (a b : TypeKind) → (same_type_kind a b ≡ true) ↔ (a ≡ b)
same_type_kind_iff a b = ground arith

instance abbrev pub type_kind_eq : Eq TypeKind
type_kind_eq = record { test = same_type_kind; test_iff = same_type_kind_iff }

pub record TypeNode : Type 0 where
  pub kind : TypeKind
  pub element : ScalarType
  pub first_child : ℕ
  pub child_count : ℕ

pub record TypeArena : Type 0 where
  pub nodes : List TypeNode
  pub child_indexes : List ℕ
  pub root_index : ℕ
  pub inline_leaf : Option TypeNode

pub data TypeInvariant : Type 0 where
  no_violation invalid_type_root nonfinal_type_root inactive_type_field : TypeInvariant
  invalid_tuple_range overlapping_tuple_range invalid_tuple_child_index : TypeInvariant
  non_postorder_tuple_child aliased_tuple_child orphan_type_node orphan_tuple_edge : TypeInvariant

pub record TypeValidationResult : Type 0 where
  pub ok : Bool
  pub invariant : TypeInvariant
  pub node_index : ℕ
  pub edge_index : ℕ
  pub resource_error : HostResourceErrorReason

unfoldable pub type_nodes : TypeArena → List TypeNode
type_nodes type = elim type.inline_leaf [ some leaf ↦ leaf ∷ [] | none ↦ type.nodes ]

unfoldable pub valid_type : TypeValidationResult
valid_type = record {
  ok = true;
  invariant = no_violation;
  node_index = 0;
  edge_index = 0;
  resource_error = no_failure;
}

unfoldable pub invalid_type : TypeInvariant → ℕ → ℕ → TypeValidationResult
invalid_type invariant node_index edge_index = record {
  ok = false;
  invariant = invariant;
  node_index = node_index;
  edge_index = edge_index;
  resource_error = no_failure;
}

unfoldable pub type_resource_failure : HostResourceErrorReason → TypeValidationResult
type_resource_failure reason = record {
  ok = false;
  invariant = no_violation;
  node_index = 0;
  edge_index = 0;
  resource_error = reason;
}

unfoldable pub make_leaf_type : TypeKind → ScalarType → TypeArena
make_leaf_type kind element = record {
  nodes = [];
  child_indexes = [];
  root_index = 0;
  inline_leaf = some (record { kind = kind; element = element; first_child = 0; child_count = 0 });
}

unfoldable pub make_scalar_type : ScalarType → TypeArena
unfolding make_leaf_type
make_scalar_type type = make_leaf_type scalar type

unfoldable pub make_vector_type : ScalarType → TypeArena
unfolding make_leaf_type
make_vector_type element_type = make_leaf_type vector element_type
