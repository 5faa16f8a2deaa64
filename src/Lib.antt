-- ===== src/Lib.antt =====
-- Bennu is a language of primitives on scalars and vectors, with an interpreter and a C emitter.
-- A source text is read by the tokenizer and the parser of src/rewrite.cpp, lowered and evaluated;
-- a primitive call selects one signature of a static table, by the types of its arguments, and runs
-- the scalar kernel of that signature on each element. Every buffer that an evaluation takes is
-- charged to an evaluation context and given back to it on release. This library models the
-- tokenizer, the parser, the resolution of names, the scalar and vector values, the types, the table
-- of primitives, the selection, the scalar kernels, the application of primitives to vectors, the evaluation contexts and the registry
-- of their buffers.
--
-- Parts:
--   * Prelude: shared names, lists and byte strings over native numbers, equality tests, integers
--     with the truncating division of C++ and the range of `std::int64_t`, bitwise operations.
--   * Scalar: `ScalarType` and `ScalarValue` of include/bennu/value.hpp; in Scalar/Binary64 the
--     tests on the bit patterns of doubles, `valid_scalar` and `strict_binary64_arithmetic` of
--     src/primitive.cpp and the normal form of NaN of src/value.cpp; in Scalar/Conversion
--     `int_to_binary64` and `convert_scalar`.
--   * Primitive: include/bennu/primitive.hpp, include/bennu/primitive_id.hpp and src/primitive.cpp.
--     Table holds the production table and `find_primitive`, Implementation
--     `implementation_matches`, Select `select_primitive_signature`, Ambiguity the search of
--     `has_ambiguous_assignment`, Validate `validate_primitive_table`, Integers the guards of the
--     Int kernels and Kernel `invoke_scalar_kernel`.
--   * Error: include/bennu/error.hpp and the constructors of src/error.cpp.
--   * HostStorage: the registry of allocations of src/host_storage.cpp. Registry holds the
--     operations, Accounts the bytes in use of an owner, Removed the removals, Aliasing and Fresh
--     the addresses.
--   * Value: vectors and values of include/bennu/value.hpp and their shape.
--   * Resources: include/bennu/resources.hpp and src/resources.cpp. World holds the states of the
--     owners and the tracked buffers, Admission `preflight` and the errors, Transaction the lock and
--     the write-back that all operations share, Work `charge_work` and the reservations, Vector
--     `allocate_vector` and the copies, Validate `validate_value` of src/value.cpp, Release the
--     releases, Context the creation, the move and the end of a context. Limits, Sound, Buffers,
--     Charges, Reservations, Releases, VectorReleases, Unaliasing, Allocated, Tracked, Refund and
--     Fresh hold proofs.
--   * Application: src/application.cpp. Errors holds the errors of arity and type, Elements the loop
--     over the elements, Structural `iota`, Lifted the branch of a lifted primitive and Apply
--     `apply_primitive` and `apply_typed_primitive`; Pointwise, Accounting and Refunds hold proofs.
--   * Tokenizer: src/rewrite.cpp from `RewritePosition` to `tokenize_rewrite`. Scan holds the
--     tokenizer, Grammar the grammars of numbers, Decimal the rounding of tiny numbers to zero.
--   * Parser: src/rewrite.cpp from `RewriteNodeKind` to `resolve_rewrite_primitives`. Vector holds
--     vector literals, Header the parameter header, Finish the ends of calls, tuples and fanouts,
--     Atoms and Closing the body of the loop of `parse_rewrite`, Loop the loop, Resolve the
--     resolution of names; Ends, Terminates, Ordered, Inside, Expressions, Arena, Safe, References,
--     Placeholders, Branches and Resolved hold proofs.
--   * TypeArena: include/bennu/type.hpp and src/type.cpp. Validate holds `validate_type`, Shape the
--     tree that an arena stands for, Equal `structural_type_equal`, Format `format_type`, Construct
--     `clone_type` and `make_tuple_type`, Arrays the pushes onto an array of the host. Postorder, Ends,
--     Accepted, Sizes, Counts, Tree, Same, Compared, Equality, Text, Pushed, Formatted, Printed,
--     Readable, Moved, Gathered, Built, Constructed and Cloned hold proofs.
--   * Tests: runs of the code, and each property at a concrete input.
--
-- How the code is modelled:
--   * A definition has the name of the function or the type that it models. A loop is a recursion
--     over the list that it walks, named for what it does; a `bool` with an output parameter is an
--     `Option`. An array with its count is a list, so the checks of null pointers and of counts
--     beyond the arrays have no counterpart.
--   * A double is its bit pattern, as the code reads it by `std::bit_cast`. The sums and products of
--     the floating-point unit, with the control word that the code sets around them, are a parameter
--     (`FloatingPointUnit`), as are the host's allocator (`HostAllocator`) and the conversion of a
--     decimal text to a double (`DoubleParser`).
--   * A signature has an `address`, since a kernel call tests by address that a signature belongs to
--     its descriptor.
--   * The tokenizer's loop has the length of the source as fuel: each pass reads a byte or more.
--   * The index of a token is the list of the tokens from it, and the linked list of the arguments
--     that a context of the parser waits for is a list. A pass of the parser's loop reads a token or
--     uses up a completed expression, so two passes for each token are enough fuel. The walk over a
--     branch of a fanout has the number of nodes as fuel, since it goes to nodes of the arena that
--     were made before.
--   * The walk of `validate_type` has the number of nodes and one more as fuel: it visits a node
--     once. What the host answers to its requests for arrays is a parameter (`HostAnswers`), and an
--     array of the host is a list. An operation that asks for several arrays, or runs a validation
--     first, reads the answers from the first request that is still to come. The comparison has the
--     number of left nodes as fuel, and the formatting the capacity of its stack: each pass uses up a
--     node, or an action of the stack.
--   * The states of all contexts and the registry are one `World`, which each operation takes and
--     returns. `malloc` and the layout of a buffer's header are a parameter (`Host`): it may answer
--     anything, and `HandsOutFree` says that it answers no address of a buffer in the registry.
--     Mutexes and pins have no counterpart, since an operation runs as one step.
--   * `std::size_t` counts are unbounded numbers; the bound below `size_max` on the number of
--     arguments is a hypothesis where the initial cost of the selection matters.
--
-- Not modelled: lowering and evaluation, the value arena with tuple tables and tuple
-- construction, and the observer of lifetimes, which are to follow; the text of the emitted C and its runtime, the command line, the native
-- builder, and the texts and source spans of errors.
pub mod Prelude
pub mod Scalar
pub mod Primitive
pub mod Error
pub mod HostStorage
pub mod Value
pub mod Resources
pub mod Application
pub mod Tokenizer
pub mod Parser
pub mod TypeArena
pub mod Tests
