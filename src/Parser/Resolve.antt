-- ===== src/Parser/Resolve.antt =====
-- `resolve_rewrite_primitives` of src/rewrite.cpp.
use bennu.Prelude.{
  Bool, true, false, ◌||◌, List, [], ◌∷◌, Option, none, some, Bytes, codes, if◌then◌else◌, ltb,
  ◌==◌, bytes_eq,
}
use bennu.Primitive.Types.{PrimitiveId, inc}
use bennu.Primitive.Table.{find_primitive}
use bennu.Tokenizer.Types.{RewriteSpan}
use bennu.Tokenizer.Scan.{start}
use bennu.Parser.Types.{
  RewriteProgram, RewriteNode, RewriteNodeKind, RewriteCall, RewriteDiagnostic,
  RewriteParameterDeclaration, unresolved_name, unknown_primitive, no_parse_error,
  duplicate_parameter_name, reserved_parameter_name, insertion_span, push,
}
use bennu.Parser.Spans.{span_spelling}

pub record RewriteResolutionResult : Type 0 where
  pub ok : Bool
  pub diagnostic : RewriteDiagnostic

abbrev pub unknown_at : RewriteSpan → RewriteSpan → RewriteSpan → RewriteDiagnostic
unknown_at primary context related = record {
  error = unknown_primitive;
  primary = primary;
  context = context;
  related = related;
  parameter_reason = none;
}

-- The first of the earlier declarations with the name.
unfoldable pub declared_as :
    List RewriteParameterDeclaration → Bytes → Option RewriteParameterDeclaration
declared_as [] spelling = none
declared_as (d ∷ earlier) spelling =
    if d.name == spelling then some d else declared_as earlier spelling

abbrev pub is_found {ℓ} : {A : Type ℓ} → Option A → Bool
is_found none = false
is_found (some a) = true

unfoldable pub reserved : Bytes → Bool
unfolding find_primitive
reserved spelling =
    (spelling == codes "parameters")
    || ((spelling == codes "fanout")
        || ((spelling == codes "true")
            || ((spelling == codes "false")
                || ((spelling == codes "inf")
                    || ((spelling == codes "nan") || is_found (find_primitive spelling))))))

-- The loop over the declarations, with those before and those to come.
unfoldable pub refused_declaration :
    RewriteSpan
    → List RewriteParameterDeclaration
    → List RewriteParameterDeclaration
    → Option RewriteDiagnostic
unfolding declared_as reserved
refused_declaration header_span earlier [] = none
refused_declaration header_span earlier (d ∷ declarations) =
    let rest = refused_declaration header_span (push earlier d) declarations in
    elim (declared_as earlier d.name) [
      | some first ↦ some (record (unknown_at d.name_span header_span first.name_span) {
        parameter_reason = some duplicate_parameter_name;
      })
      | none ↦
          if reserved d.name
          then some (record (unknown_at d.name_span header_span d.name_span) {
            parameter_reason = some reserved_parameter_name;
          })
          else rest
    ]

-- The one of two diagnostics that begins first.
unfoldable pub first_unknown : Option RewriteDiagnostic → RewriteDiagnostic → RewriteDiagnostic
first_unknown none diagnostic = diagnostic
first_unknown (some first) diagnostic =
    if ltb diagnostic.primary.begin.offset first.primary.begin.offset then diagnostic else first

-- What the loop over the calls finds: an identifier for each, and the first name that is unknown.
pub record ResolvedCalls : Type 0 where
  pub resolved_ids : List PrimitiveId
  pub unknown : Option RewriteDiagnostic

unfoldable pub resolve_calls : Bytes → Option RewriteDiagnostic → List RewriteCall → ResolvedCalls
unfolding find_primitive first_unknown span_spelling
resolve_calls source unknown [] = record { resolved_ids = []; unknown = unknown }
resolve_calls source unknown (call ∷ calls) =
    let here = unknown_at call.name_span call.span call.name_span in
    let known = resolve_calls source unknown calls in
    let missing = resolve_calls source (some (first_unknown unknown here)) calls in
    elim (find_primitive (span_spelling source call.name_span)) [
      | none ↦ record missing { resolved_ids = inc ∷ missing.resolved_ids }
      | some d ↦ record known { resolved_ids = d.id ∷ known.resolved_ids }
    ]

abbrev pub is_unresolved : RewriteNodeKind → Bool
is_unresolved unresolved_name = true
is_unresolved _ = false

-- The loop over the nodes.
unfoldable pub unresolved_nodes :
    Option RewriteDiagnostic → List RewriteNode → Option RewriteDiagnostic
unfolding first_unknown
unresolved_nodes unknown [] = unknown
unresolved_nodes unknown (node ∷ nodes) =
    let here = unknown_at node.span node.span node.span in
    if is_unresolved node.kind
    then unresolved_nodes (some (first_unknown unknown here)) nodes
    else unresolved_nodes unknown nodes

unfoldable pub assign_primitives : List RewriteCall → List PrimitiveId → List RewriteCall
assign_primitives (call ∷ calls) (id ∷ ids) =
    record call { primitive = some id } ∷ assign_primitives calls ids
assign_primitives calls _ = calls

abbrev pub resolution_ok : RewriteResolutionResult
resolution_ok = record {
  ok = true;
  diagnostic = record {
    error = no_parse_error;
    primary = insertion_span start;
    context = insertion_span start;
    related = insertion_span start;
    parameter_reason = none;
  };
}

abbrev pub resolution_failed : RewriteDiagnostic → RewriteResolutionResult
resolution_failed diagnostic = record { ok = false; diagnostic = diagnostic }

-- The result, with the program that it may change.
unfoldable pub resolve_rewrite_primitives :
    RewriteProgram → RewriteResolutionResult × RewriteProgram
unfolding refused_declaration resolve_calls unresolved_nodes assign_primitives insertion_span
resolve_rewrite_primitives program =
    let header = program.parameter_header in
    let resolved = resolve_calls program.source none program.calls in
    elim (refused_declaration header.span [] header.declarations) [
      | some diagnostic ↦ (resolution_failed diagnostic, program)
      | none ↦ elim (unresolved_nodes resolved.unknown program.nodes) [
        | some diagnostic ↦ (resolution_failed diagnostic, program)
        | none ↦ (
          resolution_ok,
          record program { calls = assign_primitives program.calls resolved.resolved_ids },
        )
      ]
    ]
