-- ===== src/Parser/Resolved.antt =====
-- The calls and the names after `resolve_rewrite_primitives` of src/rewrite.cpp.
use bennu.Prelude.{
  ◌≡◌, ◌≢◌, ◌⊎◌, inl, inr, Bool-cases, Option-cases, true, false, List, [], ◌∷◌, Option, none, some,
  Bytes, All, ◌==◌, bytes_eq, refl,
}
use bennu.Primitive.Types.{PrimitiveDescriptor}
use bennu.Primitive.Table.{find_primitive}
use bennu.Parser.Types.{
  RewriteProgram, RewriteNode, RewriteCall, RewriteDiagnostic, RewriteParameterDeclaration, push,
}
use bennu.Tokenizer.Types.{RewriteSpan}
use bennu.Parser.Spans.{span_spelling}
use bennu.Parser.Resolve.{
  resolve_calls, unresolved_nodes, assign_primitives, resolve_rewrite_primitives, is_unresolved,
  refused_declaration, declared_as, reserved,
}

-- The call names a primitive of the table and has its identifier.
abbrev pub Named : Bytes → RewriteCall → Type 0
Named source call =
    (d : PrimitiveDescriptor) × (find_primitive (span_spelling source call.name_span) ≡ some d)
    × (call.primitive ≡ some d.id)

abbrev pub Known : RewriteNode → Type 0
Known node = is_unresolved node.kind ≡ false

unknown_stays :
    (source : Bytes) (calls : List RewriteCall) (first : RewriteDiagnostic)
    → (resolve_calls source (some first) calls).unknown ≢ none
unfolding resolve_calls
unknown_stays source [] first e = absurd (cc e)
unknown_stays source (call ∷ calls) first e =
    elim (Option-cases (find_primitive (span_spelling source call.name_span))) [
      | inl missing ↦ unknown_stays source calls _ (rw (missing, resolve_calls) at e)
      | inr (d, found) ↦ unknown_stays source calls first (rw (found, resolve_calls) at e)
    ]

resolve_calls-Named :
    (source : Bytes) (calls : List RewriteCall)
    → (resolve_calls source none calls).unknown ≡ none
    → All (Named source) (assign_primitives calls (resolve_calls source none calls).resolved_ids)
unfolding resolve_calls assign_primitives
resolve_calls-Named source [] e = tt
resolve_calls-Named source (call ∷ calls) e =
    elim (Option-cases (find_primitive (span_spelling source call.name_span))) [
      | inl missing ↦ absurd (unknown_stays source calls _ (rw (missing, resolve_calls) at e))
      | inr (d, found) ↦
          rw (found, resolve_calls)
            ((d, found, refl), resolve_calls-Named source calls (rw (found, resolve_calls) at e))
    ]

unresolved_stays :
    (nodes : List RewriteNode) (first : RewriteDiagnostic)
    → unresolved_nodes (some first) nodes ≢ none
unfolding unresolved_nodes
unresolved_stays [] first e = absurd (cc e)
unresolved_stays (node ∷ nodes) first e = elim (Bool-cases (is_unresolved node.kind)) [
  | inl unknown ↦ unresolved_stays nodes _ (rw (unknown, unresolved_nodes) at e)
  | inr known ↦ unresolved_stays nodes first (rw (known, unresolved_nodes) at e)
]

unresolved_nodes-Known :
    (unknown : Option RewriteDiagnostic) (nodes : List RewriteNode)
    → unresolved_nodes unknown nodes ≡ none
    → (unknown ≡ none) × All Known nodes
unfolding unresolved_nodes
unresolved_nodes-Known unknown [] e = (e, tt)
unresolved_nodes-Known unknown (node ∷ nodes) e = elim (Bool-cases (is_unresolved node.kind)) [
  | inl unresolved ↦ absurd (unresolved_stays nodes _ (rw (unresolved, unresolved_nodes) at e))
  | inr known ↦
      let rest = unresolved_nodes-Known unknown nodes (rw (known, unresolved_nodes) at e) in
      (rest.0, (known, rest.1))
]

-- No earlier declaration has the name, and it is not reserved.
FreeName : List RewriteParameterDeclaration → RewriteParameterDeclaration → Type 0
FreeName earlier d =
    All (λ (e : RewriteParameterDeclaration). e.name ≢ d.name) earlier × (reserved d.name ≡ false)

-- So it is for each declaration after those before it.
unfoldable pub FreeNames :
    List RewriteParameterDeclaration → List RewriteParameterDeclaration → Type 0
unfolding FreeName
FreeNames earlier [] = Unit
FreeNames earlier (d ∷ declarations) = FreeName earlier d × FreeNames (push earlier d) declarations

declared_as-none :
    (earlier : List RewriteParameterDeclaration) (spelling : Bytes)
    → declared_as earlier spelling ≡ none
    → All (λ (e : RewriteParameterDeclaration). e.name ≢ spelling) earlier
unfolding declared_as
declared_as-none [] spelling e = tt
declared_as-none (d ∷ earlier) spelling e = elim (Bool-cases (d.name == spelling)) [
  | inl same ↦ absurd (cc (rw (same, declared_as) at e))
  | inr other ↦ (
    (λ equal. absurd (cc ((bytes_eq.test_iff d.name spelling).1 equal, other))),
    declared_as-none earlier spelling (rw (other, declared_as) at e),
  )
]

refused_declaration-FreeNames :
    (span : RewriteSpan) (earlier declarations : List RewriteParameterDeclaration)
    → refused_declaration span earlier declarations ≡ none
    → FreeNames earlier declarations
unfolding refused_declaration FreeNames FreeName
refused_declaration-FreeNames span earlier [] e = tt
refused_declaration-FreeNames span earlier (d ∷ declarations) e =
    elim (Option-cases (declared_as earlier d.name)) [
      | inr (first, found) ↦ absurd (cc (rw (found, refused_declaration) at e))
      | inl new ↦ elim (Bool-cases (reserved d.name)) [
        | inl taken ↦ absurd (cc (rw (new, taken, refused_declaration) at e))
        | inr free ↦ (
          (declared_as-none earlier d.name new, free),
          refused_declaration-FreeNames span (push earlier d) declarations
              (rw (new, free, refused_declaration) at e),
        )
      ]
    ]

-- The resolution is refused and leaves the program as it is, or it succeeds and then the parameters
-- have different names that are not reserved, each call has the identifier of the primitive of the
-- table that its text names, and no name is left unresolved.
pub resolve_rewrite_primitives-cases :
    (program : RewriteProgram)
    → let r = resolve_rewrite_primitives program in
      ((r.0.ok ≡ true)
        × FreeNames [] program.parameter_header.declarations
        × All (Named program.source) r.1.calls
        × All Known program.nodes)
      ⊎ ((r.0.ok ≡ false) × (r.1 ≡ program))
unfolding resolve_rewrite_primitives
resolve_rewrite_primitives-cases program =
    let header = program.parameter_header in
    let resolved = resolve_calls program.source none program.calls in
    elim (Option-cases (refused_declaration header.span [] header.declarations)) [
      | inr (diagnostic, refusal) ↦ inr (rw (refusal, resolve_rewrite_primitives) (refl, refl))
      | inl free ↦ elim (Option-cases (unresolved_nodes resolved.unknown program.nodes)) [
        | inr (diagnostic, unknown) ↦
            inr (rw (free, unknown, resolve_rewrite_primitives) (refl, refl))
        | inl known ↦
            let nodes = unresolved_nodes-Known resolved.unknown program.nodes known in
            inl (
              rw (free, known, resolve_rewrite_primitives)
                (
                  refl,
                  refused_declaration-FreeNames header.span [] header.declarations free,
                  resolve_calls-Named program.source program.calls nodes.0,
                  nodes.1,
                ))
      ]
    ]
