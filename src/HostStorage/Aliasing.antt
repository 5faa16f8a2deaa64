-- ===== src/HostStorage/Aliasing.antt =====
-- The addresses of the buffers in the registry of src/host_storage.cpp, and the consumption of a
-- binding.
use bennu.Prelude.{
  ℕ, ◌≡◌, inl, inr, ◌||◌, Option-cases, Bool-cases, Bool, false, ◌&&◌, [], ◌∷◌, Option, none, some,
  ◌==◌, nat_eq, arith, refl,
}
use bennu.HostStorage.Registry.{
  purpose_eq, semantic_eq, Registry, HostAllocationRecord, SemanticPurpose, buffer, remove_record,
  remove_host_allocation, abandoned, consume_in, consume_semantic_host_buffer, is_record,
}

-- Whether a buffer has the address.
unfoldable pub holds_buffer : Registry → ℕ → Bool
holds_buffer [] payload = false
holds_buffer (r ∷ registry) payload =
    (r.payload == payload && r.purpose == buffer) || holds_buffer registry payload

unfoldable pub Unaliased : Registry → Type 0
Unaliased [] = Unit
Unaliased (r ∷ registry) =
    (r.purpose ≡ buffer → holds_buffer registry r.payload ≡ false) × Unaliased registry

-- A record that calls nobody back, if it is one.
abbrev pub Quiet : Option HostAllocationRecord → Type 0
Quiet none = Unit
Quiet (some r) = abandoned r ≡ none

remove_record-absent :
    (registry : Registry) (payload element_type : ℕ)
    → holds_buffer registry payload ≡ false
    → (remove_record registry payload buffer element_type).removed ≡ none
unfolding remove_record holds_buffer
remove_record-absent [] payload element_type h = refl
remove_record-absent (r ∷ registry) payload element_type h =
    ground (arith, h, remove_record-absent registry payload element_type)

consume_in-Quiet :
    (registry : Registry) (payload owner bytes ordinal : ℕ) (purpose : SemanticPurpose)
    (element_type : ℕ) (registry' : Registry)
    → Unaliased registry
    → consume_in registry payload owner bytes ordinal purpose ≡ some registry'
    → Quiet (remove_record registry' payload buffer element_type).removed
unfolding consume_in remove_record holds_buffer Unaliased abandoned
consume_in-Quiet [] payload owner bytes ordinal purpose element_type registry' u e = cc
consume_in-Quiet (r ∷ registry) payload owner bytes ordinal purpose element_type registry' u e =
    elim (Bool-cases (r.payload == payload && r.purpose == buffer)) [
      | inl here ↦
          let consumed : HostAllocationRecord = record r {
            semantic = record r.semantic { active = false };
          } in
          let shape : registry' ≡ consumed ∷ registry = ground (arith, (rw here at e)) in
          let is_buffer : r.purpose ≡ buffer = ground (arith, here) in
          let address : r.payload ≡ payload = ground (arith, here) in
          let absent =
            remove_record-absent registry payload element_type (rw address at (u.0 is_buffer)) in
          elim (Bool-cases (is_record payload buffer element_type r)) [
            | inl found ↦ rw (shape, found) (ground arith)
            | inr missing ↦ rw (shape, missing, absent) tt
          ]
      | inr there ↦ elim (Option-cases (consume_in registry payload owner bytes ordinal purpose)) [
        | inl nothing ↦ absurd (ground (arith, (rw (there, nothing) at e)))
        | inr (rest, rest_e) ↦
            let ih =
              consume_in-Quiet registry payload owner bytes ordinal purpose element_type rest u.1
                rest_e in
            let shape : registry' ≡ r ∷ rest = ground (arith, (rw (there, rest_e) at e)) in
            let other : is_record payload buffer element_type r ≡ false = ground (arith, there) in
            rw (shape, other) ih
      ]
    ]

pub consume-Quiet :
    (registry : Registry) (payload owner bytes : ℕ) (ordinal : Option ℕ) (purpose : SemanticPurpose)
    (element_type : ℕ) (registry' : Registry)
    → Unaliased registry
    → consume_semantic_host_buffer registry payload owner bytes ordinal purpose ≡ some registry'
    → Quiet (remove_host_allocation registry' payload buffer element_type).removed
unfolding consume_semantic_host_buffer remove_host_allocation
consume-Quiet registry payload owner bytes none purpose element_type registry' u e = cc
consume-Quiet registry payload owner bytes (some n) purpose element_type registry' u e =
    elim (Bool-cases ((payload == 0) || (owner == 0))) [
      | inl refused ↦ absurd (ground (arith, (rw refused at e)))
      | inr valid ↦ elim (Bool-cases ((payload == 0) || (element_type == 0))) [
        | inl null ↦ rw (null, remove_host_allocation) tt
        | inr held ↦
            rw (held, remove_host_allocation)
              (consume_in-Quiet registry payload owner bytes n purpose element_type registry' u
                (rw valid at e))
      ]
    ]
