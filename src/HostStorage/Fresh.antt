-- ===== src/HostStorage/Fresh.antt =====
-- The addresses of the buffers after the operations of src/host_storage.cpp.
use bennu.Prelude.{
  ℕ, ◌≡◌, inl, inr, Bool-cases, Option-cases, false, ◌&&◌, ◌||◌, [], ◌∷◌, none, some, Option, ◌==◌,
  nat_eq, arith, refl, ◌∙◌,
}
use bennu.HostStorage.Registry.{
  purpose_eq, Registry, HostAllocationRecord, HostAllocationPurpose, SemanticMetadata,
  SemanticPurpose, buffer, register_host_allocation, remove_record, remove_host_allocation, bind_in,
  bind_semantic_host_buffer, consume_in, consume_semantic_host_buffer, is_record, no_semantic,
  binding_matches, semantic_eq,
}
use bennu.HostStorage.Aliasing.{Unaliased, holds_buffer}

pub register-Unaliased :
    (registry : Registry) (r : HostAllocationRecord) {registry' : Registry}
    → holds_buffer registry r.payload ≡ false
    → Unaliased registry
    → register_host_allocation registry r ≡ some registry'
    → Unaliased registry'
unfolding register_host_allocation Unaliased
register-Unaliased registry r {registry'} free u e =
    let shape : registry' ≡ record r { semantic = no_semantic } ∷ registry = ground (arith, e) in
    rw shape ((λ b. free), u)

bind_in-holds_buffer :
    (registry : Registry) (payload element_type : ℕ) (s : SemanticMetadata) (address : ℕ)
    {registry' : Registry}
    → bind_in registry payload element_type s ≡ some registry'
    → holds_buffer registry' address ≡ holds_buffer registry address
unfolding bind_in holds_buffer
bind_in-holds_buffer [] payload element_type s address e = cc
bind_in-holds_buffer (r ∷ registry) payload element_type s address {registry'} e =
    elim (Option-cases (bind_in registry payload element_type s)) [
      | inl none_e ↦ ground arith
      | inr (rest, rest_e) ↦
          ground (arith, bind_in-holds_buffer registry payload element_type s address rest_e)
    ]

bind_in-Unaliased :
    (registry : Registry) (payload element_type : ℕ) (s : SemanticMetadata) (registry' : Registry)
    → Unaliased registry
    → bind_in registry payload element_type s ≡ some registry'
    → Unaliased registry'
unfolding bind_in Unaliased
bind_in-Unaliased [] payload element_type s registry' u e = cc
bind_in-Unaliased (r ∷ registry) payload element_type s registry' u e =
    elim (Bool-cases (is_record payload buffer element_type r)) [
      | inl here ↦ elim (Bool-cases r.semantic.active) [
        | inl busy ↦ absurd (ground (arith, (rw (here, busy) at e)))
        | inr idle ↦
            let shape : registry' ≡ record r { semantic = s } ∷ registry =
              ground (arith, (rw (here, idle) at e)) in
            rw shape u
      ]
      | inr there ↦ elim (Option-cases (bind_in registry payload element_type s)) [
        | inl nothing ↦ absurd (ground (arith, (rw (there, nothing) at e)))
        | inr (rest, rest_e) ↦
            let shape : registry' ≡ r ∷ rest = ground (arith, (rw (there, rest_e) at e)) in
            rw shape (
              (λ b. bind_in-holds_buffer registry payload element_type s r.payload rest_e ∙ u.0 b),
              bind_in-Unaliased registry payload element_type s rest u.1 rest_e,
            )
      ]
    ]

pub bind-Unaliased :
    (registry : Registry) (payload element_type owner bytes ordinal : ℕ) (purpose : SemanticPurpose)
    (registry' : Registry)
    → Unaliased registry
    → bind_semantic_host_buffer registry payload element_type owner bytes ordinal purpose
      ≡ some registry'
    → Unaliased registry'
unfolding bind_semantic_host_buffer
bind-Unaliased registry payload element_type owner bytes ordinal purpose registry' u e =
    elim (Bool-cases ((payload == 0) || ((element_type == 0) || (owner == 0)))) [
      | inl refused ↦ absurd (ground (arith, (rw refused at e)))
      | inr valid ↦ bind_in-Unaliased registry payload element_type _ registry' u (rw valid at e)
    ]

remove_record-absent_still :
    (registry : Registry) (payload : ℕ) (purpose : HostAllocationPurpose) (element_type address : ℕ)
    → holds_buffer registry address ≡ false
    → holds_buffer (remove_record registry payload purpose element_type).registry address ≡ false
unfolding remove_record holds_buffer
remove_record-absent_still [] payload purpose element_type address h = refl
remove_record-absent_still (r ∷ registry) payload purpose element_type address h =
    ground (arith, h, remove_record-absent_still registry payload purpose element_type address)

remove_record-Unaliased :
    (registry : Registry) (payload : ℕ) (purpose : HostAllocationPurpose) (element_type : ℕ)
    → Unaliased registry
    → Unaliased (remove_record registry payload purpose element_type).registry
unfolding remove_record Unaliased
remove_record-Unaliased [] payload purpose element_type u = tt
remove_record-Unaliased (r ∷ registry) payload purpose element_type u =
    elim (Bool-cases (is_record payload purpose element_type r)) [
      | inl here ↦ rw (here, remove_record) u.1
      | inr there ↦
          rw (there, remove_record)
            (
              (λ b.
                  remove_record-absent_still registry payload purpose element_type r.payload
                    (u.0 b)),
              remove_record-Unaliased registry payload purpose element_type u.1,
            )
    ]

pub remove_host_allocation-Unaliased :
    (registry : Registry) (payload : ℕ) (purpose : HostAllocationPurpose) (element_type : ℕ)
    → Unaliased registry
    → Unaliased (remove_host_allocation registry payload purpose element_type).registry
unfolding remove_host_allocation
remove_host_allocation-Unaliased registry payload purpose element_type u =
    elim (Bool-cases ((payload == 0) || (element_type == 0))) [
      | inl null ↦ rw (null, remove_host_allocation) u
      | inr held ↦
          rw (held, remove_host_allocation)
            (remove_record-Unaliased registry payload purpose element_type u)
    ]

consume_in-holds_buffer :
    (registry : Registry) (payload owner bytes ordinal : ℕ) (purpose : SemanticPurpose)
    (address : ℕ) {registry' : Registry}
    → consume_in registry payload owner bytes ordinal purpose ≡ some registry'
    → holds_buffer registry' address ≡ holds_buffer registry address
unfolding consume_in holds_buffer
consume_in-holds_buffer [] payload owner bytes ordinal purpose address e = cc
consume_in-holds_buffer (r ∷ registry) payload owner bytes ordinal purpose address {registry'} e =
    elim (Option-cases (consume_in registry payload owner bytes ordinal purpose)) [
      | inl none_e ↦ ground arith
      | inr (rest, rest_e) ↦ ground (
        arith,
        consume_in-holds_buffer registry payload owner bytes ordinal purpose address rest_e,
      )
    ]

consume_in-Unaliased :
    (registry : Registry) (payload owner bytes ordinal : ℕ) (purpose : SemanticPurpose)
    (registry' : Registry)
    → Unaliased registry
    → consume_in registry payload owner bytes ordinal purpose ≡ some registry'
    → Unaliased registry'
unfolding consume_in Unaliased
consume_in-Unaliased [] payload owner bytes ordinal purpose registry' u e = cc
consume_in-Unaliased (r ∷ registry) payload owner bytes ordinal purpose registry' u e =
    elim (Bool-cases (r.payload == payload && r.purpose == buffer)) [
      | inl here ↦ elim (Bool-cases (binding_matches r.semantic owner bytes ordinal purpose)) [
        | inr other ↦ absurd (ground (arith, (rw (here, other) at e)))
        | inl bound ↦
            let shape : registry'
                ≡ record r { semantic = record r.semantic { active = false } } ∷ registry =
              ground (arith, (rw (here, bound) at e)) in
            rw shape u
      ]
      | inr there ↦ elim (Option-cases (consume_in registry payload owner bytes ordinal purpose)) [
        | inl nothing ↦ absurd (ground (arith, (rw (there, nothing) at e)))
        | inr (rest, rest_e) ↦
            let shape : registry' ≡ r ∷ rest = ground (arith, (rw (there, rest_e) at e)) in
            rw shape (
              (λ b.
                  consume_in-holds_buffer registry payload owner bytes ordinal purpose r.payload
                    rest_e
                  ∙ u.0 b),
              consume_in-Unaliased registry payload owner bytes ordinal purpose rest u.1 rest_e,
            )
      ]
    ]

pub consume-Unaliased :
    (registry : Registry) (payload owner bytes : ℕ) (ordinal : Option ℕ) (purpose : SemanticPurpose)
    (registry' : Registry)
    → Unaliased registry
    → consume_semantic_host_buffer registry payload owner bytes ordinal purpose ≡ some registry'
    → Unaliased registry'
unfolding consume_semantic_host_buffer
consume-Unaliased registry payload owner bytes none purpose registry' u e = cc
consume-Unaliased registry payload owner bytes (some n) purpose registry' u e =
    elim (Bool-cases ((payload == 0) || (owner == 0))) [
      | inl refused ↦ absurd (ground (arith, (rw refused at e)))
      | inr valid ↦
          consume_in-Unaliased registry payload owner bytes n purpose registry' u (rw valid at e)
    ]
