-- ===== src/HostStorage/Accounts.antt =====
-- The bytes that an owner has in use, and what each operation of src/host_storage.cpp does to them.
use bennu.Prelude.{
  ℕ, ◌+◌, ◌≡◌, inl, inr, ◌||◌, Option-cases, Bool-cases, true, ◌&&◌, [], ◌∷◌, Option, none, some,
  if◌then◌else◌, ◌==◌, nat_eq, arith, refl,
}
use bennu.HostStorage.Registry.{
  purpose_eq, semantic_eq, Registry, HostAllocationRecord, SemanticMetadata, SemanticPurpose,
  HostAllocationPurpose, buffer, register_host_allocation, remove_record, remove_host_allocation,
  abandoned, bind_in, bind_semantic_host_buffer, consume_in, consume_semantic_host_buffer,
  binding_matches,
}

-- The bytes of one record that count for the owner.
unfoldable pub bytes_of : ℕ → HostAllocationRecord → ℕ
bytes_of token r =
    if r.purpose == buffer && (r.semantic.active && r.semantic.owner_token == token)
    then r.semantic.canonical_bytes
    else 0

unfoldable pub active_bytes : ℕ → Registry → ℕ
active_bytes token [] = 0
active_bytes token (r ∷ registry) = bytes_of token r + active_bytes token registry

-- The charge of an owner's bytes, read for another owner.
abbrev pub share : ℕ → ℕ → ℕ → ℕ
share token owner_token bytes = if owner_token == token then bytes else 0

bind_in-active_bytes :
    (registry : Registry) (payload element_type : ℕ) (s : SemanticMetadata) (token : ℕ)
    {registry' : Registry}
    → s.active ≡ true
    → bind_in registry payload element_type s ≡ some registry'
    → active_bytes token registry'
      ≡ active_bytes token registry + share token s.owner_token s.canonical_bytes
unfolding bind_in active_bytes bytes_of
bind_in-active_bytes [] payload element_type s token on e = cc
bind_in-active_bytes (r ∷ registry) payload element_type s token {registry'} on e =
    elim (Option-cases (bind_in registry payload element_type s)) [
      | inl none_e ↦ ground arith
      | inr (rest, rest_e) ↦
          ground (arith, bind_in-active_bytes registry payload element_type s token on rest_e)
    ]

pub bind-active_bytes :
    (registry : Registry) (payload element_type owner bytes ordinal : ℕ) (purpose : SemanticPurpose)
    (token : ℕ) {registry' : Registry}
    → bind_semantic_host_buffer registry payload element_type owner bytes ordinal purpose
      ≡ some registry'
    → active_bytes token registry' ≡ active_bytes token registry + share token owner bytes
unfolding bind_semantic_host_buffer
bind-active_bytes registry payload element_type owner bytes ordinal purpose token {registry'} e =
    elim (Bool-cases ((payload == 0) || ((element_type == 0) || (owner == 0)))) [
      | inl refused ↦ absurd (ground (arith, (rw refused at e)))
      | inr valid ↦ bind_in-active_bytes registry payload element_type _ token refl (rw valid at e)
    ]

consume_in-active_bytes :
    (registry : Registry) (payload owner bytes ordinal : ℕ) (purpose : SemanticPurpose) (token : ℕ)
    {registry' : Registry}
    → consume_in registry payload owner bytes ordinal purpose ≡ some registry'
    → active_bytes token registry' + share token owner bytes ≡ active_bytes token registry
unfolding consume_in binding_matches active_bytes bytes_of
consume_in-active_bytes [] payload owner bytes ordinal purpose token e = cc
consume_in-active_bytes (r ∷ registry) payload owner bytes ordinal purpose token {registry'} e =
    elim (Option-cases (consume_in registry payload owner bytes ordinal purpose)) [
      | inl none_e ↦ ground arith
      | inr (rest, rest_e) ↦
          ground (
            arith,
            consume_in-active_bytes registry payload owner bytes ordinal purpose token rest_e,
          )
    ]

pub consume-active_bytes :
    (registry : Registry) (payload owner bytes : ℕ) (ordinal : Option ℕ) (purpose : SemanticPurpose)
    (token : ℕ) {registry' : Registry}
    → consume_semantic_host_buffer registry payload owner bytes ordinal purpose ≡ some registry'
    → active_bytes token registry' + share token owner bytes ≡ active_bytes token registry
unfolding consume_semantic_host_buffer
consume-active_bytes registry payload owner bytes none purpose token e = cc
consume-active_bytes registry payload owner bytes (some n) purpose token {registry'} e =
    elim (Bool-cases ((payload == 0) || (owner == 0))) [
      | inl refused ↦ absurd (ground (arith, (rw refused at e)))
      | inr valid ↦
          consume_in-active_bytes registry payload owner bytes n purpose token (rw valid at e)
    ]

pub register-active_bytes :
    (registry : Registry) (r : HostAllocationRecord) (token : ℕ) {registry' : Registry}
    → register_host_allocation registry r ≡ some registry'
    → active_bytes token registry' ≡ active_bytes token registry
unfolding register_host_allocation active_bytes bytes_of
register-active_bytes registry r token e = ground arith

-- What the removal of a record calls back with.
abbrev pub refund_of : ℕ → Option HostAllocationRecord → ℕ
refund_of token none = 0
refund_of token (some r) = elim (abandoned r) [
  | none ↦ 0
  | some (owner, bytes) ↦ share token owner bytes
]

remove_record-active_bytes :
    (registry : Registry) (payload : ℕ) (purpose : HostAllocationPurpose) (element_type token : ℕ)
    → let removal = remove_record registry payload purpose element_type in
      active_bytes token removal.registry + refund_of token removal.removed
      ≡ active_bytes token registry
unfolding remove_record active_bytes bytes_of abandoned
remove_record-active_bytes [] payload purpose element_type token = refl
remove_record-active_bytes (r ∷ registry) payload purpose element_type token =
    ground (arith, remove_record-active_bytes registry payload purpose element_type token)

-- Removing an allocation takes from its owner's bytes in use exactly the amount with which the
-- removal calls the owner back, for every owner.
pub remove_host_allocation-active_bytes :
    (registry : Registry) (payload : ℕ) (purpose : HostAllocationPurpose) (element_type token : ℕ)
    → let removal = remove_host_allocation registry payload purpose element_type in
      active_bytes token removal.registry + refund_of token removal.removed
      ≡ active_bytes token registry
unfolding remove_host_allocation
remove_host_allocation-active_bytes registry payload purpose element_type token =
    ground (arith, remove_record-active_bytes registry payload purpose element_type token)
