-- ===== src/HostStorage/Registry.antt =====
-- The operations of src/host_storage.cpp. An address is a number, and 0 the null pointer. The
-- buckets are one list: all records of an address are in one bucket, so a search finds the same
-- record. The callback of a buffer is always `release_abandoned_semantic_allocation` of
-- src/resources.cpp, and its arguments are returned where the source calls it.
use bennu.Prelude.{
  ℕ, ◌+◌, ◌-◌, Bool, true, false, not, ◌&&◌, ◌||◌, List, [], ◌∷◌, Option, none, some, ltb,
  if◌then◌else◌, ◌==◌, nat_eq, Eq, ◌≡◌, ◌↔◌, arith,
}

pub data HostResourceErrorReason : Type 0 where
  no_failure size_overflow allocation_unavailable : HostResourceErrorReason

pub data HostAllocationPurpose : Type 0 where
  array buffer : HostAllocationPurpose

pub data SemanticPurpose : Type 0 where
  vector_payload tuple_table workspace : SemanticPurpose

abbrev pub same_purpose : HostAllocationPurpose → HostAllocationPurpose → Bool
same_purpose array array = true
same_purpose buffer buffer = true
same_purpose _ _ = false

pub same_purpose_iff : (a b : HostAllocationPurpose) → (same_purpose a b ≡ true) ↔ (a ≡ b)
same_purpose_iff a b = ground arith

instance abbrev pub purpose_eq : Eq HostAllocationPurpose
purpose_eq = record { test = same_purpose; test_iff = same_purpose_iff }

abbrev pub same_semantic : SemanticPurpose → SemanticPurpose → Bool
same_semantic vector_payload vector_payload = true
same_semantic tuple_table tuple_table = true
same_semantic workspace workspace = true
same_semantic _ _ = false

pub same_semantic_iff : (a b : SemanticPurpose) → (same_semantic a b ≡ true) ↔ (a ≡ b)
same_semantic_iff a b = ground arith

instance abbrev pub semantic_eq : Eq SemanticPurpose
semantic_eq = record { test = same_semantic; test_iff = same_semantic_iff }

pub record SemanticMetadata : Type 0 where
  pub owner_token : ℕ
  pub canonical_bytes : ℕ
  pub allocation_ordinal : ℕ
  pub semantic_purpose : SemanticPurpose
  pub active : Bool

pub record HostAllocationRecord : Type 0 where
  pub allocation : ℕ
  pub payload : ℕ
  pub byte_count : ℕ
  pub purpose : HostAllocationPurpose
  pub element_type : ℕ
  pub constructed : ℕ
  pub capacity : ℕ
  pub semantic : SemanticMetadata

abbrev pub Registry : Type 0
Registry = List HostAllocationRecord

abbrev pub is_record : ℕ → HostAllocationPurpose → ℕ → HostAllocationRecord → Bool
is_record payload purpose element_type r =
    r.payload == payload && (r.purpose == purpose && r.element_type == element_type)

unfoldable pub find_host_allocation_unlocked :
    Registry → ℕ → HostAllocationPurpose → ℕ → Option HostAllocationRecord
find_host_allocation_unlocked [] payload purpose element_type = none
find_host_allocation_unlocked (r ∷ registry) payload purpose element_type =
    if is_record payload purpose element_type r
    then some r
    else find_host_allocation_unlocked registry payload purpose element_type

-- The snapshot of a record is the record.
unfoldable pub find_host_allocation :
    Registry → ℕ → HostAllocationPurpose → ℕ → Option HostAllocationRecord
unfolding find_host_allocation_unlocked
find_host_allocation registry payload purpose element_type =
    if (payload == 0) || (element_type == 0)
    then none
    else find_host_allocation_unlocked registry payload purpose element_type

abbrev pub no_semantic : SemanticMetadata
no_semantic = record {
  owner_token = 0;
  canonical_bytes = 0;
  allocation_ordinal = 0;
  semantic_purpose = workspace;
  active = false;
}

-- Nothing where the source returns false.
unfoldable pub register_host_allocation : Registry → HostAllocationRecord → Option Registry
unfolding find_host_allocation_unlocked
register_host_allocation registry r =
    if (r.allocation == 0) || ((r.payload == 0) || (r.element_type == 0))
    then none
    else elim (find_host_allocation_unlocked registry r.payload r.purpose r.element_type) [
      | some found ↦ none
      | none ↦ some (record r { semantic = no_semantic } ∷ registry)
    ]

-- The record that is removed, and the registry without it.
pub record Removal : Type 0 where
  pub removed : Option HostAllocationRecord
  pub registry : Registry

unfoldable pub remove_record : Registry → ℕ → HostAllocationPurpose → ℕ → Removal
remove_record [] payload purpose element_type = record { removed = none; registry = [] }
remove_record (r ∷ registry) payload purpose element_type =
    let rest = remove_record registry payload purpose element_type in
    if is_record payload purpose element_type r
    then record { removed = some r; registry = registry }
    else record rest { registry = r ∷ rest.registry }

unfoldable pub remove_host_allocation : Registry → ℕ → HostAllocationPurpose → ℕ → Removal
unfolding remove_record
remove_host_allocation registry payload purpose element_type =
    if (payload == 0) || (element_type == 0)
    then record { removed = none; registry = registry }
    else remove_record registry payload purpose element_type

-- The owner and the bytes with which the removal of a record calls back.
unfoldable pub abandoned : HostAllocationRecord → Option (ℕ × ℕ)
abandoned r =
    if r.purpose == buffer && r.semantic.active
    then some (r.semantic.owner_token, r.semantic.canonical_bytes)
    else none

unfoldable pub claim_record : HostAllocationRecord → ℕ → ℕ → ℕ → Option HostAllocationRecord
claim_record r expected_capacity current_size count =
    if not (r.capacity == expected_capacity)
      || (ltb r.constructed current_size || ltb (r.capacity - current_size) count)
    then none
    else if ltb r.constructed (current_size + count)
    then some (record r { constructed = current_size + count })
    else some r

unfoldable pub claim_in : Registry → ℕ → ℕ → ℕ → ℕ → ℕ → Option Registry
claim_in [] payload element_type expected_capacity current_size count = none
claim_in (r ∷ registry) payload element_type expected_capacity current_size count =
    let rest = claim_in registry payload element_type expected_capacity current_size count in
    if is_record payload array element_type r
    then elim (claim_record r expected_capacity current_size count) [
      | none ↦ none
      | some claimed ↦ some (claimed ∷ registry)
    ]
    else elim rest [ none ↦ none | some registry' ↦ some (r ∷ registry') ]

unfoldable pub claim_host_array_elements : Registry → ℕ → ℕ → ℕ → ℕ → ℕ → Option Registry
unfolding claim_in claim_record
claim_host_array_elements registry payload element_type expected_capacity current_size count =
    if (payload == 0) || (element_type == 0)
    then none
    else claim_in registry payload element_type expected_capacity current_size count

unfoldable pub bind_in : Registry → ℕ → ℕ → SemanticMetadata → Option Registry
bind_in [] payload element_type semantic = none
bind_in (r ∷ registry) payload element_type semantic =
    let rest = bind_in registry payload element_type semantic in
    if is_record payload buffer element_type r
    then (if r.semantic.active then none else some (record r { semantic = semantic } ∷ registry))
    else elim rest [ none ↦ none | some registry' ↦ some (r ∷ registry') ]

unfoldable pub bind_semantic_host_buffer :
    Registry → ℕ → ℕ → ℕ → ℕ → ℕ → SemanticPurpose → Option Registry
unfolding bind_in
bind_semantic_host_buffer registry payload element_type owner_token canonical_bytes ordinal
      purpose =
    if (payload == 0) || ((element_type == 0) || (owner_token == 0))
    then none
    else bind_in registry payload element_type (record {
      owner_token = owner_token;
      canonical_bytes = canonical_bytes;
      allocation_ordinal = ordinal;
      semantic_purpose = purpose;
      active = true;
    })

-- The test of a binding that `semantic_host_buffer_matches` and `consume_semantic_host_buffer` make.
unfoldable pub binding_matches : SemanticMetadata → ℕ → ℕ → ℕ → SemanticPurpose → Bool
binding_matches s owner_token canonical_bytes ordinal purpose =
    s.active
    && (s.owner_token == owner_token
        && (s.canonical_bytes == canonical_bytes
            && (s.allocation_ordinal == ordinal && s.semantic_purpose == purpose)))

unfoldable pub match_in : Registry → ℕ → ℕ → ℕ → ℕ → SemanticPurpose → Bool
match_in [] payload owner_token canonical_bytes ordinal purpose = false
match_in (r ∷ registry) payload owner_token canonical_bytes ordinal purpose =
    if r.payload == payload && r.purpose == buffer
    then binding_matches r.semantic owner_token canonical_bytes ordinal purpose
    else match_in registry payload owner_token canonical_bytes ordinal purpose

unfoldable pub semantic_host_buffer_matches :
    Registry → ℕ → ℕ → ℕ → Option ℕ → SemanticPurpose → Bool
unfolding match_in binding_matches
semantic_host_buffer_matches registry payload owner_token canonical_bytes ordinal purpose =
    elim ordinal [
      | none ↦ false
      | some n ↦
          if (payload == 0) || (owner_token == 0)
          then false
          else match_in registry payload owner_token canonical_bytes n purpose
    ]

unfoldable pub consume_in : Registry → ℕ → ℕ → ℕ → ℕ → SemanticPurpose → Option Registry
consume_in [] payload owner_token canonical_bytes ordinal purpose = none
consume_in (r ∷ registry) payload owner_token canonical_bytes ordinal purpose =
    let rest = consume_in registry payload owner_token canonical_bytes ordinal purpose in
    if r.payload == payload && r.purpose == buffer
    then (if binding_matches r.semantic owner_token canonical_bytes ordinal purpose
        then some (record r { semantic = record r.semantic { active = false } } ∷ registry)
        else none)
    else elim rest [ none ↦ none | some registry' ↦ some (r ∷ registry') ]

unfoldable pub consume_semantic_host_buffer :
    Registry → ℕ → ℕ → ℕ → Option ℕ → SemanticPurpose → Option Registry
unfolding consume_in binding_matches
consume_semantic_host_buffer registry payload owner_token canonical_bytes ordinal purpose =
    elim ordinal [
      | none ↦ none
      | some n ↦
          if (payload == 0) || (owner_token == 0)
          then none
          else consume_in registry payload owner_token canonical_bytes n purpose
    ]
