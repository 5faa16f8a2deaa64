-- ===== src/HostStorage/Removed.antt =====
-- Which record `remove_host_allocation` of src/host_storage.cpp takes out of the registry.
use bennu.Prelude.{
  ℕ, ◌+◌, ◌≡◌, ◌≢◌, ◌⊎◌, inl, inr, refl, Bool-cases, true, false, ◌||◌, [], ◌∷◌, ◌++◌, none, some,
  All, ◌==◌, nat_eq, arith,
}
use bennu.HostStorage.Registry.{
  purpose_eq, HostAllocationRecord, HostAllocationPurpose, Registry, Removal, is_record,
  remove_record, remove_host_allocation,
}
use bennu.HostStorage.Accounts.{active_bytes, refund_of, remove_host_allocation-active_bytes}

-- The record of an allocation: its address, its purpose and the type of its elements.
pub record IsOf (payload : ℕ) (purpose : HostAllocationPurpose) (element_type : ℕ)
    (r : HostAllocationRecord) : Type 0 where
  pub same_payload : r.payload ≡ payload
  pub same_purpose : r.purpose ≡ purpose
  pub same_element_type : r.element_type ≡ element_type

-- The removal takes out the first record of the allocation and leaves the others in their order; or
-- the registry has no record of it.
abbrev pub Removes : Registry → ℕ → HostAllocationPurpose → ℕ → Removal → Type 0
Removes registry payload purpose element_type removal =
    ((r : HostAllocationRecord) × (before : Registry) × (after : Registry) × (removal.removed
        ≡ some r)
      × (registry ≡ before ++ (r ∷ after))
      × (removal.registry ≡ before ++ after)
      × IsOf payload purpose element_type r
      × All (λ e. ¬ IsOf payload purpose element_type e) before)
    ⊎ ((removal.removed ≡ none)
        × (removal.registry ≡ registry)
        × All (λ e. ¬ IsOf payload purpose element_type e) registry)

is_record-IsOf :
    (payload : ℕ) (purpose : HostAllocationPurpose) (element_type : ℕ) (r : HostAllocationRecord)
    → is_record payload purpose element_type r ≡ true
    → IsOf payload purpose element_type r
is_record-IsOf payload purpose element_type r h = record {
  same_payload = ground arith;
  same_purpose = ground (arith, purpose_eq.test_iff r.purpose purpose);
  same_element_type = ground arith;
}

is_record-others :
    (payload : ℕ) (purpose : HostAllocationPurpose) (element_type : ℕ) (r : HostAllocationRecord)
    → is_record payload purpose element_type r ≡ false
    → ¬ IsOf payload purpose element_type r
is_record-others payload purpose element_type r h same =
    let p = same.same_payload in
    let q = (purpose_eq.test_iff r.purpose purpose).1 same.same_purpose in
    let t = same.same_element_type in ground arith

remove_record-Removes :
    (registry : Registry) (payload : ℕ) (purpose : HostAllocationPurpose) (element_type : ℕ)
    → Removes registry payload purpose element_type
        (remove_record registry payload purpose element_type)
unfolding remove_record
remove_record-Removes [] payload purpose element_type = inr (refl, refl, tt)
remove_record-Removes (r ∷ registry) payload purpose element_type =
    elim (Bool-cases (is_record payload purpose element_type r)) [
      | inl here ↦
          let same = is_record-IsOf payload purpose element_type r here in
          inl (r, [], registry, ground arith, refl, ground arith, same, tt)
      | inr other ↦
          let differs = is_record-others payload purpose element_type r other in
          elim (remove_record-Removes registry payload purpose element_type) [
            | inl (found, before, after, removed, whole, left, same, others) ↦ inl (
              found,
              r ∷ before,
              after,
              ground arith,
              ground arith,
              ground arith,
              same,
              (differs, others),
            )
            | inr (removed, left, others) ↦ inr (ground arith, ground arith, (differs, others))
          ]
    ]

-- Removing an allocation takes the first record of that address, purpose and element type out of the
-- registry and leaves all others in their order; where the registry has no such record, or the
-- address or the element type is null, it stays as it is. In every case each owner's bytes in use
-- fall by exactly the amount with which the removal calls that owner back.
pub remove_host_allocation-Removes :
    (registry : Registry) (payload : ℕ) (purpose : HostAllocationPurpose) (element_type token : ℕ)
    → let removal = remove_host_allocation registry payload purpose element_type in
      (((payload ≢ 0) × (element_type ≢ 0) × Removes registry payload purpose element_type removal)
        ⊎ (((payload ≡ 0) ⊎ (element_type ≡ 0))
            × (removal ≡ record { removed = none; registry = registry })))
      × (active_bytes token removal.registry + refund_of token removal.removed
          ≡ active_bytes token registry)
unfolding remove_host_allocation
remove_host_allocation-Removes registry payload purpose element_type token = (
  elim (Bool-cases ((payload == 0) || (element_type == 0))) [
    | inl null ↦ inr (ground arith, rw (remove_host_allocation, null) refl)
    | inr valid ↦ inl (
      λ p. ground arith,
      λ t. ground arith,
      rw (remove_host_allocation, valid)
          (remove_record-Removes registry payload purpose element_type),
    )
  ],
  remove_host_allocation-active_bytes registry payload purpose element_type token,
)
