-- ===== src/Resources/VectorReleases.antt =====
-- The invariant of the contexts in `release_vector_reservation` of src/resources.cpp.
use bennu.Prelude.{
  ℕ, ◌+◌, ◌*◌, ◌/◌, ◌≤◌, ◌≡◌, inl, inr, true, false, Option, none, some, Option-cases, Bool-cases,
  not, ◌&&◌, ◌==◌, nat_eq, bool_eq, arith, refl, sym, ◌∙◌, ltb, leb, length,
}
use bennu.Primitive.Select.{size_max}
use bennu.Scalar.Types.{ScalarType, boolean, integer, double_precision}
use bennu.HostStorage.Registry.{Registry, consume_semantic_host_buffer, vector_payload}
use bennu.HostStorage.Accounts.{active_bytes, share, consume-active_bytes}
use bennu.HostStorage.Aliasing.{Unaliased, consume-Quiet}
use bennu.Value.{
  VectorValue, Value, scalar_value, vector_value, element_width, element_identity, is_valid,
  is_valid_lem, no_violation,
}
use bennu.Resources.Types.{EvaluationResources, EvaluationResourceState}
use bennu.Resources.World.{release_host_buffer, World, acquire_validated_resource_state}
use bennu.Resources.Transaction.{begin_resource_record_sync}
use bennu.Resources.Sound.{
  GoodState, SoundWorld, finish-SoundWorld, release_accounting_owner-KeptStates,
}
use bennu.Resources.Validate.{validate_vector, accounting_valid}
use bennu.Resources.Charges.{Keeps, idle-Keeps, acquire-found}
use bennu.Resources.Release.{
  physical_release, logical_bytes, finish_release, release_vector_locked, release_vector,
  release_vector_reservation,
}
use bennu.Resources.Releases.{refund-Keeps, freed, freed-KeptStates, freed-active_bytes}

-- What the validation of a vector shows of its accounting.
pub record Accounted (v : VectorValue) : Type 0 where
  pub bytes : v.canonical_bytes ≡ length v.elements * element_width v.element_type
  pub fits : leb (length v.elements) (size_max / element_width v.element_type) ≡ true
  pub storage : (v.storage == 0) ≡ (length v.elements == 0)
  pub owner : v.accounting_active ≡ false → v.accounting_owner ≡ 0

accounting_valid-fields :
    (world : World) (v : VectorValue)
    → accounting_valid world v ≡ true
    → (v.canonical_bytes ≡ length v.elements * element_width v.element_type)
      × (ltb (size_max / element_width v.element_type) (length v.elements) ≡ false)
      × (v.accounting_active ≡ false → v.accounting_owner ≡ 0)
unfolding accounting_valid
accounting_valid-fields world v e =
    (ground (arith, e), ground (arith, e), λ off. ground (arith, e, off))

pub validate_vector-Accounted :
    (world : World) (v : VectorValue) → validate_vector world v ≡ no_violation → Accounted v
unfolding validate_vector
validate_vector-Accounted world v e = elim (Bool-cases (accounting_valid world v)) [
  | inr bad ↦ absurd (ground (arith, e, bad))
  | inl good ↦
      let fields = accounting_valid-fields world v good in
      record {
        bytes = fields.0;
        fits = ground (arith, fields.1);
        storage = ground (arith, e);
        owner = fields.2;
      }
]

no_bytes-no_elements : (type : ScalarType) (count : ℕ) → count * element_width type ≡ 0 → count ≡ 0
unfolding element_width
no_bytes-no_elements boolean count e = omega (arith, e)
no_bytes-no_elements integer count e = omega (arith, e)
no_bytes-no_elements double_precision count e = omega (arith, e)

empty-storage : (v : VectorValue) → Accounted v → v.canonical_bytes ≡ 0 → v.storage ≡ 0
empty-storage v a z =
    let none_left : length v.elements ≡ 0 =
      no_bytes-no_elements v.element_type _ (sym a.bytes ∙ z) in
    ground (arith, a.storage, none_left)

logical_bytes-empty :
    (resources : EvaluationResources) (v : VectorValue)
    → v.canonical_bytes ≡ 0
    → logical_bytes resources v ≡ 0
unfolding logical_bytes
logical_bytes-empty resources v z = ground (arith, z)

logical_bytes-whole :
    (resources : EvaluationResources) (v : VectorValue)
    → Accounted v
    → v.accounting_active ≡ true
    → (v.accounting_owner == resources.owner) ≡ true
    → v.canonical_bytes ≤ resources.live_evaluation_bytes
    → logical_bytes resources v ≡ v.canonical_bytes
unfolding logical_bytes
logical_bytes-whole resources v a on own enough = ground (arith, a.bytes, a.fits, on, own, enough)

consume-owned :
    (registry : Registry) (payload owner bytes : ℕ) (ordinal : Option ℕ) (registry' : Registry)
    → consume_semantic_host_buffer registry payload owner bytes ordinal vector_payload
      ≡ some registry'
    → ((owner == 0) ≡ false) × ((payload == 0) ≡ false)
unfolding consume_semantic_host_buffer
consume-owned registry payload owner bytes none registry' e = cc
consume-owned registry payload owner bytes (some n) registry' e =
    (ground (arith, e), ground (arith, e))

pub physical_release-null :
    (world : World) (v : VectorValue) → v.storage ≡ 0 → physical_release world v ≡ world
unfolding physical_release
physical_release-null world v z = rw (z, physical_release) refl

pub physical_release-held :
    (world : World) (v : VectorValue)
    → (v.storage == 0) ≡ false
    → physical_release world v
      ≡ release_host_buffer world v.storage (element_identity v.element_type)
unfolding physical_release
physical_release-held world v held = rw (held, physical_release) refl

release_vector_locked-Keeps :
    (resources : EvaluationResources) (world : World) (v : VectorValue)
    (state : EvaluationResourceState)
    → Unaliased world.registry
    → Accounted v
    → (v.accounting_active && not (v.accounting_owner == resources.owner)) ≡ false
    → resources.live_evaluation_bytes ≡ state.live_evaluation_bytes
    → resources.work_units ≡ state.work_units
    → GoodState resources.owner world.registry state
    → Keeps resources.owner state world (release_vector_locked resources world v)
unfolding release_vector_locked finish_release GoodState freed
release_vector_locked-Keeps resources world v state unaliased a own l w good =
    elim (Bool-cases (v.canonical_bytes == 0)) [
      | inl empty ↦
          let z : v.canonical_bytes ≡ 0 = ground (arith, empty) in
          let nowhere = empty-storage v a z in
          let unrefunded = logical_bytes-empty resources v z in
          rw
            (
              empty,
              unrefunded,
              physical_release-null _ v nowhere,
              release_vector_locked,
              finish_release,
            )
            (refund-Keeps resources.owner state world _ 0
              (release_accounting_owner-KeptStates world.states v.accounting_owner)
              (λ token. ground arith) (omega arith) (omega (arith, l)) w good.1)
      | inr filled ↦
          elim (Option-cases (
            consume_semantic_host_buffer world.registry v.storage v.accounting_owner
              v.canonical_bytes v.allocation_ordinal vector_payload)) [
                | inl unbound ↦
                    rw (filled, unbound, release_vector_locked)
                      (idle-Keeps _ resources state resources.owner world l w good.1)
                | inr (registry, consumed) ↦
                    let owner = v.accounting_owner in
                    let identity = element_identity v.element_type in
                    let there =
                      consume-owned world.registry v.storage owner v.canonical_bytes
                        v.allocation_ordinal registry consumed in
                    let on : v.accounting_active ≡ true = ground (arith, there.0, a.owner) in
                    let mine : (owner == resources.owner) ≡ true = ground (arith, own, on) in
                    let same : owner ≡ resources.owner = ground (arith, mine) in
                    let moved : (token : ℕ)
                        → active_bytes token registry
                            + share token resources.owner v.canonical_bytes
                          ≡ active_bytes token world.registry =
                      λ token.
                        (rw same at (
                          consume-active_bytes world.registry v.storage owner v.canonical_bytes
                            v.allocation_ordinal vector_payload token consumed)) in
                    let enough : v.canonical_bytes ≤ state.live_evaluation_bytes =
                      ground (arith, moved resources.owner, good.0) in
                    let whole = logical_bytes-whole resources v a on mine (rw l enough) in
                    let quiet =
                      consume-Quiet world.registry v.storage owner v.canonical_bytes
                        v.allocation_ordinal vector_payload identity registry unaliased consumed in
                    rw
                      (
                        filled,
                        consumed,
                        whole,
                        physical_release-held _ v there.1,
                        release_vector_locked,
                        finish_release,
                      )
                      (refund-Keeps resources.owner state world _ v.canonical_bytes
                        (freed-KeptStates world registry owner v.storage identity quiet)
                        (λ token. ground (
                          arith,
                          moved token,
                          freed-active_bytes world registry owner v.storage identity token quiet,
                        ))
                        enough (omega (arith, l)) w good.1)
              ]
    ]

release_vector-SoundWorld :
    (world : World) (resources : EvaluationResources) (v : VectorValue)
    → SoundWorld world
    → Unaliased world.registry
    → Accounted v
    → SoundWorld (release_vector world resources v).world
unfolding release_vector SoundWorld begin_resource_record_sync
release_vector-SoundWorld world resources v sound unaliased a =
    elim (Bool-cases (v.accounting_active && not (v.accounting_owner == resources.owner))) [
      | inl other ↦ rw (other, release_vector) sound
      | inr own ↦ elim (Option-cases (acquire_validated_resource_state world.states resources)) [
        | inl gone ↦ rw (own, gone, release_vector) sound
        | inr (state, acquired) ↦
            let found = acquire-found world.states resources state acquired in
            let synced = begin_resource_record_sync resources state in
            let step = release_vector_locked synced world v in
            let k =
              release_vector_locked-Keeps synced world v state unaliased a own refl refl
                (sound resources.owner state found) in
            rw (own, acquired, release_vector)
              (finish-SoundWorld world resources.owner state step sound found k.moves k.within)
      ]
    ]

-- Releasing a value keeps the invariant of every context, whatever the value, when no two buffers
-- have one address.
pub release_vector_reservation-SoundWorld :
    (world : World) (resources : EvaluationResources) (value : Value)
    → SoundWorld world
    → Unaliased world.registry
    → SoundWorld (release_vector_reservation world resources value).world
unfolding release_vector_reservation SoundWorld
release_vector_reservation-SoundWorld world resources (scalar_value s) sound unaliased = sound
release_vector_reservation-SoundWorld world resources (vector_value v) sound unaliased =
    elim (Bool-cases (is_valid (validate_vector world v))) [
      | inl valid ↦
          rw (valid, release_vector_reservation)
            (release_vector-SoundWorld world resources v sound unaliased
              (validate_vector-Accounted world v (is_valid_lem _ valid)))
      | inr violated ↦ rw (violated, release_vector_reservation) sound
    ]
