-- ===== src/Resources/Allocated.antt =====
-- What an allocation of src/resources.cpp leaves when it succeeds.
use bennu.Prelude.{
  ℕ, ◌≡◌, ◌⊎◌, inl, inr, Bool-cases, Option-cases, false, some, Bytes, ◌==◌, nat_eq, arith, refl,
}
use bennu.Error.{SourceLocation, Outcome, success, Outcome-cases}
use bennu.Resources.Types.{EvaluationResources, EvaluationResourceState}
use bennu.Resources.World.{World, Host, acquire_validated_resource_state}
use bennu.Resources.Admission.{
  Request, Admission, validate_profile_configuration_locked, commit_admission,
}
use bennu.Resources.Transaction.{
  Step, in_transaction, with_valid_profile, finish_resource_record_sync, begin_resource_record_sync,
}
use bennu.Resources.Work.{Reservation, reserve_buffer, reserve_admitted}

pub success-eq {ℓ} : {A : Type ℓ} {a b : A} → success b ≡ success a → a ≡ b
success-eq e = cc

-- An operation that succeeds has acquired the state of its owner and run its body.
pub in_transaction-success {ℓ} :
    {A : Type ℓ} (host : Host) (world : World) (resources : EvaluationResources)
    (location : SourceLocation) (producer_name : Bytes)
    (body : EvaluationResources → World → Step (Outcome A)) {a : A}
    → (in_transaction host world resources location producer_name body).outcome ≡ success a
    → (state : EvaluationResourceState) × (acquire_validated_resource_state world.states resources
        ≡ some state)
      × (in_transaction host world resources location producer_name body
          ≡ finish_resource_record_sync resources.owner
              (body (begin_resource_record_sync resources state) world))
unfolding in_transaction with_valid_profile validate_profile_configuration_locked
in_transaction-success host world resources location producer_name body e =
    elim (Option-cases (acquire_validated_resource_state world.states resources)) [
      | inl gone ↦ absurd (cc (rw (gone, in_transaction) at e))
      | inr (state, acquired) ↦
          let synced = begin_resource_record_sync resources state in
          elim (Option-cases (
            validate_profile_configuration_locked host.names synced (some state) location
              producer_name)) [
                | inr (error, refusal) ↦
                    absurd (cc (rw (acquired, refusal, in_transaction, with_valid_profile) at e))
                | inl valid ↦
                    (state, acquired, rw (acquired, valid, in_transaction, with_valid_profile) refl)
              ]
    ]

-- The result of a reservation that is granted: nothing was reserved, or a buffer.
pub reserve_admitted-success {ℓ} :
    {A : Type ℓ} (host : Host) (resources : EvaluationResources) (world : World)
    (admission : Admission) (wanted : Reservation) (request : Request) (empty : A)
    (full : ℕ → ℕ → A) {a : A}
    → (reserve_admitted host resources world admission wanted request empty full).outcome
      ≡ success a
    → ((wanted.live_charge ≡ 0)
        × (a ≡ empty)
        × (reserve_admitted host resources world admission wanted request empty full ≡ record {
          outcome = success empty;
          resources = commit_admission resources admission;
          world = world;
        }))
      ⊎ ((payload ordinal : ℕ) × ((wanted.live_charge == 0) ≡ false)
          × ((reserve_buffer host resources world wanted request).outcome
              ≡ success (payload, ordinal))
          × (a ≡ full payload ordinal)
          × (reserve_admitted host resources world admission wanted request empty full ≡ (
              let reserved = reserve_buffer host resources world wanted request in
              record {
                outcome = success (full payload ordinal);
                resources = commit_admission reserved.resources admission;
                world = reserved.world;
              })))
unfolding reserve_admitted
reserve_admitted-success host resources world admission wanted request empty full e =
    elim (Bool-cases (wanted.live_charge == 0)) [
      | inl nothing ↦ inl (
        ground (arith, nothing),
        success-eq (rw (nothing, reserve_admitted) at e),
        rw (nothing, reserve_admitted) refl,
      )
      | inr something ↦
          elim (Outcome-cases (reserve_buffer host resources world wanted request).outcome) [
            | inr (error, refusal) ↦ absurd (cc (rw (something, refusal, reserve_admitted) at e))
            | inl ((payload, ordinal), granted) ↦ inr (
              payload,
              ordinal,
              something,
              granted,
              success-eq (rw (something, granted, reserve_admitted) at e),
              rw (something, granted, reserve_admitted) refl,
            )
          ]
    ]
