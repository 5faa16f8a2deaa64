-- ===== src/Resources/Charges.antt =====
-- The invariant of the contexts and the admissions of src/resources.cpp, with `charge_work`.
use bennu.Prelude.{
  ℕ, ◌+◌, ◌≡◌, inl, inr, Option, none, some, Option-cases, Bytes, nat_eq, arith, refl,
}
use bennu.Error.{SourceLocation, Outcome, failure, Outcome-cases}
use bennu.Resources.Types.{EvaluationResources, EvaluationResourceState, ResourceLimits}
use bennu.Resources.Admission.{
  validate_profile_configuration_locked, preflight, request_of, commit_admission,
}
use bennu.Resources.Limits.{Grants, preflight-success}
use bennu.Resources.World.{
  World, Host, States, find_resource_state, acquire_validated_resource_state,
}
use bennu.Resources.Transaction.{
  Step, in_transaction, with_valid_profile, begin_resource_record_sync,
}
use bennu.Resources.Sound.{
  WithinLimits, GoodState, SoundWorld, Moves, finish-SoundWorld, refl-KeptStates,
}
use bennu.Resources.Work.{charge_work, charge_work_locked}

pub acquire-found :
    (states : States) (resources : EvaluationResources) (state : EvaluationResourceState)
    → acquire_validated_resource_state states resources ≡ some state
    → states resources.owner ≡ some state
unfolding acquire_validated_resource_state find_resource_state
acquire-found states resources state e = ground (arith, e)

-- What a transaction's operation has to do for the invariant, from the state of the owner.
pub record Keeps {ℓ} {A : Type ℓ} (owner : ℕ) (state : EvaluationResourceState) (world : World)
    (step : Step A) : Type 0 where
  pub moves :
      Moves owner state.live_evaluation_bytes step.resources.live_evaluation_bytes world step.world
  pub within :
      WithinLimits state.limits step.resources.live_evaluation_bytes step.resources.work_units

pub idle-Keeps {ℓ} :
    {A : Type ℓ} (outcome : A) (resources : EvaluationResources) (state : EvaluationResourceState)
    (owner : ℕ) (world : World)
    → resources.live_evaluation_bytes ≡ state.live_evaluation_bytes
    → resources.work_units ≡ state.work_units
    → WithinLimits state.limits state.live_evaluation_bytes state.work_units
    → Keeps owner state world (record { outcome = outcome; resources = resources; world = world })
unfolding Moves
idle-Keeps outcome resources state owner world l w within = record {
  moves = (refl-KeptStates world.states, λ token. ground (arith, l));
  within = rw (l, w) within;
}

with_valid_profile-Keeps {ℓ} :
    {A : Type ℓ} (host : Host) (world : World) (resources : EvaluationResources)
    (state : EvaluationResourceState) (location : SourceLocation) (producer_name : Bytes)
    (body : EvaluationResources → World → Step (Outcome A)) (owner : ℕ)
    → resources.live_evaluation_bytes ≡ state.live_evaluation_bytes
    → resources.work_units ≡ state.work_units
    → WithinLimits state.limits state.live_evaluation_bytes state.work_units
    → Keeps owner state world (body resources world)
    → Keeps owner state world
        (with_valid_profile host world resources (some state) location producer_name body)
unfolding with_valid_profile
with_valid_profile-Keeps host world resources state location producer_name body owner l w within k =
    elim (Option-cases (
      validate_profile_configuration_locked host.names resources (some state) location
        producer_name)) [
          | inl valid ↦ rw (valid, with_valid_profile) k
          | inr (error, refused) ↦
              rw (refused, with_valid_profile)
                (idle-Keeps (failure error) resources state owner world l w within)
        ]

pub in_transaction-SoundWorld {ℓ} :
    {A : Type ℓ} (host : Host) (world : World) (resources : EvaluationResources)
    (location : SourceLocation) (producer_name : Bytes)
    (body : EvaluationResources → World → Step (Outcome A))
    → SoundWorld world
    → ((state : EvaluationResourceState)
        → world.states resources.owner ≡ some state
        → acquire_validated_resource_state world.states resources ≡ some state
        → WithinLimits state.limits state.live_evaluation_bytes state.work_units
        → Keeps resources.owner state world
            (body (begin_resource_record_sync resources state) world))
    → SoundWorld (in_transaction host world resources location producer_name body).world
unfolding in_transaction with_valid_profile validate_profile_configuration_locked SoundWorld
    GoodState begin_resource_record_sync
in_transaction-SoundWorld host world resources location producer_name body sound keeps =
    elim (Option-cases (acquire_validated_resource_state world.states resources)) [
      | inl gone ↦ rw (gone, in_transaction) sound
      | inr (state, acquired) ↦
          let found = acquire-found world.states resources state acquired in
          let within = (sound resources.owner state found).1 in
          let synced = begin_resource_record_sync resources state in
          let step =
            with_valid_profile host world synced (some state) location producer_name body in
          let kept =
            with_valid_profile-Keeps host world synced state location producer_name body
              resources.owner refl refl within (keeps state found acquired within) in
          (rw (acquired, in_transaction)
            (finish-SoundWorld world resources.owner state step sound found kept.moves kept.within))
    ]

pub Grants-WithinLimits :
    (resources : EvaluationResources) (limits : ResourceLimits) (vector_bytes : Option ℕ)
    (live_charge work_charge : ℕ)
    → resources.limits ≡ limits
    → Grants resources vector_bytes live_charge work_charge
    → WithinLimits limits
        (resources.live_evaluation_bytes + live_charge)
        (resources.work_units + work_charge)
unfolding Grants WithinLimits
Grants-WithinLimits resources limits vector_bytes live_charge work_charge k g =
    (rw (← k) (g.0, g.1, g.3, g.4))

charge_work_locked-Keeps :
    (host : Host) (units : ℕ) (location : SourceLocation) (producer_name : Bytes)
    (resources : EvaluationResources) (state : EvaluationResourceState) (world : World) (owner : ℕ)
    → resources.live_evaluation_bytes ≡ state.live_evaluation_bytes
    → resources.work_units ≡ state.work_units
    → resources.limits ≡ state.limits
    → WithinLimits state.limits state.live_evaluation_bytes state.work_units
    → Keeps owner state world (charge_work_locked host units location producer_name resources world)
unfolding charge_work_locked commit_admission Grants WithinLimits Moves
charge_work_locked-Keeps host units location producer_name resources state world owner l w k
      within =
    let request = request_of location producer_name none none in
    elim (Outcome-cases (preflight host.names resources none 0 units request)) [
      | inr (error, refused) ↦
          rw (refused, charge_work_locked)
            (idle-Keeps (failure error) resources state owner world l w within)
      | inl (admission, admitted) ↦
          let granted =
            preflight-success host.names resources none 0 units request (rw l within.0)
              (rw w within.1) admitted in
          rw (admitted, granted.1, charge_work_locked)
            (record {
              moves = (refl-KeptStates world.states, λ token. ground (arith, l));
              within = Grants-WithinLimits resources state.limits none 0 units k granted.0;
            })
    ]

-- Charging work keeps the invariant of every context, whether the charge is granted or refused.
pub charge_work-SoundWorld :
    (host : Host) (world : World) (resources : EvaluationResources) (units : ℕ)
    (location : SourceLocation) (producer_name : Bytes)
    → SoundWorld world
    → SoundWorld (charge_work host world resources units location producer_name).world
unfolding charge_work begin_resource_record_sync
charge_work-SoundWorld host world resources units location producer_name sound =
    in_transaction-SoundWorld host world resources location producer_name
      (charge_work_locked host units location producer_name) sound
      (λ state found acquired within.
        charge_work_locked-Keeps host units location producer_name
          (begin_resource_record_sync resources state) state world resources.owner refl refl refl
          within)
