-- ===== src/Resources/Sound.antt =====
-- The invariant of the contexts: the live bytes of an owner are the bytes bound to it, and its usage
-- is within its limits.
use bennu.Prelude.{
  ℕ, ◌+◌, ◌≤◌, ◌≡◌, inl, inr, Option, some, Option-cases, Bool-cases, arith, refl, sym, ap, ◌∙◌,
  ◌==◌, nat_eq,
}
use mathlib.Core.Option.{some-injective}
use bennu.Primitive.Select.{size_max}
use bennu.HostStorage.Registry.{Registry}
use bennu.HostStorage.Accounts.{active_bytes, share}
use bennu.Resources.Types.{EvaluationResourceState, ResourceLimits}
use bennu.Resources.Limits.{Below}
use bennu.Resources.World.{
  States, World, find_resource_state, update_state, retain_accounting_owner, retain_reference,
  release_reference, release_accounting_owner,
}
use bennu.Resources.Transaction.{Step, finish_resource_record_sync, with_usage}

unfoldable pub WithinLimits : ResourceLimits → ℕ → ℕ → Type 0
WithinLimits limits live work =
    (live ≤ size_max)
    × (work ≤ size_max)
    × Below live limits.max_live_evaluation_bytes
    × Below work limits.max_work_units

unfoldable pub GoodState : ℕ → Registry → EvaluationResourceState → Type 0
GoodState token registry state =
    (state.live_evaluation_bytes ≡ active_bytes token registry)
    × WithinLimits state.limits state.live_evaluation_bytes state.work_units

unfoldable pub SoundWorld : World → Type 0
SoundWorld world =
    (token : ℕ) (state : EvaluationResourceState)
    → world.states token ≡ some state
    → GoodState token world.registry state

-- What an operation may not change of a state in passing.
unfoldable pub SameUsage : EvaluationResourceState → EvaluationResourceState → Type 0
SameUsage s s' =
    (s'.live_evaluation_bytes ≡ s.live_evaluation_bytes)
    × (s'.work_units ≡ s.work_units)
    × (s'.limits ≡ s.limits)

unfoldable pub KeptStates : States → States → Type 0
KeptStates states states' =
    (token : ℕ) (s' : EvaluationResourceState)
    → states' token ≡ some s'
    → (s : EvaluationResourceState) × (states token ≡ some s) × SameUsage s s'

pub refl-KeptStates : (states : States) → KeptStates states states
unfolding KeptStates SameUsage
refl-KeptStates states token s' e = (s', e, (refl, refl, refl))

pub trans-KeptStates : (a b c : States) → KeptStates a b → KeptStates b c → KeptStates a c
unfolding KeptStates SameUsage
trans-KeptStates a b c ab bc token s' e =
    let m = bc token s' e in let n = ab token m.0 m.1 in (n.0, n.1, (cc, cc, cc))

update_state-KeptStates :
    (states : States) (owner : ℕ)
    (change : EvaluationResourceState → Option EvaluationResourceState)
    → ((s s' : EvaluationResourceState) → change s ≡ some s' → SameUsage s s')
    → KeptStates states (update_state states owner change)
unfolding KeptStates SameUsage update_state
update_state-KeptStates states owner change keeps token s' e = elim (Bool-cases (token == owner)) [
  | inr other ↦ (s', (rw other at e), (refl, refl, refl))
  | inl same ↦ elim (Option-cases (states token)) [
    | inl gone ↦ absurd (ground (arith, (rw (same, gone) at e)))
    | inr (s, found) ↦ (s, found, keeps s s' (rw (same, found) at e))
  ]
]

pub retain_accounting_owner-KeptStates :
    (states : States) (owner : ℕ) (states' : States)
    → retain_accounting_owner states owner ≡ some states'
    → KeptStates states states'
unfolding retain_accounting_owner retain_reference SameUsage
retain_accounting_owner-KeptStates states owner states' e =
    elim (Option-cases (find_resource_state states owner)) [
      | inl gone ↦ absurd (ground (arith, gone, e))
      | inr (s, found) ↦
          let same : states' ≡ update_state states owner retain_reference =
            sym (some-injective _ _ (rw (found, retain_accounting_owner) at e)) in
          (rw same (update_state-KeptStates states owner retain_reference (λ a a' h. ground arith)))
    ]

pub release_accounting_owner-KeptStates :
    (states : States) (owner : ℕ) → KeptStates states (release_accounting_owner states owner)
unfolding release_accounting_owner release_reference SameUsage
release_accounting_owner-KeptStates states owner =
    elim (Option-cases (find_resource_state states owner)) [
      | inl gone ↦ (rw (gone, release_accounting_owner) (refl-KeptStates states))
      | inr (s, found) ↦
          (rw (found, release_accounting_owner)
            (update_state-KeptStates states owner release_reference (λ a a' h. ground arith)))
    ]

-- The bytes that are bound for an owner change with the live bytes in its record, and its limits
-- stay; other states keep their usage.
unfoldable pub Moves : ℕ → ℕ → ℕ → World → World → Type 0
Moves owner live live' before after =
    KeptStates before.states after.states
    × ((token : ℕ)
        → active_bytes token after.registry + share token owner live
          ≡ active_bytes token before.registry + share token owner live')

pub still-Moves : (owner live : ℕ) (world : World) → Moves owner live (live + 0) world world
unfolding Moves
still-Moves owner live world = (refl-KeptStates world.states, λ token. ground arith)

-- Writing the usage back keeps the invariant, after an operation that moves the bytes of the owner.
pub finish-SoundWorld {ℓ} :
    {A : Type ℓ} (world : World) (owner : ℕ) (state : EvaluationResourceState) (step : Step A)
    → SoundWorld world
    → world.states owner ≡ some state
    → Moves owner state.live_evaluation_bytes step.resources.live_evaluation_bytes world step.world
    → WithinLimits state.limits step.resources.live_evaluation_bytes step.resources.work_units
    → SoundWorld (finish_resource_record_sync owner step).world
unfolding SoundWorld GoodState Moves KeptStates SameUsage finish_resource_record_sync update_state
finish-SoundWorld world owner state step sound found moves within token s' e =
    elim (Bool-cases (token == owner)) [
      | inr other ↦
          let old = moves.0 token s' (rw other at e) in
          let good = sound token old.0 old.1 in
          (
            ground (arith, other, moves.1 token, good.0, old.2.0),
            rw (old.2.2, old.2.0, old.2.1) good.1,
          )
      | inl same ↦ elim (Option-cases (step.world.states token)) [
        | inl gone ↦ absurd (ground (arith, (rw (same, gone, finish_resource_record_sync) at e)))
        | inr (s, found_s) ↦
            let shape : s' ≡ with_usage step.resources s =
              sym (some-injective _ _ (rw (same, found_s, finish_resource_record_sync) at e)) in
            let old = moves.0 token s found_s in
            let this : token ≡ owner = ground (arith, same) in
            let before : old.0 ≡ state =
              some-injective _ _ (sym old.1 ∙ ap world.states this ∙ found) in
            let good = sound owner state found in
            rw shape (
              ground (arith, same, this, moves.1 token, good.0),
              rw (old.2.2, ap (λ x. x.limits) before) within,
            )
      ]
    ]
