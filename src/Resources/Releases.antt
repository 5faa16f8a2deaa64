-- ===== src/Resources/Releases.antt =====
-- The invariant of the contexts in `release_workspace` of src/resources.cpp.
use bennu.Prelude.{
  ℕ, ◌+◌, ◌-◌, ◌≤◌, ◌≡◌, inl, inr, Option, none, some, Option-cases, Bool-cases, not, ◌||◌, ◌==◌,
  nat_eq, arith, refl, ltb,
}
use bennu.HostStorage.Registry.{
  Registry, HostAllocationRecord, buffer, abandoned, remove_host_allocation,
  consume_semantic_host_buffer, workspace,
}
use bennu.HostStorage.Accounts.{
  active_bytes, share, refund_of, remove_host_allocation-active_bytes, consume-active_bytes,
}
use bennu.HostStorage.Aliasing.{Unaliased, Quiet, consume-Quiet}
use bennu.Resources.Types.{
  EvaluationResources, EvaluationResourceState, WorkspaceReservation, byte_identity,
}
use bennu.Resources.Limits.{Below}
use bennu.Resources.World.{
  World, release_host_buffer, release_accounting_owner, acquire_validated_resource_state,
}
use bennu.Resources.Transaction.{Step, begin_resource_record_sync}
use bennu.Resources.Sound.{
  WithinLimits, GoodState, SoundWorld, Moves, KeptStates, finish-SoundWorld,
  release_accounting_owner-KeptStates,
}
use bennu.Resources.Charges.{Keeps, idle-Keeps, acquire-found}
use bennu.Resources.Release.{
  resource_context_mismatch, release_workspace, release_workspace_locked, no_storage,
}

refund_of-Quiet :
    (token : ℕ) (removed : Option HostAllocationRecord)
    → Quiet removed
    → refund_of token removed ≡ 0
refund_of-Quiet token none quiet = refl
refund_of-Quiet token (some r) quiet = rw (quiet, refund_of) refl

Quiet-states :
    (world : World) (payload element_type : ℕ)
    → Quiet (remove_host_allocation world.registry payload buffer element_type).removed
    → (release_host_buffer world payload element_type).states ≡ world.states
unfolding release_host_buffer
Quiet-states world payload element_type quiet =
    elim (Option-cases
      (remove_host_allocation world.registry payload buffer element_type).removed) [
        | inl nothing ↦ rw (nothing, release_host_buffer) refl
        | inr (r, found) ↦
            let silent : abandoned r ≡ none = (rw found at quiet) in
            rw (found, silent, release_host_buffer) refl
      ]

-- The release of a buffer whose binding is consumed changes no usage.
release_host_buffer-Quiet :
    (world : World) (payload element_type : ℕ) (token : ℕ)
    → Quiet (remove_host_allocation world.registry payload buffer element_type).removed
    → active_bytes token (release_host_buffer world payload element_type).registry
      ≡ active_bytes token world.registry
unfolding release_host_buffer
release_host_buffer-Quiet world payload element_type token quiet = ground (
  arith,
  remove_host_allocation-active_bytes world.registry payload buffer element_type token,
  refund_of-Quiet token _ quiet,
)

Below-smaller :
    (limit : Option ℕ) (usage smaller : ℕ)
    → smaller ≤ usage
    → Below usage limit
    → Below smaller limit
Below-smaller none usage smaller h b = tt
Below-smaller (some limit) usage smaller h b = omega (arith, h, b)

-- A step that gives bytes of the owner back.
pub refund-Keeps {ℓ} :
    {A : Type ℓ} (owner : ℕ) (state : EvaluationResourceState) (world : World) (step : Step A)
    (bytes : ℕ)
    → KeptStates world.states step.world.states
    → ((token : ℕ)
        → active_bytes token step.world.registry + share token owner bytes
          ≡ active_bytes token world.registry)
    → bytes ≤ state.live_evaluation_bytes
    → step.resources.live_evaluation_bytes ≡ state.live_evaluation_bytes - bytes
    → step.resources.work_units ≡ state.work_units
    → WithinLimits state.limits state.live_evaluation_bytes state.work_units
    → Keeps owner state world step
unfolding Moves WithinLimits
refund-Keeps owner state world step bytes states moved enough live work within = record {
  moves = (states, λ token. ground (arith, moved token, enough, live));
  within = (
    omega (arith, live, within.0),
    omega (arith, work, within.1),
    Below-smaller state.limits.max_live_evaluation_bytes state.live_evaluation_bytes _
        (omega (arith, live)) within.2,
    rw work within.3,
  );
}

-- A buffer whose binding is consumed and whose owner loses a reference.
unfoldable pub freed : World → Registry → ℕ → ℕ → ℕ → World
freed world registry owner payload element_type =
    release_host_buffer
      (record { states = release_accounting_owner world.states owner; registry = registry }) payload
      element_type

pub freed-KeptStates :
    (world : World) (registry : Registry) (owner payload element_type : ℕ)
    → Quiet (remove_host_allocation registry payload buffer element_type).removed
    → KeptStates world.states (freed world registry owner payload element_type).states
unfolding freed
freed-KeptStates world registry owner payload element_type quiet =
    (rw
      (Quiet-states
        (record { states = release_accounting_owner world.states owner; registry = registry })
        payload element_type quiet)
      (release_accounting_owner-KeptStates world.states owner))

pub freed-active_bytes :
    (world : World) (registry : Registry) (owner payload element_type token : ℕ)
    → Quiet (remove_host_allocation registry payload buffer element_type).removed
    → active_bytes token (freed world registry owner payload element_type).registry
      ≡ active_bytes token registry
unfolding freed
freed-active_bytes world registry owner payload element_type token quiet =
    release_host_buffer-Quiet
      (record { states = release_accounting_owner world.states owner; registry = registry }) payload
      element_type token quiet

release_workspace_locked-Keeps :
    (resources : EvaluationResources) (world : World) (reservation : WorkspaceReservation)
    (state : EvaluationResourceState)
    → Unaliased world.registry
    → resources.live_evaluation_bytes ≡ state.live_evaluation_bytes
    → resources.work_units ≡ state.work_units
    → WithinLimits state.limits state.live_evaluation_bytes state.work_units
    → Keeps resources.owner state world (release_workspace_locked resources world reservation)
unfolding release_workspace_locked freed
release_workspace_locked-Keeps resources world reservation state unaliased l w within =
    let idle =
      idle-Keeps (resource_context_mismatch, reservation) resources state resources.owner world l w
        within in
    elim (Bool-cases (
      not (reservation.accounting_owner == resources.owner)
      || ltb resources.live_evaluation_bytes reservation.bytes)) [
        | inl other ↦ rw (other, release_workspace_locked) idle
        | inr own ↦
            elim (Option-cases (
              consume_semantic_host_buffer world.registry reservation.storage
                reservation.accounting_owner reservation.bytes reservation.allocation_ordinal
                workspace)) [
                  | inl unbound ↦ rw (own, unbound, release_workspace_locked) idle
                  | inr (registry, consumed) ↦
                      let owner = reservation.accounting_owner in
                      let storage = reservation.storage in
                      let quiet =
                        consume-Quiet world.registry storage owner reservation.bytes
                          reservation.allocation_ordinal workspace byte_identity registry unaliased
                          consumed in
                      rw (own, consumed, release_workspace_locked)
                        (refund-Keeps resources.owner state world _ reservation.bytes
                          (freed-KeptStates world registry owner storage byte_identity quiet)
                          (λ token. ground (
                            arith,
                            own,
                            freed-active_bytes world registry owner storage byte_identity token
                                quiet,
                            consume-active_bytes world.registry storage owner reservation.bytes
                                reservation.allocation_ordinal workspace token consumed,
                          ))
                          (ground (arith, own, l)) (ground (arith, l)) w within)
                ]
      ]

-- Releasing a workspace keeps the invariant of every context, whatever the reservation says, when no
-- two buffers have one address.
pub release_workspace-SoundWorld :
    (world : World) (resources : EvaluationResources) (reservation : WorkspaceReservation)
    → SoundWorld world
    → Unaliased world.registry
    → SoundWorld (release_workspace world resources reservation).world
unfolding release_workspace SoundWorld GoodState begin_resource_record_sync
release_workspace-SoundWorld world resources reservation sound unaliased =
    elim (Bool-cases (reservation.bytes == 0)) [
      | inl empty ↦ rw (empty, release_workspace) sound
      | inr filled ↦ elim (Bool-cases (no_storage reservation)) [
        | inl null ↦ rw (filled, null, release_workspace) sound
        | inr stored ↦
            elim (Option-cases (acquire_validated_resource_state world.states resources)) [
              | inl gone ↦ rw (filled, stored, gone, release_workspace) sound
              | inr (state, acquired) ↦
                  let found = acquire-found world.states resources state acquired in
                  let synced = begin_resource_record_sync resources state in
                  let step = release_workspace_locked synced world reservation in
                  let k =
                    release_workspace_locked-Keeps synced world reservation state unaliased refl
                      refl (sound resources.owner state found).1 in
                  rw (filled, stored, acquired, release_workspace)
                    (finish-SoundWorld world resources.owner state step sound found k.moves
                      k.within)
            ]
      ]
    ]
