-- ===== src/Resources/Limits.antt =====
-- Which requests the admission of src/resources.cpp grants.
use bennu.Prelude.{ℕ, ◌+◌, ◌≤◌, ◌≡◌, ◌↔◌, false, Option, none, some, arith, refl}
use bennu.Primitive.Select.{size_max}
use bennu.Error.{HostAllocator, success}
use bennu.Resources.Types.{EvaluationResources}
use bennu.Resources.Admission.{Request, Admission, preflight, exceeds, vector_exceeds}

-- A usage below a limit, if there is one.
abbrev pub Below : ℕ → Option ℕ → Type 0
Below usage none = Unit
Below usage (some limit) = usage ≤ limit

abbrev pub VectorBelow : Option ℕ → Option ℕ → Type 0
VectorBelow none limit = Unit
VectorBelow (some bytes) limit = Below bytes limit

-- The request's charges fit in a machine word and in the limits of the context.
unfoldable pub Grants : EvaluationResources → Option ℕ → ℕ → ℕ → Type 0
Grants resources vector_bytes live_charge work_charge =
    (resources.live_evaluation_bytes + live_charge ≤ size_max)
    × (resources.work_units + work_charge ≤ size_max)
    × VectorBelow vector_bytes resources.limits.max_vector_bytes
    × Below (resources.live_evaluation_bytes + live_charge)
        resources.limits.max_live_evaluation_bytes
    × Below (resources.work_units + work_charge) resources.limits.max_work_units

pub exceeds_iff : (usage : ℕ) (limit : Option ℕ) → (exceeds usage limit ≡ false) ↔ Below usage limit
exceeds_iff usage none = (λ e. tt, λ b. refl)
exceeds_iff usage (some limit) = (λ e. ground arith, λ b. ground arith)

pub vector_exceeds_iff :
    (bytes limit : Option ℕ) → (vector_exceeds bytes limit ≡ false) ↔ VectorBelow bytes limit
vector_exceeds_iff none limit = (λ e. tt, λ b. refl)
vector_exceeds_iff (some bytes) limit = exceeds_iff bytes limit

abbrev pub charge : EvaluationResources → ℕ → ℕ → Admission
charge resources live_charge work_charge = record {
  live_after = resources.live_evaluation_bytes + live_charge;
  work_after = resources.work_units + work_charge;
}

preflight_granted :
    (host : HostAllocator) (resources : EvaluationResources) (vector_bytes : Option ℕ)
    (live_charge work_charge : ℕ) (request : Request)
    → Grants resources vector_bytes live_charge work_charge
    → preflight host resources vector_bytes live_charge work_charge request
      ≡ success (charge resources live_charge work_charge)
unfolding preflight Grants
preflight_granted host resources vector_bytes live_charge work_charge request g = ground (
  arith,
  g.0,
  g.1,
  (vector_exceeds_iff vector_bytes resources.limits.max_vector_bytes).1 g.2,
  (exceeds_iff _ resources.limits.max_live_evaluation_bytes).1 g.3,
  (exceeds_iff _ resources.limits.max_work_units).1 g.4,
)

pub preflight-success :
    (host : HostAllocator) (resources : EvaluationResources) (vector_bytes : Option ℕ)
    (live_charge work_charge : ℕ) (request : Request) {admission : Admission}
    → resources.live_evaluation_bytes ≤ size_max
    → resources.work_units ≤ size_max
    → preflight host resources vector_bytes live_charge work_charge request ≡ success admission
    → Grants resources vector_bytes live_charge work_charge
      × (admission ≡ charge resources live_charge work_charge)
unfolding preflight Grants
preflight-success host resources vector_bytes live_charge work_charge request {admission} l w e =
    ground (
      arith,
      (vector_exceeds_iff vector_bytes resources.limits.max_vector_bytes).0,
      (exceeds_iff (resources.live_evaluation_bytes + live_charge)
          resources.limits.max_live_evaluation_bytes).0,
      (exceeds_iff (resources.work_units + work_charge) resources.limits.max_work_units).0,
    )

-- The admission grants a request exactly when both usages, with its charges, fit in a machine word
-- and no configured limit is passed, and the usages after it are then those sums.
pub preflight_iff :
    (host : HostAllocator) (resources : EvaluationResources) (vector_bytes : Option ℕ)
    (live_charge work_charge : ℕ) (request : Request)
    → resources.live_evaluation_bytes ≤ size_max
    → resources.work_units ≤ size_max
    → (preflight host resources vector_bytes live_charge work_charge request
        ≡ success (charge resources live_charge work_charge))
      ↔ Grants resources vector_bytes live_charge work_charge
preflight_iff host resources vector_bytes live_charge work_charge request l w = (
  λ e. (preflight-success host resources vector_bytes live_charge work_charge request l w e).0,
  preflight_granted host resources vector_bytes live_charge work_charge request,
)
