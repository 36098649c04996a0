-- ===== src/Ble/Enrollment/Remaining.antt =====
-- Which steps remain once the next one is completed.
use onesti_lock.Base.{true, false, List, [], ◌∷◌, ◌≡◌, refl, arith, ◌==◌, inl, inr, Bool-cases}
use onesti_lock.Ble.Enrollment.{
  Step, owner_key, device_id, clock, server_key, name, members, number, Steps, with_step,
  remaining_of, all_completed,
}

pub number-injective : (a b : Step) → number a ≡ number b → a ≡ b
number-injective owner_key owner_key h = refl
number-injective device_id device_id h = refl
number-injective clock clock h = refl
number-injective server_key server_key h = refl
number-injective name name h = refl
number-injective owner_key device_id h = absurd (omega arith)
number-injective owner_key clock h = absurd (omega arith)
number-injective owner_key server_key h = absurd (omega arith)
number-injective owner_key name h = absurd (omega arith)
number-injective device_id owner_key h = absurd (omega arith)
number-injective device_id clock h = absurd (omega arith)
number-injective device_id server_key h = absurd (omega arith)
number-injective device_id name h = absurd (omega arith)
number-injective clock owner_key h = absurd (omega arith)
number-injective clock device_id h = absurd (omega arith)
number-injective clock server_key h = absurd (omega arith)
number-injective clock name h = absurd (omega arith)
number-injective server_key owner_key h = absurd (omega arith)
number-injective server_key device_id h = absurd (omega arith)
number-injective server_key clock h = absurd (omega arith)
number-injective server_key name h = absurd (omega arith)
number-injective name owner_key h = absurd (omega arith)
number-injective name device_id h = absurd (omega arith)
number-injective name clock h = absurd (omega arith)
number-injective name server_key h = absurd (omega arith)

-- A step that none of the list is.
abbrev Without : Step → List Step → Type 0
Without step [] = Unit {0}
Without step (other ∷ more) = ((number step == number other) ≡ false) × Without step more

abbrev Distinct : List Step → Type 0
Distinct [] = Unit {0}
Distinct (step ∷ more) = Without step more × Distinct more

members-Distinct : Distinct members
members-Distinct = (
  (refl, (refl, (refl, (refl, tt)))),
  ((refl, (refl, (refl, tt))), ((refl, (refl, tt)), ((refl, tt), (tt, tt)))),
)

remaining_of-Without :
    (steps : Steps) (step : Step) (more : List Step)
    → Without step more
    → remaining_of (with_step step steps) more ≡ remaining_of steps more
unfolding remaining_of
remaining_of-Without steps step [] h = refl
remaining_of-Without steps step (other ∷ more) h =
    rw (h.0, remaining_of-Without steps step more h.1)

remaining_of-next :
    (steps : Steps) (all : List Step)
    → Distinct all
    → (step : Step) (more : List Step) → remaining_of steps all ≡ step ∷ more
    → remaining_of (with_step step steps) all ≡ more
unfolding remaining_of
remaining_of-next steps [] d step more h = cc
remaining_of-next steps (other ∷ all) d step more h = elim (Bool-cases (steps other)) [
  | inl done ↦ ground (arith, remaining_of-next steps all d.1 step more)
  | inr open_step ↦
      ground (arith, number-injective step other, remaining_of-Without steps other all d.0)
]

-- Completing the next step leaves exactly the others.
pub remaining_next :
    (steps : Steps) (step : Step) (more : List Step)
    → remaining_of steps members ≡ step ∷ more
    → remaining_of (with_step step steps) members ≡ more
remaining_next steps step more h = remaining_of-next steps members members-Distinct step more h

pub all_completed_of_remaining :
    (steps : Steps) (all : List Step) → remaining_of steps all ≡ [] → all_completed steps all ≡ true
unfolding remaining_of all_completed
all_completed_of_remaining steps [] h = refl
all_completed_of_remaining steps (step ∷ all) h =
    ground (arith, all_completed_of_remaining steps all)
