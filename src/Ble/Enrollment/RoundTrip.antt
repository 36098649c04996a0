-- ===== src/Ble/Enrollment/RoundTrip.antt =====
-- What `to_dict` wrote is read back by `from_dict`.
use mathlib.Core.Path.{fun_ext}
use onesti_lock.Base.{
  ℕ, ◌+◌, ◌*◌, ◌/◌, ◌%◌, ◌<◌, Bool, true, false, ◌||◌, ◌&&◌, ok, List, [], ◌∷◌, Option, none, some,
  ◌≡◌, refl, ap, ◌∙◌, arith, All, ◌==◌, if◌then◌else◌, Bool-cases, inl, inr,
}
use onesti_lock.Ble.Crypto.{Curve}
use onesti_lock.Ble.Enrollment.{
  Step, owner_key, device_id, clock, server_key, name, members, number, Steps, with_step,
  Enrollment, check,
}
use onesti_lock.Ble.Enrollment.Remaining.{number-injective}
use onesti_lock.Ble.Enrollment.Stored.{
  value, find_step, hex, hex_digit, digit_of, is_space, from_hex, text, hex_field, hex_or_null,
  optional_hex, words, steps_of, to_dict, from_dict,
}

digit_of-hex_digit : (n : ℕ) → n < 16 → digit_of (hex_digit n) ≡ some n
digit_of-hex_digit n h = ground arith

hex_digit_not_space : (n : ℕ) → n < 16 → is_space (hex_digit n) ≡ false
hex_digit_not_space n h = ground arith

-- Bytes come back from their hex digits.
pub from_hex-hex : (bytes : List ℕ) → All (λ b. b < 256) bytes → from_hex (hex bytes) ≡ some bytes
unfolding from_hex hex
from_hex-hex [] h = refl
from_hex-hex (b ∷ bytes) h =
    let high : b / 16 < 16 = omega (arith, h.0) in
    let low : b % 16 < 16 = omega arith in
    let whole : 16 * (b / 16) + b % 16 ≡ b = omega arith in
    rw (hex_digit_not_space (b / 16) high) (
      rw (digit_of-hex_digit (b / 16) high) (
        rw (digit_of-hex_digit (b % 16) low)
          (rw (from_hex-hex bytes h.1) (ap (λ x. some (x ∷ bytes)) whole))))

find_step-value : (step : Step) → find_step members (value step) ≡ some step
unfolding find_step value
find_step-value owner_key = refl
find_step-value device_id = refl
find_step-value clock = refl
find_step-value server_key = refl
find_step-value name = refl

-- The steps of a list that are completed, as a set.
chosen : Steps → List Step → Steps
chosen steps [] = λ other. false
chosen steps (step ∷ more) =
    let rest = chosen steps more in if steps step then with_step step rest else rest

steps_of-words :
    (steps : Steps) (all : List Step) → steps_of (words steps all) ≡ ok (chosen steps all)
unfolding steps_of words chosen
steps_of-words steps [] = refl
steps_of-words steps (step ∷ more) = elim (Bool-cases (steps step)) [
  | inl there ↦ rw there (rw (find_step-value step) (rw (steps_of-words steps more) refl))
  | inr gone ↦ rw gone (steps_of-words steps more)
]

if_apply :
    (b : Bool) (f g : Steps) (step : Step)
    → (if b then f else g) step ≡ (if b then f step else g step)
if_apply true f g step = refl
if_apply false f g step = refl

chosen_lem :
    (steps : Steps) (step : Step) (more : List Step) (other : Step)
    → chosen steps (step ∷ more) other ≡ (
        if steps step
        then (number step == number other) || chosen steps more other
        else chosen steps more other)
unfolding chosen
chosen_lem steps step more other =
    if_apply (steps step) (with_step step (chosen steps more)) (chosen steps more) other

-- is_among the steps of a list, the chosen ones are those of the set.
is_among : Step → List Step → Bool
is_among other [] = false
is_among other (step ∷ more) = (number step == number other) || is_among other more

chosen-is_among :
    (steps : Steps) (all : List Step) (other : Step)
    → chosen steps all other ≡ (is_among other all && steps other)
unfolding is_among
chosen-is_among steps [] other = unfold chosen in refl
chosen-is_among steps (step ∷ more) other = ground (
  arith,
  chosen_lem steps step more other,
  chosen-is_among steps more other,
  number-injective step other,
)

chosen-members : (steps : Steps) → chosen steps members ≡ steps
chosen-members steps = fun_ext λ step. chosen-is_among steps members step ∙ all_among steps step
  where
    all_among : (steps : Steps) (step : Step) → (is_among step members && steps step) ≡ steps step
    all_among steps owner_key = unfold is_among in refl
    all_among steps device_id = unfold is_among in refl
    all_among steps clock = unfold is_among in refl
    all_among steps server_key = unfold is_among in refl
    all_among steps name = unfold is_among in refl

abbrev pub AllBytes : Option (List ℕ) → Type 0
AllBytes none = Unit {0}
AllBytes (some bytes) = All (λ b. b < 256) bytes

-- The parts that are bytes.
pub record HasBytes (e : Enrollment) : Type 0 where
  pub device_id_bytes : All (λ b. b < 256) e.device_id
  pub owner_key_bytes : All (λ b. b < 256) e.owner_key
  pub server_private_key_bytes : All (λ b. b < 256) e.server_private_key
  pub lock_server_public_key_bytes : AllBytes e.lock_server_public_key
  pub update_private_key_bytes : AllBytes e.update_private_key
  pub lock_update_public_key_bytes : AllBytes e.lock_update_public_key

hex_field-hex :
    (bytes : List ℕ) → All (λ b. b < 256) bytes → hex_field (text (hex bytes)) ≡ ok bytes
unfolding hex_field
hex_field-hex bytes h = rw (from_hex-hex bytes h)

optional_hex-null : (o : Option (List ℕ)) → AllBytes o → optional_hex (hex_or_null o) ≡ ok o
optional_hex-null none h = refl
optional_hex-null (some bytes) h = rw (hex_field-hex bytes h)

completed_back : (steps : Steps) → steps_of (words steps members) ≡ ok steps
completed_back steps = steps_of-words steps members ∙ ap ok (chosen-members steps)

-- An enrollment that passes its checks, its keys and ids being bytes, is stored and read back whole.
pub from_dict-to_dict :
    (curve : Curve) (e : Enrollment)
    → check curve e ≡ ok tt
    → HasBytes e
    → from_dict curve (to_dict e) ≡ ok e
unfolding from_dict to_dict
from_dict-to_dict curve e checked b = rw (completed_back e.completed) (
    rw (hex_field-hex e.device_id b.device_id_bytes) (
      rw (hex_field-hex e.owner_key b.owner_key_bytes) (
        rw (hex_field-hex e.server_private_key b.server_private_key_bytes) (
          rw (optional_hex-null e.lock_server_public_key b.lock_server_public_key_bytes) (
            rw (optional_hex-null e.update_private_key b.update_private_key_bytes) (
              rw (optional_hex-null e.lock_update_public_key b.lock_update_public_key_bytes)
                (rw checked refl)))))))
