-- ===== src/Integration/OptionsFlow/Offered.antt =====
-- Which slots the forms offer.
use onesti_lock.Base.{
  ℕ, ◌+◌, ◌-◌, zero, suc, ◌≤◌, Bool, true, false, ok, List, [], ◌∷◌, ltb, leb, le→ltb_false, ◌==◌,
  ◌&&◌, ◌||◌, if◌then◌else◌, ◌≡◌, refl, arith,
}
use onesti_lock.Base.Dict.{find}
use onesti_lock.Integration.Coordinator.{
  Options, World, Transport, set_pin_code, clear_pin_code, first_user_slot, set_pin, clear_pin,
}
use onesti_lock.Integration.PinRules.Limits as Limits
use onesti_lock.Integration.OptionsFlow.{
  Label, stored_has_pin, stored_name, label_or_fallback, pin_choices, active_slots, set_pin_choices,
  clear_pin_choices,
}

unfoldable pub offers : ℕ → List (ℕ × Label) → Bool
offers slot [] = false
offers slot ((s, l) ∷ choices) = s == slot || offers slot choices

pub offers-pin_choices :
    (slot count from : ℕ) (o : Options)
    → offers slot (pin_choices count from o) ≡ (leb from slot && ltb slot (from + count))
unfolding offers pin_choices
offers-pin_choices slot zero from o = ground arith
offers-pin_choices slot (suc count) from o =
    ground (arith, offers-pin_choices slot count (from + 1) o)

offers_if :
    (slot s : ℕ) (b : Bool) (l : Label) (rest : List (ℕ × Label))
    → offers slot (if b then (s, l) ∷ rest else rest) ≡ ((b && s == slot) || offers slot rest)
unfolding offers
offers_if slot s true l rest = refl
offers_if slot s false l rest = refl

pub offers-active_slots :
    (slot count from : ℕ) (o : Options)
    → offers slot (active_slots count from o)
      ≡ (leb from slot && ltb slot (from + count) && stored_has_pin (find slot o.slots))
unfolding offers active_slots
offers-active_slots slot zero from o = ground arith
offers-active_slots slot (suc count) from o = ground (
  arith,
  offers_if slot from (stored_has_pin (find from o.slots))
      (label_or_fallback from (stored_name (find from o.slots))) (active_slots count (from + 1) o),
  offers-active_slots slot count (from + 1) o,
)

first_user_slot-le : (w : World) → first_user_slot w ≤ 3
first_user_slot-le w = (Limits.first_user_slot_bounds w.options.reserved_slots).1

-- The clear_pin step offers exactly the slots from the first user slot to 999 that hold a PIN.
pub clear_pin_choices_iff :
    (w : World) (slot : ℕ)
    → offers slot (clear_pin_choices w) ≡ (
        leb (first_user_slot w) slot && ltb slot 1000 && stored_has_pin (find slot w.options.slots))
clear_pin_choices_iff w slot = ground (
  arith,
  offers-active_slots slot (1000 - first_user_slot w) (first_user_slot w) w.options,
  first_user_slot-le w,
)

-- A slot that is not reserved is written, whatever the transport answers.
write_open :
    (slot : ℕ) (name code : List ℕ) (send : Transport) (w : World)
    → first_user_slot w ≤ slot
    → ((set_pin slot name code send w).result ≡ ok (send (set_pin_code slot code) w).0)
      × ((clear_pin slot send w).result ≡ ok (send (clear_pin_code slot) w).0)
unfolding set_pin clear_pin
write_open slot name code send w h =
    rw (le→ltb_false slot (first_user_slot w) h) (ground arith, ground arith)

-- A slot that a form offers is not reserved: its write reaches the transport.
pub offered_writes_sent :
    (w : World) (slot : ℕ) (name code : List ℕ) (send : Transport)
    → offers slot (set_pin_choices w) || offers slot (clear_pin_choices w) ≡ true
    → ((set_pin slot name code send w).result ≡ ok (send (set_pin_code slot code) w).0)
      × ((clear_pin slot send w).result ≡ ok (send (clear_pin_code slot) w).0)
offered_writes_sent w slot name code send h = write_open slot name code send w (
    ground (
      arith,
      offers-pin_choices slot 10 (first_user_slot w) w.options,
      clear_pin_choices_iff w slot,
    ))
