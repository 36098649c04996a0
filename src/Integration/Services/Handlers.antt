-- ===== src/Integration/Services/Handlers.antt =====
-- What a service call that returns has done.
use onesti_lock.Base.{
  ℕ, ◌≤◌, ℤ, pos, negsuc, true, ok, err, List, [], false, ◌≡◌, ◌≢◌, refl, ap, arith, leb, length,
}
use onesti_lock.Ble.Commands.{all_digits}
use onesti_lock.Integration.PinRules.{is_valid_pin}
use onesti_lock.Integration.PinRules.Limits.{first_user_slot_bounds, is_valid_pin_shape}
use onesti_lock.Integration.Zha.{is_delivered}
use onesti_lock.Integration.Coordinator.{
  World, Transport, first_user_slot, max_user_slot, set_pin, clear_pin, clear_slot, set_pin_code,
  clear_pin_code, default_slot,
}
use onesti_lock.Integration.Coordinator.Guards.{refused, master_slot_refused}
use onesti_lock.Integration.Coordinator.View.{Updates, view-set_pin, view-clear_slot}
use onesti_lock.Integration.Services.{
  Handled, write_failed, written, handle_set_pin, handle_clear_pin, handle_clear_slot,
  handle_set_name,
}

le→leb : (a b : ℕ) → a ≤ b → leb a b ≡ true
le→leb a b h = ground arith

accepted_set_pin :
    (n : ℕ) (name code : List ℕ) (send : Transport) (w : World)
    → first_user_slot w ≤ n
    → n ≤ max_user_slot w
    → is_valid_pin code w.self.lock_capabilities ≡ true
    → handle_set_pin (pos n) name code send w ≡ written (set_pin n name code send w)
unfolding handle_set_pin
accepted_set_pin n name code send w low high valid =
    simp (le→leb (first_user_slot w) n low, le→leb n (max_user_slot w) high, valid)

set_pin_sent :
    (n : ℕ) (name code : List ℕ) (send : Transport) (w : World)
    → (handle_set_pin (pos n) name code send w).result ≡ ok tt
    → (first_user_slot w ≤ n)
      × (n ≤ max_user_slot w)
      × (is_valid_pin code w.self.lock_capabilities ≡ true)
      × (is_delivered (send (set_pin_code n code) w).0 ≡ true)
unfolding handle_set_pin set_pin
set_pin_sent n name code send w h = ground arith

-- A `set_pin` call that returns named a slot from the first user slot to the highest slot of the
-- lock and a code of 4 to 20 digits, the lock took the command, and the entry now has the slot's new
-- name and PIN, and nothing else that is new.
pub handle_set_pin_done :
    (slot : ℤ) (name code : List ℕ) (send : Transport) (w : World)
    → (handle_set_pin slot name code send w).result ≡ ok tt
    → (n : ℕ) × (slot ≡ pos n)
      × (first_user_slot w ≤ n)
      × (n ≤ max_user_slot w)
      × (4 ≤ length code)
      × (length code ≤ 20)
      × (all_digits code ≡ true)
      × (is_delivered (send (set_pin_code n code) w).0 ≡ true)
      × Updates
          (send (set_pin_code n code) w).1
          n
          (record { name = name; has_pin = true })
          (handle_set_pin slot name code send w).world
handle_set_pin_done (negsuc n) name code send w h = unfold handle_set_pin in cc h
handle_set_pin_done (pos n) name code send w h =
    let (low, high, valid, done) = set_pin_sent n name code send w h in
    let (least, most, digits) = is_valid_pin_shape code w.self.lock_capabilities valid in
    let same = ap (λ x. x.world) (accepted_set_pin n name code send w low high valid) in
    (
      n,
      refl,
      low,
      high,
      least,
      most,
      digits,
      done,
      rw same (view-set_pin n name code send w low done),
    )

clears_sent :
    (n : ℕ) (send : Transport) (w : World)
    → ((handle_clear_pin (pos n) send w).result ≡ ok tt
        → (first_user_slot w ≤ n) × (n ≤ 999) × (is_delivered (send (clear_pin_code n) w).0 ≡ true))
      × ((handle_clear_slot (pos n) send w).result ≡ ok tt
          → (first_user_slot w ≤ n)
            × (n ≤ 999)
            × (is_delivered (send (clear_pin_code n) w).0 ≡ true))
unfolding handle_clear_pin handle_clear_slot clear_pin clear_slot
clears_sent n send w = (λ h. ground arith, λ h. ground arith)

accepted_clears :
    (n : ℕ) (send : Transport) (w : World)
    → first_user_slot w ≤ n
    → n ≤ 999
    → (handle_clear_pin (pos n) send w ≡ written (clear_pin n send w))
      × (handle_clear_slot (pos n) send w ≡ written (clear_slot n send w))
unfolding handle_clear_pin handle_clear_slot
accepted_clears n send w low high = (
  simp (le→leb (first_user_slot w) n low, le→leb n 999 high),
  simp (le→leb (first_user_slot w) n low, le→leb n 999 high),
)

-- The same for a `clear_slot` call, which may name any slot up to 999: the slot is vacant.
pub handle_clear_slot_done :
    (slot : ℤ) (send : Transport) (w : World)
    → (handle_clear_slot slot send w).result ≡ ok tt
    → (n : ℕ) × (slot ≡ pos n)
      × (first_user_slot w ≤ n)
      × (n ≤ 999)
      × (is_delivered (send (clear_pin_code n) w).0 ≡ true)
      × Updates (send (clear_pin_code n) w).1 n default_slot (handle_clear_slot slot send w).world
handle_clear_slot_done (negsuc n) send w h = unfold handle_clear_slot in cc h
handle_clear_slot_done (pos n) send w h =
    let (low, high, done) = (clears_sent n send w).1 h in
    let same = ap (λ x. x.world) (accepted_clears n send w low high).1 in
    (n, refl, low, high, done, rw same (view-clear_slot n send w low done))

-- No call of the four handlers runs into the coordinator's own guard: a call that would is refused
-- before, so that no handler raises the error of an unexpected exception.
pub handlers_guarded :
    (slot : ℤ) (name code : List ℕ) (send : Transport) (w : World)
    → ((handle_set_pin slot name code send w).result ≢ err write_failed)
      × ((handle_clear_pin slot send w).result ≢ err write_failed)
      × ((handle_clear_slot slot send w).result ≢ err write_failed)
      × ((handle_set_name slot name w).result ≢ err write_failed)
unfolding handle_set_pin handle_clear_pin handle_clear_slot handle_set_name set_pin clear_pin
    clear_slot
handlers_guarded slot name code send w =
    (λ e. ground arith, λ e. ground arith, λ e. ground arith, λ e. ground arith)

-- A call that raises, and leaves everything as it was.
abbrev pub Untouched : World → Handled → Type 0
Untouched w x = (x.result ≢ ok tt) × (x.world ≡ w) × (x.effects ≡ [])

zero_below : (low : ℕ) → 1 ≤ low → leb low 0 ≡ false
zero_below low h = ground arith

-- Whatever the options hold for the reserved slots, the master code in slot 0 is never written from
-- Home Assistant: the three writes of the coordinator raise before anything is sent and change
-- nothing, and so do the calls of the services that lead to them.
pub master_slot-Untouched :
    (name code : List ℕ) (send : Transport) (w : World)
    → (set_pin 0 name code send w ≡ refused w)
      × (clear_pin 0 send w ≡ refused w)
      × (clear_slot 0 send w ≡ refused w)
      × Untouched w (handle_set_pin (pos 0) name code send w)
      × Untouched w (handle_clear_pin (pos 0) send w)
      × Untouched w (handle_clear_slot (pos 0) send w)
unfolding handle_set_pin handle_clear_pin handle_clear_slot
master_slot-Untouched name code send w =
    let (set, cleared, emptied) = master_slot_refused name code send w in
    let floor = first_user_slot_bounds w.options.reserved_slots in
    let below : leb (first_user_slot w) 0 ≡ false = zero_below (first_user_slot w) floor.0 in
    (
      set,
      cleared,
      emptied,
      rw below (λ h. cc h, refl, refl),
      rw below (λ h. cc h, refl, refl),
      rw below (λ h. cc h, refl, refl),
    )
