-- ===== src/Integration/Coordinator/Guards.antt =====
-- What no write does: touch a reserved slot, or follow a command that the lock did not take.
use onesti_lock.Base.{
  ℕ, ◌≤◌, ◌<◌, true, false, ok, err, List, [], Option, none, some, ◌≡◌, refl, ap, ◌∙◌, arith, ltb,
  lt→ltb, le→ltb_false,
}
use onesti_lock.Integration.PinRules.{Capabilities}
use onesti_lock.Integration.PinRules.Limits.{first_user_slot_bounds}
use onesti_lock.Integration.Zha.{is_delivered}
use onesti_lock.Integration.Coordinator.{
  World, Transport, Written, reserved_slot, first_user_slot, set_pin, clear_pin, clear_slot,
  set_pin_code, clear_pin_code, refresh_capabilities, stored,
}

-- What a refused write is.
abbrev pub refused : World → Written
refused w = record { result = err reserved_slot; world = w; effects = [] }

-- A write to a reserved slot raises before anything is sent, and changes nothing.
pub write_reserved :
    (slot : ℕ) (name code : List ℕ) (send : Transport) (w : World)
    → slot < first_user_slot w
    → (set_pin slot name code send w ≡ refused w)
      × (clear_pin slot send w ≡ refused w)
      × (clear_slot slot send w ≡ refused w)
unfolding set_pin clear_pin clear_slot
write_reserved slot name code send w h =
    let below : ltb slot (first_user_slot w) ≡ true = lt→ltb slot (first_user_slot w) h in
    (rw below refl, rw below refl, rw below refl)

-- Whatever the options hold, the master code in slot 0 is never written from Home Assistant.
pub master_slot_refused :
    (name code : List ℕ) (send : Transport) (w : World)
    → (set_pin 0 name code send w ≡ refused w)
      × (clear_pin 0 send w ≡ refused w)
      × (clear_slot 0 send w ≡ refused w)
master_slot_refused name code send w =
    write_reserved 0 name code send w
      (omega (arith, first_user_slot_bounds w.options.reserved_slots))

-- A send that was not delivered is returned as it is, and leaves the entry and the coordinators as
-- the send left them: the local state follows only what the lock took.
pub write_undelivered :
    (slot : ℕ) (name code : List ℕ) (send : Transport) (w : World)
    → first_user_slot w ≤ slot
    → is_delivered (send (set_pin_code slot code) w).0 ≡ false
    → is_delivered (send (clear_pin_code slot) w).0 ≡ false
    → ((set_pin slot name code send w).world ≡ (send (set_pin_code slot code) w).1)
      × ((set_pin slot name code send w).result ≡ ok (send (set_pin_code slot code) w).0)
      × ((clear_pin slot send w).world ≡ (send (clear_pin_code slot) w).1)
      × ((clear_pin slot send w).result ≡ ok (send (clear_pin_code slot) w).0)
      × ((clear_slot slot send w).world ≡ (send (clear_pin_code slot) w).1)
      × ((clear_slot slot send w).result ≡ ok (send (clear_pin_code slot) w).0)
unfolding set_pin clear_pin clear_slot
write_undelivered slot name code send w open_slot set_failed clear_failed =
    rw (le→ltb_false slot (first_user_slot w) open_slot, set_failed, clear_failed)
      (refl, refl, refl, refl, refl, refl)

refresh-read :
    (acquire : World → World) (read : World → Option Capabilities × World) (w : World)
    → w.self.capabilities_final ≡ false
    → (acquire w).self.capabilities_final ≡ false
    → refresh_capabilities acquire read w ≡ stored (read (acquire w))
unfolding refresh_capabilities
refresh-read acquire read w first second = simp (first, second)

refresh-final :
    (acquire : World → World) (read : World → Option Capabilities × World) (w : World)
    → w.self.capabilities_final ≡ true
    → refresh_capabilities acquire read w ≡ (w, [])
unfolding refresh_capabilities
refresh-final acquire read w h = simp h

-- An answer of the lock about itself is asked for once: after a read that was answered, a refresh
-- changes nothing, and what it says is what the options hold.
pub refresh_capabilities_once :
    (acquire : World → World) (read : World → Option Capabilities × World) (caps : Capabilities)
    (w : World)
    → w.self.capabilities_final ≡ false
    → (acquire w).self.capabilities_final ≡ false
    → (read (acquire w)).0 ≡ some caps
    → let w' = (refresh_capabilities acquire read w).0 in
      (w'.self.lock_capabilities ≡ caps)
      × (w'.options.capabilities ≡ some caps)
      × (w'.options.slots ≡ (read (acquire w)).1.options.slots)
      × (refresh_capabilities acquire read w' ≡ (w', []))
refresh_capabilities_once acquire read caps w first second answered =
    let (settings, kept, slots, final) = go (read (acquire w)).0 (read (acquire w)).1 answered in
    let did = refresh-read acquire read w first second in
    (
      ap (λ x. x.0.self.lock_capabilities) did ∙ settings,
      ap (λ x. x.0.options.capabilities) did ∙ kept,
      ap (λ x. x.0.options.slots) did ∙ slots,
      refresh-final acquire read (refresh_capabilities acquire read w).0
          (ap (λ x. x.0.self.capabilities_final) did ∙ final),
    )
  where
    go :
        (o : Option Capabilities) (v : World)
        → o ≡ some caps
        → ((stored (o, v)).0.self.lock_capabilities ≡ caps)
          × ((stored (o, v)).0.options.capabilities ≡ some caps)
          × ((stored (o, v)).0.options.slots ≡ v.options.slots)
          × ((stored (o, v)).0.self.capabilities_final ≡ true)
    go none v e = cc e
    go (some c) v e = let same : c ≡ caps = cc e in (same, ap some same, refl, refl)
