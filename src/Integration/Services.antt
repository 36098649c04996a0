-- ===== src/Integration/Services.antt =====
-- services.py: which lock a call means, and the four handlers. A device id is resolved by Home
-- Assistant's device registry, whose answer is part of the call here.
pub mod Meant
pub mod Handlers
use onesti_lock.Base.{
  ℕ, ◌+◌, ◌-◌, ℤ, pos, negsuc, Bool, true, false, not, Result, ok, err, List, [], ◌∷◌, ◌++◌, Option,
  none, some, ltb, leb, ◌==◌, ◌&&◌, if◌then◌else◌,
}
use onesti_lock.Integration.PinRules.{max_slots, pin_length_range, is_valid_pin}
use onesti_lock.Integration.Zha.{SendOutcome, ErrorKey, error_key, is_delivered}
use onesti_lock.Integration.Coordinator.{
  World, Effect, Transport, Written, WriteError, first_user_slot, max_user_slot, set_pin, clear_pin,
  clear_slot, set_slot_name,
}

-- The translation keys of what a handler raises, with their placeholders.
pub data ServiceError : Type 0 where
  lock_not_found lock_not_found_ieee multiple_locks : ServiceError
  invalid_slot : ℕ → ℕ → ServiceError
  invalid_pin : ℕ → ℕ → ServiceError
  not_delivered : Option ErrorKey → ServiceError
  write_failed : ServiceError

-- A loaded lock: its config entry and its IEEE address.
pub record Lock : Type 0 where
  pub entry_id : ℕ
  pub ieee : List ℕ

-- What a call names: a device id, with the entry that the registry has for it, and an address.
pub record Target : Type 0 where
  pub device_id : Option (List ℕ)
  pub device_entry : Option ℕ
  pub ieee : Option (List ℕ)

-- `lower()` on the characters of an address.
abbrev pub lower : List ℕ → List ℕ
lower [] = []
lower (c ∷ cs) = (if leb b'A' c && leb c b'Z' then c + 32 else c) ∷ lower cs

unfoldable pub same_text : List ℕ → List ℕ → Bool
same_text [] [] = true
same_text (a ∷ xs) (b ∷ ys) = a == b && same_text xs ys
same_text _ _ = false

-- `_find_by_ieee`
unfoldable pub find_by_ieee : List ℕ → List Lock → Option Lock
unfolding same_text
find_by_ieee ieee [] = none
find_by_ieee ieee (l ∷ ls) =
    let rest = find_by_ieee ieee ls in
    if same_text (lower l.ieee) (lower ieee) then some l else rest

unfoldable pub find_by_entry : ℕ → List Lock → Option Lock
find_by_entry entry_id [] = none
find_by_entry entry_id (l ∷ ls) =
    let rest = find_by_entry entry_id ls in if l.entry_id == entry_id then some l else rest

abbrev required_lock : ServiceError → Option Lock → Result ServiceError Lock
required_lock e none = err e
required_lock e (some l) = ok l

abbrev by_device : Option ℕ → List Lock → Result ServiceError Lock
by_device none locks = err lock_not_found
by_device (some entry_id) locks = required_lock lock_not_found (find_by_entry entry_id locks)

abbrev only_lock : List Lock → Result ServiceError Lock
only_lock [] = err lock_not_found
only_lock (l ∷ []) = ok l
only_lock (l ∷ m ∷ ls) = err multiple_locks

-- `if ieee:`: an empty address is none.
abbrev by_ieee : Option (List ℕ) → List Lock → Result ServiceError Lock
by_ieee none locks = only_lock locks
by_ieee (some []) locks = only_lock locks
by_ieee (some (c ∷ cs)) locks = required_lock lock_not_found_ieee (find_by_ieee (c ∷ cs) locks)

-- `if device_id:`, and then what the call asks for by its address.
abbrev by_target : Option (List ℕ) → Target → List Lock → Result ServiceError Lock
by_target none t locks = by_ieee t.ieee locks
by_target (some []) t locks = by_ieee t.ieee locks
by_target (some (c ∷ cs)) t locks = by_device t.device_entry locks

-- `_get_coordinator`
unfoldable pub get_coordinator : Target → List Lock → Result ServiceError Lock
unfolding find_by_ieee find_by_entry
get_coordinator t locks = by_target t.device_id t locks

pub record Handled : Type 0 where
  pub result : Result ServiceError (Unit {0})
  pub world : World
  pub effects : List Effect

abbrev pub refuse : ServiceError → World → Handled
refuse e w = record { result = err e; world = w; effects = [] }

abbrev delivered_or_error : SendOutcome → Result ServiceError (Unit {0})
delivered_or_error o = if is_delivered o then ok tt else err (not_delivered (error_key o))

-- `_write`: a write that raised and one that was not delivered become errors.
abbrev write_result : Result WriteError SendOutcome → Result ServiceError (Unit {0})
write_result (err e) = err write_failed
write_result (ok o) = delivered_or_error o

abbrev pub written : Written → Handled
written x = record { result = write_result x.result; world = x.world; effects = x.effects }

-- `low <= slot <= high`, and what the call does with the slot.
abbrev in_slots : ℤ → ℕ → ℕ → (ℕ → Handled) → World → Handled
in_slots (negsuc n) low high go w = refuse (invalid_slot low high) w
in_slots (pos n) low high go w =
    if leb low n && leb n high then go n else refuse (invalid_slot low high) w

unfoldable pub handle_set_pin : ℤ → List ℕ → List ℕ → Transport → World → Handled
unfolding set_pin is_delivered error_key is_valid_pin pin_length_range
handle_set_pin slot name code send w =
    in_slots slot (first_user_slot w) (max_user_slot w)
      (λ n.
        if is_valid_pin code w.self.lock_capabilities
        then written (set_pin n name code send w)
        else (let (low, high) = pin_length_range w.self.lock_capabilities in
            refuse (invalid_pin low high) w))
      w

unfoldable pub handle_clear_pin : ℤ → Transport → World → Handled
unfolding clear_pin is_delivered error_key
handle_clear_pin slot send w =
    in_slots slot (first_user_slot w) (max_slots - 1) (λ n. written (clear_pin n send w)) w

unfoldable pub handle_set_name : ℤ → List ℕ → World → Handled
unfolding set_slot_name
handle_set_name slot name w =
    in_slots slot 0 (max_slots - 1)
      (λ n.
        let (w', effects) = set_slot_name n name w in
        record { result = ok tt; world = w'; effects = effects })
      w

unfoldable pub handle_clear_slot : ℤ → Transport → World → Handled
unfolding clear_slot is_delivered error_key
handle_clear_slot slot send w =
    in_slots slot (first_user_slot w) (max_slots - 1) (λ n. written (clear_slot n send w)) w
