-- ===== src/Ble/Command/Refs.antt =====
-- The refs that the counter hands out.
use onesti_lock.Base.{
  ℕ, zero, suc, ◌+◌, ◌%◌, ◌≤◌, ◌<◌, Bool, true, false, ◌≡◌, ◌≢◌, ◌⊎◌, inl, inr, refl, ap, ◌∙◌,
  arith,
}
use onesti_lock.Ble.Const.{FirmwareVersion, min_firmware_admin}
use onesti_lock.Ble.Command.{CommandRefCounter, counter, for_firmware, next, older_than}

-- The counter after n calls of `next`.
pub after : ℕ → CommandRefCounter → CommandRefCounter
after zero c = c
after (suc n) c = (next (after n c)).1

after_static : (n : ℕ) → after n (counter true) ≡ counter true
unfolding after next
after_static zero = refl
after_static (suc n) = ap (λ c. (next c).1) (after_static n)

after_counting :
    (n : ℕ) → after n (counter false) ≡ record { static = false; upcoming = n % 127 + 1 }
unfolding after next
after_counting zero = refl
after_counting (suc n) = ap (λ c. (next c).1) (after_counting n) ∙ ground arith

-- Call n, counted from 0, answers 16 below firmware 4.7.90 and n % 127 + 1 from there on.
pub next_value :
    (n : ℕ)
    → ((next (after n (counter true))).0 ≡ 16) × ((next (after n (counter false))).0 ≡ n % 127 + 1)
unfolding next
next_value n = (rw (after_static n), rw (after_counting n))

counter-cases :
    (n : ℕ) (static : Bool)
    → (1 ≤ (next (after n (counter static))).0) × ((next (after n (counter static))).0 ≤ 127)
counter-cases n true = omega (arith, (next_value n).0)
counter-cases n false = omega (arith, (next_value n).1)

-- Whatever the firmware, every ref is in 1 to 127: the writer takes it, and it is not the ref 128
-- of the lock's own events.
pub next_bounds :
    (firmware : FirmwareVersion) (n : ℕ)
    → (1 ≤ (next (after n (for_firmware firmware))).0)
      × ((next (after n (for_firmware firmware))).0 ≤ 127)
unfolding for_firmware
next_bounds firmware n =
    counter-cases n (older_than firmware (record { major = 4; minor = 7; bugfix = 90 }))

-- Firmware 4.7.90 or later: the first number that differs is the larger one.
abbrev pub IsAdmin : FirmwareVersion → Type 0
IsAdmin f =
    (4 < f.major) ⊎ (f.major ≡ 4) × (7 < f.minor) ⊎ (f.major ≡ 4) × (f.minor ≡ 7) × (90 ≤ f.bugfix)

not_older : (f : FirmwareVersion) → IsAdmin f → older_than f min_firmware_admin ≡ false
unfolding older_than
not_older f (inl major) = ground arith
not_older f (inr (inl (major, minor))) = ground arith
not_older f (inr (inr (major, minor, bugfix))) = ground arith

for_firmware_admin : (f : FirmwareVersion) → IsAdmin f → for_firmware f ≡ counter false
unfolding for_firmware
for_firmware_admin f h = ap counter (not_older f h)

-- From firmware 4.7.90 two commands of a session carry the same ref only 127 or more commands apart.
pub next_distinct :
    (f : FirmwareVersion) (m n : ℕ)
    → IsAdmin f
    → m < n
    → n < m + 127
    → (next (after m (for_firmware f))).0 ≢ (next (after n (for_firmware f))).0
next_distinct f m n admin lo hi e = distinct (rw (for_firmware_admin f admin) at e)
  where
    distinct : (next (after m (counter false))).0 ≢ (next (after n (counter false))).0
    distinct e' = absurd (omega (arith, (next_value m).1, (next_value n).1))
