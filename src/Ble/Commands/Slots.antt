-- ===== src/Ble/Commands/Slots.antt =====
-- The slot commands: which slots they take, and what they send.
use onesti_lock.Base.{
  ℕ, ◌/◌, ◌%◌, ◌≤◌, ◌<◌, ℤ, pos, negsuc, false, ok, err, [], ◌∷◌, ◌≡◌, ◌⊎◌, inl, inr, arith,
  Bool-cases,
}
use onesti_lock.Ble.Error.{validation}
use onesti_lock.Ble.Const.{SlotRange}
use onesti_lock.Ble.Const.CommandId.{CommandId}
use onesti_lock.Ble.Commands.{slot_command, in_range}

-- A slot command within a range of u16 slots sends the slot as two little-endian bytes exactly for
-- the slots of its range, and refuses every other integer before anything is built.
pub slot_command_cases :
    (id : CommandId) (slot : ℤ) (slots : SlotRange)
    → slots.stop ≤ 65536
    → ((n : ℕ) × (slot ≡ pos n)
        × (slots.start ≤ n)
        × (n < slots.stop)
        × (slot_command id slot slots
            ≡ ok (record { command_id = id; bytes = n % 256 ∷ n / 256 ∷ [] })))
      ⊎ (in_range slot slots ≡ false) × (slot_command id slot slots ≡ err validation)
unfolding slot_command
slot_command_cases id (negsuc n) slots h = inr (ground arith, ground arith)
slot_command_cases id (pos n) slots h = elim (Bool-cases (in_range (pos n) slots)) [
  | inl inside ↦ inl (n, ground arith, ground arith, ground arith, ground arith)
  | inr outside ↦ inr (outside, ground arith)
]
