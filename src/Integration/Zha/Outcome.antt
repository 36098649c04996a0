-- ===== src/Integration/Zha/Outcome.antt =====
-- What an outcome tells its caller.
use onesti_lock.Base.{ℕ, pos, true, false, none, some, ◌≡◌, ◌↔◌, arith}
use onesti_lock.Integration.Zha.{
  SendOutcome, is_delivered, lock_answered, error_key, lock_rejected_duplicate,
  lock_rejected_memory_full, lock_unreachable, outcome, Reply, answer,
}

-- A caller has no error to show exactly for a delivered command, and shows that the lock cannot be
-- reached exactly where it did not answer.
pub error_key_cases :
    (o : SendOutcome)
    → ((error_key o ≡ none) ↔ (is_delivered o ≡ true))
      × ((error_key o ≡ some lock_unreachable) ↔ (lock_answered o ≡ false))
unfolding error_key is_delivered lock_answered
error_key_cases o = ground arith

-- The error for the answer to a command: a duplicate code or full memory is shown exactly for
-- status 3 or 2 of an answer to Set PIN Code that is no Default Response.
pub error_key-outcome :
    (command : ℕ) (reply : Reply)
    → ((error_key (outcome command reply) ≡ some lock_rejected_duplicate)
        ↔ ((command ≡ 5) × (reply ≡ answer false (some (some (pos 3))))))
      × ((error_key (outcome command reply) ≡ some lock_rejected_memory_full)
          ↔ ((command ≡ 5) × (reply ≡ answer false (some (some (pos 2))))))
unfolding error_key outcome
error_key-outcome command reply = ground arith
