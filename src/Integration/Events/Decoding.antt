-- ===== src/Integration/Events/Decoding.antt =====
-- The operation event is a slot, an action and a source in one word.
use Prim.Native.String.{String}
use onesti_lock.Base.{
  ℕ, ◌+◌, ◌*◌, ◌/◌, ◌^◌, ◌≤◌, ◌<◌, pos, negsuc, bit_and, not, none, some, ◌≡◌, ◌↔◌, refl, ◌∙◌,
  arith, ◌==◌, ◌&&◌, if◌then◌else◌,
}
use onesti_lock.Base.Bits.{bit_and_byte, bit_and_word}
use onesti_lock.Integration.Events.{
  source_of, action_of, is_credential, decode_operation_event, decoded,
}

-- bits 0-15, 16-23 and 24-31
abbrev pub word : ℕ → ℕ → ℕ → ℕ
word slot action source = slot + action * 65536 + source * 16777216

fields :
    (slot action source : ℕ)
    → slot < 65536
    → action < 256
    → source < 256
    → (bit_and (word slot action source) 0xffff ≡ slot)
      × (bit_and (word slot action source / 65536) 0xff ≡ action)
      × (bit_and (word slot action source / 16777216) 0xff ≡ source)
fields slot action source hs ha hb = (
  bit_and_word (word slot action source) ∙ omega arith,
  bit_and_byte (word slot action source / 65536) ∙ omega arith,
  bit_and_byte (word slot action source / 16777216) ∙ omega arith,
)

-- No negative value decodes, and the others decode exactly where they fit 32 bits.
pub decode_operation_event-none :
    (slot_name : ℕ → String) (n : ℕ)
    → (decode_operation_event slot_name (negsuc n) ≡ none)
      × ((decode_operation_event slot_name (pos n) ≡ none) ↔ (2 ^ 32 ≤ n))
unfolding decode_operation_event
decode_operation_event-none slot_name n = (refl, ground arith)

-- The word of a 16-bit slot, an action byte and a source byte decodes to those three, with the
-- slot's name; only slot 0 from a source without a credential stands for no user.
pub decode_operation_event-word :
    (slot_name : ℕ → String) (slot action source : ℕ)
    → slot < 65536
    → action < 256
    → source < 256
    → decode_operation_event slot_name (pos (word slot action source))
      ≡ some (
          decoded slot_name
            (if (slot == 0) && not (is_credential (source_of source)) then none else some slot)
            (action_of action)
            (source_of source))
unfolding decode_operation_event
decode_operation_event-word slot_name slot action source hs ha hb =
    let (s, a, o) = fields slot action source hs ha hb in rw (s, a, o) (ground arith)
