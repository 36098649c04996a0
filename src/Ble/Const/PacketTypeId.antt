-- ===== src/Ble/Const/PacketTypeId.antt =====
-- ble/protocol/const.py: the Layer 1 packet types.
use onesti_lock.Base.{ℕ, ◌≡◌, refl, Option, some, List, [], ◌∷◌, find_member, find_member-value}

pub data PacketTypeId : Type 0 where
  single single_encrypted blob_start blob_stream blob_complete ack nac error : PacketTypeId

unfoldable pub value : PacketTypeId → ℕ
value single = 0x01
value single_encrypted = 0x02
value blob_start = 0x03
value blob_stream = 0x04
value blob_complete = 0x05
value ack = 0x06
value nac = 0x07
value error = 0xf0

abbrev pub members : List PacketTypeId
members =
    single ∷ single_encrypted ∷ blob_start ∷ blob_stream ∷ blob_complete ∷ ack ∷ nac ∷ error ∷ []

-- `PacketTypeId(value)`, with `none` for its ValueError.
unfoldable pub of_value : ℕ → Option PacketTypeId
unfolding value
of_value = find_member value members

pub of_value-value : (e : PacketTypeId) → of_value (value e) ≡ some e
unfolding of_value value
of_value-value single = refl
of_value-value _ = refl

pub value-of_value : (n : ℕ) (e : PacketTypeId) → of_value n ≡ some e → value e ≡ n
unfolding of_value
value-of_value n e h = find_member-value value members n e h
