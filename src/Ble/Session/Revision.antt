-- ===== src/Ble/Session/Revision.antt =====
-- `parse_software_revision`: three numbers with dots between them.
use mathlib.Core.List.{reverse}
use onesti_lock.Base.{
  ℕ, ◌+◌, ◌-◌, ◌*◌, Bool, true, false, Result, ok, err, List, [], ◌∷◌, ◌++◌, leb, ◌==◌, ◌&&◌, ◌||◌,
  if◌then◌else◌,
}
use onesti_lock.Ble.Error.{BleError, protocol}
use onesti_lock.Ble.Const.{FirmwareVersion}
use onesti_lock.Ble.Streams.{is_ascii}

-- The characters of `rstrip("\0 \t\r\n")`.
abbrev pub is_stripped : ℕ → Bool
is_stripped c = c == 0 || c == 32 || c == 9 || c == 13 || c == 10

unfoldable pub drop_stripped : List ℕ → List ℕ
drop_stripped [] = []
drop_stripped (c ∷ cs) = let rest = drop_stripped cs in if is_stripped c then rest else c ∷ cs

unfoldable pub rstrip : List ℕ → List ℕ
unfolding drop_stripped
rstrip text = reverse (drop_stripped (reverse text))

-- `split(".")`, with the part that is being read.
unfoldable pub split_dots : List ℕ → List ℕ → List (List ℕ)
split_dots part [] = part ∷ []
split_dots part (c ∷ cs) =
    let ended = split_dots [] cs in
    let longer = split_dots (part ++ c ∷ []) cs in if c == b'.' then part ∷ ended else longer

-- `isdecimal` on ASCII: at least one character, and only digits.
unfoldable pub only_digits : List ℕ → Bool
only_digits [] = true
only_digits (c ∷ cs) = leb b'0' c && leb c b'9' && only_digits cs

abbrev pub is_decimal : List ℕ → Bool
is_decimal [] = false
is_decimal (c ∷ cs) = only_digits (c ∷ cs)

-- `int`, from what is read so far.
unfoldable pub decimal : ℕ → List ℕ → ℕ
decimal n [] = n
decimal n (c ∷ cs) = decimal (n * 10 + (c - b'0')) cs

abbrev version : List (List ℕ) → Result BleError FirmwareVersion
version (a ∷ b ∷ c ∷ []) =
    if is_decimal a && is_decimal b && is_decimal c
    then ok (record { major = decimal 0 a; minor = decimal 0 b; bugfix = decimal 0 c })
    else err protocol
version _ = err protocol

unfoldable pub parse_software_revision : List ℕ → Result BleError FirmwareVersion
unfolding is_ascii rstrip split_dots only_digits decimal
parse_software_revision raw =
    if is_ascii raw then version (split_dots [] (rstrip raw)) else err protocol
