-- ===== src/MixedId/Detect.antt =====
-- mixed_id.c: telling ids, addresses and mixed ids apart.
use orcashi.Prelude.{
  ℕ, ◌+◌, pos, Bool, true, false, ◌&&◌, Option, none, some, [], ◌∷◌, ◌==◌, if◌then◌else◌,
}
use orcashi.CString.Text.{Bytes, codes, is_digit}
use orcashi.CString.Number.{atoi}
use orcashi.CString.Address.{dot, inet_pton}
use orcashi.MixedId.Codec.{Decoded, in_range, mixed_id_decode}

-- `MIXED_TYPE_MIXED_IP` is declared and never returned.
pub data MixedType : Type 0 where
  unknown id ip mixed mixed_ip : MixedType

unfoldable pub mixed_id_is_ip : Bytes → Bool
mixed_id_is_ip s = elim (inet_pton s) [ none ↦ false | some a ↦ true ]

unfoldable pub mixed_id_is_valid : Bytes → Bool
unfolding mixed_id_is_ip
mixed_id_is_valid s = elim (mixed_id_decode s) [
  | none ↦ false
  | some d ↦ in_range 999 (atoi d.id) && (in_range 65535 d.port && mixed_id_is_ip d.ip)
]

unfoldable pub all_digits : Bytes → Bool
all_digits [] = true
all_digits (c ∷ s) = is_digit c && all_digits s

unfoldable pub mixed_id_is_id : Bytes → Bool
unfolding all_digits
mixed_id_is_id s = all_digits s && in_range 999 (atoi s)

unfoldable pub count_dots : Bytes → ℕ
count_dots [] = 0
count_dots (c ∷ s) = (if c == dot then 1 else 0) + count_dots s

unfoldable pub mixed_id_detect_type : Bytes → MixedType
unfolding mixed_id_is_valid mixed_id_is_ip mixed_id_is_id count_dots
mixed_id_detect_type s =
    if (count_dots s == 3) && mixed_id_is_valid s
    then MixedType.mixed
    else if (count_dots s == 3) && mixed_id_is_ip s
    then MixedType.ip
    else if mixed_id_is_id s
    then MixedType.id
    else if mixed_id_is_ip s
    then MixedType.ip
    else MixedType.unknown

unfoldable pub mixed_id_auto_parse : Bytes → Option Decoded
mixed_id_auto_parse s = elim (mixed_id_detect_type s) [
  | MixedType.mixed ↦ mixed_id_decode s
  | MixedType.id ↦ some (record { id = s; ip = codes "0.0.0.0"; port = pos 0 })
  | MixedType.ip ↦ some (record { id = []; ip = s; port = pos 9000 })
  | _ ↦ none
]
