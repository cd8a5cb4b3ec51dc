-- ===== src/Kw/Iso.antt =====
-- Dates read in esp32-embedder/worker/kw.c: `kw_days_from_civil` and `kw_parse_iso8601`.
pub mod Days
use claude_chats.Prelude.{
  ℕ, zero, suc, ◌+◌, ◌-◌, ◌*◌, ◌/◌, Bool, true, false, not, ◌&&◌, ◌||◌, Option, none, some, List,
  [], ◌∷◌, length, get_or, drop, take, ltb, leb, ◌==◌, if◌then◌else◌, Bytes, codes, bytes_eq,
}
use claude_chats.Prelude.Int.{ℤ, pos, negsuc, minus_one, difference}

-- The day of the 400 years that `yoe` and the month begin; March is the first month.
unfoldable pub day_of_era : ℕ → ℕ → ℕ → ℕ
day_of_era yoe m d =
    let doy = (153 * (if ltb 2 m then m - 3 else m + 9) + 2) / 5 + d - 1 in
    yoe * 365 + yoe / 4 - yoe / 100 + doy

-- For years from 0 on. The eras are counted from one before, as January of the year 0 is in that one.
unfoldable pub kw_days_from_civil : ℕ → ℕ → ℕ → ℤ
kw_days_from_civil y m d =
    let y1 = y + 400 - (if leb m 2 then 1 else 0) in
    let era1 = y1 / 400 in
    let yoe = y1 - era1 * 400 in difference (era1 * 146097 + day_of_era yoe m d) (719468 + 146097)

abbrev pub is_decimal : ℕ → Bool
is_decimal c = leb b'0' c && leb c b'9'

-- The first `n` bytes as a number; none for -1.
unfoldable pub digits_onto : ℕ → ℕ → Bytes → Option ℕ
digits_onto zero v s = some v
digits_onto (suc n) v [] = none
digits_onto (suc n) v (c ∷ s) =
    let rest = digits_onto n (v * 10 + (c - b'0')) s in if is_decimal c then rest else none

unfoldable pub digits : Bytes → ℕ → Option ℕ
digits s n = digits_onto n 0 s

unfoldable pub skip_digits : Bytes → Bytes
skip_digits [] = []
skip_digits (c ∷ s) = if is_decimal c then skip_digits s else c ∷ s

-- What follows the seconds: perhaps a fraction, then the zone.
unfoldable pub zone_ok : Bytes → Bool
zone_ok p =
    let rest = if get_or p 0 0 == b'.' then skip_digits (drop 1 p) else p in
    bytes_eq rest (codes "Z") || bytes_eq rest (codes "+00:00")

unfoldable pub plus_seconds : ℤ → ℕ → ℤ
plus_seconds (pos days) s = pos (days * 86400 + s)
plus_seconds (negsuc k) s = difference s ((k + 1) * 86400)

-- The six numbers, each within its bounds: month, day, hour, minute, second.
unfoldable pub in_range : ℕ → ℕ → ℕ → ℕ → ℕ → Bool
in_range mo d h mi se =
    leb 1 mo && (leb mo 12 && (leb 1 d && (leb d 31 && (leb h 23 && (leb mi 59 && leb se 60)))))

abbrev pub or_far : Option ℕ → ℕ
or_far none = 99
or_far (some v) = v

-- The punctuation of `YYYY-MM-DDThh:mm:ss`.
unfoldable pub shape_ok : Bytes → Bool
shape_ok s =
    leb 20 (length s)
    && (get_or s 4 0 == b'-'
        && (get_or s 7 0 == b'-'
            && (get_or s 10 0 == b'T' && (get_or s 13 0 == b':' && get_or s 16 0 == b':'))))

-- -1 for a text that is not a time. A number that is not one is out of its range; the year has none.
unfoldable pub kw_parse_iso8601 : Bytes → ℤ
kw_parse_iso8601 s =
    if shape_ok s
    then elim (digits s 4) [
      | none ↦ minus_one
      | some y ↦
          (let mo = or_far (digits (drop 5 s) 2) in
            let d = or_far (digits (drop 8 s) 2) in
            let h = or_far (digits (drop 11 s) 2) in
            let mi = or_far (digits (drop 14 s) 2) in
            let se = or_far (digits (drop 17 s) 2) in
            if in_range mo d h mi se && zone_ok (drop 19 s)
            then plus_seconds (kw_days_from_civil y mo d) (h * 3600 + mi * 60 + se)
            else minus_one)
    ]
    else minus_one
