-- ===== src/Kw/Iso/Days.antt =====
-- `kw_days_from_civil` against `civil_from_days`, esp32-embedder/worker/kw.c.
use claude_chats.Prelude.{
  ℕ, ◌+◌, ◌-◌, ◌*◌, ◌/◌, ◌<◌, ◌≤◌, ◌≡◌, ap, true, ltb, leb, if◌then◌else◌, arith,
}
use claude_chats.Prelude.Int.{pos, difference}
use claude_chats.Kw.Time.{civil_from_days}
use claude_chats.Kw.Iso.{day_of_era, kw_days_from_civil}

-- The year of the era and the day of that year, of a day of the era.
abbrev year_of : ℕ → ℕ
year_of doe = (doe - doe / 1460 + doe / 36524 - doe / 146096) / 365

year_of-low :
    (doe : ℕ) → doe < 146097 → 365 * year_of doe + year_of doe / 4 - year_of doe / 100 ≤ doe
year_of-low doe h = omega arith

year_of-high :
    (doe : ℕ) → doe < 146097 → doe - (365 * year_of doe + year_of doe / 4 - year_of doe / 100) < 366
year_of-high doe h = omega arith

year_of-le : (doe : ℕ) → doe < 146097 → year_of doe < 400
year_of-le doe h = omega arith

-- The month and the day of a day of the year, from March on.
month_from : ℕ → ℕ
month_from mp = if ltb mp 10 then mp + 3 else mp - 9

shifted_back :
    (mp : ℕ)
    → mp < 12
    → (if ltb 2 (month_from mp) then month_from mp - 3 else month_from mp + 9) ≡ mp
unfolding month_from
shifted_back mp h = ground arith

day_of_year : (doy : ℕ) → doy < 366 → (153 * ((5 * doy + 2) / 153) + 2) / 5 ≤ doy
day_of_year doy h = omega arith

sum_back :
    (yoe q doe : ℕ)
    → 365 * yoe + yoe / 4 - yoe / 100 ≤ doe
    → q ≤ doe - (365 * yoe + yoe / 4 - yoe / 100)
    → yoe * 365 + yoe / 4 - yoe / 100 + (q + (doe - (365 * yoe + yoe / 4 - yoe / 100) - q + 1) - 1)
      ≡ doe
sum_back yoe q doe low before = omega arith

-- The day of the era comes back from its year, month and day.
day_of_era-back :
    (doe : ℕ)
    → doe < 146097
    → let yoe = year_of doe in
      let doy = doe - (365 * yoe + yoe / 4 - yoe / 100) in
      let mp = (5 * doy + 2) / 153 in
      day_of_era yoe (month_from mp) (doy - (153 * mp + 2) / 5 + 1) ≡ doe
unfolding day_of_era
day_of_era-back doe h =
    let yoe = year_of doe in
    let doy = doe - (365 * yoe + yoe / 4 - yoe / 100) in
    let mp = (5 * doy + 2) / 153 in
    let high : doy < 366 = year_of-high doe h in
    let low = year_of-low doe h in
    let before = day_of_year doy high in
    let few : mp < 12 = omega arith in
    rw (day_of_era, shifted_back mp few) (sum_back yoe ((153 * mp + 2) / 5) doe low before)

-- A year of an era, January and February counted to the year before.
year_back :
    (yoe era extra : ℕ)
    → yoe < 400
    → extra ≤ 1
    → ((yoe + era * 400 + extra + 400 - extra) / 400 ≡ era + 1)
      × (yoe + era * 400 + extra + 400 - extra - (era + 1) * 400 ≡ yoe)
year_back yoe era extra h e = (omega arith, omega arith)

-- The number of a day from 1970 on comes back from the date that it is given.
pub kw_days_from_civil-civil_from_days :
    (days : ℕ)
    → kw_days_from_civil
        (civil_from_days days).year
        (civil_from_days days).month
        (civil_from_days days).day
      ≡ pos days
unfolding kw_days_from_civil civil_from_days difference month_from
kw_days_from_civil-civil_from_days days =
    let z = days + 719468 in
    let era = z / 146097 in
    let doe = z - era * 146097 in
    let small : doe < 146097 = omega arith in
    let (era_is, yoe_is) =
      year_back (year_of doe) era (if leb (civil_from_days days).month 2 then 1 else 0)
        (year_of-le doe small) (ground arith) in
    let fits : leb (719468 + 146097) ((era + 1) * 146097 + doe) ≡ true = ground arith in
    let left : (era + 1) * 146097 + doe - (719468 + 146097) ≡ days = omega arith in
    rw (era_is, yoe_is, day_of_era-back doe small, fits) (ap pos left)
