-- ===== src/Kw/Time.antt =====
-- Dates of esp32-embedder/worker/kw.c, for times from 1970 on.
use claude_chats.Prelude.{
  ℕ, ◌+◌, ◌-◌, ◌*◌, ◌/◌, ◌%◌, [], ◌∷◌, ◌++◌, ltb, leb, if◌then◌else◌, Bytes, padded, take,
}

pub record Civil : Type 0 where
  pub year : ℕ
  pub month : ℕ
  pub day : ℕ

unfoldable pub civil_from_days : ℕ → Civil
civil_from_days days =
    let z = days + 719468 in
    let era = z / 146097 in
    let doe = z - era * 146097 in
    let yoe = (doe - doe / 1460 + doe / 36524 - doe / 146096) / 365 in
    let doy = doe - (365 * yoe + yoe / 4 - yoe / 100) in
    let mp = (5 * doy + 2) / 153 in
    let m = if ltb mp 10 then mp + 3 else mp - 9 in
    record {
      year = yoe + era * 400 + (if leb m 2 then 1 else 0);
      month = m;
      day = doy - (153 * mp + 2) / 5 + 1;
    }

unfoldable pub kw_ymd : ℕ → Bytes
unfolding civil_from_days
kw_ymd t =
    let c = civil_from_days (t / 86400) in
    take 10 (padded 4 c.year ++ (b'-' ∷ (padded 2 c.month ++ (b'-' ∷ padded 2 c.day))))

unfoldable pub kw_amz_date : ℕ → Bytes
unfolding civil_from_days
kw_amz_date t =
    let days = t / 86400 in
    let s = t - days * 86400 in
    let c = civil_from_days days in
    take 16 (
      padded 4 c.year
      ++ (padded 2 c.month
          ++ (padded 2 c.day
              ++ (b'T'
                  ∷ (padded 2 (s / 3600)
                      ++ (padded 2 (s / 60 % 60) ++ (padded 2 (s % 60) ++ (b'Z' ∷ []))))))))
