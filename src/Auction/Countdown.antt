-- ===== src/Auction/Countdown.antt =====
-- app/scripts/index.js: the texts for the time that is left and for a price, and the part of the
-- page that is shown at a time. Times are whole seconds below 2^53, where the quotients of doubles
-- are cut off to the same numbers.
use blockchain_tutorial.Prelude.{
  ℕ, zero, suc, ◌+◌, ◌-◌, ◌*◌, ◌/◌, ◌<◌, ◌≤◌, ◌≡◌, refl, Bool, true, false, ◌++◌, arith, ltb, leb,
  if◌then◌else◌,
}
use blockchain_tutorial.Js.Int.{pos}
use blockchain_tutorial.Js.Number.{Text, codes, int, to_string}

-- `getCurrentTime()`, from the milliseconds of the clock: `Math.round(ms / 1000)`
abbrev pub get_current_time : ℕ → ℕ
get_current_time ms = (ms + 500) / 1000

-- A whole number in a text.
abbrev pub shown : ℕ → Text
shown n = to_string (int (pos n))

-- The last test of `displayEndTime`.
abbrev pub text_of_units : (days hours minutes seconds : ℕ) → Text
text_of_units days hours minutes seconds =
    if ltb 0 days
    then codes "Auction ends in "
      ++ shown days
      ++ codes " days"
      ++ shown hours
      ++ codes " hours"
      ++ shown minutes
      ++ codes " minutes"
      ++ shown seconds
      ++ codes " seconds"
    else if ltb 0 hours
    then codes "Auction ends in "
      ++ shown hours
      ++ codes " hours"
      ++ shown minutes
      ++ codes " minutes"
      ++ shown seconds
      ++ codes " seconds"
    else if ltb 0 minutes
    then codes "Auction ends in "
      ++ shown minutes
      ++ codes " minutes"
      ++ shown seconds
      ++ codes " seconds"
    else codes "Auction ends in " ++ shown seconds ++ codes " seconds"

-- `displayEndTime`, for times below 2^53
unfoldable pub display_end_time : (timestamp ms : ℕ) → Text
display_end_time timestamp ms =
    let current_time = get_current_time ms in
    let remaining = timestamp - current_time in
    let days = remaining / 86400 in
    let below_day = remaining - days * 86400 in
    let hours = below_day / 3600 in
    let below_hour = below_day - hours * 3600 in
    let minutes = below_hour / 60 in
    let seconds = below_hour - minutes * 60 in
    if leb timestamp current_time
    then codes "Auction has ended"
    else text_of_units days hours minutes seconds

-- A text with a number and its unit added for each part that is left; the leading parts that are
-- 0 are left out.
abbrev seconds_part : Text → ℕ → Text
seconds_part t s = t ++ shown s ++ codes " seconds"

abbrev minutes_part : Bool → Text → ℕ → ℕ → Text
minutes_part false t zero s = seconds_part t s
minutes_part false t (suc m) s = seconds_part (t ++ shown (suc m) ++ codes " minutes") s
minutes_part true t m s = seconds_part (t ++ shown m ++ codes " minutes") s

abbrev hours_part : Bool → Text → ℕ → ℕ → ℕ → Text
hours_part false t zero m s = minutes_part false t m s
hours_part false t (suc h) m s = minutes_part true (t ++ shown (suc h) ++ codes " hours") m s
hours_part true t h m s = minutes_part true (t ++ shown h ++ codes " hours") m s

abbrev pub days_part : Text → ℕ → ℕ → ℕ → ℕ → Text
days_part t zero h m s = hours_part false t h m s
days_part t (suc d) h m s = hours_part true (t ++ shown (suc d) ++ codes " days") h m s

ltb-suc : (n : ℕ) → ltb 0 (suc n) ≡ true
ltb-suc n = ground arith

text_of_units_parts :
    (d h m s : ℕ) → text_of_units d h m s ≡ days_part (codes "Auction ends in ") d h m s
text_of_units_parts zero zero zero s = refl
text_of_units_parts zero zero (suc m) s = rw (ltb-suc m) refl
text_of_units_parts zero (suc h) m s = rw (ltb-suc h) refl
text_of_units_parts (suc d) h m s = rw (ltb-suc d) refl

-- For an end, and a time of the clock in milliseconds, that are below 2^53, where doubles are exact:
-- before the end, the text shows days, hours below 24, minutes below 60 and seconds below 60 that
-- make up exactly the time that is left; from the end on it says that the auction has ended.
pub display_end_time_units :
    (timestamp ms : ℕ)
    → timestamp < 9007199254740992
    → ms < 9007199254740992
    → (timestamp ≤ get_current_time ms → display_end_time timestamp ms ≡ codes "Auction has ended")
      × (get_current_time ms < timestamp
          → (d : ℕ) × (h : ℕ) × (m : ℕ) × (s : ℕ) × (h < 24)
            × (m < 60)
            × (s < 60)
            × (get_current_time ms + (((d * 24 + h) * 60 + m) * 60 + s) ≡ timestamp)
            × (display_end_time timestamp ms ≡ days_part (codes "Auction ends in ") d h m s))
unfolding display_end_time
display_end_time_units timestamp ms exact_end exact_now = (
  λ l. ground arith,
  λ l.
      let r = timestamp - get_current_time ms in
      let d = r / 86400 in
      let h = (r - d * 86400) / 3600 in
      let m = (r - d * 86400 - h * 3600) / 60 in
      let s = r - d * 86400 - h * 3600 - m * 60 in
      (
        d,
        h,
        m,
        s,
        omega arith,
        omega arith,
        omega arith,
        omega arith,
        ground (arith, text_of_units_parts d h m s),
      ),
)
