-- ===== src/Checks/Soa/Rules.antt =====
-- When the SOA check is silent, and which serials it accepts.
use zone_lint.Common.{
  ℕ, ◌+◌, ◌*◌, ◌^◌, ◌≤◌, ◌<◌, Bytes, eqb_iff, split, length, all, All, ltb, List, [], ◌∷◌, true,
  false, not, none, some, ◌≡◌, ◌≢◌, ◌↔◌, ◌⊎◌, arith,
}
use zone_lint.Dns.{Soa, Package}
use zone_lint.Checks.Soa.{valid_name, Day, serial_issues, schedule_issues, schedule_finding, check}

-- The schedule of a zone is in order exactly if 0 < retry + 1 ≤ refresh and 0 < expire < 2^31. The
-- test for a refresh of 0 never fires: such a refresh is no more than the retry.
pub schedule_issues-none_iff :
    (s : Soa)
    → (schedule_issues s ≡ none) ↔ ((s.retry < s.refresh) × (0 < s.expire) × (s.expire < 2 ^ 31))
unfolding schedule_issues
schedule_issues-none_iff s = ground arith

-- A day of the calendar, as the program reads it.
abbrev pub IsDay : Day → Type 0
IsDay d = (1 ≤ d.month) × (d.month ≤ 12) × (1 ≤ d.day) × (d.day ≤ 31)

-- A serial in the form YYYYMMDDnn is accepted whatever the day of the audit, if its year is from
-- 2001 on: serials that lie in the future too.
pub serial_issues-canonical :
    (today d : Day) (nn : ℕ)
    → IsDay d
    → nn < 100
    → 2001 ≤ d.year
    → serial_issues today ((d.year * 10000 + d.month * 100 + d.day) * 100 + nn) ≡ false
unfolding serial_issues
serial_issues-canonical today d nn h k y = ground arith

-- From the year 1 to the year 9999 the audit accepts a serial exactly if it is within two of the
-- number YYYYMMDD of the day (eight digits, not ten), or more than 2000010100.
pub serial_issues_iff :
    (today : Day) (serial : ℕ)
    → IsDay today
    → 1 ≤ today.year
    → today.year ≤ 9999
    → (serial_issues today serial ≡ false) ↔ (
        ((today.year * 10000 + today.month * 100 + today.day ≤ serial + 2)
          × (serial ≤ today.year * 10000 + today.month * 100 + today.day + 2))
        ⊎ (2000010100 < serial))
unfolding serial_issues
serial_issues_iff today serial d y z = ground arith

-- A name that the check takes for a valid MNAME or RNAME: it is fully qualified, neither empty nor
-- the root, and no label has more than 63 bytes.
abbrev pub IsValid : Package → Bytes → Type 0
IsValid pkg n =
    (n ≢ [])
    × ((n ≢ b'.' ∷ []) × ((pkg.is_fqdn n ≡ true) × All (λ label. length label ≤ 63) (split b'.' n)))

all-short_iff :
    (labels : List Bytes)
    → (all (λ label. not (ltb 63 (length label))) labels ≡ true)
      ↔ All (λ label. length label ≤ 63) labels
all-short_iff [] = ground arith
all-short_iff (label ∷ labels) = ground (arith, all-short_iff labels)

valid_name_iff : (pkg : Package) (n : Bytes) → (valid_name pkg n ≡ true) ↔ IsValid pkg n
unfolding valid_name
valid_name_iff pkg n =
    ground (arith, eqb_iff n [], eqb_iff n (b'.' ∷ []), all-short_iff (split b'.' n))

-- A serial that is within two of the number YYYYMMDD of the day, or large.
abbrev pub IsAccepted : Day → ℕ → Type 0
IsAccepted today serial =
    ((today.year * 10000 + today.month * 100 + today.day ≤ serial + 2)
      × (serial ≤ today.year * 10000 + today.month * 100 + today.day + 2))
    ⊎ (2000010100 < serial)

check-flags :
    (pkg : Package) (today : Day) (zone : Bytes) (s : Soa)
    → (check pkg today zone (some s) ≡ []) ↔ (
        (valid_name pkg s.mbox ≡ true)
        × (valid_name pkg s.ns ≡ true)
        × (serial_issues today s.serial ≡ false)
        × ((s.retry < s.refresh) × (0 < s.expire) × (s.expire < 2 ^ 31))
        × (30 ≤ s.minttl))
unfolding check schedule_finding
check-flags pkg today zone s = ground (arith, schedule_issues-none_iff s)

-- From the year 1 to the year 9999 the SOA check is silent exactly if RNAME and MNAME are fully
-- qualified names other than the root with no label above 63 bytes, the serial is within two of the
-- number YYYYMMDD of the day or more than 2000010100, the retry is below the refresh, the expiry is
-- from 1 to 2^31 - 1, and the negative-cache TTL is at least 30. A retry of 0 passes.
pub soa_check-nil_iff :
    (pkg : Package) (today : Day) (zone : Bytes) (s : Soa)
    → IsDay today
    → 1 ≤ today.year
    → today.year ≤ 9999
    → (check pkg today zone (some s) ≡ []) ↔ (
        IsValid pkg s.mbox
        × IsValid pkg s.ns
        × IsAccepted today s.serial
        × ((s.retry < s.refresh) × (0 < s.expire) × (s.expire < 2 ^ 31))
        × (30 ≤ s.minttl))
soa_check-nil_iff pkg today zone s d y z =
    let mbox = valid_name_iff pkg s.mbox in
    let ns = valid_name_iff pkg s.ns in
    let serial = serial_issues_iff today s.serial d y z in
    let flags = check-flags pkg today zone s in
    (
      λ e. let (a, b, c, f, g) = flags.0 e in (mbox.0 a, ns.0 b, serial.0 c, f, g),
      λ (a, b, c, f, g). flags.1 (mbox.1 a, ns.1 b, serial.1 c, f, g),
    )
