-- ===== src/Checks/Soa.antt =====
-- internal/soa/soa.go: the check of the SOA record.
pub mod Rules
use zone_lint.Common.{
  ℕ, ◌+◌, ◌-◌, ◌*◌, ◌%◌, ◌^◌, Bytes, text, eqb, itoa, split, length, all, when, List, [], ◌∷◌, ◌++◌,
  Bool, true, false, ◌&&◌, ◌||◌, not, Option, none, some, ◌==◌, ltb, leb, if◌then◌else◌,
}
use zone_lint.Dns.{Soa, Package}
use zone_lint.Findings.{Finding, new}
use zone_lint.Findings.Catalog.{
  soa_invalid_rname, soa_invalid_mname, soa_serial_format, soa_schedule, soa_negative_ttl,
}

-- validName
unfoldable pub valid_name : Package → Bytes → Bool
unfolding eqb
valid_name pkg n =
    if eqb n [] || eqb n (b'.' ∷ [])
    then false
    else if not (pkg.is_fqdn n)
    then false
    else all (λ label. not (ltb 63 (length label))) (split b'.' n)

-- The day of time.Now(), read by serialIssues.
pub record Day : Type 0 where
  pub year : ℕ
  pub month : ℕ
  pub day : ℕ

-- The variable `year` of serialIssues, a uint32: the day as YYYYMMDD.
unfoldable pub day_number : Day → ℕ
day_number d = (d.year * 10000 + d.month * 100 + d.day) % 2 ^ 32

-- serialIssues: whether it returns errNonCanonical. The sums are those of uint32.
unfoldable pub serial_issues : Day → ℕ → Bool
unfolding day_number
serial_issues d serial =
    let year = day_number d in
    if leb ((year + 2 ^ 32 - 2) % 2 ^ 32) serial && leb serial ((year + 2) % 2 ^ 32)
    then false
    else if ltb 2000010100 serial
    then false
    else true

-- scheduleIssues: the message of the error, if there is one.
unfoldable pub schedule_issues : Soa → Option Bytes
schedule_issues s =
    if leb s.refresh s.retry
    then some (text "retry >= refresh")
    else if s.expire == 0 || ltb 0x7fffffff s.expire
    then some (text "expire out of range")
    else if s.refresh == 0
    then some (text "refresh is zero")
    else none

unfoldable pub schedule_finding : Bytes → Soa → Option Bytes → List Finding
schedule_finding zone s none = []
schedule_finding zone s (some issue) =
    new soa_schedule zone issue (
      (text "refresh="
        ++ (itoa s.refresh
            ++ (text " retry="
                ++ (itoa s.retry
                    ++ (text " expire="
                        ++ (itoa s.expire ++ (text " minimum=" ++ itoa s.minttl)))))))
      ∷ [])
    ∷ []

-- Check
unfoldable pub check : Package → Day → Bytes → Option Soa → List Finding
unfolding schedule_finding
check pkg today zone none = []
check pkg today zone (some s) =
    when (not (valid_name pkg s.mbox)) (
      new soa_invalid_rname zone
        (text "The SOA RNAME (responsible email address) is not a valid domain name.")
        ((text "RNAME=" ++ s.mbox) ∷ []))
    ++ (when (not (valid_name pkg s.ns)) (
          new soa_invalid_mname zone
            (text "The SOA MNAME (primary name server) is not a valid domain name.")
            ((text "MNAME=" ++ s.ns) ∷ []))
        ++ (when (serial_issues today s.serial) (
              new soa_serial_format zone
                (text
                  "The SOA serial does not resemble the canonical YYYYMMDDnn form and may indicate manual increments.")
                ((text "serial=" ++ itoa s.serial) ∷ []))
            ++ (schedule_finding zone s (schedule_issues s)
                ++ when (ltb s.minttl 30) (
                    new soa_negative_ttl zone
                      (text
                        "A very low negative-cache TTL can increase loader queries; treated as info, not a violation.")
                      []))))
