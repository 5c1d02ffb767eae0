-- ===== src/Checks/Axfr.antt =====
-- internal/axfr/axfr.go: the outcome of a zone transfer and its record limit.
pub mod Bounded
use zone_lint.Common.{
  ℕ, Bytes, text, eqb, itoa, length, take, List, [], ◌∷◌, ◌++◌, Bool, true, false, ◌||◌, not,
  Option, none, some, ◌==◌, leb, if◌then◌else◌,
}
use zone_lint.Dns.{Slot, Msg}
use zone_lint.Dns.Codes.{rcode_success, rcode_refused}
use zone_lint.Findings.{Finding, new, with_zone}
use zone_lint.Findings.Catalog.{axfr_allowed, axfr_refused, axfr_failed}

-- Outcome; the status is one of three texts.
pub record Outcome : Type 0 where
  pub server : Bytes
  pub status : Bytes
  pub record_count : ℕ
  pub records : List Slot

-- Config, with the fields that are read.
pub record Config : Type 0 where
  pub max_records : ℕ
  pub show_records : Bool

-- DefaultConfig
unfoldable pub default_config : Config
default_config = record { max_records = 1000; show_records = false }

-- Evaluate; `none` is a nil outcome.
unfoldable pub evaluate : Bytes → Bytes → Option Outcome → List Finding
evaluate zone server none = []
evaluate zone server (some o) =
    if eqb o.status (text "allowed")
    then with_zone
        (new axfr_allowed server
          (text
            "The authoritative server accepted an AXFR request and exposed the full zone contents.")
          ((text "server "
              ++ (server ++ (text " returned " ++ (itoa o.record_count ++ text " records"))))
            ∷ []))
        zone
      ∷ []
    else if eqb o.status (text "refused")
    then with_zone
        (new axfr_refused server (text "The server refused AXFR, which is the secure default.") [])
        zone
      ∷ []
    else if eqb o.status (text "failed")
    then with_zone
        (new axfr_failed server
          (text "The AXFR request failed (timeout, format error, or server error).") [])
        zone
      ∷ []
    else []

-- LimitRecords; a limit of 0 or less is 0 here.
unfoldable pub limit_records : List Slot → ℕ → List Slot
limit_records records max =
    if max == 0 || leb (length records) max then records else take max records

-- ParseTransferResult; `none` is a nil message.
unfoldable pub parse_transfer_result : Option Msg → Config → Outcome
parse_transfer_result none cfg = record {
  server = [];
  status = text "failed";
  record_count = 0;
  records = [];
}
parse_transfer_result (some resp) cfg =
    if resp.rcode == rcode_refused
    then record { server = []; status = text "refused"; record_count = 0; records = [] }
    else if not (resp.rcode == rcode_success)
    then record { server = []; status = text "failed"; record_count = 0; records = [] }
    else let records : List Slot = if cfg.show_records then [] ++ resp.answer else resp.answer in
      let limited = limit_records records cfg.max_records in
      record {
        server = [];
        status = text "allowed";
        record_count = length limited;
        records = limited;
      }
