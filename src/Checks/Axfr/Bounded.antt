-- ===== src/Checks/Axfr/Bounded.antt =====
-- A transfer keeps no more records than its limit, and reports what it kept.
use zone_lint.Common.{
  ℕ, zero, suc, ◌≤◌, ◌<◌, Bytes, text, eqb_iff, length, length-take, take, List, [], ◌∷◌, some, ◌≡◌,
  ◌⊎◌, inl, inr, refl, ap, map, Bool-cases, arith, ◌==◌, if◌then◌else◌,
}
use zone_lint.Dns.{Slot, Msg}
use zone_lint.Dns.Codes.{rcode_success, rcode_refused}
use zone_lint.Findings.{Rule, new, with_zone}
use zone_lint.Findings.Catalog.{axfr_allowed, axfr_refused, axfr_failed}
use zone_lint.Checks.Axfr.{Outcome, Config, evaluate, limit_records, parse_transfer_result}

take_all {ℓ} : {A : Type ℓ} (xs : List A) (n : ℕ) → length xs ≤ n → take n xs ≡ xs
take_all [] zero h = refl
take_all [] (suc n) h = refl
take_all (x ∷ xs) zero h = absurd (omega arith)
take_all (x ∷ xs) (suc n) h = ap (◌∷◌ x) (take_all xs n (omega arith))

-- LimitRecords keeps the first `max` records.
pub limit_records-take :
    (records : List Slot) (max : ℕ) → 0 < max → limit_records records max ≡ take max records
unfolding limit_records
limit_records-take records max h = ground (arith, take_all records max)

-- The records that an accepted transfer keeps.
abbrev pub kept : Msg → Config → List Slot
kept resp cfg =
    if resp.rcode == rcode_success
    then if cfg.max_records == 0 then resp.answer else take cfg.max_records resp.answer
    else []

-- An outcome holds the first `max_records` records of an accepted transfer (all of them where
-- the limit is 0) and none of another one, counts them, and does so whether or not they are to
-- be shown.
pub parse_transfer_result-kept :
    (resp : Msg) (cfg : Config)
    → ((parse_transfer_result (some resp) cfg).records ≡ kept resp cfg)
      × ((parse_transfer_result (some resp) cfg).record_count ≡ length (kept resp cfg))
      × ((parse_transfer_result (some resp) cfg).record_count
          ≤ (if cfg.max_records == 0 then length resp.answer else cfg.max_records))
unfolding parse_transfer_result limit_records
parse_transfer_result-kept resp cfg =
    let all = take_all resp.answer cfg.max_records in
    let count = length-take cfg.max_records resp.answer in
    (ground (arith, all), ground (arith, all), ground (arith, all, count))

-- The rule that a response code stands for.
abbrev pub rule_of : ℕ → Rule
rule_of rcode =
    if rcode == rcode_refused
    then axfr_refused
    else if rcode == rcode_success
    then axfr_allowed
    else axfr_failed

pub evaluate-status :
    (zone server : Bytes) (o : Outcome) (status : Bytes) (rule : Rule)
    → o.status ≡ status
    → ((status ≡ text "allowed") × (rule ≡ axfr_allowed))
      ⊎ (((status ≡ text "refused") × (rule ≡ axfr_refused))
          ⊎ ((status ≡ text "failed") × (rule ≡ axfr_failed)))
    → map {B = Bytes} (λ f. f.id) (evaluate zone server (some o)) ≡ rule.id ∷ []
unfolding evaluate new with_zone text
evaluate-status zone server o status rule e (inl (s, r)) =
    ground (arith, eqb_iff o.status (text "allowed"))
evaluate-status zone server o status rule e (inr (inl (s, r))) =
    ground (arith, eqb_iff o.status (text "allowed"), eqb_iff o.status (text "refused"))
evaluate-status zone server o status rule e (inr (inr (s, r))) = ground (
  arith,
  eqb_iff o.status (text "allowed"),
  eqb_iff o.status (text "refused"),
  eqb_iff o.status (text "failed"),
)

-- Every transfer response is reported by one finding: as refused for the code REFUSED, as allowed
-- for success, and as failed for every other code.
pub evaluate-parse_transfer_result :
    (zone server : Bytes) (resp : Msg) (cfg : Config)
    → map {B = Bytes}
        (λ f. f.id)
        (evaluate zone server (some (parse_transfer_result (some resp) cfg)))
      ≡ (rule_of resp.rcode).id ∷ []
unfolding parse_transfer_result
evaluate-parse_transfer_result zone server resp cfg =
    elim (Bool-cases (resp.rcode == rcode_refused)) [
      | inl refused ↦
          evaluate-status zone server (parse_transfer_result (some resp) cfg) (text "refused")
            (rule_of resp.rcode) (ground arith) (inr (inl (refl, ground arith)))
      | inr other ↦ elim (Bool-cases (resp.rcode == rcode_success)) [
        | inl success ↦
            evaluate-status zone server (parse_transfer_result (some resp) cfg) (text "allowed")
              (rule_of resp.rcode) (ground arith) (inl (refl, ground arith))
        | inr failed ↦
            evaluate-status zone server (parse_transfer_result (some resp) cfg) (text "failed")
              (rule_of resp.rcode) (ground arith) (inr (inr (refl, ground arith)))
      ]
    ]
