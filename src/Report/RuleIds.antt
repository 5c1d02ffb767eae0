-- ===== src/Report/RuleIds.antt =====
-- The rules of a SARIF report are those of its results.
use zone_lint.Common.{Bytes, eqb_iff, List, [], ◌∷◌, map, Any, ◌≡◌, ◌↔◌, ◌⊎◌, arith}
use zone_lint.Common.Dict.{Dict, put}
use zone_lint.Common.Order.{compare_text}
use zone_lint.Common.Sort.{insert_by, sort_by}
use zone_lint.Findings.{Finding}
use zone_lint.Report.{SarifRule, sarif_report, title_of, rule_list, titles_onto}

Any-insert_by :
    (k x : Bytes) (l : List Bytes)
    → Any (λ y. y ≡ k) (insert_by compare_text x l) ↔ ((x ≡ k) ⊎ Any (λ y. y ≡ k) l)
unfolding insert_by
Any-insert_by k x [] = ground arith
Any-insert_by k x (y ∷ l) = ground (arith, Any-insert_by k x l)

Any-sort_by :
    (k : Bytes) (l : List Bytes) → Any (λ y. y ≡ k) (sort_by compare_text l) ↔ Any (λ y. y ≡ k) l
unfolding sort_by
Any-sort_by k [] = ground arith
Any-sort_by k (x ∷ l) = ground (arith, Any-insert_by k x (sort_by compare_text l), Any-sort_by k l)

Any-ids :
    (k : Bytes) (title : Bytes → Bytes) (l : List Bytes)
    → Any (λ (r : SarifRule). r.id ≡ k) (map (λ j. record { id = j; text = title j }) l)
      ↔ Any (λ y. y ≡ k) l
Any-ids k title [] = ground arith
Any-ids k title (j ∷ l) = ground (arith, Any-ids k title l)

Any-put :
    (k j : Bytes) (v : Bytes) (m : Dict Bytes)
    → Any (λ y. y ≡ k) (map (λ e. e.0) (put j v m))
      ↔ ((j ≡ k) ⊎ Any (λ y. y ≡ k) (map (λ e. e.0) m))
unfolding put
Any-put k j v [] = ground arith
Any-put k j v ((i, w) ∷ m) = ground (arith, eqb_iff i j, Any-put k j v m)

Any-titles :
    (k : Bytes) (fs : List Finding) (m : Dict Bytes)
    → Any (λ y. y ≡ k) (map (λ e. e.0) (titles_onto fs m))
      ↔ (Any (λ f. f.id ≡ k) fs ⊎ Any (λ y. y ≡ k) (map (λ e. e.0) m))
unfolding titles_onto
Any-titles k [] m = ground arith
Any-titles k (f ∷ fs) m =
    ground (arith, Any-put k f.id f.title m, Any-titles k fs (put f.id f.title m))

-- An ID stands among the rules of a SARIF report exactly when some finding has it.
pub sarif_report-rules_iff :
    (zone : Bytes) (fs : List Finding) (k : Bytes)
    → Any (λ (r : SarifRule). r.id ≡ k) (sarif_report zone fs).rules ↔ Any (λ f. f.id ≡ k) fs
unfolding sarif_report rule_list
sarif_report-rules_iff zone fs k =
    let rules = titles_onto fs [] in
    ground (
      arith,
      Any-ids k (λ j. title_of j rules) (sort_by compare_text (map (λ e. e.0) rules)),
      Any-sort_by k (map (λ e. e.0) rules),
      Any-titles k fs [],
    )
