-- ===== src/Classic/Judged.antt =====
-- A submission that is judged: its report has a row for each test, and its verdict and its score say
-- the same of the rows.
use brunost_judge.Prelude.{
  ℕ, suc, String, ◌≡◌, ◌≢◌, ◌↔◌, refl, sym, ap, ◌∙◌, subst, inl, inr, ◌⊎◌, Bool, true, false,
  Bool-cases, some, Option-cases, List, [], ◌∷◌, length, nat_eq, arith, All,
}
use brunost_judge.Sql.{rowcount}
use brunost_judge.Classic.Process.{passed, Verdict, wa, ce, ac}
use brunost_judge.Classic.Checker.{
  TestCase, TestFiles, Checker, Texts, cases_of, test_cases, case_of,
}
use brunost_judge.Classic.Settings.{ClassicConfig, uses_reference, is_all_or_nothing}
use brunost_judge.Classic.Judge.{
  is_passed, World, Compiled, cannot_compile, compile_failure, compiled, Row, Report, is_break,
  compile, resolved, reference_answers, judge_cases, count_passed, report, score_of, compile_error,
  answered_by, output_of, judge, run_classic,
}
use brunost_judge.Classic.Report.{
  file_ids, case_ids, row_ids, fresh_ids, judge_cases-ids, count_passed-eq-rowcount,
  count_passed-all, overall-passed, is_ac, overall-not_ac, overall-break,
}

-- the report has one row for each of these tests, in their order, and counts those with the verdict OK;
-- it is accepted exactly if all of them have it, and if the score is full; and it names a stop exactly
-- if one of them was stopped
pub record IsReport (ids : List String) (r : Report) : Type 0 where
  pub one_each : row_ids r.tests ≡ ids
  pub counted : r.total_tests ≡ length ids
  pub tallied : r.passed_tests ≡ rowcount (λ row. is_passed row.verdict) r.tests
  pub accepted : (r.verdict ≡ ac) ↔ All (λ row. row.verdict ≡ passed) r.tests
  pub full : (r.verdict ≡ ac) ↔ (r.score.0 ≡ r.score.1)
  pub settled : (is_break r.verdict ≡ false) ↔ All (λ row. is_break row.verdict ≡ false) r.tests

length-row_ids : (rows : List Row) → length rows ≡ length (row_ids rows)
length-row_ids [] = refl
length-row_ids (r ∷ rows) = ap suc (length-row_ids rows)

same_side {ℓ κ} : {A : Type ℓ} {B : Type κ} → A → B → A ↔ B
same_side a b = (λ x. b, λ x. a)

other_side {ℓ κ} : {A : Type ℓ} {B : Type κ} → (A → ⊥) → (B → ⊥) → A ↔ B
other_side a b = (λ x. absurd (a x), λ x. absurd (b x))

full-score : (b : Bool) (n : ℕ) → (score_of b n n).0 ≡ (score_of b n n).1
full-score true n = ground (arith)
full-score false n = refl

part-score :
    (b : Bool) (n total : ℕ)
    → nat_eq n total ≡ false
    → (score_of b n total).0 ≢ (score_of b n total).1
part-score true n total other h = absurd (ground (arith, other, h))
part-score false n total other h = absurd (ground (arith, other, h))

not_ac : (v : Verdict) → is_ac v ≡ false → v ≢ ac
not_ac v h same = absurd (ground (arith, h, same))

report-IsReport :
    (cfg : ClassicConfig) (stderr : String) (rows : List Row)
    → IsReport (row_ids rows) (report cfg stderr rows)
unfolding report
report-IsReport cfg stderr rows = elim (Bool-cases (nat_eq (count_passed rows) (length rows))) [
  | inl all ↦
      let same : count_passed rows ≡ length rows = ground (arith, all) in
      let verdict : (report cfg stderr rows).verdict ≡ ac = rw all (overall-passed ac rows same) in
      record {
        one_each = refl;
        counted = length-row_ids rows;
        tallied = count_passed-eq-rowcount rows;
        accepted = same_side verdict ((count_passed-all rows).0 same);
        full = same_side verdict (
            subst
              (λ k.
                (score_of (is_all_or_nothing cfg) k (length rows)).0
                ≡ (score_of (is_all_or_nothing cfg) k (length rows)).1)
              (sym same) (full-score (is_all_or_nothing cfg) (length rows)));
        settled = rw all (overall-break ac rows refl);
      }
  | inr other ↦
      let differ : (report cfg stderr rows).verdict ≢ ac =
        not_ac (report cfg stderr rows).verdict (rw other (overall-not_ac rows)) in
      record {
        one_each = refl;
        counted = length-row_ids rows;
        tallied = count_passed-eq-rowcount rows;
        accepted =
            other_side differ
              (λ all. absurd (ground (arith, (count_passed-all rows).1 all, other)));
        full =
            other_side differ
              (part-score (is_all_or_nothing cfg) (count_passed rows) (length rows) other);
        settled = rw other (overall-break wa rows refl);
      }
]

cases_of-ids :
    (b : Bool) (fs : List TestFiles) (cases : List TestCase)
    → cases_of b fs ≡ some cases
    → case_ids cases ≡ file_ids fs
unfolding cases_of
cases_of-ids b [] cases h = let same : [] ≡ cases = ground (arith, h) in sym (ap case_ids same)
cases_of-ids b (f ∷ fs) cases h = elim (Option-cases (cases_of b fs)) [
  | inl bad ↦ absurd (ground (arith, bad, h))
  | inr (rest, found) ↦
      let same : case_of f ∷ rest ≡ cases = ground (arith, found, h) in
      sym (ap case_ids same) ∙ ap (λ l. f.test_id ∷ l) (cases_of-ids b fs rest found)
]

resolved-ids :
    (cfg : ClassicConfig) (w : World) (cs answered : List TestCase)
    → resolved cfg w cs ≡ some answered
    → case_ids answered ≡ case_ids cs
unfolding resolved
resolved-ids cfg w [] answered h =
    let same : [] ≡ answered = ground (arith, h) in sym (ap case_ids same)
resolved-ids cfg w (c ∷ cs) answered h = elim (Option-cases (resolved cfg w cs)) [
  | inl bad ↦ absurd (ground (arith, bad, h))
  | inr (rest, found) ↦
      let same : record c { answer = some (output_of (w.reference c)) } ∷ rest ≡ answered =
        ground (arith, found, h) in
      sym (ap case_ids same) ∙ ap (λ l. c.test_id ∷ l) (resolved-ids cfg w cs rest found)
]

test_cases-ids :
    (b : Bool) (fs : List TestFiles) (cases : List TestCase)
    → test_cases b fs ≡ some cases
    → case_ids cases ≡ file_ids fs
unfolding test_cases
test_cases-ids b fs cases h = elim (Option-cases (cases_of b fs)) [
  | inl bad ↦ absurd (ground (arith, bad, h))
  | inr ([], found) ↦ absurd (ground (arith, found, h))
  | inr (c ∷ cs, found) ↦
      let same : c ∷ cs ≡ cases = ground (arith, found, h) in
      sym (ap case_ids same) ∙ cases_of-ids b fs (c ∷ cs) found
]

compiled_ids :
    (cfg : ClassicConfig) (w : World) (cs answered : List TestCase) (made : Compiled)
    → answered_by cfg w cs made ≡ some answered
    → case_ids answered ≡ case_ids cs
compiled_ids cfg w cs answered cannot_compile h = absurd (cc)
compiled_ids cfg w cs answered (compile_failure message) h = absurd (cc)
compiled_ids cfg w cs answered (compiled stderr) h = resolved-ids cfg w cs answered h

reference_answers-ids :
    (cfg : ClassicConfig) (w : World) (cs answered : List TestCase)
    → reference_answers cfg w cs ≡ some answered
    → case_ids answered ≡ case_ids cs
unfolding reference_answers
reference_answers-ids cfg w cs answered h = elim (Bool-cases (uses_reference cfg)) [
  | inl asked ↦
      compiled_ids cfg w cs answered (compile w.reference_tools) (ground (arith, asked, h))
  | inr given ↦ let same : cs ≡ answered = ground (arith, given, h) in sym (ap case_ids same)
]

-- a submission that does not compile
pub record IsCompileError (r : Report) : Type 0 where
  pub named : r.verdict ≡ ce
  pub nothing : r.score ≡ (0, 1)
  pub no_tests : r.tests ≡ []

compile_error-IsCompileError :
    (cfg : ClassicConfig) (message : String) (total : ℕ)
    → IsCompileError (compile_error cfg message total)
unfolding compile_error
compile_error-IsCompileError cfg message total = record {
  named = refl;
  nothing = refl;
  no_tests = refl;
}

judge-result :
    (t : Texts) (checker : Checker) (cfg : ClassicConfig) (w : World) (cs : List TestCase)
    (made : Compiled) (r : Report)
    → fresh_ids [] (case_ids cs) ≡ true
    → judge t checker cfg w cs made ≡ some r
    → IsCompileError r ⊎ IsReport (case_ids cs) r
unfolding judge
judge-result t checker cfg w cs cannot_compile r fresh h = absurd (cc)
judge-result t checker cfg w cs (compile_failure message) r fresh h =
    let same : compile_error cfg message (length cs) ≡ r = ground (arith, h) in
    inl (subst IsCompileError same (compile_error-IsCompileError cfg message (length cs)))
judge-result t checker cfg w cs (compiled stderr) r fresh h =
    elim (Option-cases (judge_cases t checker cfg w [] cs)) [
      | inl bad ↦ absurd (ground (arith, bad, h))
      | inr (rows, found) ↦
          let same : report cfg stderr rows ≡ r = ground (arith, found, h) in
          let ids : row_ids rows ≡ case_ids cs =
            judge_cases-ids t checker cfg w [] cs rows fresh found in
          inr (
            subst (IsReport (case_ids cs)) same (
              subst (λ l. IsReport l (report cfg stderr rows)) ids
                (report-IsReport cfg stderr rows)))
    ]

-- If the tests have different names, and the judging completes, then the submission did not compile,
-- which is the verdict, with no score and no tests; or the report has a row for each test, in their
-- order, is accepted exactly if each row has the verdict OK, which is when the score is full, counts
-- the rows that have it, and has the verdict TLE, OLE or RE exactly if one of the rows has.
pub completed-IsReport :
    (t : Texts) (checker : Checker) (cfg : ClassicConfig) (files : List TestFiles) (w : World)
    (r : Report)
    → fresh_ids [] (file_ids files) ≡ true
    → run_classic t checker cfg files w ≡ some r
    → IsCompileError r ⊎ IsReport (file_ids files) r
unfolding run_classic
completed-IsReport t checker cfg files w r fresh h =
    elim (Option-cases (test_cases (uses_reference cfg) files)) [
      | inl bad ↦ absurd (ground (arith, bad, h))
      | inr (cases, read) ↦ elim (Option-cases (reference_answers cfg w cases)) [
        | inl bad ↦ absurd (ground (arith, read, bad, h))
        | inr (answered, found) ↦
            let ids : case_ids answered ≡ file_ids files =
              reference_answers-ids cfg w cases answered found
              ∙ test_cases-ids (uses_reference cfg) files cases read in
            subst (λ l. IsCompileError r ⊎ IsReport l r) ids
              (judge-result t checker cfg w answered (compile w.candidate_tools) r
                (subst (λ l. fresh_ids [] l ≡ true) (sym ids) fresh)
                (ground (arith, read, found, h)))
      ]
    ]
