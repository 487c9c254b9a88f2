-- ===== src/Classic/Report.antt =====
-- What the report on a submission says of its tests.
use brunost_judge.Prelude.{
  ℕ, ◌≤◌, String, ◌≡◌, ◌↔◌, refl, sym, ap, ◌∙◌, subst, inl, inr, Bool, true, false, not, ◌&&◌,
  Bool-cases, Option, none, some, Option-cases, List, [], ◌∷◌, ◌++◌, length, map, contains, arith,
  ◌==◌, eq_iff, All, if◌then◌else◌,
}
use brunost_judge.Sql.{rowcount}
use brunost_judge.Classic.Process.{Verdict, passed, wa, ac, ProcessOutcome, run_process}
use brunost_judge.Classic.Checker.{TestCase, TestFiles, Checker, Texts, check_output}
use brunost_judge.Classic.Settings.{ClassicConfig}
use brunost_judge.Classic.Judge.{
  World, Row, is_passed, is_break, case_limits, output_of, checked_row, row_with, row_of, put_row,
  judge_cases, count_passed, overall,
}

-- the names of the tests are different from each other, and from those that are seen
unfoldable pub fresh_ids : List String → List String → Bool
unfolding contains
fresh_ids seen [] = true
fresh_ids seen (i ∷ is) = not (contains i seen) && fresh_ids (seen ++ i ∷ []) is

abbrev pub file_ids : List TestFiles → List String
file_ids = map (λ (f : TestFiles). f.test_id)

abbrev pub case_ids : List TestCase → List String
case_ids = map (λ (c : TestCase). c.test_id)

abbrev pub row_ids : List Row → List String
row_ids = map (λ (r : Row). r.test_id)

checked_row-id :
    (c : TestCase) (o : ProcessOutcome) (checked : Option (Bool × String)) (r : Row)
    → checked_row c o checked ≡ some r
    → r.test_id ≡ c.test_id
unfolding checked_row
checked_row-id c o none r h = absurd (cc)
checked_row-id c o (some (b, m)) r h =
    let same : row_with c o (if b then passed else wa) (if m == "" then o.stderr else m) ≡ r =
      ground (arith, h) in
    sym (ap (λ (x : Row). x.test_id) same)

row_of-id :
    (t : Texts) (checker : Checker) (c : TestCase) (o : ProcessOutcome) (output : List ℕ) (r : Row)
    → row_of t checker c o output ≡ some r
    → r.test_id ≡ c.test_id
unfolding row_of
row_of-id t checker c o output r h = elim (Bool-cases (is_passed o.verdict)) [
  | inl fine ↦ checked_row-id c o (check_output t checker c output) r (ground (arith, fine, h))
  | inr bad ↦
      let same : row_with c o o.verdict o.stderr ≡ r = ground (arith, bad, h) in
      sym (ap (λ (x : Row). x.test_id) same)
]

put_row-ids :
    (r : Row) (rows : List Row)
    → contains r.test_id (row_ids rows) ≡ false
    → row_ids (put_row r rows) ≡ row_ids rows ++ r.test_id ∷ []
unfolding put_row contains
put_row-ids r [] h = refl
put_row-ids r (s ∷ rows) h =
    let other : (s.test_id == r.test_id) ≡ false =
      ground (arith, h, eq_iff s.test_id r.test_id, eq_iff r.test_id s.test_id) in
    rw other (ap (λ l. s.test_id ∷ l) (put_row-ids r rows (ground (arith, h))))

append_nil : (xs : List String) → xs ++ [] ≡ xs
append_nil [] = refl
append_nil (x ∷ xs) = ap (λ ys. x ∷ ys) (append_nil xs)

append_one :
    (xs : List String) (y : String) (zs : List String) → (xs ++ y ∷ []) ++ zs ≡ xs ++ y ∷ zs
append_one [] y zs = refl
append_one (x ∷ xs) y zs = ap (λ l. x ∷ l) (append_one xs y zs)

pub judge_cases-ids :
    (t : Texts) (checker : Checker) (cfg : ClassicConfig) (w : World) (rows : List Row)
    (cs : List TestCase) (all : List Row)
    → fresh_ids (row_ids rows) (case_ids cs) ≡ true
    → judge_cases t checker cfg w rows cs ≡ some all
    → row_ids all ≡ row_ids rows ++ case_ids cs
unfolding fresh_ids judge_cases
judge_cases-ids t checker cfg w rows [] all fresh h =
    let same : rows ≡ all = ground (arith, h) in
    sym (ap row_ids same) ∙ sym (append_nil (row_ids rows))
judge_cases-ids t checker cfg w rows (c ∷ cs) all fresh h =
    let outcome = run_process (case_limits cfg) (w.candidate c) in
    elim (Option-cases (row_of t checker c outcome (output_of (w.candidate c)))) [
      | inl bad ↦ absurd (ground (arith, bad, h))
      | inr (r, found) ↦
          let same : r.test_id ≡ c.test_id =
            row_of-id t checker c outcome (output_of (w.candidate c)) r found in
          let new : contains r.test_id (row_ids rows) ≡ false = ground (arith, same, fresh) in
          let ids : row_ids (put_row r rows) ≡ row_ids rows ++ c.test_id ∷ [] =
            put_row-ids r rows new ∙ ap (λ i. row_ids rows ++ i ∷ []) same in
          let further : fresh_ids (row_ids (put_row r rows)) (case_ids cs) ≡ true =
            subst (λ l. fresh_ids l (case_ids cs) ≡ true) (sym ids) (ground (arith, fresh)) in
          let rest : judge_cases t checker cfg w (put_row r rows) cs ≡ some all =
            ground (arith, found, h) in
          judge_cases-ids t checker cfg w (put_row r rows) cs all further rest
          ∙ ap (λ l. l ++ case_ids cs) ids
          ∙ append_one (row_ids rows) c.test_id (case_ids cs)
    ]

pub count_passed-le_length : (rows : List Row) → count_passed rows ≤ length rows
unfolding count_passed
count_passed-le_length [] = omega arith
count_passed-le_length (r ∷ rows) = ground (arith, count_passed-le_length rows)

passed-is_passed : (v : Verdict) → (is_passed v ≡ true) ↔ (v ≡ passed)
passed-is_passed passed = (λ h. refl, λ h. refl)
passed-is_passed v = (λ h. absurd (cc), λ h. absurd (cc))

-- the counter counts the rows with the verdict OK
pub count_passed-eq-rowcount :
    (rows : List Row) → count_passed rows ≡ rowcount (λ row. is_passed row.verdict) rows
unfolding count_passed rowcount
count_passed-eq-rowcount [] = refl
count_passed-eq-rowcount (r ∷ rows) = ground (arith, count_passed-eq-rowcount rows)

-- it reaches the number of the rows exactly if each of them has that verdict
pub count_passed-all :
    (rows : List Row) → (count_passed rows ≡ length rows) ↔ All (λ row. row.verdict ≡ passed) rows
unfolding count_passed
count_passed-all [] = (λ h. tt, λ h. refl)
count_passed-all (r ∷ rows) =
    let rest = count_passed-all rows in
    let bound = count_passed-le_length rows in
    let is_ok = passed-is_passed r.verdict in
    (
      λ h. (is_ok.0 (ground (arith, h, bound)), rest.0 (ground (arith, h, bound))),
      λ all. ground (arith, is_ok.1 all.0, rest.1 all.1),
    )

break-is_not_passed : (v : Verdict) → is_passed v ≡ true → is_break v ≡ false
break-is_not_passed passed h = refl
break-is_not_passed _ h = absurd (cc)

pub overall-passed :
    (v : Verdict) (rows : List Row) → count_passed rows ≡ length rows → overall v rows ≡ v
unfolding count_passed overall
overall-passed v [] h = refl
overall-passed v (r ∷ rows) h =
    let bound = count_passed-le_length rows in
    let fine : is_passed r.verdict ≡ true = ground (arith, h, bound) in
    let rest : count_passed rows ≡ length rows = ground (arith, h, bound) in
    rw (break-is_not_passed r.verdict fine) (overall-passed v rows rest)

abbrev pub is_ac : Verdict → Bool
is_ac ac = true
is_ac _ = false

break-is_not_ac : (v : Verdict) → is_break v ≡ true → is_ac v ≡ false
break-is_not_ac ac h = absurd (cc)
break-is_not_ac _ h = refl

pub overall-not_ac : (rows : List Row) → is_ac (overall wa rows) ≡ false
unfolding overall
overall-not_ac [] = refl
overall-not_ac (r ∷ rows) = elim (Bool-cases (is_break r.verdict)) [
  | inl stops ↦ rw stops (break-is_not_ac r.verdict stops)
  | inr goes ↦ rw goes (overall-not_ac rows)
]

pub overall-break :
    (v : Verdict) (rows : List Row)
    → is_break v ≡ false
    → (is_break (overall v rows) ≡ false) ↔ All (λ r. is_break r.verdict ≡ false) rows
unfolding overall
overall-break v [] h = (λ x. tt, λ x. h)
overall-break v (r ∷ rows) h = elim (Bool-cases (is_break r.verdict)) [
  | inl stops ↦ rw stops (λ x. absurd (cc), λ all. absurd (cc))
  | inr goes ↦
      let rest = overall-break v rows h in rw goes (λ x. (refl, rest.0 x), λ all. rest.1 all.1)
]
