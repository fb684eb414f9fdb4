-- ===== src/Web/Management/TestCases/Sound.antt =====
-- ppweb/contest_each.go with lib/database/contest_problem.go: the names of the tests and the score sets
-- that the page of the tests hands to the database.
use popcon_sc.Prelude.{
  ℕ, ◌≤◌, ◌≡◌, refl, ap, ◌∙◌, Bool, true, false, not, ◌&&◌, ◌||◌, List, [], ◌∷◌, ℤ, pos, ltb, leb,
  ltb_ℤ, leb_ℤ, All, IsInt64, arith, Text, text, subst, sym, length, ◌==◌,
}
use popcon_sc.Codec.Decimal.{parse_int}
use popcon_sc.Codec.Fields.{split, split-cons}
use popcon_sc.Codec.Queries.{get_cases, set_cases, get_cases-set_cases}
use popcon_sc.Web.Texts.{trim_space}
use popcon_sc.Web.Rows.{ProblemRow, ScoreSetRow}
use popcon_sc.Web.Handler.{Call, update_test_case_names, status_bad_request, status_not_found}
use popcon_sc.Web.Reply.{
  illegal_parameter, management_testcase_list, status, page, failed, unless_unknown_problem, Host,
  run, Form, Method, get, post, other_method,
}
use popcon_sc.Web.Contract.{Ensures, Ensures-guard, Ensures-expect, Ensures-expect_nil, Ensures-run}
use popcon_sc.Web.Contest.{ContestEachPreparedData}
use popcon_sc.Web.Management.TestCases.{read_case_ids, read_score_sets, save_testcases, testcases}

-- Numbers of cases from 0 to n - 1.
abbrev pub are_cases : ℕ → List ℤ → Bool
are_cases n [] = true
are_cases n (id ∷ ids) =
    let rest = are_cases n ids in (leb_ℤ (pos 0) id && ltb_ℤ id (pos n)) && rest

-- Score sets whose stored texts are read by `Get` as numbers of cases, with scores to 10000.
abbrev pub are_score_sets : ℕ → List ScoreSetRow → Bool
are_score_sets n [] = true
are_score_sets n (s ∷ sets) =
    let rest = are_score_sets n sets in
    (are_cases n (get_cases s.cases_raw_string)
      && (leb_ℤ (pos 0) s.score && leb_ℤ s.score (pos 10_000)))
    && rest

abbrev pub is_sound_update : Call → Bool
is_sound_update (update_test_case_names cid pid names sets) =
    (leb (length names) 50 && leb (length sets) 50) && are_score_sets (length names) sets
is_sound_update _ = true

read_case_ids-are_cases :
    (n : ℕ) (texts : List Text)
    → (read_case_ids n texts).1 ≡ false
    → are_cases n (read_case_ids n texts).0 ≡ true
unfolding read_case_ids
read_case_ids-are_cases n [] h = refl
read_case_ids-are_cases n (t ∷ texts) h = ground (arith, read_case_ids-are_cases n texts)

are_cases-IsInt64 : (n : ℕ) (ids : List ℤ) → n ≤ 50 → are_cases n ids ≡ true → All IsInt64 ids
are_cases-IsInt64 n [] l h = tt
are_cases-IsInt64 n (id ∷ ids) l h =
    let (here, rest) : ((leb_ℤ (pos 0) id && ltb_ℤ id (pos n)) ≡ true) × (are_cases n ids ≡ true) =
      ground arith in
    (ground arith, are_cases-IsInt64 n ids l rest)

stored_fields :
    (n : ℕ) (field : Text) (fields : List Text)
    → n ≤ 50
    → (read_case_ids n (field ∷ fields)).1 ≡ false
    → are_cases n (get_cases (set_cases (read_case_ids n (field ∷ fields)).0)) ≡ true
unfolding read_case_ids
stored_fields n field fields l h =
    let id = (parse_int (trim_space field)).0 in
    let ids = (read_case_ids n fields).0 in
    let good : are_cases n (id ∷ ids) ≡ true = read_case_ids-are_cases n (field ∷ fields) h in
    ap (are_cases n) (get_cases-set_cases id ids (are_cases-IsInt64 n (id ∷ ids) l good)) ∙ good

-- The stored text of a set is read back as the numbers of the form.
stored_cases :
    (n : ℕ) (cases_text : Text)
    → n ≤ 50
    → (read_case_ids n (split b',' cases_text)).1 ≡ false
    → are_cases n (get_cases (set_cases (read_case_ids n (split b',' cases_text)).0)) ≡ true
stored_cases n cases_text l h =
    let (field, fields, e) = split-cons b',' cases_text in
    subst
      (λ texts.
        (read_case_ids n texts).1 ≡ false
        → are_cases n (get_cases (set_cases (read_case_ids n texts).0)) ≡ true)
      (sym e) (stored_fields n field fields l) h

read_score_sets-are_score_sets :
    (n : ℕ) (scores cases : List Text)
    → n ≤ 50
    → (read_score_sets n scores cases).1 ≡ false
    → are_score_sets n (read_score_sets n scores cases).0 ≡ true
unfolding read_score_sets
read_score_sets-are_score_sets n [] cases l h = refl
read_score_sets-are_score_sets n (s ∷ scores) [] l h = refl
read_score_sets-are_score_sets n (s ∷ scores) (c ∷ cases) l h =
    ground (arith, read_score_sets-are_score_sets n scores cases, stored_cases n c l)

module _ (pdata : ContestEachPreparedData) where
  length-read_score_sets :
      (n : ℕ) (scores cases : List Text)
      → length scores ≡ length cases
      → length (read_score_sets n scores cases).0 ≡ length scores
  unfolding read_score_sets
  length-read_score_sets n [] cases h = refl
  length-read_score_sets n (s ∷ scores) [] h = absurd (omega arith)
  length-read_score_sets n (s ∷ scores) (c ∷ cases) h =
      ground (arith, length-read_score_sets n scores cases)

  sound_lem :
      (names scores cases : List Text) (cid pid : ℤ)
      → not (ltb 50 (length names)) ≡ true
      → not (not (length scores == length cases) || ltb 50 (length scores)) ≡ true
      → not (read_score_sets (length names) scores cases).1 ≡ true
      → is_sound_update
          (update_test_case_names cid pid names (read_score_sets (length names) scores cases).0)
        ≡ true
  sound_lem names scores cases cid pid g1 g2 g3 =
      let few : length names ≤ 50 = ground arith in
      let same : length scores ≡ length cases = ground arith in
      ground (
        arith,
        length-read_score_sets (length names) scores cases same,
        read_score_sets-are_score_sets (length names) scores cases few,
      )

  save_testcases-Ensures :
      (pidx : Text) (cp : ProblemRow) (form : Form)
      → Ensures is_sound_update (λ c a. Unit) (λ u. Unit) (save_testcases pdata pidx cp form)
  unfolding save_testcases
  save_testcases-Ensures pidx cp form =
      let names = form (text "case_name[]") in
      let scores = form (text "set_score[]") in
      let cases = form (text "set_case[]") in
      let read = read_score_sets (length names) scores cases in
      Ensures-guard is_sound_update (λ c a. Unit) (λ u. Unit) (not (ltb 50 (length names)))
        (status status_bad_request) _
        (λ g1.
          Ensures-guard is_sound_update (λ c a. Unit) (λ u. Unit)
            (not (not (length scores == length cases) || ltb 50 (length scores)))
            (status status_bad_request) _
            (λ g2.
              Ensures-guard is_sound_update (λ c a. Unit) (λ u. Unit) (not read.1)
                (page (management_testcase_list names read.0 illegal_parameter)) _
                (λ g3. (
                  sound_lem names scores cases pdata.cid cp.pid g1 g2 g3,
                  λ answer l.
                      Ensures-expect_nil is_sound_update (λ c a. Unit) (λ u. Unit) failed answer _
                        tt,
                ))))

  testcases-Ensures :
      (pidx : Text) (method : Method) (form : Form)
      → Ensures is_sound_update (λ c a. Unit) (λ u. Unit) (testcases pdata pidx method form)
  unfolding testcases
  testcases-Ensures pidx get form = ground arith
  testcases-Ensures pidx other_method form = ground arith
  testcases-Ensures pidx post form = (
    refl,
    λ found l.
        Ensures-expect is_sound_update (λ c a. Unit) (λ u. Unit)
          (unless_unknown_problem status_not_found) found _
          (λ cp. save_testcases-Ensures pidx cp form),
  )

  -- Whatever the form of the page of the tests says: the database is given at most 50 names and 50
  -- score sets, with scores from 0 to 10000, and the text that is stored for a set is read back by
  -- `Get` as numbers that each name one of these tests.
  pub testcases-is_sound_update :
      (pidx : Text) (method : Method) (form : Form) (host : Host)
      → All (λ c. is_sound_update c ≡ true) (run host [] (testcases pdata pidx method form)).0
  testcases-is_sound_update pidx method form host =
      Ensures-run is_sound_update (λ c a. Unit) host [] (testcases pdata pidx method form)
        (λ before c. tt) (testcases-Ensures pidx method form)
