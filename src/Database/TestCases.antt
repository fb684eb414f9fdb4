-- ===== src/Database/TestCases.antt =====
-- lib/database/contest_problem.go: how the test cases and the score sets of a problem are replaced.
-- The tables hold the rows of one problem. What gorm's `Replace` makes of
-- the rows given to it, such as their ids, is an argument. `CasesRawString` and `Cases` are the same text.
pub mod Files
pub mod Tests
use popcon_sc.Prelude.{
  ℕ, zero, suc, Bool, true, false, Option, none, some, List, [], ◌∷◌, ◌++◌, if◌then◌else◌, length,
  ℤ, pos, ◌==ℤ◌, add64, Text,
}
use popcon_sc.Database.{DbError, Result, ok, err, Ending, returns, fails, TxHost, begin_dm}

pub record ContestProblemTestCase : Type 0 where
  pub id : ℤ
  pub pid : ℤ
  pub name : Text
  pub input : Text
  pub output : Text
  pub cid : ℤ

pub record ContestProblemScoreSet : Type 0 where
  pub id : ℤ
  pub pid : ℤ
  pub cases : Text
  pub score : ℤ
  pub cid : ℤ

pub record ProblemTables : Type 0 where
  pub cases : List ContestProblemTestCase
  pub scores : List ContestProblemScoreSet
  -- the column `score` of the problem
  pub score : ℤ

-- The problem and its `dm`, and what MySQL and Redis answer.
pub record NamesHost : Type 0 where
  pub cid : ℤ
  pub pid : ℤ
  pub transaction_started : Bool
  pub tx : TxHost
  pub find_error : Option DbError
  pub replace_cases : List ContestProblemTestCase → Result (List ContestProblemTestCase)
  pub replace_scores : List ContestProblemScoreSet → Result (List ContestProblemScoreSet)
  pub score_error : Option DbError
  -- whether `RemoveLater` reaches the server for this file
  pub removes : Text → Bool

abbrev scores_total : ℤ → List ContestProblemScoreSet → ℤ
scores_total sum [] = sum
scores_total sum (s ∷ scores) = scores_total (add64 sum s.score) scores

-- The files of the cases from place n on.
unfoldable pub old_files : List ContestProblemTestCase → ℕ → List Text
old_files [] n = []
old_files (c ∷ cases) zero = c.input ∷ c.output ∷ old_files cases zero
old_files (c ∷ cases) (suc n) = old_files cases n

-- A case for each new name, which takes the place of the old case at its index.
unfoldable pub new_cases :
    ℤ → ℤ → List ContestProblemTestCase → List Text → List ContestProblemTestCase
new_cases cid pid cases [] = []
new_cases cid pid [] (n ∷ names) =
    record { id = pos 0; pid = pid; name = n; input = []; output = []; cid = cid }
    ∷ new_cases cid pid [] names
new_cases cid pid (c ∷ cases) (n ∷ names) =
    record { id = c.id; pid = pid; name = n; input = c.input; output = c.output; cid = cid }
    ∷ new_cases cid pid cases names

unfoldable pub new_score_sets :
    ℤ → List ContestProblemScoreSet → List ContestProblemScoreSet → List ContestProblemScoreSet
new_score_sets cid scores [] = []
new_score_sets cid [] (s ∷ new) = record s { cid = cid } ∷ new_score_sets cid [] new
new_score_sets cid (old ∷ scores) (s ∷ new) =
    record s { id = old.id; pid = old.pid; cid = cid } ∷ new_score_sets cid scores new

-- The goroutine that `f` starts; an error of `RemoveLater` is only logged.
unfoldable pub remove_files : NamesHost → List Text → List Text → List Text
remove_files host [] o = o
remove_files host (file ∷ files) o =
    remove_files host files (if host.removes file then o ++ file ∷ [] else o)

-- The function that `UpdateTestCaseNames` gives to `BeginDM`; the error of the last update is not
-- looked at, and `f` is called before the commit.
unfoldable pub update_test_case_names_body :
    NamesHost
    → List Text
    → List ContestProblemScoreSet
    → ProblemTables
    → List Text
    → Ending × ProblemTables × List Text
update_test_case_names_body host names new t o = elim host.find_error [
  | some e ↦ (fails e, t, o)
  | none ↦ elim (host.replace_cases (new_cases host.cid host.pid t.cases names)) [
    | err e ↦ (fails e, t, o)
    | ok cases ↦ elim (host.replace_scores (new_score_sets host.cid t.scores new)) [
      | err e ↦ (fails e, record t { cases = cases }, o)
      | ok scores ↦ (
        returns,
        record {
          cases = cases;
          scores = scores;
          score = elim host.score_error [ none ↦ scores_total (pos 0) new | some e ↦ t.score ];
        },
        remove_files host (old_files t.cases (length names)) o,
      )
    ]
  ]
]

-- `UpdateTestCaseNames`. The deferred `ClearUnassociatedData` deletes the rows that `Replace` has
-- taken from the problem, which are no longer in these tables.
unfoldable pub update_test_case_names :
    NamesHost
    → List Text
    → List ContestProblemScoreSet
    → ProblemTables
    → List Text
    → Option DbError × ProblemTables × List Text
update_test_case_names host names new t o =
    begin_dm host.transaction_started host.tx (update_test_case_names_body host names new) t o
