-- ===== src/Database/TestCases/Tests.antt =====
-- Tests of the update of test cases (lib/database/contest_problem.go).
use popcon_sc.Prelude.{
  ◌≡◌, refl, true, false, none, some, List, [], ◌∷◌, pos, Text, text, map, ◌++◌,
}
use popcon_sc.Database.{ok, sql_error, begin_dm}
use popcon_sc.Database.TestCases.{
  ProblemTables, NamesHost, old_files, new_cases, remove_files, update_test_case_names_body,
  update_test_case_names,
}
use popcon_sc.Database.TestCases.Files.{
  files_before, files_of, columns, StoresRows, update_test_case_names-keeps_files,
}

abbrev answering : NamesHost
answering = record {
  cid = pos 1;
  pid = pos 2;
  transaction_started = false;
  tx = record { begins = none; commits = none };
  find_error = none;
  replace_cases = ok;
  replace_scores = ok;
  score_error = none;
  removes = λ file. true;
}

abbrev two_cases : ProblemTables
two_cases = record {
  cases =
      record {
        id = pos 7;
        pid = pos 2;
        name = text "a";
        input = text "i7";
        output = text "o7";
        cid = pos 1;
      }
      ∷ record {
        id = pos 8;
        pid = pos 2;
        name = text "b";
        input = text "i8";
        output = text "o8";
        cid = pos 1;
      }
      ∷ [];
  scores =
      record { id = pos 3; pid = pos 2; cases = text "0,1"; score = pos 100; cid = pos 1 } ∷ [];
  score = pos 100;
}

ok_stores : StoresRows answering
ok_stores cases stored e = cc

update_test_case_names-keeps_files_example :
    (map (λ c. c.name) (update_test_case_names answering (text "x" ∷ []) [] two_cases []).1.cases
      ≡ text "x" ∷ [])
    × (removed : List Text) × ((update_test_case_names answering (text "x" ∷ []) [] two_cases []).2
        ≡ [] ++ removed)
    × (files_before 2
            (map columns (update_test_case_names answering (text "x" ∷ []) [] two_cases []).1.cases)
          ++ removed
        ≡ files_of two_cases.cases)
unfolding update_test_case_names update_test_case_names_body begin_dm
update_test_case_names-keeps_files_example =
    update_test_case_names-keeps_files answering (text "x" ∷ []) [] two_cases [] ok_stores
      (λ file. refl) refl

-- Where MySQL refuses the commit, the files of a case that is still there are given up.
refused_commit :
    update_test_case_names
      (record answering { tx = record { begins = none; commits = some sql_error } })
      (text "x" ∷ [])
      []
      two_cases
      []
    ≡ (some sql_error, two_cases, text "i8" ∷ text "o8" ∷ [])
unfolding update_test_case_names update_test_case_names_body begin_dm remove_files old_files
refused_commit = refl

-- A failed update of the column `score` is not noticed: the problem keeps the old maximum.
unnoticed_score :
    ((update_test_case_names
        (record answering { score_error = some sql_error })
        (text "x" ∷ [])
        []
        two_cases
        []).0
      ≡ none)
    × ((update_test_case_names
          (record answering { score_error = some sql_error })
          (text "x" ∷ [])
          []
          two_cases
          []).1.score
        ≡ pos 100)
unfolding update_test_case_names update_test_case_names_body begin_dm
unnoticed_score = (refl, refl)

-- A new case has no files.
one_more :
    files_of
      (update_test_case_names answering
        (text "a" ∷ text "b" ∷ text "c" ∷ [])
        []
        two_cases
        []).1.cases
    ≡ text "i7" ∷ text "o7" ∷ text "i8" ∷ text "o8" ∷ [] ∷ [] ∷ []
unfolding update_test_case_names update_test_case_names_body begin_dm new_cases
one_more = refl
