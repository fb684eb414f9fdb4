-- ===== src/Database/TestCases/Files.antt =====
-- lib/database/contest_problem.go: which files `UpdateTestCaseNames` keeps and which it gives up.
use popcon_sc.Prelude.{
  ◌⊎◌, inl, inr, ℕ, zero, suc, ◌≡◌, refl, sym, ap, ◌∙◌, true, none, List, [], ◌∷◌, ◌++◌, map,
  length, ℤ, Text, arith,
}
use mathlib.Core.List.{append_assoc, append-nil}
use popcon_sc.Database.{DbError, Result, ok, err, begin_dm}
use popcon_sc.Database.TestCases.{
  ContestProblemTestCase, ContestProblemScoreSet, ProblemTables, NamesHost, old_files, new_cases,
  remove_files, update_test_case_names_body, update_test_case_names,
}

abbrev pub files_of : List ContestProblemTestCase → List Text
files_of [] = []
files_of (c ∷ cases) = c.input ∷ c.output ∷ files_of cases

-- What the update writes of a case: its name and its two files.
abbrev pub columns : ContestProblemTestCase → Text × Text × Text
columns c = (c.name, c.input, c.output)

-- The files of the first n cases.
abbrev pub files_before : ℕ → List (Text × Text × Text) → List Text
files_before zero cases = []
files_before (suc n) [] = []
files_before (suc n) (c ∷ cases) = c.1 ∷ c.2 ∷ files_before n cases

-- gorm stores the rows that it is given, in their order.
abbrev pub StoresRows : NamesHost → Type 0
StoresRows host =
    (cases stored : List ContestProblemTestCase)
    → host.replace_cases cases ≡ ok stored
    → map columns stored ≡ map columns cases

old_files-zero : (cases : List ContestProblemTestCase) → old_files cases 0 ≡ files_of cases
unfolding old_files
old_files-zero [] = refl
old_files-zero (c ∷ cases) = ap (λ l. c.input ∷ c.output ∷ l) (old_files-zero cases)

files_before-old_files :
    (cid pid : ℤ) (names : List Text) (cases : List ContestProblemTestCase)
    → files_before (length cases) (map columns (new_cases cid pid cases names))
        ++ old_files cases (length names)
      ≡ files_of cases
unfolding old_files new_cases
files_before-old_files cid pid [] [] = refl
files_before-old_files cid pid (n ∷ names) [] = refl
files_before-old_files cid pid [] (c ∷ cases) =
    ap (λ l. c.input ∷ c.output ∷ l) (old_files-zero cases)
files_before-old_files cid pid (n ∷ names) (c ∷ cases) =
    ap (λ l. c.input ∷ c.output ∷ l) (files_before-old_files cid pid names cases)

map-new_cases :
    (cid pid : ℤ) (names : List Text) (cases : List ContestProblemTestCase)
    → map (λ c. c.name) (new_cases cid pid cases names) ≡ names
unfolding new_cases
map-new_cases cid pid [] cases = refl
map-new_cases cid pid (n ∷ names) [] = ap (λ l. n ∷ l) (map-new_cases cid pid names [])
map-new_cases cid pid (n ∷ names) (c ∷ cases) = ap (λ l. n ∷ l) (map-new_cases cid pid names cases)

map-name :
    (cases : List ContestProblemTestCase)
    → map (λ c. c.0) (map columns cases) ≡ map (λ c. c.name) cases
map-name [] = refl
map-name (c ∷ cases) = ap (λ l. c.name ∷ l) (map-name cases)

remove_files-all :
    (host : NamesHost) (files o : List Text)
    → ((file : Text) → host.removes file ≡ true)
    → remove_files host files o ≡ o ++ files
unfolding remove_files
remove_files-all host [] o h = sym (append-nil o)
remove_files-all host (file ∷ files) o h =
    rw (h file) (remove_files-all host files (o ++ file ∷ []) h ∙ append_assoc o (file ∷ []) files)

Result-cases : {A : Type 0} (r : Result A) → ((x : A) × (r ≡ ok x)) ⊎ ((e : DbError) × (r ≡ err e))
Result-cases (ok x) = inl (x, refl)
Result-cases (err e) = inr (e, refl)

-- The rows after an update that succeeds.
update_test_case_names-columns :
    (host : NamesHost) (names : List Text) (new : List ContestProblemScoreSet) (t : ProblemTables)
    (o : List Text)
    → StoresRows host
    → (update_test_case_names host names new t o).0 ≡ none
    → map columns (update_test_case_names host names new t o).1.cases
      ≡ map columns (new_cases host.cid host.pid t.cases names)
unfolding update_test_case_names update_test_case_names_body begin_dm
update_test_case_names-columns host names new t o s e =
    elim (Result-cases (host.replace_cases (new_cases host.cid host.pid t.cases names))) [
      | inl (stored, q) ↦ ground (arith, s (new_cases host.cid host.pid t.cases names) stored q)
      | inr (d, q) ↦ ground arith
    ]

update_test_case_names-removed :
    (host : NamesHost) (names : List Text) (new : List ContestProblemScoreSet) (t : ProblemTables)
    (o : List Text)
    → (update_test_case_names host names new t o).0 ≡ none
    → (update_test_case_names host names new t o).2
      ≡ remove_files host (old_files t.cases (length names)) o
unfolding update_test_case_names update_test_case_names_body begin_dm
update_test_case_names-removed host names new t o e = ground arith

-- Where gorm stores the rows that it is given, every file that is given up can be removed, and the
-- update succeeds, the cases have the new names in their order, and no file is lost or given up
-- while in use: the files of the cases that stand in the place of old ones, followed by the files
-- given up, are the files of the old cases.
pub update_test_case_names-keeps_files :
    (host : NamesHost) (names : List Text) (new : List ContestProblemScoreSet) (t : ProblemTables)
    (o : List Text)
    → StoresRows host
    → ((file : Text) → host.removes file ≡ true)
    → (update_test_case_names host names new t o).0 ≡ none
    → (map (λ c. c.name) (update_test_case_names host names new t o).1.cases ≡ names)
      × (removed : List Text) × ((update_test_case_names host names new t o).2 ≡ o ++ removed)
      × (files_before
              (length t.cases)
              (map columns (update_test_case_names host names new t o).1.cases)
            ++ removed
          ≡ files_of t.cases)
update_test_case_names-keeps_files host names new t o s h e =
    let rows = update_test_case_names-columns host names new t o s e in
    (
      sym (map-name (update_test_case_names host names new t o).1.cases)
          ∙ ap (map (λ c. c.0)) rows
          ∙ map-name (new_cases host.cid host.pid t.cases names)
          ∙ map-new_cases host.cid host.pid names t.cases,
      old_files t.cases (length names),
      update_test_case_names-removed host names new t o e
          ∙ remove_files-all host (old_files t.cases (length names)) o h,
      ap (λ r. files_before (length t.cases) r ++ old_files t.cases (length names)) rows
          ∙ files_before-old_files host.cid host.pid names t.cases,
    )
