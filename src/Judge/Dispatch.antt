-- ===== src/Judge/Dispatch.antt =====
-- ppjudge/main.go: how a request of the controller becomes a judge. The goroutine of one request is
-- the list of what it does, in order. Two goroutines run beside it from the start of the judge on:
-- one downloads the tests, and one reports the total result of the judge. The first is joined before
-- the locks of the tests are given back; the total may be reported at any moment after the start,
-- which is an argument.
use popcon_sc.Prelude.{
  ℕ, zero, suc, ◌||◌, ◌≡◌, Bool, true, false, not, Option, none, some, List, [], ◌∷◌, ◌++◌, ℤ, pos,
  mul64, Text, text, text_eq, if◌then◌else◌,
}
use popcon_sc.Types.Contest.{JudgeType, perfect_match, running_code, interactive}
use popcon_sc.Codec.Decimal.{format_int}
pub mod Schedule
pub mod Answered
pub mod Tests

pub record ExecRequest : Type 0 where
  pub image : Text
  pub cmd : List Text
  pub source_file_name : Text
  pub env : List Text

-- An entry of `LanguageConfiguration` (ppjudge/language.go).
pub record LanguageEntry : Type 0 where
  pub compile_image : Text
  pub exec_image : Text
  pub compile_command : List Text
  pub exec_command : List Text
  pub source_file_name : Text
  pub compile_env : List Text
  pub exec_env : List Text

-- The fields of a `JudgeRunCode` that the goroutine sets; `checker` is what a checker adds.
pub record JudgeSetting : Type 0 where
  pub time : ℤ
  pub mem : ℤ
  pub compile : Option ExecRequest
  pub exec : ExecRequest
  pub checker : Option (Text × Option ExecRequest × ExecRequest)

-- `JudgeInformation`, as far as the goroutine reads it; a test is the names of its two files.
pub record JudgeRequest : Type 0 where
  pub code_file : Text
  pub lang : ℤ
  pub judge_type : JudgeType
  pub time : ℤ
  pub mem : ℤ
  pub checker_file : Text
  pub cases : List (Text × Text)

-- What the goroutines do: they take the lock of a file that `Download` gives them, give a lock back,
-- report an internal error as the result, set `lastResultResponded`, start the judge, report its
-- total unless `lastResultResponded` is set, and call `oneFinish`.
pub data Event : Type 0 where
  taken unlocked : (file : Text) → Event
  reported : (message : Text) → Event
  set_responded : Event
  judging : JudgeSetting → Event
  total : (responded : Bool) → Event
  finished : Event

-- What the network and the file system answer.
pub record DispatchHost : Type 0 where
  -- whether `Download` of a file succeeds; if not, the text of the error
  pub download : Text → Option Text
  pub languages : ℤ → Option LanguageEntry
  pub code_opens : Bool
  pub checker_reads : Bool
  -- `CheckerSavedFormat`: language and code
  pub checker_info : Option (ℤ × Text)

-- `defer d` at this place, before the rest of the function.
abbrev pub deferring : Event → List Event → List Event
deferring d rest = rest ++ (d ∷ [])

-- The request for the compiler, where the language has one.
unfoldable pub compile_request : LanguageEntry → Option ExecRequest
compile_request lang =
    if text_eq lang.compile_image []
    then none
    else some (record {
      image = lang.compile_image;
      cmd = lang.compile_command;
      source_file_name = lang.source_file_name;
      env = lang.compile_env;
    })

unfoldable pub exec_request : LanguageEntry → ExecRequest
exec_request lang = record {
  image = lang.exec_image;
  cmd = lang.exec_command;
  source_file_name = lang.source_file_name;
  env = lang.exec_env;
}

-- The goroutine that downloads the tests: what it does, and the locks that `releaser` gives back.
unfoldable pub download_cases : DispatchHost → List (Text × Text) → List Event × List Event
download_cases host [] = ([], [])
download_cases host ((input, output) ∷ rest) =
    let later = download_cases host rest in
    let message : Text → Text = λ file. text "Download of testcases error(" ++ (file ++ text ")") in
    elim (host.download input) [
      | some e ↦ (reported (message input) ∷ set_responded ∷ [], [])
      | none ↦ elim (host.download output) [
        | some e ↦
            (taken input ∷ reported (message output) ∷ set_responded ∷ [], unlocked input ∷ [])
        | none ↦ (taken input ∷ taken output ∷ later.0, unlocked input ∷ unlocked output ∷ later.1)
      ]
    ]

-- From the tests on: the judge runs while the tests are downloaded, and then, when both are done,
-- the locks of the tests are given back.
unfoldable pub run_judge : DispatchHost → JudgeRequest → JudgeSetting → List Event
unfolding download_cases
run_judge host req j =
    let (events, releases) = download_cases host req.cases in judging j ∷ (events ++ releases)

-- The checker of a problem with one.
unfoldable pub set_checker : DispatchHost → JudgeRequest → JudgeSetting → List Event
unfolding compile_request exec_request
set_checker host req j =
    if host.checker_reads
    then (elim host.checker_info [
      | none ↦ reported (text "checker's format is illegal") ∷ []
      | some (lid, code) ↦ elim (host.languages lid) [
        | none ↦
            reported (text "Unknown language(with lid:" ++ (format_int lid ++ text ") for checker"))
            ∷ []
        | some lang ↦
            run_judge host req
              (record j { checker = some (code, compile_request lang, exec_request lang) })
      ]
    ])
    else reported (text "ReadAll(checker) error") ∷ []

-- The limits in milliseconds and bytes, and the requests for the program.
unfoldable pub judge_setting : JudgeRequest → LanguageEntry → JudgeSetting
unfolding compile_request exec_request
judge_setting req lang = record {
  time = mul64 req.time (pos 1_000);
  mem = mul64 (mul64 req.mem (pos 1_000)) (pos 1_000);
  compile = compile_request lang;
  exec = exec_request lang;
  checker = none;
}

unfoldable pub start_judge : DispatchHost → JudgeRequest → JudgeType → JudgeSetting → List Event
start_judge host req running_code j = set_checker host req j
start_judge host req other j = run_judge host req j

-- From the language on.
unfoldable pub set_language : DispatchHost → JudgeRequest → List Event
set_language host req = elim (host.languages req.lang) [
  | none ↦ reported (text "Unknown language(with lid:" ++ (format_int req.lang ++ text ")")) ∷ []
  | some lang ↦
      if host.code_opens
      then start_judge host req req.judge_type (judge_setting req lang)
      else reported (text "open source code files error") ∷ []
]

-- From the file of the checker on.
unfoldable pub fetch_checker : DispatchHost → JudgeRequest → List Event
fetch_checker host req = elim req.judge_type [
  | perfect_match ↦ set_language host req
  | other ↦ elim (host.download req.checker_file) [
    | some e ↦ reported (text "Failed downloading the checker " ++ e) ∷ []
    | none ↦ taken req.checker_file ∷ deferring (unlocked req.checker_file) (set_language host req)
  ]
]

-- From the file of the program on.
unfoldable pub fetch_code : DispatchHost → JudgeRequest → List Event
fetch_code host req = elim (host.download req.code_file) [
  | some e ↦ reported (text "Failed to download source code file " ++ e) ∷ []
  | none ↦ taken req.code_file ∷ deferring (unlocked req.code_file) (fetch_checker host req)
]

-- The goroutine of one request, without the report of the total.
unfoldable pub dispatch_main : DispatchHost → JudgeRequest → List Event
dispatch_main host req = deferring finished (elim req.judge_type [
  | interactive ↦ reported (text "Unsupported judge type") ∷ []
  | other ↦ fetch_code host req
])

abbrev is_set : Event → Bool
is_set set_responded = true
is_set _ = false

-- A judge that comes to its tests waits for all of them; one that fails before, for none, so that any
-- moment is possible. The total is reported after `moment` more events of the other goroutines, or at the end; `responded`
-- is the variable `lastResultResponded`, which is read at that moment.
unfoldable pub report_total : (moment : ℕ) → (responded : Bool) → List Event → List Event
report_total zero responded rest = total responded ∷ rest
report_total (suc n) responded [] = total responded ∷ []
report_total (suc n) responded (e ∷ rest) = e ∷ report_total n (responded || is_set e) rest

-- A judge that has started reports one total.
unfoldable pub interleave : (moment : ℕ) → List Event → List Event
unfolding report_total
interleave moment [] = []
interleave moment (judging j ∷ rest) = judging j ∷ report_total moment false rest
interleave moment (e ∷ rest) = e ∷ interleave moment rest

-- All goroutines of one request.
unfoldable pub dispatch : (moment : ℕ) → DispatchHost → JudgeRequest → List Event
dispatch moment host req = interleave moment (dispatch_main host req)
