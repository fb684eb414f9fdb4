-- ===== src/Judge/Dispatch/Tests.antt =====
-- ppjudge/main.go on a request with one test, whose output file cannot be downloaded.
use popcon_sc.Prelude.{
  ◌≡◌, refl, true, false, none, some, [], ◌∷◌, pos, text, text_eq, count_if, if◌then◌else◌,
}
use popcon_sc.Types.Contest.{perfect_match}
use popcon_sc.Judge.Dispatch.{
  JudgeRequest, DispatchHost, dispatch, interleave, dispatch_main, fetch_code, fetch_checker,
  set_language, start_judge, run_judge, download_cases,
}
use popcon_sc.Judge.Dispatch.Schedule.{is_answer}

abbrev request : JudgeRequest
request = record {
  code_file = text "code";
  lang = pos 1;
  judge_type = perfect_match;
  time = pos 2;
  mem = pos 64;
  checker_file = [];
  cases = (text "in", text "out") ∷ [];
}

abbrev without_output : DispatchHost
without_output = record {
  download = λ file. if text_eq file (text "out") then some (text "gone") else none;
  languages = λ lid. some (record {
    compile_image = [];
    exec_image = text "python";
    compile_command = [];
    exec_command = text "run" ∷ [];
    source_file_name = text "a.py";
    compile_env = [];
    exec_env = [];
  });
  code_opens = true;
  checker_reads = false;
  checker_info = none;
}

-- A judge that is done before the download of its tests fails (its program does not compile): the
-- request gets two results.
two_answers : count_if is_answer (dispatch 1 without_output request) ≡ 2
unfolding dispatch interleave dispatch_main fetch_code fetch_checker set_language start_judge
    run_judge download_cases text_eq
two_answers = refl

-- A judge that is done after that: one result.
one_answer : count_if is_answer (dispatch 5 without_output request) ≡ 1
unfolding dispatch interleave dispatch_main fetch_code fetch_checker set_language start_judge
    run_judge download_cases text_eq
one_answer = refl
