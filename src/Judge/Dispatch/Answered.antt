-- ===== src/Judge/Dispatch/Answered.antt =====
-- ppjudge/main.go: how often a request is answered, and what is given back.
use popcon_sc.Prelude.{◌≤◌, ◌≡◌, Bool, true, false, List, Text, text_eq, count_if}
use popcon_sc.Judge.Dispatch.Schedule.{is_answer, is_promise, is_honest}
use popcon_sc.Judge.Dispatch.{is_set, Event, taken, unlocked, finished}

abbrev pub takes : Text → Event → Bool
takes file (taken f) = text_eq f file
takes file _ = false

abbrev pub gives_back : Text → Event → Bool
gives_back file (unlocked f) = text_eq f file
gives_back file _ = false

abbrev pub is_finish : Event → Bool
is_finish finished = true
is_finish _ = false

-- One report at most, and a report or a judge; every lock of the file given back; no call of
-- `oneFinish` yet; and `lastResultResponded` set only behind a report.
abbrev IsSettled : Text → List Event → Type 0
IsSettled file events =
    (count_if is_answer events ≤ 1)
    × (1 ≤ count_if is_promise events)
    × (count_if (takes file) events ≡ count_if (gives_back file) events)
    × (count_if is_finish events ≡ 0)
    × (is_honest false events ≡ true)

-- The same for the events and the releases of the tests.
abbrev IsDownload : Text → List Event × List Event → Type 0
IsDownload file (events, releases) =
    (count_if is_answer events ≤ 1)
    × (count_if (takes file) events ≡ count_if (gives_back file) releases)
    × (count_if is_finish events ≡ 0)
    × (is_honest false events ≡ true)
    × (count_if (gives_back file) events ≡ 0)
    × (count_if is_answer releases ≡ 0)
    × (count_if (takes file) releases ≡ 0)
    × (count_if is_finish releases ≡ 0)
    × (count_if is_set releases ≡ 0)
