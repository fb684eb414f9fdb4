-- ===== src/Controller/Protocol.antt =====
-- ppjc/handlerv1.go: any number of judge hosts poll and report, in any order, while the database
-- fails now and then.
use popcon_sc.Prelude.{
  ℕ, suc, ◌<◌, ◌≡◌, Bool, ◌&&◌, Option, none, some, List, [], ◌∷◌, ℤ, ◌==ℤ◌, Text, count_if,
}
use popcon_sc.Database.{DbError}
use popcon_sc.Database.Submissions.{Submission, Tables, Outside, find_sid, UpdateHost}
use popcon_sc.Database.Submissions.View.{Message, message_sid, message_jid, deliver}
use popcon_sc.Controller.{submission_add, TakeHost, take_job}

-- The jobs that were handed out: the submission and the number of the judge.
pub record World : Type 0 where
  pub tables : Tables
  pub outside : Outside
  pub jobs : List (ℤ × ℤ)

abbrev pub is_job : ℤ → ℤ → ℤ × ℤ → Bool
is_job sid jid (s, j) = (s ==ℤ sid) && (j ==ℤ jid)

abbrev pub times_given : ℤ → ℤ → List (ℤ × ℤ) → ℕ
times_given sid jid jobs = count_if (is_job sid jid) jobs

abbrev pub with_job : Option Submission → List (ℤ × ℤ) → List (ℤ × ℤ)
with_job none jobs = jobs
with_job (some s) jobs = (s.sid, s.jid) ∷ jobs

pub data Step : World → World → Type 0 where
  -- MySQL gives a new submission a number that no other has
  submit :
      (w : World) (error : Option DbError) (file : Option Text) (sid pid iid lang now : ℤ)
      → find_sid sid w.tables.submissions ≡ none
      → Step w (record w { tables = (submission_add error file sid pid iid lang now w.tables).1 })
  take :
      (w : World) (host : TakeHost) (sid : ℤ)
      → Step w (record w {
        tables = (take_job host sid w.tables).1;
        jobs = with_job (take_job host sid w.tables).0 w.jobs;
      })
  -- a host reports on a job that it has got
  report :
      (w : World) (host : UpdateHost) (m : Message)
      → 0 < times_given (message_sid m) (message_jid m) w.jobs
      → Step w (record w {
        tables = (deliver host m w.tables w.outside).1;
        outside = (deliver host m w.tables w.outside).2;
      })

pub data Run (v : World) : ℕ → World → Type 0 where
  here : Run v 0 v
  next : {n : ℕ} {w u : World} → Run v n w → Step w u → Run v (suc n) u

abbrev pub start : World
start = record {
  tables = record { submissions = []; cases = [] };
  outside = record { progress = λ i. none; removed = [] };
  jobs = [];
}
