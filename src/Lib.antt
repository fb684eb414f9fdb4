-- ===== src/Lib.antt =====
-- A verification library for popcon-sc, an online judge for programming contests.
--
-- The program has a web server (ppweb), a controller (ppjc) that hands submissions to judge hosts and
-- takes their messages in, judge hosts (ppjudge) that compile and run the submissions, and a file
-- server (ppms). They share the code under lib: data types (lib/types), the database (lib/database, on
-- MySQL), the queue and the progress in Redis (lib/redis), and the files in MongoDB (lib/filesystem).
-- A submission waits in the queue; the controller gives it, with a new number of a judge, the jid, to
-- a host; the host downloads the code, the checker and the tests into its cache, runs the program on
-- every test, and sends a message for each test and one for the total; the controller writes these
-- into the tables of the submissions and, while the contest runs, into the ranking.
--
-- What is modelled, file by file:
-- - Prelude: names of the library that all modules use, Boolean tests, lists over the native numbers,
--   integers with the wrap-around of an int64 (Prelude/Int), Go's maps (Prelude/Map), byte texts.
-- - Types/Submission is lib/types/submission.go; Types/Contest is lib/types/contest.go, with a map of
--   cells as the list of its entries; Types/Order and Types/Evaluation are about the totals of a row
--   and about the keys of the ranking.
-- - Codec is about numbers in texts: Codec/Decimal and Codec/Fields model what the source uses of
--   strconv and strings, Codec/Queries is lib/redis/judge_queue.go and the cases of a score set in
--   lib/database/contest_problem.go.
-- - Downloader is ppjudge/downloader.go. Each critical section under the mutex is a function
--   (`Download` is `download_hit`, `new_file_name`, `download_store` and `new_locker`), and
--   Downloader/World has a relation `Step` with one constructor for each of them; a run is a sequence
--   of steps, so that every interleaving of any number of goroutines is one. The bound of 2^31 steps
--   keeps the int32 of a locker and the counts from wrapping around.
-- - Judge is ppjudge/judge.go and the types of ppjudge/executor.go; Judge/Newline is
--   ppjudge/variables.go; Judge/Simple is `JudgeSimple.Run` and Judge/RunCode is `JudgeRunCode.Run`, as
--   the list of the statuses that they send; Judge/Report is the goroutine of ppjudge/main.go that
--   turns the statuses into messages for the controller, and Judge/Dispatch the goroutine that makes a
--   judge of a request; the moment at which the total result is reported is an argument of it.
-- - Database is the transactions of lib/database/database.go; Database/Submissions is the part of
--   lib/database/submission.go that handles messages of judges; Database/Ranking is
--   lib/database/contest_ranking.go; Database/TestCases is `UpdateTestCaseNames` of
--   lib/database/contest_problem.go.
-- - Controller is the part of ppjc/handlerv1.go that makes a job for a polling host, with the jid;
--   Controller/Protocol has a relation `Step` for new submissions, jobs and messages in any order, and
--   Controller/Results is the handler "/judge/submissions/updateResult".
-- - Web/Trim is `TrimNewlineReader` of ppweb/utility.go; Web/Pages and Web/Pagination are `NewPageHelper`
--   and `NewPaginationHelper` of ppweb/pagination_helper.go; Web/Texts is the check of names of
--   ppweb/handler.go.
-- - Web/Contest, Web/Management and Web/Routes are ppweb/contest_each.go, Web/NewContest is the page of
--   a new contest of ppweb/contest_page.go, Web/Account is login, logout and new passwords, and
--   Web/SignUp is signing up, of ppweb/handler.go. A handler is a tree of its calls
--   of the database, of the controller and of the clock (Web/Handler), with what it does for each
--   answer, and a branch ends with a response (Web/Reply). `run` follows one branch, with the answers of
--   a host, which may depend on all calls before. Web/Right says which right a call asks for,
--   Web/Access who has it, and Web/Contract what the calls of a handler guarantee.
--
-- Loops are structural recursion over the list that they read. Only the digits of a number use fuel:
-- 20 rounds, enough for every int64, as the round trip of Codec/Decimal proves. What the
-- network, Docker, MySQL, Redis and the file system answer is an argument of the definitions, a record
-- such as SimpleHost, UpdateHost or RankingHost, and every theorem says which answers it is about.
--
-- Not modelled: the other pages of ppweb (lists of contests and users, the administrators' pages),
-- templates and Markdown, the set-up of processes, containers and tables, logging, the HTTP transport, and the Docker and cgroup calls of ppjudge/executor.go. The JSON text of a ranking cell
-- stands as the cell. The lock that `FOR UPDATE` asks MySQL for is not modelled: a transaction runs
-- alone.
mod Prelude
pub mod Types
pub mod Downloader
pub mod Codec
pub mod Judge
pub mod Database
pub mod Controller
pub mod Web
