-- ===== src/Codec.antt =====
-- How the program writes numbers and lists of numbers into texts and reads them back:
-- lib/redis/judge_queue.go (`JudgeQueueQuery`) and lib/database/contest_problem.go (the cases of a
-- score set), over `strconv.FormatInt`, `strconv.ParseInt`, `strings.Split` and `strings.Join`.
pub mod Decimal
pub mod Fields
pub mod Queries
mod Tests
