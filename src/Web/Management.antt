-- ===== src/Web/Management.antt =====
-- ppweb/contest_each.go: the pages under "/contests/{cid}/management/", which `serve` in Web/Routes
-- opens to the admins of the contest only.
pub mod Problems
pub mod TestCases
pub mod Uploads
pub mod Setting
pub mod Rejudge
