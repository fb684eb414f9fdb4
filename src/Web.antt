-- ===== src/Web.antt =====
-- ppweb: the parts of the web server that are more than pages and forms.
pub mod Trim
pub mod Pages
pub mod Rows
pub mod Pagination
pub mod Handler
pub mod Reply
pub mod Texts
pub mod Contest
pub mod Management
pub mod Contract
pub mod Account
pub mod SignUp
pub mod NewContest
pub mod Routes
pub mod Right
pub mod Access
pub mod ContestTests
pub mod FormTests
pub mod Tests
