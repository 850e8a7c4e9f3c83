-- ===== src/Api.antt =====
-- The request handlers of api/, and what they share.
pub mod Counts
pub mod Codes
pub mod DealFile
pub mod DealShareFile
pub mod Md5
pub mod Json
pub mod Query
pub mod Dispatch
pub mod Login
pub mod SharePicture
pub mod MyFiles
pub mod ShareFiles
pub mod Requests
pub mod Register
pub mod Suffix
pub mod Upload
