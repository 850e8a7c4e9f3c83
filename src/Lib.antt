-- ===== src/Lib.antt =====
-- picBed: a picture and file hosting server in C++. Clients register, log in, upload files, take
-- over files that are already stored ("md5"), share and unshare them, save other users' shared
-- files, delete their files and count downloads. MySQL keeps the files' rows and their reference
-- counts, Redis keeps tokens, counters and the list of shared files, FastDFS keeps the contents.
--
-- The parts and their files. Paths are from the repository's root.
--   Services      what the program calls and does not implement: MySQL, Redis, jsoncpp, the FastDFS
--                 tools, the clock, rand and the hand-outs of the connection pools, as a record of
--                 functions on the world W outside the process. A SQL text of api/*.cc is a value of
--                 `Statement`, a Redis command of redis/cache_pool.cpp one of `Command`.
--   Act           a handler's run: it passes W on, and each step goes on, leaves with a result (`goto
--                 END`, `return`) or crashes (a NULL pointer, a write past an array).
--   Redis         CacheConn, redis/cache_pool.cpp: the operations that the handlers use; Others has
--                 those that no handler calls, and Connect is Init, which each of them starts with
--   Mysql         CDBConn and CResultSet, mysql/db_pool.cc; GetResultOneCount,
--                 CheckwhetherHaveRecord and GetResultOneStatus, base/common.cc
--   Api.Counts    CacheSetCount, CacheIncrCount, CacheDecrCount, ApiInit and the queries of the
--                 counts, api/api_common.cc; VerifyToken, base/common.cc
--   Api.Query     QueryParseKeyValue, base/common.cc
--   Api.Json      the decoders of the JSON bodies
--   Api.DealFile, Api.DealShareFile, Api.Md5
--                 the handlers of api/api_dealfile.cc, api/api_deal_sharefile.cc and api/api_md5.cc,
--                 one definition for each function
--   Api.Login, Api.Register, Api.Upload
--                 api/api_login.cc, api/api_register.cc and api/api_upload.cc; Upload.Body says where
--                 the fields of an upload stand in its body
--   Api.SharePicture, Api.MyFiles, Api.ShareFiles
--                 api/api_sharepicture.cc, api/api_myfiles.cc and api/api_sharefiles.cc
--   Api.Requests  the requests of all clients in sequence: the url chooses the entry point
--   Api.Suffix    GetFileSuffix and TrimSpace, base/common.cc
--   Api.Dispatch  the entry points ApiDealfile, ApiDealsharefile and ApiMd5
--   Pdu           CSimpleBuffer, CByteStream over an array, idtourl and urltoid, base/util_pdu.cc
--   Util          URLEncode, URLDecode, CStrExplode, ReplaceStr, ReplaceMark and MemFind,
--                 base/util.cc
--   Config        CConfigFileReader, base/config_file_reader.cc; Lines is the text of one pair, Sorted
--                 the order of the map
--   ThreadPool    Exec, Stop, Get and Run, base/thread_pool.cc and base/thread_pool.h, as events in
--                 any order
--   Timers        AddTimer, RemoveTimer and _CheckTimer of CEventDispatch, base/event_dispatch.cc
--   ConnPool      CDBPool, mysql/db_pool.cc, and CachePool, redis/cache_pool.cpp: threads that take and
--                 give back connections, in any order
--   Http          CHttpConn, http_conn.cc: Conn is one connection, Route its urls, Server all of them
--                 with the responses of the workers; the calls of the event loop come in any order, and
--                 two histories record the requests that were read and the responses that were sent
--   Sql           the five tables of sql/picbed_db_index.sql, what each statement does to them, and
--                 the laws that tie a `Services` to them (`IsSql`): a query answers rows of the
--                 tables, an update that fails changes nothing, nothing else touches the tables.
--   Triple, Sql.Rules, Sql.Keeps
--                 assertions about runs, and one rule for each call
--   Tests         a server that fulfils the laws, and the theorems at concrete requests
--
-- The invariant of the reference counts is `Sql.References.IsCounted`: no file has more rows in
-- user_file_list than its `count` in file_info, so that a stored file that a user still has is not
-- deleted from FastDFS.
--
-- Text is a list of character codes without NUL. Counts are natural numbers, and Redis counters
-- integers, without the width of a machine word; the sizes and numbers of Pdu are taken modulo
-- 2 ^ 32. The recursion is structural; the only fuel is that of idtourl, the 63 bytes of its array,
-- which are more than the seven digits of a 32-bit number.
--
-- Not modelled: the bytes of the SQL texts (quoting, injection, the 512 and 1024 byte buffers that
-- sprintf fills), MGet and Hmget of CacheConn, the text of the JSON responses (a handler ends with
-- its `code`), logging, the release of connections. A handler runs from beginning to end before the
-- next one, as the main thread runs them; registering, which the four worker threads run, is such a
-- run, too: two of them may both find a name free, and then the UNIQUE KEY of MySQL decides, as one
-- of the ways in which an insert may fail. Texts in MySQL are compared byte by byte, not by the
-- collation of the columns. The sockets and, the timers aside, the event loop are not modelled;
-- jsoncpp, hiredis, the HTTP parser and the logger are copies of other projects.

pub mod Prelude
pub mod Services
pub mod Act
pub mod Triple
pub mod Redis
pub mod Mysql
pub mod Sql
pub mod Api
pub mod Pdu
pub mod Util
pub mod ThreadPool
pub mod ConnPool
pub mod Http
pub mod Config
mod Tests
pub mod Timers
