-- ===== src/Services.antt =====
-- What the program calls and does not implement: MySQL, Redis, jsoncpp, the FastDFS command line
-- tools, the clock, `rand` and the connection pools' hand-outs. `W` is the world outside the
-- process; a call takes it and returns it. SQL texts and Redis commands are values of the types
-- below, one constructor for each text of the source, with what `sprintf` puts into it.
use pic_bed.Prelude.{ℕ, Bool, Option, List, Text, ℤ}

-- The order of a page of a user's files, by `pv`
pub data Order : Type 0 where
  unordered ascending descending : Order

-- The SQL texts of api/*.cc, in the order of the handlers.
pub data Statement : Type 0 where
  -- select * from share_file_list where md5 = '%s' and file_name = '%s'
  select_share_file : (md5 file_name : Text) → Statement
  -- update user_file_list set shared_status = 1 (or 0) where user, md5, file_name
  update_shared_status : (status : ℕ) (user md5 file_name : Text) → Statement
  -- insert into share_file_list (user, md5, create_time, file_name, pv)
  insert_share_file : (user md5 create_time file_name : Text) (pv : ℕ) → Statement
  -- select shared_status from user_file_list where user, md5, file_name
  select_shared_status : (user md5 file_name : Text) → Statement
  -- delete from share_file_list where user, md5, file_name
  delete_share_file : (user md5 file_name : Text) → Statement
  -- delete from user_file_list where user, md5, file_name
  delete_user_file : (user md5 file_name : Text) → Statement
  -- select count from file_info where md5
  select_ref_count : (md5 : Text) → Statement
  -- update file_info set count=%d where md5
  update_ref_count : (count : ℕ) (md5 : Text) → Statement
  -- select file_id from file_info where md5
  select_file_id : (md5 : Text) → Statement
  -- delete from file_info where md5
  delete_file_info : (md5 : Text) → Statement
  -- select pv from user_file_list where user, md5, file_name
  select_user_pv : (user md5 file_name : Text) → Statement
  -- update user_file_list set pv = %d where user, md5, file_name
  update_user_pv : (pv : ℕ) (user md5 file_name : Text) → Statement
  -- select pv from share_file_list where md5, file_name
  select_share_pv : (md5 file_name : Text) → Statement
  -- update share_file_list set pv = %d where md5, file_name
  update_share_pv : (pv : ℕ) (md5 file_name : Text) → Statement
  -- select * from user_file_list where user, md5, file_name
  select_user_file : (user md5 file_name : Text) → Statement
  -- insert into user_file_list(user, md5, create_time, file_name, shared_status, pv)
  insert_user_file : (user md5 create_time file_name : Text) (shared_status pv : ℕ) → Statement
  -- insert into file_info (md5, file_id, url, size, type, count)
  insert_file_info : (md5 file_id url : Text) (size : ℤ) (suffix : Text) (count : ℕ) → Statement
  -- select * from user_info where user_name
  select_user : (user_name : Text) → Statement
  -- insert into user_info (user_name, nick_name, password, phone, email, create_time)
  insert_user : (user_name nick_name password phone email create_time : Text) → Statement
  -- select password from user_info where user_name
  select_password : (user_name : Text) → Statement
  -- select count(*) from user_file_list where user
  count_user_files : (user : Text) → Statement
  -- select count(*) from share_picture_list where user
  count_share_pictures : (user : Text) → Statement
  -- select count(*) from share_file_list
  count_share_files : Statement
  -- select user_file_list.*, file_info.url, file_info.size, file_info.type from file_info,
  -- user_file_list where user, md5 = md5 (order by pv asc, order by pv desc) limit %d, %d
  select_user_files : Order → (user : Text) (start count : ℤ) → Statement
  -- select share_file_list.*, file_info.url, file_info.size, file_info.type from file_info,
  -- share_file_list where md5 = md5 limit %d, %d
  select_share_files : (start count : ℤ) → Statement
  -- select md5, file_name, pv from share_file_list order by pv desc
  select_ranking : Statement
  -- select user, …, size from file_info, share_picture_list where user, md5 = filemd5 limit %d, %d
  select_share_pictures : (user : Text) (start count : ℤ) → Statement
  -- select * from share_picture_list where user, urlmd5
  select_share_picture : (user urlmd5 : Text) → Statement
  -- select filemd5 from share_picture_list where urlmd5
  select_picture_md5 : (urlmd5 : Text) → Statement
  -- select count, file_id from file_info where md5 for update
  select_count_and_id : (md5 : Text) → Statement
  -- delete from share_picture_list where user, urlmd5
  delete_share_picture : (user urlmd5 : Text) → Statement
  -- insert into share_picture_list (user, filemd5, file_name, urlmd5, key, pv, create_time)
  insert_share_picture :
      (user filemd5 file_name urlmd5 key : Text) (pv : ℕ) (create_time : Text) → Statement
  -- select user, filemd5, file_name, pv, create_time from share_picture_list where urlmd5
  select_picture : (urlmd5 : Text) → Statement
  -- select url from file_info where md5
  select_url : (md5 : Text) → Statement
  -- update share_picture_list set pv = %d where urlmd5
  update_picture_pv : (pv : ℕ) (urlmd5 : Text) → Statement

-- The columns that the handlers read.
pub data Column : Type 0 where
  count count_star pv shared_status file_id password : Column
  user filemd5 file_name urlmd5 create_time url size md5 type share_status : Column

-- A row of a result set, by column: `GetInt` and `GetString` of CResultSet (mysql/db_pool.cc). The
-- numeric columns hold counts, which the program never makes negative.
pub record Row : Type 0 where
  pub get_int : Column → ℕ
  pub get_string : Column → Text

-- The commands that CacheConn (redis/cache_pool.cpp) sends.
pub data Command : Type 0 where
  get : (key : Text) → Command
  set : (key value : Text) → Command
  setex : (key : Text) (seconds : ℕ) (value : Text) → Command
  incr decr del zcard : (key : Text) → Command
  hset : (key field value : Text) → Command
  hget hdel : (key field : Text) → Command
  -- zlexcount key [member [member
  zlexcount : (key member : Text) → Command
  zadd : (key : Text) (score : ℕ) (member : Text) → Command
  zrem zscore : (key member : Text) → Command
  -- ZINCRBY key 1 member
  zincrby : (key member : Text) → Command
  exists hgetall llen : (key : Text) → Command
  hincrby : (key field : Text) (value : ℤ) → Command
  incrby : (key : Text) (value : ℤ) → Command
  hmset : (key : Text) (hash : List (Text × Text)) → Command
  lpush rpush : (key value : Text) → Command
  lrange : (key : Text) (start end_pos : ℤ) → Command
  flushdb : Command
  zrevrange : (key : Text) (from_pos end_pos : ℤ) → Command

-- redisReply of hiredis, by its `type`.
pub data Reply : Type 0 where
  string status error : Text → Reply
  integer : ℤ → Reply
  array : List Text → Reply
  nil : Reply

pub record Services (W : Type 0) : Type 0 where
  -- CDBManager::GetDBConn and CacheManager::GetCacheConn: false for NULL
  pub take_db_conn : W → Bool × W
  pub take_cache_conn : W → Bool × W
  -- mysql_real_query and mysql_store_result: none where either fails
  pub query : Statement → W → Option (List Row) × W
  -- mysql_real_query and mysql_affected_rows: none where the query fails
  pub execute : Statement → W → Option ℕ × W
  -- mysql_stmt_init and mysql_stmt_prepare
  pub prepare : W → Bool × W
  -- CacheConn::Init: whether the context is connected afterwards (it returns 0)
  pub connect : W → Bool × W
  -- redisCommand: none for a NULL reply
  pub command : Command → W → Option Reply × W
  -- redisFree, and the context set to NULL
  pub disconnect : W → W
  -- the current time as "%Y-%m-%d %H:%M:%S"
  pub now : W → Text × W
  -- rand()
  pub rand : W → ℕ × W
  -- Json::Reader::parse; a member is none where `isNull`, else its `asString`
  pub parse_json : Text → Option (Text → Option Text)
  -- Json::Value::asInt of a member; none where it throws
  pub json_int : Text → Text → Option ℤ
  -- system("fdfs_delete_file <conf> <file id>")
  pub delete_stored_file : Text → W → ℤ × W
  -- pipe, fork, execlp of a FastDFS tool with one argument, and read of what it prints
  pub run_tool : Text → Text → W → Option Text × W
  pub rename : Text → Text → W → ℤ × W
  pub unlink : Text → W → ℤ × W
  -- what stands in `char cmd[20]` before anything is written there
  pub stack_garbage : Text
