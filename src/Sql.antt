-- ===== src/Sql.antt =====
-- The tables of sql/picbed_db_index.sql, and what the SQL texts of Services.antt do to them: the
-- documented meaning of `select`, `insert`, `update` and `delete`, as a hypothesis about the server.
pub mod Keeps
pub mod Maintains
pub mod RedisKeeps
pub mod Rules
pub mod References
pub mod Steps
pub mod Outcomes
pub mod CountRules
pub mod Queries
use pic_bed.Prelude.{
  ℕ, Bool, not, ◌&&◌, ◌≡◌, none, some, List, [], ◌∷◌, ◌++◌, map, Text, text_eq, ℤ, filter, count_if,
  length, if◌then◌else◌,
}
use pic_bed.Services.{Services, Statement, Row, Column, Command}
use pic_bed.Services.Statement.{
  select_share_file, update_shared_status, insert_share_file, delete_share_file, delete_user_file,
  select_ref_count, update_ref_count, delete_file_info, update_user_pv, update_share_pv,
  select_share_pv, select_user_file, insert_user_file, insert_file_info, insert_user, select_user,
  select_password, count_share_pictures, select_share_picture, select_picture_md5,
  select_count_and_id, delete_share_picture, insert_share_picture, update_picture_pv,
}

pub record FileInfo : Type 0 where
  pub md5 : Text
  pub file_id : Text
  pub url : Text
  pub size : ℤ
  pub suffix : Text
  pub count : ℕ

pub record UserFile : Type 0 where
  pub user : Text
  pub md5 : Text
  pub create_time : Text
  pub file_name : Text
  pub shared_status : ℕ
  pub pv : ℕ

pub record ShareFile : Type 0 where
  pub user : Text
  pub md5 : Text
  pub create_time : Text
  pub file_name : Text
  pub pv : ℕ

pub record User : Type 0 where
  pub user_name : Text
  pub nick_name : Text
  pub password : Text
  pub phone : Text
  pub email : Text
  pub create_time : Text

pub record SharePicture : Type 0 where
  pub user : Text
  pub filemd5 : Text
  pub file_name : Text
  pub urlmd5 : Text
  pub key : Text
  pub pv : ℕ
  pub create_time : Text

-- Of the keys, the model has none: that MySQL refuses a second user_name or nick_name (UNIQUE KEY of
-- user_info) is one of the ways in which a statement may fail. Texts are compared byte by byte, while
-- the columns' collation (utf8) takes upper and lower case, and blanks at the end, as equal: texts that
-- differ in these only are outside of the model.
pub record Tables : Type 0 where
  pub file_info : List FileInfo
  pub user_file_list : List UserFile
  pub share_file_list : List ShareFile
  pub user_info : List User
  pub share_picture_list : List SharePicture

-- The tests of the `where` clauses.
abbrev pub has_md5 : Text → FileInfo → Bool
has_md5 m r = text_eq r.md5 m

abbrev pub owned_by : Text → Text → Text → UserFile → Bool
owned_by u m f r = text_eq r.user u && text_eq r.md5 m && text_eq r.file_name f

abbrev pub shared_as : Text → Text → ShareFile → Bool
shared_as m f r = text_eq r.md5 m && text_eq r.file_name f

abbrev pub shared_by : Text → Text → Text → ShareFile → Bool
shared_by u m f r = text_eq r.user u && shared_as m f r

abbrev pub has_url : Text → SharePicture → Bool
has_url l r = text_eq r.urlmd5 l

abbrev pub picture_by : Text → SharePicture → Bool
picture_by u r = text_eq r.user u

abbrev pub picture_of : Text → Text → SharePicture → Bool
picture_of u l r = picture_by u r && has_url l r

-- `update`: the rows that pass the test are changed.
abbrev pub update_where : {A : Type 0} → (A → Bool) → (A → A) → List A → List A
update_where p f = map (λ r. if p r then f r else r)

abbrev pub delete_where : {A : Type 0} → (A → Bool) → List A → List A
delete_where p = filter (λ r. not (p r))

abbrev pub with_count : ℕ → FileInfo → FileInfo
with_count n r = record r { count = n }

abbrev pub with_status : ℕ → UserFile → UserFile
with_status n r = record r { shared_status = n }

abbrev pub with_user_pv : ℕ → UserFile → UserFile
with_user_pv n r = record r { pv = n }

abbrev pub with_share_pv : ℕ → ShareFile → ShareFile
with_share_pv n r = record r { pv = n }

abbrev pub with_picture_pv : ℕ → SharePicture → SharePicture
with_picture_pv n r = record r { pv = n }

abbrev pub named : Text → User → Bool
named n r = text_eq r.user_name n

-- What a statement makes of the tables.
unfoldable pub apply : Statement → Tables → Tables
apply (update_shared_status n u m f) t = record t {
  user_file_list = update_where (owned_by u m f) (with_status n) t.user_file_list;
}
apply (insert_share_file u m c f n) t = record t {
  share_file_list =
      t.share_file_list
      ++ record { user = u; md5 = m; create_time = c; file_name = f; pv = n } ∷ [];
}
apply (delete_share_file u m f) t = record t {
  share_file_list = delete_where (shared_by u m f) t.share_file_list;
}
apply (delete_user_file u m f) t = record t {
  user_file_list = delete_where (owned_by u m f) t.user_file_list;
}
apply (update_ref_count n m) t = record t {
  file_info = update_where (has_md5 m) (with_count n) t.file_info;
}
apply (delete_file_info m) t = record t { file_info = delete_where (has_md5 m) t.file_info }
apply (update_user_pv n u m f) t = record t {
  user_file_list = update_where (owned_by u m f) (with_user_pv n) t.user_file_list;
}
apply (update_share_pv n m f) t = record t {
  share_file_list = update_where (shared_as m f) (with_share_pv n) t.share_file_list;
}
apply (insert_user_file u m c f s n) t = record t {
  user_file_list =
      t.user_file_list
      ++ record { user = u; md5 = m; create_time = c; file_name = f; shared_status = s; pv = n }
        ∷ [];
}
apply (insert_file_info m i l s x n) t = record t {
  file_info =
      t.file_info ++ record { md5 = m; file_id = i; url = l; size = s; suffix = x; count = n } ∷ [];
}
apply (insert_user u n p h e c) t = record t {
  user_info =
      t.user_info
      ++ record {
        user_name = u;
        nick_name = n;
        password = p;
        phone = h;
        email = e;
        create_time = c;
      }
        ∷ [];
}
apply (insert_share_picture u m f l k n c) t = record t {
  share_picture_list =
      t.share_picture_list
      ++ record {
        user = u;
        filemd5 = m;
        file_name = f;
        urlmd5 = l;
        key = k;
        pv = n;
        create_time = c;
      }
        ∷ [];
}
apply (delete_share_picture u l) t = record t {
  share_picture_list = delete_where (picture_of u l) t.share_picture_list;
}
apply (update_picture_pv n l) t = record t {
  share_picture_list = update_where (has_url l) (with_picture_pv n) t.share_picture_list;
}
apply _ t = t

-- What the rows of an answer show of the tables, for the queries that the theorems are about.
abbrev pub Answers : Statement → Tables → List Row → Type 0
Answers (select_ref_count m) t rows =
    map (λ (r : Row). r.get_int Column.count) rows
    ≡ map (λ (r : FileInfo). r.count) (filter (has_md5 m) t.file_info)
Answers (select_user_file u m f) t rows = length rows ≡ count_if (owned_by u m f) t.user_file_list
Answers (select_share_file m f) t rows = length rows ≡ count_if (shared_as m f) t.share_file_list
Answers (select_share_pv m f) t rows =
    map (λ (r : Row). r.get_int Column.pv) rows
    ≡ map (λ (r : ShareFile). r.pv) (filter (shared_as m f) t.share_file_list)
Answers (select_user n) t rows = length rows ≡ count_if (named n) t.user_info
Answers (select_password n) t rows =
    map (λ (r : Row). r.get_string Column.password) rows
    ≡ map (λ (r : User). r.password) (filter (named n) t.user_info)
Answers (count_share_pictures u) t rows =
    map (λ (r : Row). r.get_int Column.count_star) rows
    ≡ count_if (picture_by u) t.share_picture_list ∷ []
Answers (select_share_picture u l) t rows =
    length rows ≡ count_if (picture_of u l) t.share_picture_list
Answers (select_picture_md5 l) t rows =
    map (λ (r : Row). r.get_string Column.filemd5) rows
    ≡ map (λ (r : SharePicture). r.filemd5) (filter (has_url l) t.share_picture_list)
Answers (select_count_and_id m) t rows =
    map (λ (r : Row). r.get_int Column.count) rows
    ≡ map (λ (r : FileInfo). r.count) (filter (has_md5 m) t.file_info)
Answers _ t rows = Unit

-- `view w` is the content of the tables in the world `w`: a query answers from them and changes
-- nothing, a statement that goes through has its effect, one that fails has none, and nothing else
-- that the program calls touches them.
pub record IsSql {W : Type 0} (services : Services W) (view : W → Tables) : Type 0 where
  pub query_keeps : (s : Statement) (w : W) → view (services.query s w).1 ≡ view w
  pub query_answers :
      (s : Statement) (w : W) (rows : List Row)
      → (services.query s w).0 ≡ some rows
      → Answers s (view w) rows
  pub execute_fails :
      (s : Statement) (w : W)
      → (services.execute s w).0 ≡ none
      → view (services.execute s w).1 ≡ view w
  pub execute_applies :
      (s : Statement) (w : W) (affected : ℕ)
      → (services.execute s w).0 ≡ some affected
      → view (services.execute s w).1 ≡ apply s (view w)
  pub take_db_conn_keeps : (w : W) → view (services.take_db_conn w).1 ≡ view w
  pub take_cache_conn_keeps : (w : W) → view (services.take_cache_conn w).1 ≡ view w
  pub connect_keeps : (w : W) → view (services.connect w).1 ≡ view w
  pub command_keeps : (c : Command) (w : W) → view (services.command c w).1 ≡ view w
  pub disconnect_keeps : (w : W) → view (services.disconnect w) ≡ view w
  pub prepare_keeps : (w : W) → view (services.prepare w).1 ≡ view w
  pub now_keeps : (w : W) → view (services.now w).1 ≡ view w
  pub rand_keeps : (w : W) → view (services.rand w).1 ≡ view w
  pub delete_stored_file_keeps :
      (f : Text) (w : W) → view (services.delete_stored_file f w).1 ≡ view w
  pub run_tool_keeps : (c a : Text) (w : W) → view (services.run_tool c a w).1 ≡ view w
  pub rename_keeps : (a b : Text) (w : W) → view (services.rename a b w).1 ≡ view w
  pub unlink_keeps : (a : Text) (w : W) → view (services.unlink a w).1 ≡ view w
