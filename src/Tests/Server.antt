-- ===== src/Tests/Server.antt =====
-- A server in memory that answers as MySQL and Redis do, without failures: it shows that the
-- hypotheses of the theorems can hold, and lets the handlers run.
use pic_bed.Prelude.{
  ℕ, zero, suc, Bool, true, false, Option, none, some, List, [], ◌∷◌, ◌++◌, map, Text, codes,
  text_eq, ℤ, pos, negsuc, atoi, to_decimal, to_decimal_ℤ, filter, length, ◌≡◌, refl, ap,
  if◌then◌else◌, not, length-filter, ◌∙◌, count_if,
}
use mathlib.Core.Path.{subst}
use pic_bed.Services.{Services, Statement, Row, Column, Command, Reply}
use pic_bed.Services.Statement.{
  select_ref_count, select_user_file, select_share_file, select_shared_status, select_file_id,
  select_user_pv, select_share_pv, select_user, select_password, count_user_files,
  count_share_files, count_share_pictures, select_share_picture, select_picture_md5,
  select_count_and_id, select_picture, select_url,
}
use pic_bed.Services.Command.{get, set, setex, incr, decr, zlexcount, zadd, zrem, zincrby}
use pic_bed.Services.Reply.{string, status, integer, nil}
use pic_bed.Sql.{
  Tables, FileInfo, UserFile, ShareFile, User, IsSql, Answers, apply, has_md5, owned_by, shared_as,
  named, SharePicture, picture_by, picture_of, has_url,
}

pub record World : Type 0 where
  pub tables : Tables
  pub strings : List (Text × Text)
  pub members : List Text

abbrev blank : Row
blank = record { get_int = λ c. 0; get_string = λ c. [] }

abbrev info_row : FileInfo → Row
info_row r = record {
  get_int = elim [ Column.count ↦ r.count | _ ↦ 0 ];
  get_string = elim [ Column.file_id ↦ r.file_id | Column.url ↦ r.url | _ ↦ [] ];
}

abbrev user_row : UserFile → Row
user_row r = record {
  get_int = elim [ Column.shared_status ↦ r.shared_status | Column.pv ↦ r.pv | _ ↦ 0 ];
  get_string = λ c. [];
}

abbrev share_row : ShareFile → Row
share_row r = record { get_int = elim [ Column.pv ↦ r.pv | _ ↦ 0 ]; get_string = λ c. [] }

abbrev account_row : User → Row
account_row r = record {
  get_int = λ c. 0;
  get_string = elim [ Column.password ↦ r.password | _ ↦ [] ];
}

abbrev picture_row : SharePicture → Row
picture_row r = record {
  get_int = elim [ Column.pv ↦ r.pv | _ ↦ 0 ];
  get_string = elim [
    | Column.user ↦ r.user
    | Column.filemd5 ↦ r.filemd5
    | Column.file_name ↦ r.file_name
    | Column.create_time ↦ r.create_time
    | _ ↦ []
  ];
}

abbrev pub number_row : ℕ → Row
number_row n = record { get_int = elim [ Column.count_star ↦ n | _ ↦ 0 ]; get_string = λ c. [] }

abbrev answer : Statement → Tables → List Row
answer (select_ref_count m) t = map info_row (filter (has_md5 m) t.file_info)
answer (select_file_id m) t = map info_row (filter (has_md5 m) t.file_info)
answer (select_user_file u m f) t = map user_row (filter (owned_by u m f) t.user_file_list)
answer (select_shared_status u m f) t = map user_row (filter (owned_by u m f) t.user_file_list)
answer (select_user_pv u m f) t = map user_row (filter (owned_by u m f) t.user_file_list)
answer (select_share_file m f) t = map share_row (filter (shared_as m f) t.share_file_list)
answer (select_share_pv m f) t = map share_row (filter (shared_as m f) t.share_file_list)
answer (select_user n) t = map account_row (filter (named n) t.user_info)
answer (select_password n) t = map account_row (filter (named n) t.user_info)
answer (count_user_files u) t =
    number_row (length (filter (λ (r : UserFile). text_eq r.user u) t.user_file_list)) ∷ []
answer count_share_files t = number_row (length t.share_file_list) ∷ []
answer (count_share_pictures u) t = number_row (count_if (picture_by u) t.share_picture_list) ∷ []
answer (select_share_picture u l) t = map picture_row (filter (picture_of u l) t.share_picture_list)
answer (select_picture_md5 l) t = map picture_row (filter (has_url l) t.share_picture_list)
answer (select_picture l) t = map picture_row (filter (has_url l) t.share_picture_list)
answer (select_count_and_id m) t = map info_row (filter (has_md5 m) t.file_info)
answer (select_url m) t = map info_row (filter (has_md5 m) t.file_info)
answer _ t = []

abbrev pub stored : Text → List (Text × Text) → Option Text
stored k [] = none
stored k ((j, v) ∷ m) = if text_eq j k then some v else stored k m

abbrev has_member : Text → List Text → Bool
has_member k [] = false
has_member k (j ∷ m) = if text_eq j k then true else has_member k m

abbrev pub step_up : ℤ → ℤ
step_up (pos n) = pos (suc n)
step_up (negsuc n) = elim n [ zero ↦ pos 0 | suc k ↦ negsuc k ]

abbrev pub step_down : ℤ → ℤ
step_down (pos n) = elim n [ zero ↦ negsuc 0 | suc k ↦ pos k ]
step_down (negsuc n) = negsuc (suc n)

abbrev pub value : Option Text → ℤ
value none = pos 0
value (some v) = atoi v

abbrev pub counter : Text → World → ℤ
counter k w = value (stored k w.strings)

abbrev write : Text → Text → World → World
write k v w = record w { strings = (k, v) ∷ w.strings }

abbrev reply : Command → World → Reply × World
reply (get k) w = (elim (stored k w.strings) [ none ↦ nil | some v ↦ string v ], w)
reply (set k v) w = (status (codes "OK"), write k v w)
reply (setex k n v) w = (status (codes "OK"), write k v w)
reply (incr k) w = let n = step_up (counter k w) in (integer n, write k (to_decimal_ℤ n) w)
reply (decr k) w = let n = step_down (counter k w) in (integer n, write k (to_decimal_ℤ n) w)
reply (zlexcount k m) w = (integer (if has_member m w.members then pos 1 else pos 0), w)
reply (zadd k n m) w = (integer (pos 1), record w { members = m ∷ w.members })
reply (zrem k m) w =
    (integer (pos 1), record w { members = filter (λ j. not (text_eq j m)) w.members })
reply (zincrby k m) w = (string (to_decimal 2), w)
reply _ w = (integer (pos 1), w)

abbrev tool_output : Text → Text
tool_output c =
    if text_eq c (codes "fdfs_upload_file")
    then codes "group1/M00/00/00/x.png"
    else codes "source ip address: " ++ codes "10.0.0.1" ++ 10 ∷ []

-- Every body is read as this request.
abbrev field : Text → Option Text
field k =
    if text_eq k (codes "user")
    then some (codes "alice")
    else if text_eq k (codes "token")
    then some (codes "token")
    else if text_eq k (codes "md5")
    then some (codes "10f0")
    else some (codes "cat.png")

abbrev pub server : Services World
server = record {
  take_db_conn = λ w. (true, w);
  take_cache_conn = λ w. (true, w);
  query = λ s w. (some (answer s w.tables), w);
  execute = λ s w. (some 1, record w { tables = apply s w.tables });
  prepare = λ w. (true, w);
  connect = λ w. (true, w);
  command = λ c w. let (r, w') = reply c w in (some r, w');
  disconnect = λ w. w;
  now = λ w. (codes "2023-10-30 12:00:00", w);
  rand = λ w. (3, w);
  parse_json = λ s. some field;
  json_int = λ s k. some (pos 0);
  delete_stored_file = λ f w. (pos 0, w);
  run_tool = λ c a w. (some (tool_output c), w);
  rename = λ a b w. (pos 0, w);
  unlink = λ a w. (pos 0, w);
  stack_garbage = [];
}

abbrev pub view : World → Tables
view w = w.tables

map-info_row :
    (xs : List FileInfo)
    → map (λ (r : Row). r.get_int Column.count) (map info_row xs)
      ≡ map (λ (r : FileInfo). r.count) xs
map-info_row [] = refl
map-info_row (x ∷ xs) = ap (◌∷◌ x.count) (map-info_row xs)

length-map : {A B : Type 0} (f : A → B) (xs : List A) → length (map f xs) ≡ length xs
length-map f [] = refl
length-map f (x ∷ xs) = ap suc (length-map f xs)

map-account_row :
    (xs : List User)
    → map (λ (r : Row). r.get_string Column.password) (map account_row xs)
      ≡ map (λ (r : User). r.password) xs
map-account_row [] = refl
map-account_row (x ∷ xs) = ap (◌∷◌ x.password) (map-account_row xs)

map-picture_row :
    (xs : List SharePicture)
    → map (λ (r : Row). r.get_string Column.filemd5) (map picture_row xs)
      ≡ map (λ (r : SharePicture). r.filemd5) xs
map-picture_row [] = refl
map-picture_row (x ∷ xs) = ap (◌∷◌ x.filemd5) (map-picture_row xs)

map-share_row :
    (xs : List ShareFile)
    → map (λ (r : Row). r.get_int Column.pv) (map share_row xs) ≡ map (λ (r : ShareFile). r.pv) xs
map-share_row [] = refl
map-share_row (x ∷ xs) = ap (◌∷◌ x.pv) (map-share_row xs)

rows_answer : (s : Statement) (t : Tables) → Answers s t (answer s t)
rows_answer (select_ref_count m) t = map-info_row (filter (has_md5 m) t.file_info)
rows_answer (select_user_file u m f) t =
    length-map user_row (filter (owned_by u m f) t.user_file_list)
    ∙ length-filter (owned_by u m f) t.user_file_list
rows_answer (select_share_file m f) t =
    length-map share_row (filter (shared_as m f) t.share_file_list)
    ∙ length-filter (shared_as m f) t.share_file_list
rows_answer (select_share_pv m f) t = map-share_row (filter (shared_as m f) t.share_file_list)
rows_answer (select_user n) t =
    length-map account_row (filter (named n) t.user_info) ∙ length-filter (named n) t.user_info
rows_answer (select_password n) t = map-account_row (filter (named n) t.user_info)
rows_answer (count_share_pictures u) t = refl
rows_answer (select_share_picture u l) t =
    length-map picture_row (filter (picture_of u l) t.share_picture_list)
    ∙ length-filter (picture_of u l) t.share_picture_list
rows_answer (select_picture_md5 l) t = map-picture_row (filter (has_url l) t.share_picture_list)
rows_answer (select_count_and_id m) t = map-info_row (filter (has_md5 m) t.file_info)
rows_answer _ t = tt

reply_keeps : (c : Command) (w : World) → view (reply c w).1 ≡ view w
reply_keeps (get k) w = refl
reply_keeps _ w = refl

rows_of_answer :
    (s : Statement) (w : World) (rows : List Row)
    → (server.query s w).0 ≡ some rows
    → Answers s (view w) rows
rows_of_answer s w rows e =
    let same : answer s (view w) ≡ rows = cc in
    subst (Answers s (view w)) same (rows_answer s (view w))

pub server-IsSql : IsSql server view
server-IsSql = record {
  query_keeps = λ s w. refl;
  query_answers = rows_of_answer;
  execute_fails = λ s w e. cc;
  execute_applies = λ s w n e. refl;
  take_db_conn_keeps = λ w. refl;
  take_cache_conn_keeps = λ w. refl;
  connect_keeps = λ w. refl;
  command_keeps = reply_keeps;
  disconnect_keeps = λ w. refl;
  prepare_keeps = λ w. refl;
  now_keeps = λ w. refl;
  rand_keeps = λ w. refl;
  delete_stored_file_keeps = λ f w. refl;
  run_tool_keeps = λ c a w. refl;
  rename_keeps = λ a b w. refl;
  unlink_keeps = λ a w. refl;
}
