-- ===== src/Tests/Rankings.antt =====
-- A ranking that is out of date is loaded again, from three rows of which two have the same id.
use pic_bed.Prelude.{
  true, none, some, List, [], ◌∷◌, Text, codes, text_eq, ℕ, pos, ◌≡◌, refl, if◌then◌else◌,
}
use pic_bed.Services.{Services, Command, Reply, Row, Column}
use pic_bed.Services.Command.{del, zadd, hset}
use pic_bed.Act.{next}
use pic_bed.Api.Counts.{file_public_zset, file_name_hash}
use pic_bed.Api.ShareFiles.{reload_ranking}
use pic_bed.Api.ShareFiles.Imported.{
  Stored, IsRanking, scored, called, last_row, from_row, reload_ranking-imports,
}

abbrev obey : Command → Stored → Stored
obey (del k) s =
    if text_eq k file_public_zset
    then record { scores = λ m. none; names = s.names }
    else if text_eq k file_name_hash
    then record { scores = s.scores; names = λ m. none }
    else s
obey (zadd k n m) s = if text_eq k file_public_zset then scored m n s else s
obey (hset k m v) s = if text_eq k file_name_hash then called m v s else s
obey _ s = s

abbrev ranked_row : Text → Text → ℕ → Row
ranked_row md5 name pv = record {
  get_int = elim [ Column.pv ↦ pv | _ ↦ 0 ];
  get_string = elim [ Column.md5 ↦ md5 | Column.file_name ↦ name | _ ↦ [] ];
}

abbrev rows : List Row
rows =
    ranked_row (codes "10f0") (codes "cat.png") 7
    ∷ ranked_row (codes "20f0") (codes "dog.png") 5
    ∷ ranked_row (codes "10f0") (codes "cat.png") 2
    ∷ []

abbrev server : Services Stored
server = record {
  take_db_conn = λ w. (true, w);
  take_cache_conn = λ w. (true, w);
  query = λ s w. (some rows, w);
  execute = λ s w. (some 1, w);
  prepare = λ w. (true, w);
  connect = λ w. (true, w);
  command = λ c w. (some (Reply.integer (pos 1)), obey c w);
  disconnect = λ w. w;
  now = λ w. ([], w);
  rand = λ w. (0, w);
  parse_json = λ s. none;
  json_int = λ s k. none;
  delete_stored_file = λ f w. (pos 0, w);
  run_tool = λ c a w. (none, w);
  rename = λ a b w. (pos 0, w);
  unlink = λ a w. (pos 0, w);
  stack_garbage = [];
}

server-IsRanking : IsRanking server (λ w. w)
server-IsRanking = record {
  connects = λ w. refl;
  connect_keeps = λ w. refl;
  query_keeps = λ w. refl;
  del_answers = λ k w. (pos 1, refl);
  zadd_answers = λ k m c w. (pos 1, refl);
  hset_answers = λ k f v w. (pos 1, refl);
  del_scores = λ w. refl;
  del_names = λ w. refl;
  zadd_scores = λ m c w. refl;
  hset_names = λ m v w. refl;
}

-- Redis still lists a file that is no longer shared.
abbrev old : Stored
old = record { scores = λ m. if text_eq m (codes "gone") then some 3 else none; names = λ m. none }

reload_ranking-imports_example :
    let (result, after) = reload_ranking server true old in
    (result ≡ next tt)
    × ((m : Text)
        → (after.scores m ≡ from_row (λ r. r.get_int Column.pv) none (last_row m rows))
          × (after.names m ≡ from_row (λ r. r.get_string Column.file_name) none (last_row m rows)))
reload_ranking-imports_example =
    reload_ranking-imports server-IsRanking rows old (refl, (refl, (refl, tt))) refl

-- The score of the last row counts.
last_row_counts :
    last_row (codes "10f0cat.png") rows ≡ some (ranked_row (codes "10f0") (codes "cat.png") 2)
last_row_counts = refl
