-- ===== src/Api/Query.antt =====
-- The command of a request, from its URL (QueryParseKeyValue, base/common.cc, and its callers).
use pic_bed.Prelude.{
  Option, none, some, [], ◌∷◌, ◌||◌, Text, codes, strstr, drop, length, ltb, ◌==◌, if◌then◌else◌,
}
use pic_bed.Services.{Services}
use pic_bed.Act.{next, crash, Act, ◌>>=◌, ◌>>◌, pure, need}

-- The value runs up to the end, a `#` or a `&`.
unfoldable pub value_at : Text → Text
value_at [] = []
value_at (c ∷ s) = let rest = c ∷ value_at s in if c == b'#' || c == b'&' then [] else rest

-- From behind the key: one character, the `=`, is stepped over. At the end of the text that reads
-- past its NUL.
unfoldable pub behind_key : {W R : Type 0} → Text → Act W R (Option Text)
unfolding value_at
behind_key [] w = (crash, w)
behind_key (c ∷ s) w = (next (some (value_at s)), w)

-- Where the key was found, its value.
unfoldable pub value_behind : {W R : Type 0} → Text → Option Text → Act W R (Option Text)
unfolding behind_key
value_behind key none = pure none
value_behind key (some found) = behind_key (drop (length key) found)

-- QueryParseKeyValue; none where it returns -1
unfoldable pub query_parse_key_value : {W R : Type 0} → Text → Text → Act W R (Option Text)
unfolding value_behind
query_parse_key_value query key = value_behind key (strstr key query)

-- The value is copied to `char cmd[20]`: one of 20 bytes or more is written past the array.
unfoldable pub copied : {W R : Type 0} → Services W → Option Text → Act W R Text
copied services none = pure services.stack_garbage
copied services (some cmd) = need (ltb (length cmd) 20) >> pure cmd

-- `char cmd[20]` after QueryParseKeyValue(url, "cmd", cmd, NULL): what stood there where the URL
-- has no command
unfoldable pub read_cmd : {W R : Type 0} → Services W → Text → Act W R Text
unfolding query_parse_key_value copied
read_cmd services url = query_parse_key_value url (codes "cmd") >>= copied services
