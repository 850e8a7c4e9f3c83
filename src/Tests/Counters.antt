-- ===== src/Tests/Counters.antt =====
-- The counters at a server that stores strings.
use pic_bed.Prelude.{
  ℕ, ◌+◌, ◌∙◌, Option, none, List, zero, suc, to_decimal_ℤ, to_decimal_ℤ-pos, some, [], ◌∷◌, Text,
  ◌≡◌, refl, ap, ℤ, pos, to_decimal, atoi-to_decimal, text_eq_refl, true, minus_one, arith,
}
use pic_bed.Services.{Reply}
use pic_bed.Act.{next, ◌>>=◌}
use pic_bed.Api.Counts.{cache_set_count, cache_get_count, cache_decr_count, file_public_count}
use pic_bed.Api.Counts.Stored.{
  IsRedis, one_less, get_reply, cache_get_count-cache_set_count, cache_decr_count-subtracts,
}
use pic_bed.Tests.Server.{World, server, stored, number_row, value, counter, step_up, step_down}
use pic_bed.Sql.{apply}
use pic_bed.Api.MyFiles.{get_user_files_count}
use pic_bed.Api.MyFiles.Reload.{get_user_files_count-again}
use pic_bed.Tests.Sample.{alice, with_info, tables, world}

abbrev strings_of : World → Text → Option Text
strings_of w k = stored k w.strings

write_self : (k v : Text) (m : List (Text × Text)) → stored k ((k, v) ∷ m) ≡ some v
write_self k v m = rw (text_eq_refl k)

counter_is :
    (k : Text) (n : ℕ) (w : World) → strings_of w k ≡ some (to_decimal n) → counter k w ≡ pos n
counter_is k n w e = ap value e ∙ atoi-to_decimal n

up_is : (n : ℕ) → step_up (pos n) ≡ pos (n + 1)
up_is n = ap pos (omega arith)

down_is : (n : ℕ) → step_down (pos n) ≡ one_less n
down_is zero = refl
down_is (suc n) = refl

get_is : (o : Option Text) → (elim o [ none ↦ Reply.nil | some v ↦ Reply.string v ]) ≡ get_reply o
get_is none = refl
get_is (some v) = refl

server-IsRedis : IsRedis server strings_of
server-IsRedis = record {
  connects = λ w. refl;
  connect_keeps = λ w. refl;
  get_answers = λ k w. ap (λ (r : Reply). some r) (get_is (stored k w.strings));
  set_answers = λ k v w. refl;
  set_stores = λ k v w. write_self k v w.strings;
  incr_answers = λ k n w e.
      ap (λ (c : ℤ). some (Reply.integer (step_up c))) (counter_is k n w e)
      ∙ ap (λ (c : ℤ). some (Reply.integer c)) (up_is n);
  incr_stores = λ k n w e.
      write_self k _ w.strings
      ∙ ap (λ (c : ℤ). some (to_decimal_ℤ (step_up c))) (counter_is k n w e)
      ∙ ap (λ (c : ℤ). some (to_decimal_ℤ c)) (up_is n)
      ∙ ap (λ (t : Text). some t) (to_decimal_ℤ-pos (n + 1));
  decr_answers = λ k n w e.
      ap (λ (c : ℤ). some (Reply.integer (step_down c))) (counter_is k n w e)
      ∙ ap (λ (c : ℤ). some (Reply.integer c)) (down_is n);
  decr_stores = λ k n w e.
      write_self k _ w.strings
      ∙ ap (λ (c : ℤ). some (to_decimal_ℤ (step_down c))) (counter_is k n w e)
      ∙ ap (λ (c : ℤ). some (to_decimal_ℤ c)) (down_is n);
}

abbrev counting : World
counting = record world { strings = (file_public_count, to_decimal 7) ∷ [] }

cache_get_count-cache_set_count_example :
    ((cache_set_count server {R = ℕ} file_public_count (pos 12) >>= λ ret.
    cache_get_count server file_public_count)
      world).0
    ≡ next (pos 0, pos 12)
cache_get_count-cache_set_count_example =
    cache_get_count-cache_set_count server-IsRedis file_public_count 12 world

cache_decr_count-subtracts_example :
    ((cache_decr_count server {R = ℕ} file_public_count counting).0 ≡ next (pos 0))
    × (strings_of (cache_decr_count server {R = ℕ} file_public_count counting).1 file_public_count
        ≡ some (to_decimal 6))
cache_decr_count-subtracts_example =
    cache_decr_count-subtracts server-IsRedis file_public_count 7 counting
      (write_self file_public_count (to_decimal 7) [])

get_user_files_count-again_example :
    let first = get_user_files_count server true true alice world in
    (first.0 ≡ next (minus_one, pos 1))
    × ((get_user_files_count server true true alice first.1).0 ≡ next (pos 0, pos 1))
unfolding apply world tables with_info
get_user_files_count-again_example =
    get_user_files_count-again server-IsRedis alice (number_row 1) [] 0 world refl refl refl
