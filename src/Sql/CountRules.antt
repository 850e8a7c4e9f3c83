-- ===== src/Sql/CountRules.antt =====
-- The counters in Redis and the first row of a result keep an assertion about the tables and may crash, but do not end a handler.
use pic_bed.Prelude.{Option, none, some, List, Text}
use pic_bed.Services.{Services, Row}
use pic_bed.Mysql.{first_row}
use pic_bed.Triple.{Triple, bind, pure_rule}
use pic_bed.Api.Counts
use pic_bed.Sql.{Tables, IsSql}
use pic_bed.Sql.Rules.{keeps_inline_rule}
use pic_bed.Sql.RedisKeeps.{incr-Keeps, decr_count-Keeps}

module _ {W : Type 0} {services : Services W} {view : W → Tables} (sql : IsSql services view)
    {R : Type 0} {P : Tables → Type 0} {E : Option R → Tables → Type 0} (key : Text)
    (crashed : (t : Tables) → P t → E none t) where
  pub incr_count_rule : Triple view P (Counts.cache_incr_count services key) (λ _. P) E
  unfolding Counts.cache_incr_count
  incr_count_rule =
      bind (keeps_inline_rule (incr-Keeps sql key) crashed) λ answer. pure_rule _ λ t p. p

  pub decr_count_rule : Triple view P (Counts.cache_decr_count services key) (λ _. P) E
  unfolding Counts.cache_decr_count
  decr_count_rule = keeps_inline_rule (decr_count-Keeps sql key) crashed

module _ {W R S : Type 0} {view : W → S} {P : S → Type 0} {E : Option R → S → Type 0} where
  pub first_row_rule :
      (o : Option (List Row)) → ((t : S) → P t → E none t) → Triple view P (first_row o) (λ _. P) E
  unfolding first_row
  first_row_rule none crashed = record { run = λ w p. crashed (view w) p }
  first_row_rule (some rows) crashed = record { run = λ w p. p }
