-- ===== src/Sql/Maintains.antt =====
-- Runs that keep an assertion about the tables, however they end, and the rules by which a run is
-- one: of its statements, only those that write the tables have something to show.
use pic_bed.Prelude.{Bool, true, false, Option, none, some, List, ℕ, refl, sym, subst}
use pic_bed.Services.{Services, Statement, Row}
use pic_bed.Act.{Step, next, stop, crash, Act, continue, ◌>>=◌, pure, when, call, inline, choose}
use pic_bed.Mysql
use pic_bed.Sql.{Tables, IsSql, apply}
use pic_bed.Sql.Keeps.{Keeps, keeps_rules, call-Keeps}
use pic_bed.Sql.Rules.{executed}

module _ {W : Type 0} (view : W → Tables) (P : Tables → Type 0) where
  pub record Maintains {R A : Type 0} (m : Act W R A) : Type 0 where
    pub after : (w : W) → P (view w) → P (view (m w).1)

  module _ {R A B : Type 0} where
    bind_after :
        (f : A → Act W R B)
        → ((a : A) → Maintains (f a))
        → (o : Step R A × W) → P (view o.1)
        → P (view (continue f o.0 o.1).1)
    bind_after f rest (next a, w) p = (rest a).after w p
    bind_after f rest (stop r, w) p = p
    bind_after f rest (crash, w) p = p

    pub bind-Maintains :
        {m : Act W R A} {f : A → Act W R B}
        → Maintains m
        → ((a : A) → Maintains (f a))
        → Maintains (m >>= f)
    unfolding ◌>>=◌
    bind-Maintains {m} {f} first rest = record {
      after = λ w p. bind_after f rest (m w) (first.after w p);
    }

  module _ {R : Type 0} where
    pub kept-Maintains : {A : Type 0} {m : Act W R A} → Keeps view m → Maintains m
    kept-Maintains h = record { after = λ w p. subst P (sym (h.same w)) p }

    pub inline-Maintains : {A : Type 0} {m : Act W A A} → Maintains m → Maintains (inline {R = R} m)
    unfolding inline
    inline-Maintains h = record { after = h.after }

    pub when-Maintains : (b : Bool) {m : Act W R (Unit {0})} → Maintains m → Maintains (when b m)
    unfolding when
    when-Maintains true h = h
    when-Maintains false h = record { after = λ w p. p }

    pub choose-Maintains :
        {A : Type 0} (b : Bool) {m n : Act W R A}
        → Maintains m
        → Maintains n
        → Maintains (choose b m n)
    unfolding choose
    choose-Maintains true h k = h
    choose-Maintains false h k = k

module _ {W : Type 0} {services : Services W} {view : W → Tables} (sql : IsSql services view)
    {P : Tables → Type 0} (s : Statement) (done : (t : Tables) → P t → P (apply s t)) where
  after_execute : (w : W) → P (view w) → P (view (services.execute s w).1)
  after_execute w p = executed sql s (λ b. P) (λ t p. p) done w (services.execute s w).0 refl p

  module _ {R : Type 0} where
    pub execute-Maintains : Maintains view P {R = R} (call (services.execute s))
    unfolding call
    execute-Maintains = record { after = after_execute }

    pub create-Maintains : Maintains view P {R = R} (Mysql.execute_create services s)
    unfolding Mysql.execute_create ◌>>=◌ pure call
    create-Maintains = record { after = after_execute }

    pub drop-Maintains : Maintains view P {R = R} (Mysql.execute_drop services s)
    unfolding Mysql.execute_drop ◌>>=◌ pure call
    drop-Maintains = record { after = after_execute }

    pub update-Maintains :
        (care : Bool) → Maintains view P {R = R} (Mysql.execute_update services s care)
    unfolding Mysql.execute_update ◌>>=◌ pure call
    update-Maintains care = record { after = after_execute }

module _ {W : Type 0} {services : Services W} {view : W → Tables} (sql : IsSql services view)
    (s : Statement) {R : Type 0} where
  first_row-Keeps : (o : Option (List Row)) → Keeps view {R = R} (Mysql.first_row o)
  unfolding Mysql.first_row
  first_row-Keeps none = record { same = λ w. refl }
  first_row-Keeps (some rows) = record { same = λ w. refl }

  -- The readers of results
  pub execute_query-Keeps : Keeps view {R = R} (Mysql.execute_query services s)
  unfolding Mysql.execute_query call
  execute_query-Keeps = record { same = sql.query_keeps s }

  pub check_whether_have_record-Keeps :
      Keeps view {R = R} (Mysql.check_whether_have_record services s)
  unfolding Mysql.check_whether_have_record
  check_whether_have_record-Keeps =
      search (keeps_rules, call-Keeps view (services.query s) (sql.query_keeps s))

  pub get_result_one_status-Keeps :
      (n : ℕ) → Keeps view {R = R} (Mysql.get_result_one_status services s n)
  unfolding Mysql.get_result_one_status
  get_result_one_status-Keeps n =
      search (keeps_rules, call-Keeps view (services.query s) (sql.query_keeps s), first_row-Keeps)

  pub get_result_one_count-Keeps :
      (n : ℕ) → Keeps view {R = R} (Mysql.get_result_one_count services s n)
  unfolding Mysql.get_result_one_count
  get_result_one_count-Keeps n =
      search (keeps_rules, call-Keeps view (services.query s) (sql.query_keeps s), first_row-Keeps)

pub ruleset maintains_rules = (
  bind-Maintains, inline-Maintains, when-Maintains, choose-Maintains, kept-Maintains, keeps_rules,
)
