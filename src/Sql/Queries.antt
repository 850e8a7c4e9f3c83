-- ===== src/Sql/Queries.antt =====
-- A query of CDBConn, and what its rows say about the tables.
use pic_bed.Prelude.{Option, none, some, List, ◌≡◌, sym, subst}
use pic_bed.Services.{Services, Statement, Row}
use pic_bed.Act.{Act, Step, next, stop, crash, call}
use pic_bed.Mysql
use pic_bed.Triple.{Triple, After}
use pic_bed.Sql.{Tables, IsSql, Answers}

module _ {W : Type 0} {services : Services W} {view : W → Tables} (sql : IsSql services view) where
  -- What is known of the result of a query.
  abbrev pub QueryResult : Statement → Option (List Row) → Tables → Type 0
  QueryResult s o t =
      ((rows : List Row) → o ≡ some rows → Answers s t rows)
      × (o ≡ none → (w : W) × ((services.query s w).0 ≡ none))

  pub answered_rule :
      {R : Type 0} {E : Option R → Tables → Type 0} {P : Tables → Type 0} (s : Statement)
      → Triple view P (Mysql.execute_query services s) (λ o t. P t × QueryResult s o t) E
  unfolding Mysql.execute_query call
  answered_rule {P} s = record {
    run = λ w p.
        let same : view w ≡ view (services.query s w).1 = sym (sql.query_keeps s w) in
        (
          subst P same p,
          (
            λ rows e. subst (λ (t : Tables). Answers s t rows) same (sql.query_answers s w rows e),
            λ e. (w, e),
          ),
        );
  }

-- Once everything that is to be shown is known, the rest of a run does not matter.
module _ {W R A S : Type 0} {P : S → Type 0} {Q : A → S → Type 0} {E : Option R → S → Type 0} where
  after_known :
      (view : W → S) (t : S)
      → P t
      → ((t : S) → P t → (a : A) (s : S) → Q a s)
      → ((t : S) → P t → (r : Option R) (s : S) → E r s)
      → (o : Step R A × W) → After view Q E o
  after_known view t p goes ends (next a, w) = goes t p a (view w)
  after_known view t p goes ends (stop r, w) = ends t p (some r) (view w)
  after_known view t p goes ends (crash, w) = ends t p none (view w)

  pub known_rule :
      {view : W → S} {m : Act W R A}
      → ((t : S) → P t → (a : A) (s : S) → Q a s)
      → ((t : S) → P t → (r : Option R) (s : S) → E r s)
      → Triple view P m Q E
  known_rule {view} {m} goes ends = record {
    run = λ w p. after_known view (view w) p goes ends (m w);
  }
