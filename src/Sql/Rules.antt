-- ===== src/Sql/Rules.antt =====
-- The rules of Triple.antt for the calls of CDBConn and for what keeps the tables.
use pic_bed.Prelude.{
  ℕ, zero, suc, ◌<◌, Bool, true, false, Option, none, some, List, [], ◌∷◌, map, Text, ℤ, pos,
  negsuc, ◌≡◌, refl, length, filter, count_if, sym, ap, ◌∙◌, subst, arith,
}
use pic_bed.Services.{Services, Statement, Row, Column}
use pic_bed.Services.Statement.{select_ref_count, select_user_file}
use pic_bed.Act.{Step, next, stop, crash, Act, ◌>>=◌, pure, call, inline, returned, running}
use pic_bed.Mysql
use pic_bed.Mysql.{first_row, first?}
use pic_bed.Triple.{Triple, After}
use pic_bed.Sql.{Tables, FileInfo, IsSql, apply, has_md5, owned_by}
use pic_bed.Sql.Keeps.{Keeps}

-- The reference count of a file, in its first row.
unfoldable pub first_count : List FileInfo → Option ℕ
first_count [] = none
first_count (r ∷ rows) = some r.count

unfoldable pub ref_count : Text → Tables → Option ℕ
unfolding first_count
ref_count m t = first_count (filter (has_md5 m) t.file_info)

-- What GetResultOneCount returns for it.
abbrev pub read_count : Option ℕ → ℤ × ℕ
read_count none = (pos 1, 0)
read_count (some c) = (pos 0, c)

-- What CheckwhetherHaveRecord may return for `n` rows.
abbrev pub Checked : ℕ → ℤ → Type 0
Checked n (pos zero) = n ≡ 0
Checked n (pos (suc zero)) = 0 < n
Checked n (pos (suc (suc k))) = ⊥
Checked n (negsuc k) = Unit

module _ {W R A : Type 0} (view : W → Tables) (E : Option R → Tables → Type 0)
    (P : Tables → Type 0) where
  after-Keeps :
      (o : Step R A × W) (t : Tables)
      → ((r : Option R) (t : Tables) → P t → E r t)
      → view o.1 ≡ t
      → P t
      → After view (λ _. P) E o
  after-Keeps (next a, w) t ends e p = subst P (sym e) p
  after-Keeps (stop r, w) t ends e p = ends (some r) (view w) (subst P (sym e) p)
  after-Keeps (crash, w) t ends e p = ends none (view w) (subst P (sym e) p)

  inlined_after :
      (o : Step A A × W) (t : Tables)
      → ((t : Tables) → P t → E none t)
      → view o.1 ≡ t
      → P t
      → After view (λ _. P) E (returned {R = R} o.0, o.1)
  inlined_after (next a, w) t ends e p = subst P (sym e) p
  inlined_after (stop r, w) t ends e p = subst P (sym e) p
  inlined_after (crash, w) t ends e p = ends (view w) (subst P (sym e) p)

module _ {W R A : Type 0} {view : W → Tables} {E : Option R → Tables → Type 0}
    {P : Tables → Type 0} where
  pub keeps_rule :
      {m : Act W R A}
      → Keeps view m
      → ((r : Option R) (t : Tables) → P t → E r t)
      → Triple view P m (λ _. P) E
  keeps_rule {m} h ends = record {
    run = λ w p. after-Keeps view E P (m w) (view w) ends (h.same w) p;
  }

  -- A call that keeps the tables and may crash.
  pub keeps_inline_rule :
      {m : Act W A A}
      → Keeps view m
      → ((t : Tables) → P t → E none t)
      → Triple view P (inline m) (λ _. P) E
  unfolding inline
  keeps_inline_rule {m} h ends = record {
    run = λ w p. inlined_after view E P (m w) (view w) ends (h.same w) p;
  }

  pub call_rule :
      (f : W → A × W) → ((w : W) → view (f w).1 ≡ view w) → Triple view P (call f) (λ _. P) E
  unfolding call
  call_rule f h = record { run = λ w p. subst P (sym (h w)) p }

  -- The same, with the value as one that the call gives
  pub called_rule :
      (f : W → A × W)
      → ((w : W) → view (f w).1 ≡ view w)
      → Triple view P (call f) (λ a t. ((w : W) × ((f w).0 ≡ a)) × P t) E
  unfolding call
  called_rule f h = record { run = λ w p. ((w, refl), subst P (sym (h w)) p) }

module _ {W : Type 0} {services : Services W} {view : W → Tables} (sql : IsSql services view)
    {P : Tables → Type 0} (s : Statement) (Q : Bool → Tables → Type 0)
    (failed : (t : Tables) → P t → Q false t) (done : (t : Tables) → P t → Q true (apply s t)) where
  pub executed :
      (w : W) (rows : Option ℕ)
      → (services.execute s w).0 ≡ rows
      → P (view w)
      → Q (Mysql.succeeded rows) (view (services.execute s w).1)
  executed w none e p = subst (Q false) (sym (sql.execute_fails s w e)) (failed (view w) p)
  executed w (some n) e p = subst (Q true) (sym (sql.execute_applies s w n e)) (done (view w) p)

  module _ {R : Type 0} {E : Option R → Tables → Type 0} where
    pub create_rule : Triple view P (Mysql.execute_create services s) Q E
    unfolding Mysql.execute_create running
    create_rule = record { run = λ w p. executed w (services.execute s w).0 refl p }

    pub pass_query_rule : Triple view P (Mysql.execute_pass_query services s) Q E
    unfolding Mysql.execute_pass_query running
    pass_query_rule = record { run = λ w p. executed w (services.execute s w).0 refl p }

    pub drop_rule : Triple view P (Mysql.execute_drop services s) Q E
    unfolding Mysql.execute_drop running
    drop_rule = record { run = λ w p. executed w (services.execute s w).0 refl p }

-- An update may go through and still count as failed, where it affects no row.
module _ {W : Type 0} {services : Services W} {view : W → Tables} (sql : IsSql services view)
    {P : Tables → Type 0} (s : Statement) (care : Bool) (Q : Bool → Tables → Type 0)
    (failed : (t : Tables) → P t → Q false t)
    (done : (t : Tables) (ok : Bool) → P t → Q ok (apply s t)) where
  pub updated :
      (w : W) (rows : Option ℕ)
      → (services.execute s w).0 ≡ rows
      → P (view w)
      → Q (Mysql.update_succeeded rows care) (view (services.execute s w).1)
  updated w none e p = subst (Q false) (sym (sql.execute_fails s w e)) (failed (view w) p)
  updated w (some n) e p = subst (Q _) (sym (sql.execute_applies s w n e)) (done (view w) _ p)

  pub update_rule :
      {R : Type 0} {E : Option R → Tables → Type 0}
      → Triple view P (Mysql.execute_update services s care) Q E
  unfolding Mysql.execute_update running
  update_rule = record { run = λ w p. updated w (services.execute s w).0 refl p }

-- The answers of the two readers, from what the rows show.
first_answer :
    (rows : List Row) (infos : List FileInfo)
    → map (λ (r : Row). r.get_int Column.count) rows ≡ map (λ (r : FileInfo). r.count) infos
    → Mysql.one_count 0 (first? rows) ≡ read_count (first_count infos)
unfolding first_count
first_answer [] [] e = refl
first_answer [] (i ∷ is) e = cc
first_answer (r ∷ rs) [] e = cc
first_answer (r ∷ rs) (i ∷ is) e = cc

check_answer :
    (rows : List Row) (n : ℕ) → length rows ≡ n → Checked n (Mysql.record_status (some rows))
check_answer [] n e = sym e
check_answer (r ∷ rs) n e = omega arith

module _ {W : Type 0} {services : Services W} {view : W → Tables} (sql : IsSql services view) where
  counted :
      {R : Type 0} (E : Option R → Tables → Type 0) (P : Tables → Type 0) (m : Text) (w : W)
      (rows : Option (List Row))
      → (services.query (select_ref_count m) w).0 ≡ rows
      → P (view w)
      → ((t : Tables) → P t → E none t)
      → After view
          (λ a t. P t × (a ≡ read_count (ref_count m t)))
          E
          ((first_row rows >>= λ row. pure (Mysql.one_count 0 row))
            (services.query (select_ref_count m) w).1)
  unfolding first_row ref_count running
  counted E P m w none e p crashed = crashed _ (subst P (sym (sql.query_keeps _ w)) p)
  counted E P m w (some rows) e p crashed = (
    subst P (sym (sql.query_keeps _ w)) p,
    first_answer rows (filter (has_md5 m) (view w).file_info) (sql.query_answers _ w rows e)
        ∙ ap (λ (t : Tables). read_count (ref_count m t)) (sym (sql.query_keeps _ w)),
  )

  -- GetResultOneCount reads the reference count, or crashes at a failed query.
  pub count_rule :
      {R : Type 0} {E : Option R → Tables → Type 0} {P : Tables → Type 0} (m : Text)
      → ((t : Tables) → P t → E none t)
      → Triple view P
          (Mysql.get_result_one_count services (select_ref_count m) 0)
          (λ a t. P t × (a ≡ read_count (ref_count m t)))
          E
  unfolding Mysql.get_result_one_count running
  count_rule {E} {P} m crashed = record {
    run = λ w p. counted E P m w (services.query _ w).0 refl p crashed;
  }

  checked :
      (u m f : Text) (w : W) (rows : Option (List Row))
      → (services.query (select_user_file u m f) w).0 ≡ rows
      → Checked (count_if (owned_by u m f) (view w).user_file_list) (Mysql.record_status rows)
  checked u m f w none e = tt
  checked u m f w (some rows) e = check_answer rows _ (sql.query_answers _ w rows e)

  run-Checked :
      (P : Tables → Type 0) (u m f : Text) (w : W)
      → P (view w)
      → let (rows, w') = services.query (select_user_file u m f) w in
        P (view w')
        × Checked (count_if (owned_by u m f) (view w').user_file_list) (Mysql.record_status rows)
  run-Checked P u m f w p =
      let s : Statement = select_user_file u m f in
      let same : view w ≡ view (services.query s w).1 = sym (sql.query_keeps s w) in
      let status : ℤ = Mysql.record_status (services.query s w).0 in
      (
        subst P same p,
        subst (λ (t : Tables). Checked (count_if (owned_by u m f) t.user_file_list) status) same
            (checked u m f w (services.query s w).0 refl),
      )

  -- CheckwhetherHaveRecord finds out whether the user has the file.
  pub check_rule :
      {R : Type 0} {E : Option R → Tables → Type 0} {P : Tables → Type 0} (u m f : Text)
      → Triple view P
          (Mysql.check_whether_have_record services (select_user_file u m f))
          (λ a t. P t × Checked (count_if (owned_by u m f) t.user_file_list) a)
          E
  unfolding Mysql.check_whether_have_record running
  check_rule {P} u m f = record { run = λ w p. run-Checked P u m f w p }

  -- Any other query keeps the tables.
  pub query_rule :
      {R : Type 0} {E : Option R → Tables → Type 0} {P : Tables → Type 0} (s : Statement)
      → Triple view P (Mysql.execute_query services s) (λ _. P) E
  unfolding Mysql.execute_query
  query_rule s = call_rule (services.query s) (sql.query_keeps s)
