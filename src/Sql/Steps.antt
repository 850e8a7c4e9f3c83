-- ===== src/Sql/Steps.antt =====
-- What each statement does to the reference counts.
use pic_bed.Prelude.{
  ℕ, ◌+◌, ◌≤◌, ◌<◌, [], ◌∷◌, Text, ℤ, text_eq, text_eq_refl, eq_of_text_eq, ◌≡◌, refl, subst, inl,
  inr, count_if, count_if-append, Bool-cases, Option-cases, equals, true, none, arith,
}
use pic_bed.Services.Statement.{
  update_shared_status, insert_share_file, delete_share_file, delete_user_file, update_ref_count,
  delete_file_info, insert_user_file, insert_file_info, update_user_pv, update_share_pv,
  insert_user,
}
use pic_bed.Sql.{Tables, FileInfo, apply, owned_by}
use pic_bed.Sql.Rules.{ref_count, read_count}
use pic_bed.Sql.References.{
  names, references, total, replaced, IsCounted, first_count-update_self, first_count-update_ne,
  first_count-delete_ne, first_count-append, count_if-delete_le, count_if-delete_owned,
  count_if-status, count_if-user_pv,
}

pub ref_count-update_self :
    (m : Text) (n : ℕ) (t : Tables)
    → ref_count m (apply (update_ref_count n m) t) ≡ replaced n (ref_count m t)
unfolding ref_count apply
ref_count-update_self m n t = first_count-update_self m n t.file_info

pub references-update :
    (m k : Text) (n : ℕ) (t : Tables)
    → references k (apply (update_ref_count n m) t) ≡ references k t
unfolding references apply
references-update m k n t = refl

-- A count that is set to no less than the references keeps the tables counted.
pub update-IsCounted :
    (m : Text) (n : ℕ) (t : Tables)
    → IsCounted t
    → references m t ≤ n
    → IsCounted (apply (update_ref_count n m) t)
unfolding references ref_count apply
update-IsCounted m n t h le = record {
  covered = λ k. elim (Bool-cases (text_eq m k)) [
    | inl same ↦
        subst (λ (k : Text). references k t ≤ total (ref_count k (apply (update_ref_count n m) t)))
          (eq_of_text_eq m k same)
          (grind (arith, first_count-update_self m n t.file_info, h.covered m))
    | inr other ↦ ground (arith, first_count-update_ne m k n t.file_info other, h.covered k)
  ];
}

pub references-insert_self :
    (u m c f : Text) (s p : ℕ) (t : Tables)
    → references m (apply (insert_user_file u m c f s p) t) ≡ references m t + 1
unfolding references apply
references-insert_self u m c f s p t = ground (
  arith,
  count_if-append (names m) t.user_file_list (
      record { user = u; md5 = m; create_time = c; file_name = f; shared_status = s; pv = p } ∷ []),
  text_eq_refl m,
)

-- A new row of a file whose count has room for it keeps the tables counted.
pub insert_user_file-IsCounted :
    (u m c f : Text) (s p : ℕ) (t : Tables)
    → IsCounted t
    → references m t < total (ref_count m t)
    → IsCounted (apply (insert_user_file u m c f s p) t)
unfolding references ref_count apply
insert_user_file-IsCounted u m c f s p t h room = record {
  covered = λ k. elim (Bool-cases (text_eq m k)) [
    | inl same ↦
        subst
          (λ (k : Text).
            references k (apply (insert_user_file u m c f s p) t) ≤ total (ref_count k t))
          (eq_of_text_eq m k same) (omega (arith, references-insert_self u m c f s p t))
    | inr other ↦ ground (
      arith,
      count_if-append (names k) t.user_file_list (
          record { user = u; md5 = m; create_time = c; file_name = f; shared_status = s; pv = p }
          ∷ []),
      h.covered k,
    )
  ];
}

pub delete_user_file-IsCounted :
    (u m f : Text) (t : Tables) → IsCounted t → IsCounted (apply (delete_user_file u m f) t)
unfolding references ref_count apply
delete_user_file-IsCounted u m f t h = record {
  covered = λ k. omega (arith, count_if-delete_le u m f k t.user_file_list, h.covered k);
}

-- A delete of rows that are there leaves the count above the references.
pub delete_user_file-room :
    (u m f : Text) (t : Tables)
    → IsCounted t
    → 0 < count_if (owned_by u m f) t.user_file_list
    → references m (apply (delete_user_file u m f) t)
      < total (ref_count m (apply (delete_user_file u m f) t))
unfolding references ref_count apply
delete_user_file-room u m f t h owned =
    omega (arith, count_if-delete_owned u m f t.user_file_list, h.covered m)

pub delete_file_info-IsCounted :
    (m : Text) (t : Tables)
    → IsCounted t
    → references m t ≡ 0
    → IsCounted (apply (delete_file_info m) t)
unfolding references ref_count apply
delete_file_info-IsCounted m t h unused = record {
  covered = λ k. elim (Bool-cases (text_eq m k)) [
    | inl same ↦
        subst (λ (k : Text). references k t ≤ total (ref_count k (apply (delete_file_info m) t)))
          (eq_of_text_eq m k same) (omega (arith, unused))
    | inr other ↦ ground (arith, first_count-delete_ne m k t.file_info other, h.covered k)
  ];
}

pub insert_file_info-IsCounted :
    (m i l x : Text) (size : ℤ) (n : ℕ) (t : Tables)
    → IsCounted t
    → IsCounted (apply (insert_file_info m i l size x n) t)
unfolding references ref_count apply
insert_file_info-IsCounted m i l x size n t h = record {
  covered = λ k. ground (
    arith,
    first_count-append k
        (record { md5 = m; file_id = i; url = l; size = size; suffix = x; count = n }) t.file_info,
    h.covered k,
  );
}

-- A file that is new in file_info, with the count 1, has room for its first row.
pub insert_file_info-room :
    (m i l x : Text) (size : ℤ) (t : Tables)
    → IsCounted t
    → ref_count m t ≡ none
    → references m (apply (insert_file_info m i l size x 1) t)
      < total (ref_count m (apply (insert_file_info m i l size x 1) t))
unfolding references ref_count apply
insert_file_info-room m i l x size t h fresh =
    let row : FileInfo = record {
      md5 = m;
      file_id = i;
      url = l;
      size = size;
      suffix = x;
      count = 1;
    } in
    ground (arith, first_count-append m row t.file_info, h.covered m, text_eq_refl m)

pub status-IsCounted :
    (n : ℕ) (u m f : Text) (t : Tables)
    → IsCounted t
    → IsCounted (apply (update_shared_status n u m f) t)
unfolding references ref_count apply
status-IsCounted n u m f t h = record {
  covered = λ k. omega (arith, count_if-status u m f k n t.user_file_list, h.covered k);
}

pub update_user_pv-IsCounted :
    (n : ℕ) (u m f : Text) (t : Tables) → IsCounted t → IsCounted (apply (update_user_pv n u m f) t)
unfolding references ref_count apply
update_user_pv-IsCounted n u m f t h = record {
  covered = λ k. omega (arith, count_if-user_pv u m f k n t.user_file_list, h.covered k);
}

pub update_share_pv-IsCounted :
    (n : ℕ) (m f : Text) (t : Tables) → IsCounted t → IsCounted (apply (update_share_pv n m f) t)
unfolding references ref_count apply
update_share_pv-IsCounted n m f t h = record { covered = h.covered }

pub insert_user-IsCounted :
    (u n p h e c : Text) (t : Tables) → IsCounted t → IsCounted (apply (insert_user u n p h e c) t)
unfolding references ref_count apply
insert_user-IsCounted u n p h e c t k = record { covered = k.covered }

pub delete_share_file-IsCounted :
    (u m f : Text) (t : Tables) → IsCounted t → IsCounted (apply (delete_share_file u m f) t)
unfolding references ref_count apply
delete_share_file-IsCounted u m f t h = record { covered = h.covered }

pub insert_share_file-IsCounted :
    (u m c f : Text) (n : ℕ) (t : Tables)
    → IsCounted t
    → IsCounted (apply (insert_share_file u m c f n) t)
unfolding references ref_count apply
insert_share_file-IsCounted u m c f n t h = record { covered = h.covered }

-- The count of a file has room for one more row.
abbrev pub HasRoom : Text → Tables → Type 0
HasRoom m t = IsCounted t × (references m t < total (ref_count m t))

-- After `count = count + 1` there is room for one more row.
pub counted_up :
    (m : Text) (a : ℤ × ℕ) (t : Tables)
    → IsCounted t
    → a ≡ read_count (ref_count m t)
    → equals a.0 0 ≡ true
    → HasRoom m (apply (update_ref_count (a.1 + 1) m) t)
counted_up m a t h e found = elim (Option-cases (ref_count m t)) [
  | inl missing ↦ ground arith
  | inr (c, there) ↦
      let same : a.1 ≡ c = ground arith in
      (
        update-IsCounted m (a.1 + 1) t h (ground (arith, h.covered m)),
        ground (
          arith,
          ref_count-update_self m (a.1 + 1) t,
          references-update m m (a.1 + 1) t,
          h.covered m,
        ),
      )
]

-- The count that was read covers the references, also after it is written anew.
pub counted_below :
    (m : Text) (a : ℤ × ℕ) (t : Tables)
    → IsCounted t
    → a ≡ read_count (ref_count m t)
    → equals a.0 0 ≡ true
    → references m (apply (update_ref_count (a.1 + 1) m) t) ≤ a.1
counted_below m a t h e found = elim (Option-cases (ref_count m t)) [
  | inl missing ↦ ground arith
  | inr (c, there) ↦ ground (arith, references-update m m (a.1 + 1) t, h.covered m)
]
