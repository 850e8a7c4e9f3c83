-- ===== src/Api/Upload/Counted.antt =====
-- An upload keeps the reference counts (ApiUpload, api/api_upload.cc).
use pic_bed.Prelude.{ℕ, Bool, true, Option, none, some, Text, ◌≡◌, true_of_not}
use pic_bed.Services.{Services}
use pic_bed.Act.{next}
use pic_bed.Triple.{
  Triple, bind, valued, pure_rule, stop_if_rule, need_rule, ignore_rule, inline_rule, weaken,
  handler_ends,
}
use pic_bed.Sql.{Tables, IsSql}
use pic_bed.Sql.Keeps.{Keeps, keeps_rules}
use pic_bed.Sql.Rules.{ref_count, keeps_rule, keeps_inline_rule, call_rule, create_rule}
use pic_bed.Sql.References.{IsCounted}
use pic_bed.Api.Upload.{
  UploadConfig, UploadRequest, found, value_below, read_field, read_request, store_fileinfo,
  api_upload,
}
use pic_bed.Api.Upload.Tools.{upload-Keeps, get_fullurl-Keeps}
use pic_bed.Sql.CountRules.{incr_count_rule}
use pic_bed.Sql.Steps.{
  HasRoom, insert_file_info-IsCounted, insert_file_info-room, insert_user_file-IsCounted,
}
use pic_bed.Services.Statement.{insert_file_info, insert_user_file}
use pic_bed.Api.Suffix.{get_file_suffix}

-- Storing a file that file_info does not have yet leaves no file counted below its references,
-- however storing ends.
module _ {W : Type 0} {services : Services W} {view : W → Tables} (sql : IsSql services view) where
  store_fileinfo-keeps :
      (db cache : Bool) (r : UploadRequest) (id url : Text)
      → Triple view
          (λ t. IsCounted t × (ref_count r.file_md5 t ≡ none))
          (store_fileinfo services db cache r id url)
          (λ _. IsCounted)
          (λ _. IsCounted)
  unfolding store_fileinfo
  store_fileinfo-keeps db cache r id url = bind (need_rule _ λ t p. p.0) λ _.
      bind (need_rule db λ t p. p.0) λ _.
        bind
          (create_rule sql
            (insert_file_info r.file_md5 id url r.file_size (get_file_suffix r.file_name) 1)
            (λ ok t. IsCounted t × (ok ≡ true → HasRoom r.file_md5 t)) (λ t p. (p.0, λ e. cc))
            λ t p.
              let h =
                insert_file_info-IsCounted r.file_md5 id url (get_file_suffix r.file_name)
                  r.file_size 1 t p.0 in
              (
                h,
                λ e. (
                  h,
                  insert_file_info-room r.file_md5 id url (get_file_suffix r.file_name) r.file_size
                      t p.0 p.1,
                ),
              ))
          λ stored. bind (stop_if_rule _ _ λ t b p. p.0) λ _.
            bind (weaken (λ t p. p.1.1 (true_of_not _ p.0)) (call_rule services.now sql.now_keeps))
              λ time.
                bind
                  (create_rule sql (insert_user_file r.user r.file_md5 time r.file_name 0 0)
                    (λ ok. IsCounted) (λ t p. p.0)
                    λ t p.
                      insert_user_file-IsCounted r.user r.file_md5 time r.file_name 0 0 t p.0 p.1)
                  λ owned. bind (stop_if_rule _ _ λ t b p. p) λ _.
                    bind (weaken (λ t p. p.1) (need_rule cache λ t p. p)) λ _.
                      bind (ignore_rule (incr_count_rule sql r.user λ t p. p))
                        λ _. pure_rule _ λ t p. p

module _ {W : Type 0} {view : W → Tables} where
  found-Keeps : (o : Option Text) → Keeps view (found o)
  unfolding found
  found-Keeps none = search keeps_rules
  found-Keeps (some s) = search keeps_rules

  value_below-Keeps : (s : Text) (n : ℕ) → Keeps view (value_below s n)
  unfolding value_below
  value_below-Keeps s n = search keeps_rules depth 40 fits 4000

  read_field-Keeps : (name rest : Text) (n : ℕ) → Keeps view (read_field name rest n)
  unfolding read_field
  read_field-Keeps name rest n = search (keeps_rules, found-Keeps, value_below-Keeps)

  read_request-Keeps : (body : Text) → Keeps view (read_request body)
  unfolding read_request
  read_request-Keeps body =
      search (keeps_rules, found-Keeps, value_below-Keeps, read_field-Keeps) depth 60 fits 8000

-- The body names no file that file_info has.
abbrev pub IsNew : Type 0 → Text → Tables → Type 0
IsNew W body t =
    (r : UploadRequest) (w : W) → (read_request body w).0 ≡ next r → ref_count r.file_md5 t ≡ none

module _ {W : Type 0} {services : Services W} {view : W → Tables} (sql : IsSql services view) where
  abbrev Ready : UploadRequest → Tables → Type 0
  Ready r t = IsCounted t × (ref_count r.file_md5 t ≡ none)

  api_upload-keeps :
      (config : UploadConfig) (body : Text)
      → Triple view
          (λ t. IsCounted t × IsNew W body t)
          (api_upload services config body)
          (λ _. IsCounted)
          (λ _. IsCounted)
  unfolding api_upload
  api_upload-keeps config body = bind (call_rule services.take_db_conn sql.take_db_conn_keeps) λ db.
      bind (call_rule services.take_cache_conn sql.take_cache_conn_keeps) λ cache.
        bind (valued (keeps_rule (read_request-Keeps body) λ r t p. p.0)) λ r.
          bind (weaken {P = Ready r} (λ t p. (p.0.0, p.0.1 r p.1.0 p.1.1)) (need_rule _ λ t p. p.0))
            λ _. bind (need_rule _ λ t p. p.0) λ _.
              bind (call_rule (services.rename _ _) (sql.rename_keeps _ _)) λ renamed.
                bind (stop_if_rule _ _ λ t b p. p.0) λ _.
                  bind (weaken (λ t p. p.1) (keeps_inline_rule (upload-Keeps sql _) λ t p. p.0))
                    λ file. bind (stop_if_rule _ _ λ t b p. p.0) λ _.
                      bind
                        (weaken (λ t p. p.1)
                          (ignore_rule (call_rule (services.unlink _) (sql.unlink_keeps _))))
                        λ _.
                          bind (keeps_inline_rule (get_fullurl-Keeps sql config _) λ t p. p.0)
                            λ url. bind (stop_if_rule _ _ λ t b p. p.0) λ _.
                              bind
                                (weaken (λ t p. p.1)
                                  (inline_rule (store_fileinfo-keeps sql db cache r file.1 url.1)
                                    (λ a t h. h) λ t h. h))
                                λ stored.
                                  bind (stop_if_rule _ _ λ t b p. p) λ _. pure_rule _ λ t p. p.1

  -- An upload of a file that file_info does not have leaves no file counted below its references,
  -- however it ends.
  pub api_upload-IsCounted :
      (config : UploadConfig) (body : Text) (w : W)
      → IsCounted (view w)
      → IsNew W body (view w)
      → IsCounted (view (api_upload services config body w).1)
  api_upload-IsCounted config body w h new =
      handler_ends (λ _. IsCounted) (api_upload-keeps config body) w (h, new)
