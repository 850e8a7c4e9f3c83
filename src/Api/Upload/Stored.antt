-- ===== src/Api/Upload/Stored.antt =====
-- What an upload stores (storeFileinfo and ApiUpload, api/api_upload.cc).
use pic_bed.Prelude.{
  ℕ, Bool, true, false, Option, none, some, Text, ◌≡◌, ◌++◌, ◌∷◌, refl, ap, subst, ℤ, is_negative,
  true_of_not,
}
use pic_bed.Services.{Services}
use pic_bed.Services.Statement.{insert_file_info, insert_user_file}
use pic_bed.Triple.{
  Triple, result, bind, pure_rule, stop_if_rule, need_rule, ignore_rule, inline_rule, weaken,
  handler_ends, given, after,
}
use pic_bed.Sql.{Tables, IsSql, apply}
use pic_bed.Sql.Rules.{call_rule, create_rule}
use pic_bed.Sql.CountRules.{incr_count_rule}
use pic_bed.Sql.Steps.{}
use pic_bed.Api.Codes.{resp_ok, resp_fail}
use pic_bed.Act.{inline}
use pic_bed.Api.Suffix.{get_file_suffix}
use pic_bed.Api.Upload.Body.{Says, HasSuffix, get_file_suffix-HasSuffix, read_request_rule}
use pic_bed.Api.Upload.{UploadConfig, UploadRequest, store_fileinfo, api_upload}
use pic_bed.Api.Upload.Tools.{IsFileId, url_for, upload_rule, get_fullurl_rule}

-- The tables after an upload: the row of the file that the body names, with the count 1, its suffix
-- and the id that the tool gave it, and the user's row.
pub record AreStored {W : Type 0} (services : Services W) (config : UploadConfig) (body : Text)
    (before t : Tables) : Type 0 where
  pub request : UploadRequest
  pub says : Says body request
  pub suffix : Text
  pub has_suffix : HasSuffix request.file_name suffix
  pub id : Text
  pub is_file_id : IsFileId services (request.file_path ++ b'.' ∷ suffix) id
  pub time : Text
  pub rows :
      t
      ≡ apply (insert_user_file request.user request.file_md5 time request.file_name 0 0) (
          apply
            (insert_file_info request.file_md5 id (url_for config id) request.file_size suffix 1)
            before)

-- The two rows, with the suffix that the code computes
abbrev Rows : UploadRequest → Text → Text → Tables → Tables → Type 0
Rows r id url before t =
    (time : Text) × (t
      ≡ apply (insert_user_file r.user r.file_md5 time r.file_name 0 0) (
          apply (insert_file_info r.file_md5 id url r.file_size (get_file_suffix r.file_name) 1)
            before))

module _ {W : Type 0} {services : Services W} {view : W → Tables} (sql : IsSql services view) where
  module _ (config : UploadConfig) (body : Text) (before : Tables) where
    abbrev E : Option ℕ → Tables → Type 0
    E r t = r ≡ some resp_ok → AreStored services config body before t

    fails : (t : Tables) → E (some resp_fail) t
    fails t e = cc

    crashes : (t : Tables) → E none t
    crashes t e = cc

    abbrev F : UploadRequest → Text → Text → Option ℤ → Tables → Type 0
    F r id url o t = (a : ℤ) → o ≡ some a → is_negative a ≡ false → Rows r id url before t

    store_fileinfo-F :
        (db cache : Bool) (r : UploadRequest) (id url : Text)
        → Triple view
            (λ t. t ≡ before)
            (store_fileinfo services db cache r id url)
            (λ a t. is_negative a ≡ false → Rows r id url before t)
            (F r id url)
    unfolding store_fileinfo
    store_fileinfo-F db cache r id url = bind (need_rule _ λ t p a e n. cc) λ _.
        bind (need_rule db λ t p a e n. cc) λ _.
          bind
            (create_rule sql
              (insert_file_info r.file_md5 id url r.file_size (get_file_suffix r.file_name) 1)
              (λ ok t.
                ok ≡ true
                → t
                  ≡ apply
                      (insert_file_info r.file_md5 id url r.file_size (get_file_suffix r.file_name)
                        1)
                      before)
              (λ t p e. cc) λ t p e. ap (apply _) p)
            λ stored. bind (stop_if_rule _ _ λ t b p a e n. cc) λ _.
              bind (weaken (λ t p. p.1 (true_of_not _ p.0)) (call_rule services.now sql.now_keeps))
                λ time.
                  bind
                    (create_rule sql (insert_user_file r.user r.file_md5 time r.file_name 0 0)
                      (λ ok t. ok ≡ true → Rows r id url before t) (λ t p e. cc)
                      λ t p e. (time, ap (apply _) p))
                    λ owned. bind (stop_if_rule _ _ λ t b p a e n. cc) λ _.
                      bind
                        (weaken (λ t p. p.1 (true_of_not _ p.0)) (need_rule cache λ t p a e n. cc))
                        λ _.
                          bind (ignore_rule (incr_count_rule sql r.user λ t p a e n. cc))
                            λ _. pure_rule _ λ t p n. p

    stored_as :
        (r : UploadRequest) (id url : Text) (t : Tables)
        → Says body r
        → IsFileId services (r.file_path ++ b'.' ∷ get_file_suffix r.file_name) id
        → url ≡ url_for config id
        → Rows r id url before t
        → AreStored services config body before t
    stored_as r id url t says file_id same rows = record {
      request = r;
      says = says;
      suffix = get_file_suffix r.file_name;
      has_suffix = get_file_suffix-HasSuffix r.file_name;
      id = id;
      is_file_id = file_id;
      time = rows.0;
      rows =
          subst
            (λ (u : Text).
              t
              ≡ apply (insert_user_file r.user r.file_md5 rows.0 r.file_name 0 0) (
                  apply
                    (insert_file_info r.file_md5 id u r.file_size (get_file_suffix r.file_name) 1)
                    before))
            same rows.1;
    }

    storing_rule :
        (db cache : Bool) (r : UploadRequest) (id url : Text)
        → Says body r
        → IsFileId services (r.file_path ++ b'.' ∷ get_file_suffix r.file_name) id
        → url ≡ url_for config id
        → Triple view
            (λ t. t ≡ before)
            (inline (store_fileinfo services db cache r id url))
            (λ a t. is_negative a ≡ false → AreStored services config body before t)
            E
    storing_rule db cache r id url says file_id same =
        after
          (inline_rule {Q = λ a t. is_negative a ≡ false → Rows r id url before t}
            (store_fileinfo-F db cache r id url) (λ a t h n. h a refl n) (λ t h. crashes t))
          λ a t p n. stored_as r id url t says file_id same (p n)

    api_upload-E :
        Triple view (λ t. t ≡ before) (api_upload services config body) (λ a. E (some a)) E
    unfolding api_upload
    api_upload-E = bind (call_rule services.take_db_conn sql.take_db_conn_keeps) λ db.
        bind (call_rule services.take_cache_conn sql.take_cache_conn_keeps) λ cache.
          bind (read_request_rule crashes fails body) λ r. given λ says.
            bind (need_rule _ λ t p. crashes t) λ _. bind (need_rule _ λ t p. crashes t) λ _.
              bind (call_rule (services.rename _ _) (sql.rename_keeps _ _)) λ renamed.
                bind (stop_if_rule _ _ λ t b p. fails t) λ _.
                  bind (weaken (λ t p. p.1) (upload_rule sql (λ t. t ≡ before) _ crashes)) λ file.
                    bind (stop_if_rule _ _ λ t b p. fails t) λ _.
                      bind
                        (weaken
                          {P = λ t.
                            IsFileId services (r.file_path ++ b'.' ∷ get_file_suffix r.file_name)
                              file.1
                            × (t ≡ before)}
                          (λ t p. (p.1.1 p.0, p.1.0))
                          (ignore_rule (call_rule (services.unlink _) (sql.unlink_keeps _))))
                        λ _. given λ file_id.
                          bind (get_fullurl_rule sql (λ t. t ≡ before) config file.1 crashes) λ url.
                            bind (stop_if_rule _ _ λ t b p. fails t) λ _.
                              bind
                                (weaken {P = λ t. (url.1 ≡ url_for config file.1) × (t ≡ before)}
                                  (λ t p. (p.1.1 p.0, p.1.0))
                                  (given
                                    λ same. storing_rule db cache r file.1 url.1 says file_id same))
                                λ stored.
                                  bind (stop_if_rule _ _ λ t b p. fails t)
                                    λ _. pure_rule _ λ t p e. p.1 p.0

    -- An upload that is answered with OK has stored one row for the file that the body names, with the
    -- count 1, the suffix of its name, the id that fdfs_upload_file printed and the URL of this id, and
    -- one row for the user that the body names, neither shared nor downloaded.
    pub api_upload-AreStored :
        (w : W)
        → view w ≡ before
        → result (api_upload services config body w) ≡ some resp_ok
        → AreStored services config body before (view (api_upload services config body w).1)
    api_upload-AreStored w e = handler_ends E api_upload-E w e
