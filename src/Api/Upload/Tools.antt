-- ===== src/Api/Upload/Tools.antt =====
-- What the FastDFS tools give to an upload (uploadFileToFastDfs and getFullurlByFileid,
-- api/api_upload.cc).
use pic_bed.Prelude.{ℕ, false, Option, none, some, Text, codes, ◌≡◌, ◌++◌, refl, ℤ, is_negative}
use pic_bed.Services.{Services}
use pic_bed.Triple.{
  Triple, bind, pure_rule, stop_if_rule, need_rule, ignore_rule, some_or_crash_rule, inline_rule,
  after,
}
use pic_bed.Sql.{Tables, IsSql}
use pic_bed.Sql.Keeps.{Keeps, keeps_rules, call-Keeps}
use pic_bed.Sql.Rules.{call_rule, called_rule}
use pic_bed.Sql.Steps.{}
use pic_bed.Act.{inline}
use pic_bed.Api.Suffix.{trim_space}
use pic_bed.Api.Upload.{
  UploadConfig, uploaded, upload_file_to_fast_dfs, read_host, full_url, get_fullurl_by_fileid,
}

-- `id` is what fdfs_upload_file printed for this file, without the spaces around it.
abbrev pub IsFileId : {W : Type 0} → Services W → Text → Text → Type 0
IsFileId {W} services path id =
    (w : W) × (text : Text) × ((services.run_tool (codes "fdfs_upload_file") path w).0 ≡ some text)
    × (id ≡ trim_space text)

-- The URL of a file, from its id
abbrev pub url_for : UploadConfig → Text → Text
url_for config id =
    codes "http://"
    ++ config.storage_web_server_ip
    ++ codes ":"
    ++ config.storage_web_server_port
    ++ codes "/"
    ++ id

-- What a function with the result (return value, text) leaves, where G holds of the text
abbrev pub Returns : (Tables → Type 0) → (Text → Type 0) → Option (ℤ × Text) → Tables → Type 0
Returns P G none t = Unit
Returns P G (some a) t = P t × (is_negative a.0 ≡ false → G a.1)

module _ {W : Type 0} {services : Services W} {view : W → Tables} (sql : IsSql services view) where
  uploaded-Keeps : (o : Option Text) → Keeps view (uploaded services o)
  unfolding uploaded
  uploaded-Keeps none = search keeps_rules
  uploaded-Keeps (some s) = search (keeps_rules)

  pub upload-Keeps : (path : Text) → Keeps view (upload_file_to_fast_dfs services path)
  unfolding upload_file_to_fast_dfs
  upload-Keeps path = search (
    keeps_rules,
    call-Keeps view (services.run_tool _ path) (sql.run_tool_keeps _ path),
    uploaded-Keeps,
  )

  read_host-Keeps : {R : Type 0} (s : Text) → Keeps view {R = R} (read_host services s)
  unfolding read_host
  read_host-Keeps s = search keeps_rules depth 20

  full_url-Keeps : (url : Text) (o : Option Text) → Keeps view (full_url services url o)
  unfolding full_url
  full_url-Keeps url none = search keeps_rules
  full_url-Keeps url (some s) = search (keeps_rules, read_host-Keeps) depth 20

  pub get_fullurl-Keeps :
      (config : UploadConfig) (id : Text) → Keeps view (get_fullurl_by_fileid services config id)
  unfolding get_fullurl_by_fileid
  get_fullurl-Keeps config id = search (
    keeps_rules,
    call-Keeps view (services.run_tool _ id) (sql.run_tool_keeps _ id),
    full_url-Keeps,
  )

  read_host_rule :
      {R : Type 0} {P : Tables → Type 0} {E : Option R → Tables → Type 0} (text : Text)
      → ((t : Tables) → P t → E none t)
      → Triple view P (read_host services text) (λ _. P) E
  unfolding read_host
  read_host_rule text crashes = bind (some_or_crash_rule _ crashes) λ address.
      bind (some_or_crash_rule _ crashes)
        λ line_end. bind (need_rule _ crashes) λ _. pure_rule _ λ t p. p

  module _ (P : Tables → Type 0) where
    uploaded_rule :
        (path : Text) (o : Option Text)
        → Triple view
            (λ t. P t × ((w : W) × ((services.run_tool (codes "fdfs_upload_file") path w).0 ≡ o)))
            (uploaded services o)
            (λ a. Returns P (IsFileId services path) (some a))
            (Returns P (IsFileId services path))
    unfolding uploaded
    uploaded_rule path none = pure_rule _ λ t p. (p.0, λ e. cc)
    uploaded_rule path (some text) = bind (need_rule _ λ t p. tt) λ _.
        bind (stop_if_rule _ _ λ t b p. (p.0, λ e. cc))
          λ _. pure_rule _ λ t p. (p.1.0, λ e. (p.1.1.0, text, p.1.1.1, refl))

    pub upload_rule :
        {E : Option ℕ → Tables → Type 0} (path : Text)
        → ((t : Tables) → E none t)
        → Triple view P
            (inline (upload_file_to_fast_dfs services path))
            (λ a. Returns P (IsFileId services path) (some a))
            E
    unfolding upload_file_to_fast_dfs
    upload_rule path crashes =
        inline_rule {F = Returns P (IsFileId services path)}
          (bind
            (after
              (called_rule (services.run_tool (codes "fdfs_upload_file") path)
                (sql.run_tool_keeps _ path))
              λ o t p. (p.1, p.0))
            λ o. uploaded_rule path o)
          (λ a t h. h) (λ t h. crashes t)

    full_url_rule :
        (url : Text) (o : Option Text)
        → Triple view P
            (full_url services url o)
            (λ a. Returns P (λ (s : Text). s ≡ url) (some a))
            (Returns P (λ (s : Text). s ≡ url))
    unfolding full_url
    full_url_rule url none = pure_rule _ λ t p. (p, λ e. cc)
    full_url_rule url (some text) = bind (need_rule _ λ t p. tt) λ _.
        bind (ignore_rule (read_host_rule text λ t p. tt))
          λ _. bind (need_rule _ λ t p. tt) λ _. pure_rule _ λ t p. (p, λ e. refl)

    pub get_fullurl_rule :
        {E : Option ℕ → Tables → Type 0} (config : UploadConfig) (id : Text)
        → ((t : Tables) → E none t)
        → Triple view P
            (inline (get_fullurl_by_fileid services config id))
            (λ a. Returns P (λ (s : Text). s ≡ url_for config id) (some a))
            E
    unfolding get_fullurl_by_fileid
    get_fullurl_rule config id crashes =
        inline_rule {F = Returns P (λ (s : Text). s ≡ url_for config id)}
          (bind
            (call_rule (services.run_tool (codes "fdfs_file_info") id) (sql.run_tool_keeps _ id))
            λ o. full_url_rule (url_for config id) o)
          (λ a t h. h) (λ t h. crashes t)
