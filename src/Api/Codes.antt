-- ===== src/Api/Codes.antt =====
-- The response codes: HTTP_RESP_* of base/common.h, and the same numbers under the names that
-- api_dealfile.cc (ShareState) and api_md5.cc (Md5State) give them.
use pic_bed.Prelude.{ℕ}

-- HTTP_RESP_OK, ShareOk, Md5Ok
abbrev pub resp_ok : ℕ
resp_ok = 0

-- HTTP_RESP_FAIL, ShareFail, Md5Failed
abbrev pub resp_fail : ℕ
resp_fail = 1

-- HTTP_RESP_USER_EXIST
abbrev pub resp_user_exist : ℕ
resp_user_exist = 2

-- HTTP_RESP_DEALFILE_EXIST, ShareHad
abbrev pub resp_dealfile_exist : ℕ
resp_dealfile_exist = 3

-- HTTP_RESP_TOKEN_ERR, ShareTokenFail, Md5TokenFaild
abbrev pub resp_token_err : ℕ
resp_token_err = 4

-- HTTP_RESP_FILE_EXIST, Md5FileExit
abbrev pub resp_file_exist : ℕ
resp_file_exist = 5
