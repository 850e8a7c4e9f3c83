-- ===== src/Tests/Strings.antt =====
-- Encoded and split texts at concrete inputs.
use pic_bed.Prelude.{some, [], ◌∷◌, ◌++◌, codes, length, ◌≤◌, ◌<◌, ◌≡◌, refl, arith}
use pic_bed.Util.Encoding.{url_encode, url_decode, url_decode-url_encode}
use pic_bed.Util.Explode.{items, item_cnt, behind, items-Fit, items-behind}

plain : url_encode (codes "a b%") ≡ codes "a%20b%25"
unfolding url_encode
plain = refl

url_decode-url_encode_example :
    url_decode (url_encode (codes "x+y/" ++ 200 ∷ [])) ≡ some (codes "x+y/" ++ 200 ∷ [])
url_decode-url_encode_example =
    url_decode-url_encode (codes "x+y/" ++ 200 ∷ [])
      (omega arith, (omega arith, (omega arith, (omega arith, (omega arith, tt)))))

items-Fit_example :
    (length (items b';' (codes "a;b")) ≤ item_cnt b';' (codes "a;b"))
    × (length (items b';' (b';' ∷ codes "a;b")) < item_cnt b';' (b';' ∷ codes "a;b"))
items-Fit_example = items-Fit b';' (codes "a;b")

items-behind_example :
    (items b';' (codes "ab" ++ behind b';' (codes "c" ∷ [])) ≡ codes "ab" ∷ codes "c" ∷ [])
    × (item_cnt b';' (codes "ab" ++ behind b';' (codes "c" ∷ [])) ≡ 2)
items-behind_example =
    items-behind b';' (codes "ab") (codes "c" ∷ [])
      (λ e. cc, (refl, (refl, tt)), (λ e. cc, (refl, tt), tt))
