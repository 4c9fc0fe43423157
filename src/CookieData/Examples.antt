-- ===== src/CookieData/Examples.antt =====
-- A cookie header with a value and a bare name.
use ammar_server.Base.{◌≡◌, some, Bytes, List, replicate, arith}
use ammar_server.Base.Text.{codes}
use ammar_server.GetData.{Item, zero_item}
use ammar_server.CookieData.{Fields, finalize_generic_cookie_field}
use ammar_server.CookieData.Safety.{IsSafe, finalize_generic_cookie_field-IsSafe}

abbrev header : Bytes
header = codes "a=1; b\r\n"

abbrev items : List Item
items = replicate 129 zero_item

finalize_generic_cookie_field-IsSafe_example :
    (done : Fields) × (finalize_generic_cookie_field items header 6 ≡ some done)
    × IsSafe header 6 done
finalize_generic_cookie_field-IsSafe_example =
    finalize_generic_cookie_field-IsSafe items header 6 (omega arith) (omega arith)
