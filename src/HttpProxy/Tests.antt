-- ===== src/HttpProxy/Tests.antt =====
-- A page of http_proxy_server.py with a character outside of ASCII.
use honeypots.Prelude.{◌≡◌, ◌≤◌, ◌*◌, ◌==◌, [], ◌∷◌, ◌++◌, length}
use honeypots.Python.Bytes.{Text, codes}
use honeypots.Python.Utf8.{encode}
use honeypots.HttpProxy.{create_dummy_response}
use honeypots.HttpProxy.Length.{all_ascii, announcement, create_dummy_response-length}

abbrev page : Text
page = codes "<p>" ++ 233 ∷ []

create_dummy_response-length_example :
    (create_dummy_response page ≡ announcement (length page) ++ encode page)
    × ((length page ≤ length (encode page))
        × ((length (encode page) ≤ 4 * length page)
            × ((length (encode page) == length page) ≡ all_ascii page)))
create_dummy_response-length_example = create_dummy_response-length page
