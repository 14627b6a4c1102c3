-- ===== src/HttpProxy/Length.antt =====
-- The page of http_proxy_server.py: its announced length and the bytes that follow.
use honeypots.Prelude.{
  ℕ, ◌≡◌, ◌≤◌, ◌*◌, ◌==◌, ◌&&◌, refl, Bool, true, [], ◌∷◌, ◌++◌, length, length-append,
  append_assoc, ltb, ◌∙◌, sym, ap, arith,
}
use honeypots.Python.Bytes.{Bytes, Text, codes, join, str}
use honeypots.Python.Utf8.{encode, encode_char}
use honeypots.HttpProxy.{create_dummy_response}

abbrev pub all_ascii : Text → Bool
all_ascii [] = true
all_ascii (c ∷ cs) = ltb c 0x80 && all_ascii cs

-- the status line and the header, with the blank line behind them
abbrev pub announcement : ℕ → Bytes
announcement n = encode (codes "HTTP/1.1 200 OK\r\nContent-Length: " ++ str n ++ codes "\r\n\r\n")

length-encode_char :
    (c : ℕ)
    → (1 ≤ length (encode_char c))
      × ((length (encode_char c) ≤ 4) × ((length (encode_char c) == 1) ≡ ltb c 0x80))
unfolding encode_char
length-encode_char c = ground arith

encode-append : (s t : Text) → encode (s ++ t) ≡ encode s ++ encode t
unfolding encode
encode-append [] t = refl
encode-append (c ∷ s) t =
    ap (λ b. encode_char c ++ b) (encode-append s t)
    ∙ sym (append_assoc (encode_char c) (encode s) (encode t))

length-encode :
    (s : Text)
    → (length s ≤ length (encode s))
      × ((length (encode s) ≤ 4 * length s) × ((length (encode s) == length s) ≡ all_ascii s))
unfolding encode
length-encode [] = ground arith
length-encode (c ∷ s) =
    ground (arith, length-encode_char c, length-encode s, length-append (encode_char c) (encode s))

-- the two line breaks behind the number
breaks_append :
    (s t : Text) → (s ++ codes "\r\n") ++ (codes "\r\n" ++ t) ≡ (s ++ codes "\r\n\r\n") ++ t
breaks_append s t =
    append_assoc s (codes "\r\n") (codes "\r\n" ++ t) ∙ sym (append_assoc s (codes "\r\n\r\n") t)

response_parts :
    (content : Text)
    → create_dummy_response content ≡ announcement (length content) ++ encode content
unfolding create_dummy_response join
response_parts content =
    ap (λ s. encode (codes "HTTP/1.1 200 OK\r\nContent-Length: " ++ s))
      (breaks_append (str (length content)) content)
    ∙ encode-append
        (codes "HTTP/1.1 200 OK\r\nContent-Length: " ++ str (length content) ++ codes "\r\n\r\n")
        content

-- The dummy response is the announcement of as many bytes as the page has characters, and the page
-- behind it. That is never more than the bytes that follow, at least a quarter of them, and their exact
-- number only where the page is ASCII.
pub create_dummy_response-length :
    (content : Text)
    → (create_dummy_response content ≡ announcement (length content) ++ encode content)
      × ((length content ≤ length (encode content))
          × ((length (encode content) ≤ 4 * length content)
              × ((length (encode content) == length content) ≡ all_ascii content)))
create_dummy_response-length content = (response_parts content, length-encode content)
