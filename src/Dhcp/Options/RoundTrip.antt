-- ===== src/Dhcp/Options/RoundTrip.antt =====
-- What `parse_options` makes of options laid out as tag, length and value (RFC 2132).
use honeypots.Prelude.{
  ℕ, ◌≡◌, ◌≢◌, refl, ap, ◌∙◌, none, some, List, [], ◌∷◌, ◌++◌, length, All, append_assoc,
  append-nil, arith,
}
use honeypots.Python.Bytes.{Bytes, Text, str}
use honeypots.Python.Dict.{Dict, put}
use honeypots.Helper.{check_bytes}
use honeypots.Dhcp.Options.{State, initial, run, parse_options}

-- An option: the tag and the value.
abbrev pub encode_options : List (ℕ × Bytes) → Bytes
encode_options [] = []
encode_options ((t, v) ∷ l) = t ∷ length v ∷ (v ++ encode_options l)

-- The dictionary of the options, under their tags in decimal.
abbrev pub options_onto : Dict Text → List (ℕ × Bytes) → Dict Text
options_onto d [] = d
options_onto d ((t, v) ∷ l) = options_onto (put d (str t) v) l

abbrev between : Dict Text → State
between d = record { options = d; tag_name = none; tag_size = none; tag = [] }

abbrev inside : Dict Text → ℕ → ℕ → Text → State
inside d t n v = record { options = d; tag_name = some t; tag_size = some n; tag = v }

run-value :
    (d : Dict Text) (t b : ℕ) (v tag rest : Bytes)
    → run (inside d t (length (b ∷ v)) tag) ((b ∷ v) ++ rest)
      ≡ run (between (put d (str t) (tag ++ b ∷ v))) rest
unfolding run check_bytes
run-value d t b [] tag rest = refl
run-value d t b (c ∷ v) tag rest =
    unfold run check_bytes in
    ground (arith, run-value d t c v (tag ++ b ∷ []) rest, append_assoc tag (b ∷ []) (c ∷ v))

run-options :
    (d : Dict Text) (l : List (ℕ × Bytes)) (rest : Bytes)
    → All (λ o. o.1 ≢ []) l
    → run (between d) (encode_options l ++ rest) ≡ run (between (options_onto d l)) rest
unfolding run
run-options d [] rest h = refl
run-options d ((t, []) ∷ l) rest h = absurd (h.0 refl)
run-options d ((t, b ∷ v) ∷ l) rest h = rw (append_assoc v (encode_options l) rest) (
    run-value d t b v [] (encode_options l ++ rest)
    ∙ run-options (put d (str t) (b ∷ v)) l rest h.1)

-- Options whose values are not empty are read back: each value under the decimal of its tag, a later
-- option of the same tag in place of the earlier one.
pub parse-encode_options :
    (l : List (ℕ × Bytes))
    → All (λ o. o.1 ≢ []) l
    → parse_options (encode_options l) ≡ options_onto [] l
unfolding parse_options
parse-encode_options l h = ap (λ s. s.options) (sym_nil ∙ run-options [] l [] h)
  where
    sym_nil : run initial (encode_options l) ≡ run initial (encode_options l ++ [])
    sym_nil = rw append-nil

run-stuck : (d : Dict Text) (t : ℕ) (rest : Bytes) → run (inside d t 0 []) rest ≡ inside d t 0 []
unfolding run
run-stuck d t [] = refl
run-stuck d t (b ∷ rest) = run-stuck d t rest

-- Behind an option whose length is 0 nothing is read any more: whatever follows, the result is that
-- of the options before it.
pub parse-empty_option :
    (l : List (ℕ × Bytes)) (t : ℕ) (rest : Bytes)
    → All (λ o. o.1 ≢ []) l
    → parse_options (encode_options l ++ t ∷ 0 ∷ rest) ≡ options_onto [] l
unfolding parse_options
parse-empty_option l t rest h =
    ap (λ s. s.options)
      (run-options [] l (t ∷ 0 ∷ rest) h ∙ unfold run in run-stuck (options_onto [] l) t rest)

-- One more byte, such as the end mark 255, changes nothing.
pub parse-encode_options_end :
    (l : List (ℕ × Bytes)) (b : ℕ)
    → All (λ o. o.1 ≢ []) l
    → parse_options (encode_options l ++ b ∷ []) ≡ options_onto [] l
unfolding parse_options
parse-encode_options_end l b h =
    ap (λ s. s.options) (run-options [] l (b ∷ []) h) ∙ unfold run in refl
