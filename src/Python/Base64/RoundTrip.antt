-- ===== src/Python/Base64/RoundTrip.antt =====
-- Decoding gives back what was encoded.
use honeypots.Prelude.{
  ℕ, ◌+◌, ◌*◌, ◌/◌, ◌%◌, ◌<◌, ◌≡◌, ◌≢◌, ◌∙◌, refl, ap, Bool, true, false, ◌&&◌, [], ◌∷◌, All, some,
  true_below, true_below_at, ◌==◌, ltb, not, arith,
}
use honeypots.Python.Bytes.{Bytes, Text}
use honeypots.Python.Result.{ok}
use honeypots.Python.Utf8.RoundTrip.{IsByte}
use honeypots.Python.Split.{Lacks}
use honeypots.Python.Base64.{
  sixbit, unsixbit, b64encode, b64decode, decode_from, take_bits, Group, empty_group, is_ascii,
  onto,
}

abbrev good_sixbit : ℕ → Bool
good_sixbit n = unsixbit (sixbit n) == n && not (sixbit n == 61) && ltb (sixbit n) 128

all_good : true_below 64 good_sixbit ≡ true
unfolding true_below sixbit unsixbit
all_good = refl

good_at : (n : ℕ) → n < 64 → good_sixbit n ≡ true
good_at n h = true_below_at 64 good_sixbit n all_good h

not_padding : (n : ℕ) → n < 64 → (sixbit n == 61) ≡ false
not_padding n h = ground (arith, good_at n h)

unsixbit-sixbit : (n : ℕ) → n < 64 → unsixbit (sixbit n) ≡ n
unsixbit-sixbit n h = ground (arith, good_at n h)

sixbit_ascii : (n : ℕ) → n < 64 → ltb (sixbit n) 128 ≡ true
sixbit_ascii n h = ground (arith, good_at n h)

-- one character of the alphabet
decode-sixbit :
    (g : Group) (n : ℕ) (cs : Text)
    → n < 64
    → decode_from g (sixbit n ∷ cs) ≡ onto ((take_bits g n).0) (decode_from ((take_bits g n).1) cs)
unfolding decode_from
decode-sixbit g n cs h =
    let inside : (unsixbit (sixbit n) == 64) ≡ false = ground (arith, h, unsixbit-sixbit n h) in
    rw (not_padding n h, decode_from)
      (rw inside (
        ap (λ k. onto ((take_bits g k).0) (decode_from ((take_bits g k).1) cs))
          (unsixbit-sixbit n h)))

abbrev group : ℕ → ℕ → Group
group quad left = record { quad = quad; left = left; pads = 0 }

module _ (a b : ℕ) (p : IsByte a) (q : IsByte b) where
  first_two :
      (cs : Text)
      → decode_from empty_group (sixbit (a / 4) ∷ sixbit (a % 4 * 16 + b / 16) ∷ cs)
        ≡ onto (some a) (decode_from (group 2 (b / 16 % 16)) cs)
  unfolding take_bits
  first_two cs =
      let whole : a / 4 * 4 + (a % 4 * 16 + b / 16) / 16 ≡ a = omega (arith, p, q) in
      let left : (a % 4 * 16 + b / 16) % 16 ≡ b / 16 % 16 = omega (arith, p, q) in
      decode-sixbit empty_group (a / 4) (sixbit (a % 4 * 16 + b / 16) ∷ cs) (omega (arith, p))
      ∙ decode-sixbit (group 1 (a / 4)) (a % 4 * 16 + b / 16) cs (omega (arith, p, q))
      ∙ rw (whole, left) refl

  third :
      (c : ℕ) (cs : Text)
      → IsByte c
      → decode_from (group 2 (b / 16 % 16)) (sixbit (b % 16 * 4 + c / 64) ∷ cs)
        ≡ onto (some b) (decode_from (group 3 (c / 64 % 4)) cs)
  unfolding take_bits
  third c cs r =
      let whole : b / 16 % 16 * 16 + (b % 16 * 4 + c / 64) / 4 ≡ b = omega (arith, q, r) in
      let left : (b % 16 * 4 + c / 64) % 4 ≡ c / 64 % 4 = omega (arith, q, r) in
      decode-sixbit (group 2 (b / 16 % 16)) (b % 16 * 4 + c / 64) cs (omega (arith, q, r))
      ∙ rw (whole, left) refl

fourth :
    (c : ℕ) (cs : Text)
    → IsByte c
    → decode_from (group 3 (c / 64 % 4)) (sixbit (c % 64) ∷ cs)
      ≡ onto (some c) (decode_from empty_group cs)
unfolding take_bits
fourth c cs r =
    let whole : c / 64 % 4 * 64 + c % 64 ≡ c = omega (arith, r) in
    decode-sixbit (group 3 (c / 64 % 4)) (c % 64) cs (omega arith) ∙ rw whole refl

end_of_two : (l : ℕ) → decode_from (group 2 l) (61 ∷ 61 ∷ []) ≡ ok []
unfolding decode_from
end_of_two l = refl

end_of_three : (l : ℕ) → decode_from (group 3 l) (61 ∷ []) ≡ ok []
unfolding decode_from
end_of_three l = refl

decode_from-b64encode :
    (bs : Bytes) → All IsByte bs → decode_from empty_group (b64encode bs) ≡ ok bs
unfolding b64encode
decode_from-b64encode [] h = unfold decode_from in refl
decode_from-b64encode (a ∷ []) h =
    let pad : a % 4 * 16 ≡ a % 4 * 16 + 0 / 16 = omega arith in
    ap (λ n. decode_from empty_group (sixbit (a / 4) ∷ sixbit n ∷ 61 ∷ 61 ∷ [])) pad
    ∙ first_two a 0 h.0 (omega arith) (61 ∷ 61 ∷ [])
    ∙ rw (end_of_two (0 / 16 % 16)) refl
decode_from-b64encode (a ∷ b ∷ []) h =
    let pad : b % 16 * 4 ≡ b % 16 * 4 + 0 / 64 = omega arith in
    first_two a b h.0 h.1.0 (sixbit (b % 16 * 4) ∷ 61 ∷ [])
    ∙ rw pad
        (rw (third a b h.0 h.1.0 0 (61 ∷ []) (omega arith)) (rw (end_of_three (0 / 64 % 4)) refl))
decode_from-b64encode (a ∷ b ∷ c ∷ rest) h =
    first_two a b h.0 h.1.0 (sixbit (b % 16 * 4 + c / 64) ∷ sixbit (c % 64) ∷ b64encode rest)
    ∙ rw (third a b h.0 h.1.0 c (sixbit (c % 64) ∷ b64encode rest) h.1.1.0)
        (rw (fourth c (b64encode rest) h.1.1.0) (rw (decode_from-b64encode rest h.1.1.1) refl))

b64encode_ascii : (bs : Bytes) → All IsByte bs → is_ascii (b64encode bs) ≡ true
unfolding b64encode is_ascii
b64encode_ascii [] h = refl
b64encode_ascii (a ∷ []) h =
    rw (sixbit_ascii (a / 4) (omega (arith, h.0)), sixbit_ascii (a % 4 * 16) (omega arith)) refl
b64encode_ascii (a ∷ b ∷ []) h =
    rw
      (
        sixbit_ascii (a / 4) (omega (arith, h.0)),
        sixbit_ascii (a % 4 * 16 + b / 16) (omega (arith, h.1.0)),
        sixbit_ascii (b % 16 * 4) (omega arith),
      )
      refl
b64encode_ascii (a ∷ b ∷ c ∷ rest) h =
    rw
      (
        sixbit_ascii (a / 4) (omega (arith, h.0)),
        sixbit_ascii (a % 4 * 16 + b / 16) (omega (arith, h.1.0)),
        sixbit_ascii (b % 16 * 4 + c / 64) (omega (arith, h.1.1.0)),
        sixbit_ascii (c % 64) (omega arith),
      )
      (b64encode_ascii rest h.1.1.1)

pub b64decode-b64encode : (bs : Bytes) → All IsByte bs → b64decode (b64encode bs) ≡ ok bs
unfolding b64decode
b64decode-b64encode bs h = rw (b64encode_ascii bs h) (decode_from-b64encode bs h)

-- the character is not a space
abbrev not_space : ℕ → Bool
not_space n = not (sixbit n == 32)

all_not_space : true_below 64 not_space ≡ true
unfolding true_below sixbit
all_not_space = refl

sixbit_not_space : (n : ℕ) → n < 64 → sixbit n ≢ 32
sixbit_not_space n h e = ground (arith, e, true_below_at 64 not_space n all_not_space h)

pub b64encode-Lacks : (bs : Bytes) → All IsByte bs → Lacks 32 (b64encode bs)
unfolding b64encode
b64encode-Lacks [] h = tt
b64encode-Lacks (a ∷ []) h = (
  sixbit_not_space (a / 4) (omega (arith, h.0)),
  (sixbit_not_space (a % 4 * 16) (omega arith), (omega arith, (omega arith, tt))),
)
b64encode-Lacks (a ∷ b ∷ []) h = (
  sixbit_not_space (a / 4) (omega (arith, h.0)),
  (
    sixbit_not_space (a % 4 * 16 + b / 16) (omega (arith, h.1.0)),
    (sixbit_not_space (b % 16 * 4) (omega arith), (omega arith, tt)),
  ),
)
b64encode-Lacks (a ∷ b ∷ c ∷ rest) h = (
  sixbit_not_space (a / 4) (omega (arith, h.0)),
  (
    sixbit_not_space (a % 4 * 16 + b / 16) (omega (arith, h.1.0)),
    (
      sixbit_not_space (b % 16 * 4 + c / 64) (omega (arith, h.1.1.0)),
      (sixbit_not_space (c % 64) (omega arith), b64encode-Lacks rest h.1.1.1),
    ),
  ),
)
