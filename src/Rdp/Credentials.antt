-- ===== src/Rdp/Credentials.antt =====
-- The name and the password that a client sends are the ones that are read.
use honeypots.Prelude.{
  ℕ, zero, suc, ◌+◌, ◌*◌, ◌/◌, ◌%◌, ◌≡◌, refl, ap, ◌∙◌, some, [], ◌∷◌, ◌++◌, length, drop, arith,
  drop-append_at,
}
use honeypots.Python.Bytes.{Bytes, slice}
use honeypots.Python.Struct.{pack_le_h, unpack_hhhhh}
use honeypots.Python.Result.{ok}
use honeypots.Python.Split.{Lacks}
use honeypots.Rdp.{value_from, get_value, creds_at, extract_creds}

-- ASCII in UTF-16: a zero behind each byte
abbrev pub wide : Bytes → Bytes
wide [] = []
wide (b ∷ bs) = b ∷ 0 ∷ wide bs

-- a text and the two zeros that end it
abbrev pub ended : Bytes → Bytes → Bytes
ended u rest = wide u ++ 0 ∷ 0 ∷ rest

value_from-behind : (u rest : Bytes) → Lacks 0 u → value_from (0 ∷ ended u rest) ≡ some u
unfolding value_from
value_from-behind [] rest h = refl
value_from-behind (zero ∷ bs) rest h = absurd (h.0 refl)
value_from-behind (suc b ∷ bs) rest h = rw (value_from-behind bs rest h.1) refl

value_from-wide : (u rest : Bytes) → Lacks 0 u → value_from (ended u rest) ≡ some u
unfolding value_from
value_from-wide [] rest h = refl
value_from-wide (zero ∷ bs) rest h = absurd (h.0 refl)
value_from-wide (suc b ∷ bs) rest h = rw (value_from-behind bs rest h.1) refl

get_value-wide : (u rest : Bytes) → Lacks 0 u → get_value (2 * length u) (ended u rest) ≡ u
unfolding get_value
get_value-wide u rest h = ground (arith, value_from-wide u rest h)

extract_creds_at :
    (data_ : Bytes) (l : ℕ × ℕ × ℕ × ℕ × ℕ)
    → unpack_hhhhh (slice 27 37 data_) ≡ ok l
    → extract_creds data_ ≡ ok (creds_at data_ l)
unfolding extract_creds
extract_creds_at data_ l h = rw (h, extract_creds) refl

drop_at : (n m : ℕ) (xs : Bytes) → n ≡ m → drop n xs ≡ drop m xs
drop_at n m xs e = ap (λ k. drop k xs) e

drop_add : (a b : ℕ) (xs : Bytes) → drop (a + b) xs ≡ drop b (drop a xs)
drop_add zero b xs = drop_at (0 + b) b xs (omega arith)
drop_add (suc a) zero [] = drop_at (suc a + 0) (suc a) [] (omega arith)
drop_add (suc a) (suc b) [] = drop_at (suc a + suc b) (suc (a + suc b)) [] (omega arith)
drop_add (suc a) b (x ∷ xs) =
    drop_at (suc a + b) (suc (a + b)) (x ∷ xs) (omega arith) ∙ drop_add a b xs

drop-ended : (n : ℕ) (u rest : Bytes) → n ≡ 2 * length u → drop (n + 2) (ended u rest) ≡ rest
drop-ended n [] rest h = drop_at (n + 2) 2 (0 ∷ 0 ∷ rest) (omega (arith, h))
drop-ended n (b ∷ bs) rest h =
    drop_at (n + 2) (suc (suc (2 * length bs + 2))) (ended (b ∷ bs) rest) (omega (arith, h))
    ∙ drop-ended (2 * length bs) bs rest refl

-- The lengths of the five texts, in bytes.
abbrev pub lengths : Bytes → Bytes → Bytes → ℕ → ℕ → Bytes
lengths domain user password shell dir =
    pack_le_h (2 * length domain)
    ++ pack_le_h (2 * length user)
    ++ pack_le_h (2 * length password)
    ++ pack_le_h shell
    ++ pack_le_h dir

-- The message with the credentials: 27 bytes, the lengths, the texts.
abbrev pub client_info : Bytes → Bytes → Bytes → Bytes → ℕ → ℕ → Bytes → Bytes
client_info head domain user password shell dir tail =
    head
    ++ (lengths domain user password shell dir ++ ended domain (ended user (ended password tail)))

module _ (head domain user password tail : Bytes) (shell dir : ℕ) (h : length head ≡ 27) where
  abbrev message : Bytes
  message = client_info head domain user password shell dir tail

  abbrev texts : Bytes
  texts = ended domain (ended user (ended password tail))

  drop_head : drop 27 message ≡ lengths domain user password shell dir ++ texts
  drop_head = drop-append_at 27 head (lengths domain user password shell dir ++ texts) h

  slice-lengths : slice 27 37 message ≡ lengths domain user password shell dir
  slice-lengths = rw drop_head refl

  drop_lengths : drop 37 message ≡ texts
  drop_lengths = drop_add 27 10 message ∙ rw drop_head refl

  halves : (n : ℕ) → n % 256 + n / 256 * 256 ≡ n
  halves n = omega arith

  read_lengths :
      unpack_hhhhh (lengths domain user password shell dir)
      ≡ ok (2 * length domain, 2 * length user, 2 * length password, shell, dir)
  read_lengths =
      rw
        (
          halves (2 * length domain),
          halves (2 * length user),
          halves (2 * length password),
          halves shell,
          halves dir,
        )
        refl

  drop_domain : drop (37 + (2 * length domain + 2)) message ≡ ended user (ended password tail)
  drop_domain =
      drop_add 37 (2 * length domain + 2) message
      ∙ ap (drop (2 * length domain + 2)) drop_lengths
      ∙ drop-ended (2 * length domain) domain (ended user (ended password tail)) refl

  drop_user :
      drop (37 + (2 * length domain + 2) + (2 * length user + 2)) message ≡ ended password tail
  drop_user =
      drop_add (37 + (2 * length domain + 2)) (2 * length user + 2) message
      ∙ ap (drop (2 * length user + 2)) drop_domain
      ∙ drop-ended (2 * length user) user (ended password tail) refl

  creds_of :
      Lacks 0 user
      → Lacks 0 password
      → creds_at message (2 * length domain, 2 * length user, 2 * length password, shell, dir)
        ≡ (user, password)
  unfolding creds_at
  creds_of u p =
      rw (drop_domain, drop_user)
        (rw (get_value-wide user (ended password tail) u, get_value-wide password tail p) refl)

  -- The name and the password of a client that sends them in UTF-16 are read as they are, as long as
  -- they are ASCII without a zero character.
  pub extract_creds-client_info :
      Lacks 0 user
      → Lacks 0 password
      → extract_creds (client_info head domain user password shell dir tail) ≡ ok (user, password)
  extract_creds-client_info u p =
      extract_creds_at message (2 * length domain, 2 * length user, 2 * length password, shell, dir)
        (ap unpack_hhhhh slice-lengths ∙ read_lengths)
      ∙ ap ok (creds_of u p)
