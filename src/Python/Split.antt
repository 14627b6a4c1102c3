-- ===== src/Python/Split.antt =====
-- What `find`, `split` and `replace` do at a separator whose first byte does not occur before it.
use honeypots.Prelude.{
  ℕ, zero, suc, Bool, List, ◌+◌, ◌-◌, ◌≡◌, ◌≢◌, refl, ◌∙◌, true, false, [], ◌∷◌, ◌++◌, length, All,
  append-nil, append_assoc, arith, take-append_self, drop-append_self,
}
use honeypots.Python.Bytes.{Bytes, slice, starts_with, split, split_from, replace, replace_from}

abbrev is_cons : List Bytes → Bool
is_cons [] = false
is_cons (x ∷ xs) = true

split_from-is_cons : (sep : Bytes) (n : ℕ) (cur s : Bytes) → is_cons (split_from sep n cur s) ≡ true
unfolding split_from
split_from-is_cons sep n cur [] = refl
split_from-is_cons sep (suc n) cur (c ∷ cs) = split_from-is_cons sep n cur cs
split_from-is_cons sep zero cur (c ∷ cs) = ground (
  arith,
  split_from-is_cons sep 0 (cur ++ c ∷ []) cs,
  split_from-is_cons sep (length sep - 1) [] cs,
)

cons_of : (l : List Bytes) → is_cons l ≡ true → (x : Bytes) × ((xs : List Bytes) × (l ≡ x ∷ xs))
cons_of [] h = ground (arith, h)
cons_of (x ∷ xs) h = (x, (xs, refl))

-- `split` gives at least one part.
pub split_parts : (sep s : Bytes) → (x : Bytes) × ((xs : List Bytes) × (split sep s ≡ x ∷ xs))
unfolding split
split_parts sep s = cons_of (split sep s) (split_from-is_cons sep 0 [] s)

-- `s` does not occur in the list.
abbrev pub Lacks : ℕ → Bytes → Type 0
Lacks s = All (λ c. c ≢ s)

starts_with_self : (p rest : Bytes) → starts_with p (p ++ rest) ≡ true
unfolding starts_with
starts_with_self [] rest = refl
starts_with_self (x ∷ p) rest = ground (arith, starts_with_self p rest)

starts_with_ne : (s x : ℕ) (ss xs : Bytes) → x ≢ s → starts_with (s ∷ ss) (x ∷ xs) ≡ false
unfolding starts_with
starts_with_ne s x ss xs h = ground arith

add-sub_self : (a b : ℕ) → a + b - a ≡ b
add-sub_self a b = omega arith

split_from_skip :
    (sep ss rest : Bytes) → split_from sep (length ss) [] (ss ++ rest) ≡ split_from sep 0 [] rest
unfolding split_from
split_from_skip sep [] rest = refl
split_from_skip sep (x ∷ ss) rest = split_from_skip sep ss rest

split_from_one :
    (s x : ℕ) (ss cur xs : Bytes)
    → x ≢ s
    → split_from (s ∷ ss) 0 cur (x ∷ xs) ≡ split_from (s ∷ ss) 0 (cur ++ x ∷ []) xs
unfolding split_from
split_from_one s x ss cur xs h = ground (arith, starts_with_ne s x ss xs h)

suc-sub_one : (n : ℕ) → suc n - 1 ≡ n
suc-sub_one n = omega arith

split_from_sep :
    (s : ℕ) (ss cur rest : Bytes)
    → split_from (s ∷ ss) 0 cur ((s ∷ ss) ++ rest) ≡ cur ∷ split_from (s ∷ ss) 0 [] rest
unfolding split_from
split_from_sep s ss cur rest = ground (
  arith,
  starts_with_self (s ∷ ss) rest,
  suc-sub_one (length ss),
  split_from_skip (s ∷ ss) ss rest,
)

split_from-append :
    (s : ℕ) (ss cur xs rest : Bytes)
    → Lacks s xs
    → split_from (s ∷ ss) 0 cur (xs ++ ((s ∷ ss) ++ rest))
      ≡ (cur ++ xs) ∷ split_from (s ∷ ss) 0 [] rest
split_from-append s ss cur [] rest h = split_from_sep s ss cur rest ∙ rw append-nil
split_from-append s ss cur (x ∷ xs) rest h =
    split_from_one s x ss cur (xs ++ ((s ∷ ss) ++ rest)) h.0
    ∙ split_from-append s ss (cur ++ x ∷ []) xs rest h.1
    ∙ rw append_assoc

split_from_last :
    (s : ℕ) (ss cur xs : Bytes) → Lacks s xs → split_from (s ∷ ss) 0 cur xs ≡ (cur ++ xs) ∷ []
unfolding split_from
split_from_last s ss cur [] h = rw append-nil
split_from_last s ss cur (x ∷ xs) h =
    split_from_one s x ss cur xs h.0 ∙ split_from_last s ss (cur ++ x ∷ []) xs h.1 ∙ rw append_assoc

-- The part before the first separator comes off.
pub split-append :
    (s : ℕ) (ss xs rest : Bytes)
    → Lacks s xs
    → split (s ∷ ss) (xs ++ ((s ∷ ss) ++ rest)) ≡ xs ∷ split (s ∷ ss) rest
unfolding split
split-append s ss xs rest h = split_from-append s ss [] xs rest h

pub split_last : (s : ℕ) (ss xs : Bytes) → Lacks s xs → split (s ∷ ss) xs ≡ xs ∷ []
unfolding split
split_last s ss xs h = split_from_last s ss [] xs h

replace_from_skip :
    (old new ss rest : Bytes)
    → replace_from old new (length ss) (ss ++ rest) ≡ replace_from old new 0 rest
unfolding replace_from
replace_from_skip old new [] rest = refl
replace_from_skip old new (x ∷ ss) rest = replace_from_skip old new ss rest

-- A first occurrence at the head is replaced, and the rest is gone through.
pub replace_head :
    (s : ℕ) (ss new rest : Bytes)
    → replace (s ∷ ss) new ((s ∷ ss) ++ rest) ≡ new ++ replace (s ∷ ss) new rest
unfolding replace replace_from
replace_head s ss new rest = ground (
  arith,
  starts_with_self (s ∷ ss) rest,
  suc-sub_one (length ss),
  replace_from_skip (s ∷ ss) new ss rest,
)

pub replace_other :
    (s x : ℕ) (ss new xs : Bytes)
    → x ≢ s
    → replace (s ∷ ss) new (x ∷ xs) ≡ x ∷ replace (s ∷ ss) new xs
unfolding replace replace_from
replace_other s x ss new xs h = ground (arith, starts_with_ne s x ss xs h)

-- The middle of three parts, cut out by its position.
pub slice-middle : (h m t : Bytes) → slice (length h) (length h + length m) (h ++ (m ++ t)) ≡ m
slice-middle h m t =
    rw (drop-append_self h (m ++ t))
      (rw (add-sub_self (length h) (length m)) (take-append_self m t))
