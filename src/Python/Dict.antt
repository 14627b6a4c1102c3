-- ===== src/Python/Dict.antt =====
-- A dictionary from texts, as the list of its items in order.
use honeypots.Prelude.{
  Option, none, some, List, [], ◌∷◌, Bool, true, false, ◌≡◌, ◌↔◌, refl, arith, if◌then◌else◌,
}
use honeypots.Python.Bytes.{Text, bytes_eq}

abbrev pub Dict {ℓ} : Type ℓ → Type ℓ
Dict V = List (Text × V)

pub bytes_eq_iff : (a b : Text) → (bytes_eq a b ≡ true) ↔ (a ≡ b)
unfolding bytes_eq
bytes_eq_iff (x ∷ a) (y ∷ b) = ground (arith, bytes_eq_iff a b)
bytes_eq_iff _ _ = ground arith

pub bytes_eq_refl : (a : Text) → bytes_eq a a ≡ true
bytes_eq_refl a = (bytes_eq_iff a a).1 refl

module _ {ℓ} {V : Type ℓ} where
  -- `d.get(k)`
  unfoldable pub get : Dict V → Text → Option V
  unfolding bytes_eq
  get [] k = none
  get ((j, v) ∷ d) k = if bytes_eq j k then some v else get d k

  -- `d[k] = v`, and `d.update({k: v})`: a key that is there keeps its place
  unfoldable pub put : Dict V → Text → V → Dict V
  unfolding bytes_eq
  put [] k v = (k, v) ∷ []
  put ((j, w) ∷ d) k v = if bytes_eq j k then (k, v) ∷ d else (j, w) ∷ put d k v

  -- `k in d`
  unfoldable pub contains : Dict V → Text → Bool
  unfolding bytes_eq
  contains [] k = false
  contains ((j, w) ∷ d) k = if bytes_eq j k then true else contains d k

  -- `d.pop(k, None)`
  unfoldable pub remove : Dict V → Text → Dict V
  unfolding bytes_eq
  remove [] k = []
  remove ((j, w) ∷ d) k = if bytes_eq j k then d else (j, w) ∷ remove d k

  pub get-put :
      (d : Dict V) (k j : Text) (v : V)
      → get (put d k v) j ≡ (if bytes_eq k j then some v else get d j)
  unfolding get put
  get-put [] k j v = refl
  get-put ((i, w) ∷ d) k j v =
      ground (arith, bytes_eq_iff k j, bytes_eq_iff i k, bytes_eq_iff i j, get-put d k j v)
