-- ===== src/Session/Feed.antt =====
-- Rules for `feed`: an effect that each chunk pays for out of the state is bounded over a whole
-- connection, and a handler that never raises never ends a connection by an exception.
use honeypots.Prelude.{ℕ, ◌+◌, ◌≤◌, ◌≡◌, refl, List, [], ◌∷◌, ◌++◌, arith}
use honeypots.Python.Bytes.{Bytes}
use honeypots.Python.Result.{ok}
use honeypots.Session.{Effect, logged, sent, Handler, feed}

-- the weight of a trace
abbrev pub cost : (Effect → ℕ) → List Effect → ℕ
cost w [] = 0
cost w (e ∷ o) = w e + cost w o

cost-append : (w : Effect → ℕ) (o o' : List Effect) → cost w (o ++ o') ≡ cost w o + cost w o'
cost-append w [] o' = omega arith
cost-append w (e ∷ o) o' = omega (arith, cost-append w o o')

abbrev pub is_entry : Effect → ℕ
is_entry (logged _) = 1
is_entry _ = 0

abbrev pub is_write : Effect → ℕ
is_write (sent _) = 1
is_write _ = 0

module _ {S : Type 0} (h : Bytes → Handler S (Unit {0})) where
  module _ (w : Effect → ℕ) (b : S → ℕ)
      (pays : (c : Bytes) (s : S) → cost w (h c s).2 + b (h c s).1 ≤ b s) where
    pub feed_budget : (cs : List Bytes) (s : S) → cost w (feed h cs s).2 + b (feed h cs s).1 ≤ b s
    unfolding feed
    feed_budget [] s = omega arith
    feed_budget (c ∷ cs) s =
        ground (
          arith,
          pays c s,
          feed_budget cs (h c s).1,
          cost-append w (h c s).2 (feed h cs (h c s).1).2,
        )

  module _ (total : (c : Bytes) (s : S) → (h c s).0 ≡ ok tt) where
    pub feed_total : (cs : List Bytes) (s : S) → (feed h cs s).0 ≡ ok tt
    unfolding feed
    feed_total [] s = refl
    feed_total (c ∷ cs) s = ground (arith, total c s, feed_total cs (h c s).1)
