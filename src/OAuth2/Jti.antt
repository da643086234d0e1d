-- ===== src/OAuth2/Jti.antt =====
-- internal/oauth2/dpop.go: `JTIStore`, the bounded set of DPoP proof identifiers.
pub mod Replay
use fikua_lab_idp.Prelude.{
  ℕ, zero, suc, ◌≤◌, String, Bool, true, false, List, [], ◌∷◌, elem, length, leb, if◌then◌else◌,
}

pub record JtiStore : Type 0 where
  pub set : List String

abbrev pub jti_store_max_size : ℕ
jti_store_max_size = 10_000

abbrev pub jti_store_evict_count : ℕ
jti_store_evict_count = 1_000

unfoldable pub new_jti_store : JtiStore
new_jti_store = record { set = [] }

-- What the eviction loop leaves: it deletes the first `n` of the entries that it visits.
unfoldable pub drop : ℕ → List String → List String
drop zero xs = xs
drop (suc n) [] = []
drop (suc n) (x ∷ xs) = drop n xs

-- `visit` is the order in which `range` visits the set, which Go leaves open.
unfoldable pub accept : (List String → List String) → String → JtiStore → Bool × JtiStore
unfolding elem
accept visit jti s = if elem jti s.set then (false, s) else (
  true,
  record {
    set =
        jti
        ∷ (if leb jti_store_max_size (length s.set)
            then drop jti_store_evict_count (visit s.set)
            else s.set);
  },
)
