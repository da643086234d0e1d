-- ===== src/OAuth2/Jti/Replay.antt =====
-- `JTIStore` of internal/oauth2/dpop.go stays bounded, and refuses a replay until it evicts.
use fikua_lab_idp.Prelude.{
  ℕ, zero, suc, ◌+◌, ◌-◌, ◌≤◌, ◌<◌, ◌≡◌, String, true, false, List, [], ◌∷◌, elem, length, arith,
  eq_iff, eq_refl,
}
use fikua_lab_idp.OAuth2.Jti.{JtiStore, new_jti_store, drop, accept, jti_store_max_size}

-- `range` visits each entry once.
pub record Visits (visit : List String → List String) : Type 0 where
  pub same_length : (xs : List String) → length (visit xs) ≡ length xs

length-drop : (n : ℕ) (xs : List String) → length (drop n xs) ≡ length xs - n
unfolding drop
length-drop zero xs = omega arith
length-drop (suc n) [] = omega arith
length-drop (suc n) (x ∷ xs) = omega (arith, length-drop n xs)

-- A sequence of proofs, each with its own identifier.
unfoldable pub accept_all : (List String → List String) → List String → JtiStore → JtiStore
accept_all visit [] s = s
accept_all visit (jti ∷ jtis) s = accept_all visit jtis (accept visit jti s).1

accept-bounded :
    (visit : List String → List String) (jti : String) (s : JtiStore)
    → Visits visit
    → length s.set ≤ jti_store_max_size
    → length (accept visit jti s).1.set ≤ jti_store_max_size
unfolding accept
accept-bounded visit jti s v h =
    ground (arith, length-drop 1_000 (visit s.set), v.same_length s.set)

accept_all-bounded :
    (visit : List String → List String) (jtis : List String) (s : JtiStore)
    → Visits visit
    → length s.set ≤ jti_store_max_size
    → length (accept_all visit jtis s).set ≤ jti_store_max_size
unfolding accept_all
accept_all-bounded visit [] s v h = h
accept_all-bounded visit (jti ∷ jtis) s v h =
    accept_all-bounded visit jtis (accept visit jti s).1 v (accept-bounded visit jti s v h)

-- Whatever proofs are presented to a new store, in whatever order `range` visits the set, it never
-- holds more than `jti_store_max_size` identifiers.
pub jti_store_bounded :
    (visit : List String → List String) (jtis : List String)
    → Visits visit
    → length (accept_all visit jtis new_jti_store).set ≤ jti_store_max_size
unfolding new_jti_store
jti_store_bounded visit jtis v = accept_all-bounded visit jtis new_jti_store v (omega arith)

remembers :
    (visit : List String → List String) (jti : String) (others : List String) (s : JtiStore)
    → elem jti s.set ≡ true
    → length s.set + length others ≤ jti_store_max_size
    → elem jti (accept_all visit others s).set ≡ true
unfolding accept_all accept
remembers visit jti [] s seen room = seen
remembers visit jti (o ∷ others) s seen room =
    ground (arith, remembers visit jti others (accept visit o s).1, eq_iff o jti)

-- A proof that was accepted is refused as a replay, and the refusal changes nothing, as long as the
-- proofs presented in between still fit into the store beside it.
pub replay_refused :
    (visit : List String → List String) (jti : String) (others : List String) (s : JtiStore)
    → (accept visit jti s).0 ≡ true
    → length s.set + length others < jti_store_max_size
    → let t = accept_all visit others (accept visit jti s).1 in accept visit jti t ≡ (false, t)
unfolding accept
replay_refused visit jti others s first room =
    ground (arith, remembers visit jti others (accept visit jti s).1, eq_refl jti)
