-- ===== src/OAuth2/Tests.antt =====
-- Concrete runs of internal/oauth2.
use fikua_lab_idp.Prelude.{
  ◌*◌, ◌≤◌, ◌≡◌, refl, inl, String, false, List, [], ◌∷◌, length, none, arith, second, ne_of_test,
  elem,
}
use fikua_lab_idp.Action.{ok}
use fikua_lab_idp.OAuth2.Jti.{new_jti_store, accept, jti_store_max_size}
use fikua_lab_idp.OAuth2.Jti.Replay.{Visits, accept_all, jti_store_bounded, replay_refused}
use fikua_lab_idp.OAuth2.Dpop.{
  lower_ascii, equal_fold_ascii, same_letters, htu_matches, validate_dpop_proof, check_headers,
  check_claims, check_replay,
}
use fikua_lab_idp.OAuth2.Dpop.Laws.{
  IsAccepted, validate_dpop_proof_sound, validate_dpop_proof_complete,
}
use fikua_lab_idp.OAuth2.Attestation.{validate_wia_and_pop}
use fikua_lab_idp.OAuth2.Attestation.Laws.{anchor_unused_without_x5c}
use fikua_lab_idp.Fixtures.{toy_jose, anchored, headers_of, claims_of}

abbrev in_order : List String → List String
in_order xs = xs

in_order-Visits : Visits in_order
in_order-Visits = record { same_length = λ xs. refl }

jti_store_bounded_example :
    length (accept_all in_order ("a" ∷ "b" ∷ "a" ∷ []) new_jti_store).set ≤ jti_store_max_size
jti_store_bounded_example = jti_store_bounded in_order ("a" ∷ "b" ∷ "a" ∷ []) in_order-Visits

replay_refused_example :
    let t = accept_all in_order ("b" ∷ []) (accept in_order "a" new_jti_store).1 in
    accept in_order "a" t ≡ (false, t)
unfolding accept new_jti_store
replay_refused_example = replay_refused in_order "a" ("b" ∷ []) new_jti_store refl (omega arith)

proof_accepted :
    (validate_dpop_proof toy_jose in_order
      (100 * second)
      "proof"
      "POST"
      "as/oid4vci/v1/token"
      ""
      new_jti_store).0
    ≡ ok "key"
unfolding validate_dpop_proof check_headers check_claims check_replay same_letters lower_ascii
    new_jti_store
proof_accepted = refl

validate_dpop_proof_sound_example :
    IsAccepted toy_jose "proof" "POST" "as/oid4vci/v1/token" "" (100 * second) new_jti_store "key"
validate_dpop_proof_sound_example =
    validate_dpop_proof_sound toy_jose in_order (100 * second) "proof" "POST" "as/oid4vci/v1/token"
      "" new_jti_store "key" proof_accepted

abbrev accepted_proof :
    IsAccepted toy_jose "proof" "POST" "as/oid4vci/v1/token" "" (100 * second) new_jti_store "key"
unfolding equal_fold_ascii htu_matches same_letters lower_ascii new_jti_store elem
accepted_proof = record {
  msg = headers_of "proof";
  token = claims_of "proof";
  iat = 100 * second;
  given = ne_of_test "proof" "" refl;
  parses = refl;
  header_valid = record {
    one_signature = refl;
    proof_typ = refl;
    carries = refl;
    public_only = refl;
    proof_alg = refl;
  };
  verifies = refl;
  claims_valid = record {
    same_method = refl;
    same_url = refl;
    issued = refl;
    not_old = omega arith;
    not_future = omega arith;
  };
  named = ne_of_test "proof" "" refl;
  fresh = refl;
  bound = inl refl;
}

validate_dpop_proof_complete_example :
    validate_dpop_proof toy_jose in_order
      (100 * second)
      "proof"
      "POST"
      "as/oid4vci/v1/token"
      ""
      new_jti_store
    ≡ (ok "key", (accept in_order "proof" new_jti_store).1)
unfolding accepted_proof
validate_dpop_proof_complete_example =
    validate_dpop_proof_complete toy_jose in_order (100 * second) "proof" "POST"
      "as/oid4vci/v1/token" "" new_jti_store "key" accepted_proof

anchor_unused_without_x5c_example :
    validate_wia_and_pop toy_jose anchored (100 * second) "wia" "pop"
    ≡ validate_wia_and_pop toy_jose
        (record anchored { wallet_provider_anchor = none })
        (100 * second)
        "wia"
        "pop"
anchor_unused_without_x5c_example =
    anchor_unused_without_x5c toy_jose anchored "root" (100 * second) "wia" "pop" (headers_of "wia")
      refl refl
