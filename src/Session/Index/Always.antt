-- ===== src/Session/Index/Always.antt =====
-- The indexes of internal/session/store.go along any sequence of store operations.
use fikua_lab_idp.Prelude.{
  ℕ, ◌-◌, ◌≤◌, ◌≡◌, refl, String, List, [], ◌∷◌, some, arith, Option-cases, inl, inr,
}
use fikua_lab_idp.Assoc.{get, get-empty}
use fikua_lab_idp.Session.Types.{Store, VerificationSession, verification_session_ttl, new_store}
use fikua_lab_idp.Session.Verifications.{
  find_verification, find_verification_by_state, find_verification_by_encryption_kid,
}
use fikua_lab_idp.Session.Trace.{Op, step, run}
use fikua_lab_idp.Session.Index.{
  IsIndexed, IsFresh, kid_of, store-IsIndexed, find-IsIndexed, find_by_state-IsIndexed,
  find_by_kid-IsIndexed, update-IsIndexed,
}

transfer :
    (s t : Store)
    → t.verifications ≡ s.verifications
    → t.verification_id_by_state ≡ s.verification_id_by_state
    → t.verification_id_by_enc_kid ≡ s.verification_id_by_enc_kid
    → IsIndexed s
    → IsIndexed t
transfer s t e e₁ e₂ h = record {
  own_id = rw e h.own_id;
  by_state = rw (e, e₁) h.by_state;
  by_kid = rw (e, e₂) h.by_kid;
  has_state = rw (e, e₁) h.has_state;
  has_kid = rw (e, e₂) h.has_kid;
}

-- A session that the step stores has a session id, a state and a key id that are not in use.
abbrev pub FreshId : Op → Store → Type 0
FreshId (Op.store_verification v now) s = IsFresh v s
FreshId _ s = Unit {0}

abbrev pub FreshIds : List Op → Store → Type 0
FreshIds [] s = Unit {0}
FreshIds (op ∷ ops) s = FreshId op s × FreshIds ops (step op s)

step-IsIndexed : (op : Op) (s : Store) → FreshId op s → IsIndexed s → IsIndexed (step op s)
unfolding step
step-IsIndexed (Op.store_verification v now) s fresh h = store-IsIndexed v now s fresh h
step-IsIndexed (Op.find_verification id now) s fresh h = find-IsIndexed id now s h
step-IsIndexed (Op.find_verification_by_state state now) s fresh h =
    find_by_state-IsIndexed state now s h
step-IsIndexed (Op.find_verification_by_encryption_kid kid now) s fresh h =
    find_by_kid-IsIndexed kid now s h
step-IsIndexed (Op.update_verification_status id status now) s fresh h =
    update-IsIndexed id now _ s
      (record { same_id = λ v. refl; same_state = λ v. refl; same_key = λ v. refl }) h
step-IsIndexed (Op.update_verification_result id status tokens claims subject reason now) s fresh
      h =
    update-IsIndexed id now _ s
      (record { same_id = λ v. refl; same_state = λ v. refl; same_key = λ v. refl }) h
step-IsIndexed op s fresh h = transfer s (step op s) (ground arith) (ground arith) (ground arith) h

run-IsIndexed : (ops : List Op) (s : Store) → FreshIds ops s → IsIndexed s → IsIndexed (run ops s)
unfolding run
run-IsIndexed [] s fresh h = h
run-IsIndexed (op ∷ ops) s fresh h =
    run-IsIndexed ops (step op s) fresh.1 (step-IsIndexed op s fresh.0 h)

new_store-IsIndexed : IsIndexed new_store
unfolding new_store
new_store-IsIndexed = record {
  own_id = λ id v e. ground (arith, get-empty {V = VerificationSession} id);
  by_state = λ state id e. ground (arith, get-empty {V = String} state);
  by_kid = λ kid id e. ground (arith, get-empty {V = String} kid);
  has_state = λ id v e. absurd (ground (arith, get-empty {V = VerificationSession} id));
  has_kid = λ id v key e k. absurd (ground (arith, get-empty {V = VerificationSession} id));
}

-- After any sequence of store operations from the empty store in which each new session draws a
-- session id, a state and a key id that are not in use, the two indexes and the sessions agree in
-- both directions: an index entry names a stored session with that `state` or `kid`, and a stored
-- session is named under its `state` and, where it has a key, under its `kid`.
pub IsIndexed-always : (ops : List Op) → FreshIds ops new_store → IsIndexed (run ops new_store)
IsIndexed-always ops fresh = run-IsIndexed ops new_store fresh new_store-IsIndexed

-- After any sequence of store operations from the empty store in which each new session draws a
-- session id, a state and a key id that are not in use, a look-up by `state` finds only a session
-- that was given that state, and only within its lifetime.
pub find_by_state_sound :
    (ops : List Op) (state : String) (now : ℕ) (v : VerificationSession)
    → FreshIds ops new_store
    → (find_verification_by_state state now (run ops new_store)).0 ≡ some v
    → (v.state ≡ state) × (now - v.created_at ≤ verification_session_ttl)
unfolding find_verification_by_state find_verification
find_by_state_sound ops state now v fresh found =
    let s = run ops new_store in
    let h = IsIndexed-always ops fresh in
    elim (Option-cases (get state s.verification_id_by_state)) [
      | inl e ↦ ground arith
      | inr (id, e) ↦ ground (arith, h.by_state state id e)
    ]

-- After any sequence of store operations from the empty store in which each new session draws a
-- session id, a state and a key id that are not in use, a look-up by the `kid` of an encrypted
-- response finds only a session that was given the key with that `kid`, and only within its
-- lifetime.
pub find_by_kid_sound :
    (ops : List Op) (kid : String) (now : ℕ) (v : VerificationSession)
    → FreshIds ops new_store
    → (find_verification_by_encryption_kid kid now (run ops new_store)).0 ≡ some v
    → (kid_of (some v) ≡ some kid) × (now - v.created_at ≤ verification_session_ttl)
unfolding find_verification_by_encryption_kid find_verification
find_by_kid_sound ops kid now v fresh found =
    let s = run ops new_store in
    let h = IsIndexed-always ops fresh in
    elim (Option-cases (get kid s.verification_id_by_enc_kid)) [
      | inl e ↦ ground arith
      | inr (id, e) ↦ ground (arith, h.by_kid kid id e)
    ]
