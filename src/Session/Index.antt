-- ===== src/Session/Index.antt =====
-- The indexes of internal/session/store.go by `state` and by encryption `kid` name live sessions
-- only, and the right ones.
pub mod Always
use fikua_lab_idp.Prelude.{
  ℕ, ◌-◌, ◌≤◌, ◌≡◌, refl, sym, ap, ◌∙◌, String, List, [], ◌∷◌, Option, none, some, arith, eq_iff,
  ltb, Option-cases, inl, inr, Bool-cases,
}
use fikua_lab_idp.Assoc.{get, get-put, get-delete, get-empty}
use fikua_lab_idp.Session.Types.{
  Store, VerificationSession, ResponseEncryptionKey, verification_session_ttl, new_store,
}
use fikua_lab_idp.Session.Verifications.{
  store_verification, delete_verification, find_verification, find_verification_by_state,
  find_verification_by_encryption_kid, write_back,
}
use fikua_lab_idp.Session.Trace.{Op, step, run}

abbrev pub state_of : Option VerificationSession → Option String
state_of none = none
state_of (some v) = some v.state

abbrev kid_of_key : Option ResponseEncryptionKey → Option String
kid_of_key none = none
kid_of_key (some key) = some key.kid

abbrev pub kid_of : Option VerificationSession → Option String
kid_of none = none
kid_of (some v) = kid_of_key v.encryption_key

-- Each session stands under its own id; each index entry names a stored session with that `state` or
-- `kid`; and each stored session is named under its `state` and, if it has a key, under its `kid`.
pub record IsIndexed (s : Store) : Type 0 where
  pub own_id :
      (id : String) (v : VerificationSession) → get id s.verifications ≡ some v → v.session_id ≡ id
  pub by_state :
      (state id : String)
      → get state s.verification_id_by_state ≡ some id
      → state_of (get id s.verifications) ≡ some state
  pub by_kid :
      (kid id : String)
      → get kid s.verification_id_by_enc_kid ≡ some id
      → kid_of (get id s.verifications) ≡ some kid
  pub has_state :
      (id : String) (v : VerificationSession)
      → get id s.verifications ≡ some v
      → get v.state s.verification_id_by_state ≡ some id
  pub has_kid :
      (id : String) (v : VerificationSession) (key : ResponseEncryptionKey)
      → get id s.verifications ≡ some v
      → v.encryption_key ≡ some key
      → get key.kid s.verification_id_by_enc_kid ≡ some id

-- No index names a session under this session's `state` and `kid`.
pub record IsFresh (v : VerificationSession) (s : Store) : Type 0 where
  pub new_id : get v.session_id s.verifications ≡ none
  pub new_state : get v.state s.verification_id_by_state ≡ none
  pub new_kid :
      (key : ResponseEncryptionKey)
      → v.encryption_key ≡ some key
      → get key.kid s.verification_id_by_enc_kid ≡ none

store-IsIndexed :
    (v : VerificationSession) (now : ℕ) (s : Store)
    → IsFresh v s
    → IsIndexed s
    → IsIndexed (store_verification v now s)
unfolding store_verification
store-IsIndexed v now s fresh h =
    let v' : VerificationSession = record v { created_at = now } in
    record {
      own_id = λ id w e. ground (
        arith,
        h.own_id id w,
        get-put v.session_id id v' s.verifications,
        eq_iff v.session_id id,
      );
      by_state = λ state id e. ground (
        arith,
        h.by_state state id,
        get-put v.session_id id v' s.verifications,
        get-put v.state state v.session_id s.verification_id_by_state,
        eq_iff v.session_id id,
        eq_iff v.state state,
      );
      by_kid = λ kid id e. elim (Option-cases v.encryption_key) [
        | inl plain ↦ ground (
          arith,
          h.by_kid kid id,
          get-put v.session_id id v' s.verifications,
          eq_iff v.session_id id,
        )
        | inr (key, encrypted) ↦ ground (
          arith,
          h.by_kid kid id,
          get-put v.session_id id v' s.verifications,
          get-put key.kid kid v.session_id s.verification_id_by_enc_kid,
          eq_iff v.session_id id,
          eq_iff key.kid kid,
        )
      ];
      has_state = λ id w e. ground (
        arith,
        h.has_state id w,
        fresh.new_state,
        get-put v.session_id id v' s.verifications,
        get-put v.state w.state v.session_id s.verification_id_by_state,
        eq_iff v.session_id id,
        eq_iff v.state w.state,
      );
      has_kid = λ id w key e k. elim (Option-cases v.encryption_key) [
        | inl plain ↦ ground (
          arith,
          h.has_kid id w key,
          get-put v.session_id id v' s.verifications,
          eq_iff v.session_id id,
        )
        | inr (mine, encrypted) ↦ ground (
          arith,
          h.has_kid id w key,
          fresh.new_kid mine,
          get-put v.session_id id v' s.verifications,
          get-put mine.kid key.kid v.session_id s.verification_id_by_enc_kid,
          eq_iff v.session_id id,
          eq_iff mine.kid key.kid,
        )
      ];
    }

delete-IsIndexed :
    (id : String) (v : VerificationSession) (s : Store)
    → get id s.verifications ≡ some v
    → IsIndexed s
    → IsIndexed (delete_verification v s)
unfolding delete_verification
delete-IsIndexed id v s held h = record {
  own_id = λ j w e. ground (
    arith,
    h.own_id id v,
    h.own_id j w,
    get-delete v.session_id j s.verifications,
    eq_iff v.session_id j,
  );
  by_state = λ state j e. ground (
    arith,
    h.own_id id v,
    h.by_state state j,
    get-delete v.session_id j s.verifications,
    get-delete v.state state s.verification_id_by_state,
    eq_iff v.session_id j,
    eq_iff v.state state,
  );
  by_kid = λ kid j e. elim (Option-cases v.encryption_key) [
    | inl plain ↦ ground (
      arith,
      h.own_id id v,
      h.by_kid kid j,
      get-delete v.session_id j s.verifications,
      eq_iff v.session_id j,
    )
    | inr (key, encrypted) ↦ ground (
      arith,
      h.own_id id v,
      h.by_kid kid j,
      get-delete v.session_id j s.verifications,
      get-delete key.kid kid s.verification_id_by_enc_kid,
      eq_iff v.session_id j,
      eq_iff key.kid kid,
    )
  ];
  has_state = λ j w e. ground (
    arith,
    h.own_id id v,
    h.has_state id v,
    h.has_state j w,
    get-delete v.session_id j s.verifications,
    get-delete v.state w.state s.verification_id_by_state,
    eq_iff v.session_id j,
    eq_iff v.state w.state,
  );
  has_kid = λ j w key e k. elim (Option-cases v.encryption_key) [
    | inl plain ↦ ground (
      arith,
      h.own_id id v,
      h.has_kid j w key,
      get-delete v.session_id j s.verifications,
      eq_iff v.session_id j,
    )
    | inr (mine, encrypted) ↦ ground (
      arith,
      h.own_id id v,
      h.has_kid id v mine,
      h.has_kid j w key,
      get-delete v.session_id j s.verifications,
      get-delete mine.kid key.kid s.verification_id_by_enc_kid,
      eq_iff v.session_id j,
      eq_iff mine.kid key.kid,
    )
  ];
}

find-IsIndexed :
    (id : String) (now : ℕ) (s : Store) → IsIndexed s → IsIndexed (find_verification id now s).1
unfolding find_verification
find-IsIndexed id now s h = elim (Option-cases (get id s.verifications)) [
  | inl missing ↦ rw (missing, find_verification) h
  | inr (v, held) ↦ elim (Bool-cases (ltb verification_session_ttl (now - v.created_at))) [
    | inl expired ↦ rw (held, find_verification, expired) (delete-IsIndexed id v s held h)
    | inr live ↦ rw (held, find_verification, live) h
  ]
]

find_by_state-IsIndexed :
    (state : String) (now : ℕ) (s : Store)
    → IsIndexed s
    → IsIndexed (find_verification_by_state state now s).1
unfolding find_verification_by_state
find_by_state-IsIndexed state now s h = elim (Option-cases (get state s.verification_id_by_state)) [
  | inl e ↦ rw (e, find_verification_by_state) h
  | inr (id, e) ↦ rw (e, find_verification_by_state) (find-IsIndexed id now s h)
]

find_by_kid-IsIndexed :
    (kid : String) (now : ℕ) (s : Store)
    → IsIndexed s
    → IsIndexed (find_verification_by_encryption_kid kid now s).1
unfolding find_verification_by_encryption_kid
find_by_kid-IsIndexed kid now s h = elim (Option-cases (get kid s.verification_id_by_enc_kid)) [
  | inl e ↦ rw (e, find_verification_by_encryption_kid) h
  | inr (id, e) ↦ rw (e, find_verification_by_encryption_kid) (find-IsIndexed id now s h)
]

-- In such a store, a look-up by `kid` finds a live session under its own id, whose key has that `kid`.
pub find_by_kid_held :
    (kid : String) (now : ℕ) (s : Store) (v : VerificationSession)
    → IsIndexed s
    → (find_verification_by_encryption_kid kid now s).0 ≡ some v
    → (get v.session_id s.verifications ≡ some v)
      × (kid_of (some v) ≡ some kid)
      × (now - v.created_at ≤ verification_session_ttl)
unfolding find_verification_by_encryption_kid find_verification
find_by_kid_held kid now s v h found = elim (Option-cases (get kid s.verification_id_by_enc_kid)) [
  | inl e ↦ absurd (ground arith)
  | inr (id, e) ↦ elim (Option-cases (get id s.verifications)) [
    | inl g ↦ absurd (ground arith)
    | inr (w, g) ↦ elim (Bool-cases (ltb verification_session_ttl (now - w.created_at))) [
      | inl old ↦ absurd (ground arith)
      | inr live ↦
          let same : w ≡ v = ground arith in
          let held = g ∙ ap some same in
          (
            ap (λ i. get i s.verifications) (h.own_id id v held) ∙ held,
            ap kid_of (sym held) ∙ h.by_kid kid id e,
            ground (arith, same),
          )
    ]
  ]
]

-- What a write through the pointer may not change.
record KeepsKeys (f : VerificationSession → VerificationSession) : Type 0 where
  same_id : (v : VerificationSession) → (f v).session_id ≡ v.session_id
  same_state : (v : VerificationSession) → (f v).state ≡ v.state
  same_key : (v : VerificationSession) → (f v).encryption_key ≡ v.encryption_key

overwrite-IsIndexed :
    (id : String) (v : VerificationSession) (f : VerificationSession → VerificationSession)
    (s : Store)
    → KeepsKeys f
    → get id s.verifications ≡ some v
    → IsIndexed s
    → IsIndexed (write_back id (some v, s) f)
unfolding write_back
overwrite-IsIndexed id v f s keeps held h = record {
  own_id = λ j w e. ground (
    arith,
    h.own_id j w,
    h.own_id id v,
    get-put id j (f v) s.verifications,
    eq_iff id j,
    keeps.same_id v,
  );
  by_state = λ state j e. ground (
    arith,
    h.by_state state j,
    get-put id j (f v) s.verifications,
    eq_iff id j,
    keeps.same_state v,
  );
  by_kid = λ kid j e.
      ground
        (arith, h.by_kid kid j, get-put id j (f v) s.verifications, eq_iff id j, keeps.same_key v);
  has_state = λ j w e. ground (
    arith,
    h.has_state j w,
    h.has_state id v,
    get-put id j (f v) s.verifications,
    eq_iff id j,
    keeps.same_state v,
  );
  has_kid = λ j w key e k. ground (
    arith,
    h.has_kid j w key,
    h.has_kid id v key,
    get-put id j (f v) s.verifications,
    eq_iff id j,
    keeps.same_key v,
  );
}

update-IsIndexed :
    (id : String) (now : ℕ) (f : VerificationSession → VerificationSession) (s : Store)
    → KeepsKeys f
    → IsIndexed s
    → IsIndexed (write_back id (find_verification id now s) f)
unfolding find_verification write_back
update-IsIndexed id now f s keeps h = elim (Option-cases (get id s.verifications)) [
  | inl missing ↦ rw (missing, find_verification) h
  | inr (v, held) ↦ elim (Bool-cases (ltb verification_session_ttl (now - v.created_at))) [
    | inl expired ↦ rw (held, find_verification, expired) (delete-IsIndexed id v s held h)
    | inr live ↦ rw (held, find_verification, live) (overwrite-IsIndexed id v f s keeps held h)
  ]
]
