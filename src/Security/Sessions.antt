-- ===== src/Security/Sessions.antt =====
-- What a session's cookie opens.
use ws_collab.Prelude.{
  ℕ, ◌+◌, ◌≤◌, ◌≡◌, refl, ap, ◌∙◌, true, false, Option, none, some, [], ◌∷◌, ◌++◌, if◌then◌else◌,
  ge→ltb, All, ◌==◌, nat_eq, Text, text_eq,
}
use ws_collab.Dict
use ws_collab.Dict.{Dict, get, get-put, get-pop}
use ws_collab.Security.{
  Session, Security, rsplit_dot, cookie_value, session_of, authenticate_session, create_session,
  destroy_session, Principal,
}

-- A text without a dot, such as a hexadecimal digest.
abbrev pub IsDotless : Text → Type 0
IsDotless = All (λ (c : ℕ). (c == 46) ≡ false)

rsplit_dot-IsDotless : (t : Text) → IsDotless t → rsplit_dot t ≡ none
unfolding rsplit_dot
rsplit_dot-IsDotless [] h = refl
rsplit_dot-IsDotless (c ∷ t) h = rw (rsplit_dot-IsDotless t h.1, h.0) refl

rsplit_dot-append : (sid t : Text) → IsDotless t → rsplit_dot (sid ++ 46 ∷ t) ≡ some (sid, t)
unfolding rsplit_dot
rsplit_dot-append [] t h = rw (rsplit_dot-IsDotless t h) refl
rsplit_dot-append (c ∷ sid) t h = rw (rsplit_dot-append sid t h) refl

module _ (sign : Text → Text) where
  abbrev cookie_of : ℕ → Security → Option (Text × Text) → Option (Principal × Session) × Security
  cookie_of now s none = (none, s)
  cookie_of now s (some p) =
      if p.1 == sign p.0 then session_of sign now p.0 (Dict.get s.sessions p.0) s else (none, s)

  cookie_opens :
      (now : ℕ) (session : Session) (s : Security)
      → IsDotless (sign session.sid)
      → authenticate_session sign now (some (cookie_value sign session)) s
        ≡ session_of sign now session.sid (Dict.get s.sessions session.sid) s
  unfolding authenticate_session cookie_value
  cookie_opens now session s h =
      ap (cookie_of now s) (rsplit_dot-append session.sid (sign session.sid) h)
      ∙ rw ((text_eq.same_iff (sign session.sid) (sign session.sid)).1 refl) refl

  -- When signatures have no dot, the cookie of a session that was just created opens it until it
  -- expires, in the role that it was created for, and changes nothing.
  pub authenticate_session-create_session :
      (now later : ℕ) (sid csrf created_at role label : Text) (ttl : ℕ) (s : Security)
      → IsDotless (sign sid)
      → later ≤ now + ttl
      → (let made = create_session now sid csrf created_at role label ttl s in
          authenticate_session sign later (some (cookie_value sign made.0)) made.1)
        ≡ (let made = create_session now sid csrf created_at role label ttl s in
            (
              some (record { is_session = true; id = sid; role = role; label = label }, made.0),
              made.1,
            ))
  unfolding create_session session_of
  authenticate_session-create_session now later sid csrf created_at role label ttl s h l =
      let made = create_session now sid csrf created_at role label ttl s in
      let found : Dict.get made.1.sessions sid ≡ some made.0 =
        get-put s.sessions sid made.0 sid ∙ rw ((text_eq.same_iff sid sid).1 refl) refl in
      cookie_opens later made.0 made.1 h
      ∙ ap (λ o. session_of sign later sid o made.1) found
      ∙ rw (ge→ltb (now + ttl) later l) refl

  -- When signatures have no dot, the cookie of a session that was destroyed opens nothing.
  pub authenticate_session-destroy_session :
      (now : ℕ) (session : Session) (s : Security)
      → IsDotless (sign session.sid)
      → (authenticate_session sign now
          (some (cookie_value sign session))
          (destroy_session session.sid s)).0
        ≡ none
  unfolding destroy_session session_of
  authenticate_session-destroy_session now session s h =
      let found : Dict.get (destroy_session session.sid s).sessions session.sid ≡ none =
        get-pop s.sessions session.sid session.sid
        ∙ rw ((text_eq.same_iff session.sid session.sid).1 refl) refl in
      ap (λ x. x.0) (cookie_opens now session (destroy_session session.sid s) h)
      ∙ ap (λ o. (session_of sign now session.sid o (destroy_session session.sid s)).0) found
