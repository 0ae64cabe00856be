-- ===== src/Realtime/Identity/Gate.antt =====
-- The gate of the handshake against the identity that is resolved later.
use notebortt_backend.Common.Assoc.{get}
use notebortt_backend.Collab.Board.Maps.{is_some}
use notebortt_backend.Realtime.Identity.{
  resolve_socket_identity, first_user, read_cookie_token, token_sources, admits_handshake, User,
  gate_candidates, Handshake, is_verified, present, cookie_tokens, anonymous, bearer_token,
  access_token_cookie_names,
}
use notebortt_backend.Common.{
  String, Bool, Option, List, any, ◌≡◌, ◌≡◌, ◌++◌, ◌||◌, true, ◌⊎◌, ◌∷◌, ◌⊎◌, arith, [],
  Option-cases, refl, inl, inr,
}

any-append : (p : String → Bool) (xs ys : List String) → any p (xs ++ ys) ≡ (any p xs || any p ys)
any-append p [] ys = refl
any-append p (x ∷ xs) ys = ground (arith, any-append p xs ys)

first_user-verified :
    (verify : String → Option String) (users : String → Option User) (tokens : List String)
    → is_some (first_user verify users tokens) ≡ true
    → any (is_verified verify) tokens ≡ true
unfolding first_user
first_user-verified verify users [] h = cc h
first_user-verified verify users (t ∷ ts) h = ground (arith, first_user-verified verify users ts)

cookie-verified :
    (verify : String → Option String) (cookies : List (String × String)) (names : List String)
    → any (is_verified verify) (present (read_cookie_token cookies names)) ≡ true
    → any (is_verified verify) (cookie_tokens cookies names) ≡ true
unfolding read_cookie_token
cookie-verified verify cookies [] h = cc h
cookie-verified verify cookies (n ∷ ns) h = ground (
  arith,
  cookie-verified verify cookies ns,
  any-append (is_verified verify) (present (get n cookies)) (cookie_tokens cookies ns),
)

-- A connection that resolves to a user's identity has passed the gate of the handshake, and every
-- other connection is anonymous, under an identifier made of its socket's.
pub resolve_socket_identity-admits :
    (verify : String → Option String) (users : String → Option User) (h : Handshake)
    → ((is_some (resolve_socket_identity verify users h).auth_user_id ≡ true)
        × (admits_handshake verify h ≡ true))
      ⊎ (resolve_socket_identity verify users h ≡ anonymous h.socket_id)
unfolding resolve_socket_identity token_sources admits_handshake gate_candidates
resolve_socket_identity-admits verify users h =
    let sources = token_sources h in
    elim (Option-cases (first_user verify users sources)) [
      | inl nobody ↦ inr (rw nobody refl)
      | inr (user, found) ↦ inl (
        rw found refl,
        ground (
          arith,
          first_user-verified verify users sources (rw found refl),
          any-append (is_verified verify) (present h.auth_token) (
              present (bearer_token h)
              ++ present (read_cookie_token h.cookies access_token_cookie_names)),
          any-append (is_verified verify) (present (bearer_token h))
              (present (read_cookie_token h.cookies access_token_cookie_names)),
          any-append (is_verified verify) (present h.auth_token)
              (present (bearer_token h) ++ cookie_tokens h.cookies access_token_cookie_names),
          any-append (is_verified verify) (present (bearer_token h))
              (cookie_tokens h.cookies access_token_cookie_names),
          cookie-verified verify h.cookies access_token_cookie_names,
        ),
      )
    ]
