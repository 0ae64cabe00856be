-- ===== src/Realtime/Identity.antt =====
-- identity.ts, user-color.ts and the handshake in server.ts: who a connection
-- is. The check of a token is the auth service's: a user's identifier, or none where it throws. A
-- user's lookup is the database's; one that fails is taken for none.
use notebortt_backend.Collab.Board.Maps.{is_some}
use notebortt_backend.Common.Assoc.{get, or_else}
use notebortt_backend.Common.{
  some, Option, none, ℕ, List, [], ◌∷◌, Bool, ◌∷◌, if◌then◌else◌, if◌then◌else◌, ◌++◌, ◌==◌, any,
  eqb, ◌==◌, false, ◌||◌, ◌||◌, length, ◌&&◌, ◌&&◌, all,
}
use notebortt_backend.Common.Texts.{code_units, between}
use Prim.Native.Char.{code}
use Prim.Native.String.{String, ◌++◌ as join}
pub mod Gate
pub mod Colour

-- The cookie names, in order; `__Host-` only comes with a secure request.
abbrev pub access_token_cookie_names : List String
access_token_cookie_names = "__Host-accessToken" ∷ ("accessToken" ∷ [])

abbrev pub present : Option String → List String
present none = []
present (some t) = if t == "" then [] else t ∷ []

-- The first cookie that is there and not empty.
unfoldable pub read_cookie_token : List (String × String) → List String → Option String
unfolding get
read_cookie_token cookies [] = none
read_cookie_token cookies (name ∷ names) =
    let later = read_cookie_token cookies names in
    elim (get name cookies) [ none ↦ later | some t ↦ if t == "" then later else some t ]

-- What is left of a text behind a prefix.
unfoldable pub strip_prefix : String → String → Option String
strip_prefix String.[] s = some s
strip_prefix (String.◌∷◌ c p) String.[] = none
strip_prefix (String.◌∷◌ c p) (String.◌∷◌ d s) =
    let rest = strip_prefix p s in if eqb (code c) (code d) then rest else none

-- What a handshake brings, the cookies parsed; a share token that is no text is absent.
pub record Handshake : Type 0 where
  pub socket_id : String
  pub cookies : List (String × String)
  pub authorization : Option String
  pub auth_token : Option String
  pub query_share_token : Option String
  pub auth_share_token : Option String

abbrev pub bearer_token : Handshake → Option String
bearer_token h = elim h.authorization [ none ↦ none | some a ↦ strip_prefix "Bearer " a ]

-- `[authToken, bearerToken, cookieToken].filter(Boolean)`.
unfoldable pub token_sources : Handshake → List String
unfolding read_cookie_token strip_prefix
token_sources h =
    present h.auth_token
    ++ (present (bearer_token h) ++ present (read_cookie_token h.cookies access_token_cookie_names))

pub record User : Type 0 where
  pub user_id : String
  pub user_name : String
  pub user_avatar : Option String

-- `SocketIdentity`.
pub record SocketIdentity : Type 0 where
  pub auth_user_id : Option String
  pub runtime_user_id : String
  pub identity_name : String
  pub identity_avatar : Option String

abbrev pub identity_of : User → SocketIdentity
identity_of user = record {
  auth_user_id = some user.user_id;
  runtime_user_id = user.user_id;
  identity_name = user.user_name;
  identity_avatar = user.user_avatar;
}

abbrev pub anonymous : String → SocketIdentity
anonymous socket_id = record {
  auth_user_id = none;
  runtime_user_id = join "anonymous:" socket_id;
  identity_name = "Guest";
  identity_avatar = none;
}

abbrev pub user_with : (String → Option User) → Option String → Option User
user_with users none = none
user_with users (some id) = users id

module _ (verify : String → Option String) (users : String → Option User) where
  -- The loop over the sources; a token that fails, or whose user is gone, is passed over.
  unfoldable pub first_user : List String → Option User
  first_user [] = none
  first_user (token ∷ tokens) =
      let later = first_user tokens in
      elim (user_with users (verify token)) [ none ↦ later | some user ↦ some user ]

  abbrev pub identity_or_anonymous : String → Option User → SocketIdentity
  identity_or_anonymous socket_id none = anonymous socket_id
  identity_or_anonymous socket_id (some user) = identity_of user

  unfoldable pub resolve_socket_identity : Handshake → SocketIdentity
  unfolding token_sources first_user
  resolve_socket_identity h = identity_or_anonymous h.socket_id (first_user (token_sources h))

-- LINK_SHARE_TOKEN_PATTERN.
abbrev pub is_lower_hex : ℕ → Bool
is_lower_hex c = between 48 57 c || between 97 102 c

unfoldable pub is_valid_link_share_token : Option String → Bool
unfolding code_units
is_valid_link_share_token none = false
is_valid_link_share_token (some t) =
    eqb (length (code_units t)) 48 && all is_lower_hex (code_units t)

abbrev pub cookie_tokens : List (String × String) → List String → List String
cookie_tokens cookies [] = []
cookie_tokens cookies (name ∷ names) = present (get name cookies) ++ cookie_tokens cookies names

unfoldable pub gate_candidates : Handshake → List String
unfolding get strip_prefix
gate_candidates h =
    present h.auth_token
    ++ (present (bearer_token h) ++ cookie_tokens h.cookies access_token_cookie_names)

abbrev pub is_verified : (String → Option String) → String → Bool
is_verified verify token = is_some (verify token)

-- The gate of `io.use`: whether the connection goes on.
unfoldable pub admits_handshake : (String → Option String) → Handshake → Bool
unfolding gate_candidates is_valid_link_share_token
admits_handshake verify h =
    any (is_verified verify) (gate_candidates h)
    || is_valid_link_share_token (or_else h.query_share_token h.auth_share_token)
