-- ===== src/Realtime/Join/Denied.antt =====
-- handlers/join.handler.ts: a join without access shows nothing of the board.
use mathlib.Core.Path.{subst}
use notebortt_backend.Realtime.Parsing.{Received}
use notebortt_backend.Realtime.Identity.{SocketIdentity, resolve_socket_identity}
use notebortt_backend.Realtime.Session.{start_join_attempt, is_join_active}
use notebortt_backend.Realtime.Parsing.Payloads.{BoardJoinPayload, parse_board_join_payload}
use notebortt_backend.Realtime.Join.{World, JoinError, fails, invalid_join, no_access, JoinEffect}
use notebortt_backend.Common.{
  ℕ, ◌≡◌, ◌≡◌, ◌⊎◌, ◌⊎◌, ◌++◌, none, ◌∷◌, [], arith, Bool-cases, Option-cases, inl, inr, refl, suc,
  Option, some, ap, sym, List,
}
use notebortt_backend.Realtime.Join.Steps.{
  Setting, check_access, identify, authorize, access_for, start_join, ◌>>=◌, ◌>>=◌, Part, go_on,
  ◌>>◌, ◌>>◌,
}
use notebortt_backend.Realtime.Join.Complete.{join_board_run, prepare, complete}

-- What the others do leaves the effects of the connection alone.
abbrev pub AreQuiet : (ℕ → World → World) → Type 0
AreQuiet others = (k : ℕ) (w : World) → (others k w).effects ≡ w.effects

-- The effects are the same, or a refusal has been added.
abbrev pub IsRefusal : List JoinEffect → List JoinEffect → Type 0
IsRefusal es es' = (es' ≡ es) ⊎ ((e : JoinError) × (es' ≡ es ++ fails e ∷ []))

abbrev pub OnlyRefused : World → World → Type 0
OnlyRefused w w' = IsRefusal w.effects w'.effects

-- A part that stops stops what follows.
bind_stops :
    {A B : Type 0}
    → (m : Part A) (f : A → Part B) (w : World) → (m w).0 ≡ none
    → (m >>= f) w ≡ (none, (m w).1)
bind_stops m f w stopped = ap (λ o. go_on o f (m w).1) stopped

bind_goes_on :
    {A B : Type 0}
    → (m : Part A) (f : A → Part B) (w : World) (a : A) → (m w).0 ≡ some a
    → (m >>= f) w ≡ f a (m w).1
bind_goes_on m f w a known = ap (λ o. go_on o f (m w).1) known

abbrev Stopped : {A : Type 0} → World → Option A × World → Type 0
Stopped w r = (r.0 ≡ none) × OnlyRefused w r.1

-- The identity that a join has: the connection's, or the one that the handshake resolves to.
abbrev pub join_identity : Setting → World → SocketIdentity
join_identity g w = elim w.identity [
  | none ↦ resolve_socket_identity g.verify_token g.find_user g.socket
  | some identity ↦ identity
]

module _ (g : Setting) (others : ℕ → World → World) (quiet : AreQuiet others) where
  identify-effects : (attempt : ℕ) (w : World) → (identify g others attempt w).1.effects ≡ w.effects
  unfolding identify
  identify-effects attempt w = ground (arith, quiet 1 w)

  check_access-denied :
      (attempt : ℕ) (payload : BoardJoinPayload) (identity : SocketIdentity) (w : World)
      → access_for g others payload identity ≡ none
      → ((check_access g others attempt payload identity w).0 ≡ none)
        × OnlyRefused w (check_access g others attempt payload identity w).1
  unfolding check_access
  check_access-denied attempt payload identity w denied =
      elim (Bool-cases (is_join_active attempt (others 2 w).session)) [
        | inl on ↦ rw (on, denied) (refl, inr (no_access, rw (quiet 2 w) refl))
        | inr off ↦ rw off (refl, inl (quiet 2 w))
      ]

  identify-identity :
      (attempt : ℕ) (w : World) (identity : SocketIdentity)
      → (identify g others attempt w).0 ≡ some identity
      → identity ≡ join_identity g w
  unfolding identify
  identify-identity attempt w identity h = ground (arith, h)

  known-denied :
      (attempt : ℕ) (payload : BoardJoinPayload) (w : World)
      → access_for g others payload (join_identity g w) ≡ none
      → Stopped w ((identify g others attempt >>= check_access g others attempt payload) w)
  known-denied attempt payload w denied =
      let m = identify g others attempt in
      let f = check_access g others attempt payload in
      elim (Option-cases (m w).0) [
        | inl nobody ↦
            subst (Stopped w) (sym (bind_stops m f w nobody))
              (refl, inl (identify-effects attempt w))
        | inr (identity, known) ↦
            let (stopped, only) =
              check_access-denied attempt payload identity (m w).1
                (rw (identify-identity attempt w identity known) denied) in
            subst (Stopped w) (sym (bind_goes_on m f w identity known)) (
              stopped,
              subst (λ es. IsRefusal es (f identity (m w).1).1.effects) (identify-effects attempt w)
                  only,
            )
      ]

  authorize-denied :
      (received : Received) (w : World)
      → ((payload : BoardJoinPayload)
          → parse_board_join_payload received ≡ some payload
          → access_for g others payload (join_identity g w) ≡ none)
      → Stopped w (authorize g others received w)
  unfolding authorize start_join_attempt
  authorize-denied received w denied = elim (Option-cases (parse_board_join_payload received)) [
    | inl bad ↦ rw bad (refl, inr (invalid_join, refl))
    | inr (payload, good) ↦ rw good (
        known-denied (suc w.session.latest_join_attempt) payload (start_join w).1
          (denied payload good))
  ]

  -- A join whose identity has no access to the board that its payload names, by the token that it
  -- brings, sends and shows nothing of a board, to the socket or to others, whatever the others do
  -- meanwhile: at most it is answered by an error. The identity is the one that the connection has
  -- had before, or the one that its handshake resolves to; a malformed payload is refused too.
  pub join_board_run-OnlyRefused :
      (received : Received) (w : World)
      → ((payload : BoardJoinPayload)
          → parse_board_join_payload received ≡ some payload
          → access_for g others payload (join_identity g w) ≡ none)
      → OnlyRefused w (join_board_run g others received w).1
  unfolding join_board_run
  join_board_run-OnlyRefused received w denied =
      let (stopped, only) = authorize-denied received w denied in
      subst (λ r. OnlyRefused w r.1)
        (sym (
          bind_stops (authorize g others received) (λ e. prepare g others e >> complete g others e)
            w stopped))
        only
