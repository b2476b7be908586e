-- ===== src/Gateway/Attempts.antt =====
-- How a request is answered by one upstream (gateway/handlers/ProxyHandler.cpp, the loop over the
-- attempts of `handle`).
use mathlib.Core.Path.{subst}
use liquid_pet_project.Prelude.{
  ℕ, ◌≡◌, ◌⊎◌, refl, sym, ap, inl, inr, Bool, true, false, Option, none, some, List, [], ◌∷◌, ◌++◌,
  String, if◌then◌else◌, Bool-cases, eq_string,
}
use liquid_pet_project.Prelude.Dict.{insert}
use liquid_pet_project.Models.Host.{UpstreamConfiguration}
use liquid_pet_project.Http.{
  eq_method, Request, Response, BeastRequest, BeastResponse, to_http_response, bad_gateway,
}
use liquid_pet_project.Gateway.{
  Pools, Network, Action, takes, opens, open_fails, exchanges, idle, release_socket_if_reusable,
  acquire_from, State, upstream_request, acquire_pooled_socket, finish, after_exchange, exchange_on,
  with_opened, attempt_fresh, with_pooled, attempt_pooled, after_first, forward, Attempt,
  or_bad_gateway,
}

abbrev pub refused : Response
refused = record { status = bad_gateway; body = "" }

module _ (n : Network) where
  open n use {World, open_socket, exchange, is_open, others}

  -- A state after the other requests have done to the pools what they do.
  abbrev pub meanwhile : World → Pools → State n
  meanwhile w pools = record { pools = (others w pools).0; world = (others w pools).1 }

  -- The state that a request finds when it looks for an idle connection.
  abbrev pub begins : State n → State n
  begins s = meanwhile s.world s.pools

  -- A state with these idle connections of an upstream.
  abbrev pub with_idle : String → List ℕ → State n → State n
  with_idle prefix sockets s = record s { pools = insert prefix sockets s.pools }

  module _ (prefix : String) (config : UpstreamConfiguration) (m : BeastRequest) where
    -- An exchange from a state that succeeds: its response is the answer. The socket goes on top of the
    -- idle ones of the upstream if the response keeps the connection and the socket is open, and
    -- otherwise the pools are what the other requests made of them.
    pub data Done (s : State n) (socket : ℕ) (final : State n) (actions : List Action)
        (answer : Response) : Type 0 where
      dropped :
          (r : BeastResponse) (w : World)
          → exchange s.world socket m ≡ (some r, w)
          → (r.keep_alive ≡ false) ⊎ (is_open w socket ≡ false)
          → answer ≡ to_http_response r
          → actions ≡ exchanges socket m (some r) ∷ []
          → final ≡ meanwhile w s.pools
          → Done s socket final actions answer
      kept :
          (r : BeastResponse) (w : World)
          → exchange s.world socket m ≡ (some r, w)
          → r.keep_alive ≡ true
          → is_open w socket ≡ true
          → answer ≡ to_http_response r
          → actions ≡ exchanges socket m (some r) ∷ []
          → final
            ≡ with_idle prefix
                (socket ∷ idle prefix (meanwhile w s.pools).pools)
                (meanwhile w s.pools)
          → Done s socket final actions answer

    -- An attempt on a fresh connection, which is the last one.
    pub data Fresh (s : State n) (final : State n) (actions : List Action) (answer : Response)
        : Type 0 where
      no_connection :
          (w : World)
          → open_socket s.world config ≡ (none, w)
          → answer ≡ refused
          → actions ≡ open_fails ∷ []
          → final ≡ record s { world = w }
          → Fresh s final actions answer
      lost :
          (socket : ℕ) (w w' : World)
          → open_socket s.world config ≡ (some socket, w)
          → exchange w socket m ≡ (none, w')
          → answer ≡ refused
          → actions ≡ opens socket ∷ exchanges socket m none ∷ []
          → final ≡ record s { world = w' }
          → Fresh s final actions answer
      done :
          (socket : ℕ) (w : World) (rest : List Action)
          → open_socket s.world config ≡ (some socket, w)
          → actions ≡ opens socket ∷ rest
          → Done (record s { world = w }) socket final rest answer
          → Fresh s final actions answer

    -- A request to an upstream: over a fresh connection if none is idle, and otherwise over the idle
    -- one on top, which leaves the pool; or over a fresh one after that one has failed.
    pub data Proxied (s : State n) (final : State n) (actions : List Action) (answer : Response)
        : Type 0 where
      fresh :
          idle prefix (begins s).pools ≡ []
          → Fresh (begins s) final actions answer
          → Proxied s final actions answer
      pooled :
          (socket : ℕ) (others_idle : List ℕ) (rest : List Action)
          → idle prefix (begins s).pools ≡ socket ∷ others_idle
          → actions ≡ takes socket ∷ rest
          → Done (with_idle prefix others_idle (begins s)) socket final rest answer
          → Proxied s final actions answer
      retried :
          (socket : ℕ) (others_idle : List ℕ) (w : World) (rest : List Action)
          → idle prefix (begins s).pools ≡ socket ∷ others_idle
          → exchange (begins s).world socket m ≡ (none, w)
          → actions ≡ takes socket ∷ exchanges socket m none ∷ rest
          → Fresh (record (with_idle prefix others_idle (begins s)) { world = w }) final rest answer
          → Proxied s final actions answer

    -- An exchange on a socket succeeds, or it fails: then there is no answer yet if the socket was
    -- pooled, and 502 if it was not.
    abbrev Exchanged : State n → ℕ → Bool → Attempt n → Type 0
    Exchanged s socket used_pooled a =
        ((answer : Response) × (a.0 ≡ some answer) × Done s socket a.1.0 a.1.1 answer)
        ⊎ ((w : World) × (exchange s.world socket m ≡ (none, w))
            × (a.0 ≡ (if used_pooled then none else some refused))
            × (a.1.1 ≡ exchanges socket m none ∷ [])
            × (a.1.0 ≡ record s { world = w }))

    finish-Done :
        (s : State n) (socket : ℕ) (r : BeastResponse) (w : World)
        → exchange s.world socket m ≡ (some r, w)
        → Done s socket
            (finish n prefix socket r (record s { world = w })).1
            (exchanges socket m (some r) ∷ [])
            (to_http_response r)
    unfolding finish release_socket_if_reusable
    finish-Done s socket r w e = elim (Bool-cases r.keep_alive) [
      | inr closed ↦ dropped r w e (inl closed) refl refl (rw closed refl)
      | inl keeps ↦ elim (Bool-cases (is_open w socket)) [
        | inr closed ↦ dropped r w e (inr closed) refl refl (rw (keeps, closed) refl)
        | inl opened ↦ kept r w e keeps opened refl refl (rw (keeps, opened) refl)
      ]
    ]

    after_exchange-Exchanged :
        (s : State n) (socket : ℕ) (used_pooled : Bool) (result : Option BeastResponse × World)
        → exchange s.world socket m ≡ result
        → Exchanged s socket used_pooled
            (after_exchange n prefix socket used_pooled m result s.pools)
    unfolding after_exchange finish
    after_exchange-Exchanged s socket used_pooled (some r, w) e =
        inl (to_http_response r, refl, finish-Done s socket r w e)
    after_exchange-Exchanged s socket used_pooled (none, w) e = inr (w, e, refl, refl, refl)

    -- An attempt on a fresh connection always gives an answer.
    abbrev AnsweredFresh : State n → Attempt n → Type 0
    AnsweredFresh s a = (answer : Response) × (a.0 ≡ some answer) × Fresh s a.1.0 a.1.1 answer

    opened-Fresh :
        (s : State n) (socket : ℕ) (w : World) (a : Attempt n)
        → open_socket s.world config ≡ (some socket, w)
        → Exchanged (record s { world = w }) socket false a
        → AnsweredFresh s (a.0, (a.1.0, opens socket ∷ a.1.1))
    opened-Fresh s socket w a o (inl (answer, e, d)) = (answer, e, done socket w a.1.1 o refl d)
    opened-Fresh s socket w a o (inr (w', x, e, acts, same)) =
        (refused, e, lost socket w w' o x refl (ap (λ l. opens socket ∷ l) acts) same)

    with_opened-Fresh :
        (s : State n) (result : Option ℕ × World)
        → open_socket s.world config ≡ result
        → AnsweredFresh s (with_opened n prefix m result s.pools)
    unfolding with_opened exchange_on
    with_opened-Fresh s (none, w) o = (refused, refl, no_connection w o refl refl refl)
    with_opened-Fresh s (some socket, w) o =
        opened-Fresh s socket w (exchange_on n prefix socket false m (record s { world = w })) o (
          after_exchange-Exchanged (record s { world = w }) socket false (exchange w socket m) refl)

    attempt_fresh-Fresh : (s : State n) → AnsweredFresh s (attempt_fresh n prefix config m s)
    unfolding attempt_fresh
    attempt_fresh-Fresh s = with_opened-Fresh s (open_socket s.world config) refl

    -- The first attempt gives an answer, or it has lost a pooled socket.
    abbrev FirstAttempt : State n → Attempt n → Type 0
    FirstAttempt s a =
        ((answer : Response) × (a.0 ≡ some answer) × Proxied s a.1.0 a.1.1 answer)
        ⊎ ((socket : ℕ) × (others_idle : List ℕ) × (w : World) × (idle prefix (begins s).pools
              ≡ socket ∷ others_idle)
            × (exchange (begins s).world socket m ≡ (none, w))
            × (a.0 ≡ none)
            × (a.1.1 ≡ takes socket ∷ exchanges socket m none ∷ [])
            × (a.1.0 ≡ record (with_idle prefix others_idle (begins s)) { world = w }))

    taken-FirstAttempt :
        (s : State n) (socket : ℕ) (others_idle : List ℕ) (a : Attempt n)
        → idle prefix (begins s).pools ≡ socket ∷ others_idle
        → Exchanged (with_idle prefix others_idle (begins s)) socket true a
        → FirstAttempt s (a.0, (a.1.0, takes socket ∷ a.1.1))
    taken-FirstAttempt s socket others_idle a top (inl (answer, e, d)) =
        inl (answer, e, pooled socket others_idle a.1.1 top refl d)
    taken-FirstAttempt s socket others_idle a top (inr (w, x, e, acts, same)) =
        inr (socket, others_idle, w, top, x, e, ap (λ l. takes socket ∷ l) acts, same)

    acquired-FirstAttempt :
        (s : State n) (sockets : List ℕ)
        → idle prefix (begins s).pools ≡ sockets
        → FirstAttempt s (
            with_pooled n prefix config m
              (acquire_from prefix sockets (begins s).pools)
              (begins s).world)
    unfolding with_pooled exchange_on acquire_from
    acquired-FirstAttempt s [] top =
        let (answer, e, f) = attempt_fresh-Fresh (begins s) in inl (answer, e, fresh top f)
    acquired-FirstAttempt s (socket ∷ others_idle) top =
        let start = with_idle prefix others_idle (begins s) in
        taken-FirstAttempt s socket others_idle (exchange_on n prefix socket true m start) top
          (after_exchange-Exchanged start socket true (exchange start.world socket m) refl)

    some_injective : (a b : Response) → some a ≡ some b → a ≡ b
    some_injective a b h = cc

    after_first-Proxied :
        (s : State n) (a : Attempt n)
        → FirstAttempt s a
        → Proxied s
            (after_first n prefix config m a).1.0
            (after_first n prefix config m a).1.1
            (after_first n prefix config m a).0
    unfolding after_first
    after_first-Proxied s (some x, (final, actions)) (inl (answer, e, p)) =
        subst (Proxied s final actions) (sym (some_injective x answer e)) p
    after_first-Proxied s (some x, (final, actions))
          (inr (socket, others_idle, w, top, x', e, acts, same)) =
        cc e
    after_first-Proxied s (none, (final, actions)) (inl (answer, e, p)) = cc e
    after_first-Proxied s (none, (final, actions))
          (inr (socket, others_idle, w, top, x, e, acts, same)) =
        let (answer, e', f) = attempt_fresh-Fresh final in
        let second = attempt_fresh n prefix config m final in
        subst (λ o. Proxied s second.1.0 (actions ++ second.1.1) (or_bad_gateway n o)) (sym e')
          (retried socket others_idle w second.1.1 top x (ap (λ l. l ++ second.1.1) acts)
            (subst (λ t. Fresh t second.1.0 second.1.1 answer) same f))

    attempt-Proxied :
        (s : State n)
        → let result = after_first n prefix config m (attempt_pooled n prefix config m s) in
          Proxied s result.1.0 result.1.1 result.0
    unfolding attempt_pooled acquire_pooled_socket
    attempt-Proxied s =
        after_first-Proxied s (attempt_pooled n prefix config m s)
          (acquired-FirstAttempt s (idle prefix (begins s).pools) refl)

  pub forward-Proxied :
      (prefix : String) (config : UpstreamConfiguration) (request : Request) (s : State n)
      → let result = forward n prefix config request s in
        Proxied prefix config
          (upstream_request request config.host.value)
          s
          result.1.0
          result.1.1
          result.0
  unfolding forward
  forward-Proxied prefix config request s =
      attempt-Proxied prefix config (upstream_request request config.host.value) s
