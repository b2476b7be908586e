-- ===== src/Http/Sessions.antt =====
-- A connection over its whole life (shared/http/HttpServer.cpp, `handleSession`).
use liquid_pet_project.Prelude.{
  ℕ, zero, suc, ◌≡◌, sym, refl, inl, inr, Bool, true, false, Option, none, some, List, [], ◌∷◌,
  Bool-cases, All,
}
use liquid_pet_project.Http.{
  Connection, Route, BeastRequest, BeastResponse, handle_request, with_session, serve, session,
  to_http_request, log_exchange,
}
use liquid_pet_project.Http.Routing.{Routed, handle_request-Routed}

-- After a request that does not keep the connection there is no other.
abbrev pub KeptAlive : List (BeastRequest × BeastResponse) → Type 0
KeptAlive [] = Unit
KeptAlive (x ∷ []) = Unit
KeptAlive (x ∷ y ∷ rest) = (x.0.keep_alive ≡ true) × KeptAlive (y ∷ rest)

KeptAlive-more :
    (x : BeastRequest × BeastResponse) (rest : List (BeastRequest × BeastResponse))
    → x.0.keep_alive ≡ true
    → KeptAlive rest
    → KeptAlive (x ∷ rest)
KeptAlive-more x [] h k = tt
KeptAlive-more x (y ∷ rest) h k = (h, k)

module _ (c : Connection) where
  open c use {World, Handler, read, write}

  -- An exchange: the response has the version and the keep-alive of the request, and for the rest is
  -- what the routes give.
  abbrev pub Answered : List (Route Handler) → BeastRequest × BeastResponse → Type 0
  Answered routes (request, response) =
      (response.version ≡ request.version)
      × (response.keep_alive ≡ request.keep_alive)
      × ((w : World) × (result : BeastResponse × World) × Routed c routes (to_http_request request)
            w result
          × (response.result ≡ result.0.result)
          × (response.body ≡ result.0.body))

  -- What a round came to: an exchange, and then the loop goes on if the request keeps the connection;
  -- or none, and then it does not go on.
  abbrev Served : List (Route Handler) → Option (BeastRequest × BeastResponse) → Bool → Type 0
  Served routes none goes_on = goes_on ≡ false
  Served routes (some x) goes_on = Answered routes x × (goes_on ≡ x.0.keep_alive)

  serve-Served :
      (routes : List (Route Handler)) (r : Option BeastRequest) (w : World)
      → Served routes (serve c routes r w).0 (serve c routes r w).1.0
  unfolding serve with_session
  serve-Served routes none w = refl
  serve-Served routes (some request) w =
      let result : BeastResponse × World = handle_request c routes request w in
      elim (Bool-cases (write result.1 (with_session request result.0)).0) [
        | inl written ↦
            rw written (
              (refl, refl, (w, result, handle_request-Routed c routes request w, refl, refl)),
              refl,
            )
        | inr lost ↦ rw lost refl
      ]

  abbrev Exchanged : List (Route Handler) → List (BeastRequest × BeastResponse) → Type 0
  Exchanged routes log = All (Answered routes) log × KeptAlive log

  more-Exchanged :
      (routes : List (Route Handler)) (o : Option (BeastRequest × BeastResponse))
      (log : List (BeastRequest × BeastResponse))
      → Served routes o true
      → Exchanged routes log
      → Exchanged routes (log_exchange o log)
  more-Exchanged routes none log s e = cc
  more-Exchanged routes (some x) log s e = ((s.0, e.0), KeptAlive-more x log (sym s.1) e.1)

  last-Exchanged :
      (routes : List (Route Handler)) (o : Option (BeastRequest × BeastResponse)) (b : Bool)
      → Served routes o b
      → Exchanged routes (log_exchange o [])
  last-Exchanged routes none b s = (tt, tt)
  last-Exchanged routes (some x) b s = ((s.0, tt), tt)

  -- In every session each request that is answered gets one response, with the version and the
  -- keep-alive of the request and for the rest as the routes give it, and no request is answered after
  -- one that does not keep the connection.
  pub session_exchanges :
      (fuel : ℕ) (routes : List (Route Handler)) (w : World)
      → All (Answered routes) (session c fuel routes w).0 × KeptAlive (session c fuel routes w).0
  unfolding session
  session_exchanges zero routes w = (tt, tt)
  session_exchanges (suc fuel) routes w =
      let r = read w in
      let served = serve-Served routes r.0 r.1 in
      elim (Bool-cases (serve c routes r.0 r.1).1.0) [
        | inl on ↦ rw on (
            more-Exchanged routes (serve c routes r.0 r.1).0 _ (rw on at served)
              (session_exchanges fuel routes (serve c routes r.0 r.1).1.1))
        | inr off ↦ rw off (last-Exchanged routes (serve c routes r.0 r.1).0 _ served)
      ]
