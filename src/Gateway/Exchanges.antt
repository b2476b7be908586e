-- ===== src/Gateway/Exchanges.antt =====
-- How a request finds its upstream (gateway/handlers/ProxyHandler.cpp, `handle`).
use liquid_pet_project.Prelude.{
  ℕ, ◌≡◌, ◌≢◌, ◌⊎◌, ◌∙◌, refl, sym, ap, inl, inr, List, [], ◌∷◌, ◌++◌, String, Bool-cases, All,
  ◌==◌, characters, starts_with, starts_with_iff, eq_string,
}
use liquid_pet_project.Prelude.Dict.{Dict}
use liquid_pet_project.Models.Host.{UpstreamConfiguration}
use liquid_pet_project.Http.{
  eq_method, method_beq_iff, unknown, Request, Response, not_found, method_not_allowed,
}
use liquid_pet_project.Gateway.{Network, Action, State, upstream_request, forward_to, handle}
use liquid_pet_project.Gateway.Attempts.{Proxied, forward-Proxied}

module _ (n : Network) where
  open n use {World, open_socket, exchange, is_open, others}

  -- The prefix begins the path.
  abbrev pub Begins : Request → String × UpstreamConfiguration → Type 0
  Begins request (prefix, config) =
      (rest : List ℕ) × (characters request.path ≡ characters prefix ++ rest)

  -- The answer to a request: that of the first upstream whose prefix begins the path, or 404.
  abbrev pub Forwarded :
      Dict String UpstreamConfiguration
      → Request
      → State n
      → Response × (State n × List Action)
      → Type 0
  Forwarded services request s result =
      (All (λ u. Begins request u → ⊥) services
        × (result ≡ (record { status = not_found; body = "" }, (s, []))))
      ⊎ ((before : Dict String UpstreamConfiguration) × (prefix : String)
          × (config : UpstreamConfiguration) × (after : Dict String UpstreamConfiguration)
          × (services ≡ before ++ (prefix, config) ∷ after)
          × All (λ u. Begins request u → ⊥) before
          × Begins request (prefix, config)
          × Proxied n prefix config (upstream_request request config.host.value) s result.1.0
              result.1.1 result.0)

  Forwarded-later :
      (u : String × UpstreamConfiguration) (services : Dict String UpstreamConfiguration)
      (request : Request) (s : State n) (result : Response × (State n × List Action))
      → (Begins request u → ⊥)
      → Forwarded services request s result
      → Forwarded (u ∷ services) request s result
  Forwarded-later u services request s result misses (inl (none_fits, e)) =
      inl ((misses, none_fits), e)
  Forwarded-later u services request s result misses
        (inr (before, prefix, config, after, e, none_before, begins, p)) =
      inr (u ∷ before, prefix, config, after, ap (λ l. u ∷ l) e, (misses, none_before), begins, p)

  forward_to-Forwarded :
      (services : Dict String UpstreamConfiguration) (request : Request) (s : State n)
      → Forwarded services request s (forward_to n services request s)
  unfolding forward_to
  forward_to-Forwarded [] request s = inl (tt, refl)
  forward_to-Forwarded ((prefix, config) ∷ rest) request s =
      let iff = starts_with_iff (characters request.path) (characters prefix) in
      elim (Bool-cases (starts_with (characters request.path) (characters prefix))) [
        | inl begins ↦ rw begins (
            inr (
              [],
              prefix,
              config,
              rest,
              refl,
              tt,
              iff.0 begins,
              forward-Proxied n prefix config request s,
            ))
        | inr misses ↦ rw misses (
            Forwarded-later (prefix, config) rest request s (forward_to n rest request s)
              (λ b. cc (sym misses ∙ iff.1 b)) (forward_to-Forwarded rest request s))
      ]

  -- A request of an unknown method is answered with 405 and nothing else happens. Any other goes to
  -- the first upstream whose prefix begins its path, in the order of the map, or is answered with 404
  -- and nothing else happens if there is none. At that upstream there is one exchange, over the idle
  -- connection on top of the pool, which leaves it, or over a fresh one if none is idle; and a second
  -- one, over a fresh connection, only after one over a pooled connection has failed. The answer is the
  -- response of the exchange that succeeds, and otherwise 502. The socket of an exchange that succeeds
  -- goes on top of the idle ones exactly if the response keeps the connection and the socket is open;
  -- apart from that the pools are what other requests made of them.
  pub request_proxied :
      (services : Dict String UpstreamConfiguration) (request : Request) (s : State n)
      → ((request.method ≡ unknown)
          × (handle n services request s
              ≡ (record { status = method_not_allowed; body = "" }, (s, []))))
        ⊎ ((request.method ≢ unknown) × Forwarded services request s (handle n services request s))
  unfolding handle
  request_proxied services request s = elim (Bool-cases (request.method == unknown)) [
    | inl odd ↦ inl ((method_beq_iff request.method unknown).0 odd, rw odd)
    | inr known ↦ inr (
      λ e. cc (sym known ∙ (method_beq_iff request.method unknown).1 e),
      rw known (forward_to-Forwarded services request s),
    )
  ]
