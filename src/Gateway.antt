-- ===== src/Gateway.antt =====
-- gateway/handlers/ProxyHandler.cpp: a request goes to the upstream whose prefix begins its path, over
-- an idle connection of its pool or a fresh one. A socket stands for the number that tells it from
-- the others; the network, and what other requests do to the pools meanwhile, are a parameter. The
-- order in which the unordered map is walked is that of the list.
pub mod Attempts
pub mod Exchanges
pub mod Ownership
use liquid_pet_project.Prelude.{
  ℕ, Bool, true, false, ◌&&◌, Option, none, some, List, [], ◌∷◌, ◌++◌, String, if◌then◌else◌,
  characters, starts_with, Eq, ◌==◌, eq_string,
}
use liquid_pet_project.Prelude.Dict.{Dict, lookup, insert}
use liquid_pet_project.Models.Host.{UpstreamConfiguration}
use liquid_pet_project.Http.{
  Method, eq_method, unknown, Request, Response, BeastRequest, BeastResponse, to_beast_request,
  to_http_response, not_found, method_not_allowed, bad_gateway,
}

-- The idle sockets of each upstream, the last one on top.
abbrev pub Pools : Type 0
Pools = Dict String (List ℕ)

-- The constructor: an empty pool for each upstream.
unfoldable pub new_pools : Dict String UpstreamConfiguration → Pools
new_pools [] = []
new_pools ((prefix, config) ∷ rest) = (prefix, []) ∷ new_pools rest

-- A pool is a vector: here the head of the list is its back. `at` does not fail, since every upstream
-- has a pool; a missing one counts as empty.
unfoldable pub idle : String → Pools → List ℕ
unfolding lookup
idle prefix pools = elim (lookup prefix pools) [ none ↦ [] | some sockets ↦ sockets ]

unfoldable pub acquire_from : String → List ℕ → Pools → Option ℕ × Pools
unfolding insert
acquire_from prefix [] pools = (none, pools)
acquire_from prefix (socket ∷ rest) pools = (some socket, insert prefix rest pools)

unfoldable pub acquire_pooled_socket : String → Pools → Option ℕ × Pools
unfolding idle acquire_from
acquire_pooled_socket prefix pools = acquire_from prefix (idle prefix pools) pools

unfoldable pub release_socket_if_reusable : String → ℕ → Bool → BeastResponse → Pools → Pools
unfolding idle insert
release_socket_if_reusable prefix socket is_open response pools =
    if response.keep_alive && is_open
    then insert prefix (socket ∷ idle prefix pools) pools
    else pools

pub record Network : Type 1 where
  pub World : Type 0
  -- resolve and connect, where none is a system_error
  pub open_socket : World → UpstreamConfiguration → Option ℕ × World
  -- async_write and async_read, where none is a system_error
  pub exchange : World → ℕ → BeastRequest → Option BeastResponse × World
  pub is_open : World → ℕ → Bool
  -- what other requests do to the pools, before the mutex is taken
  pub others : World → Pools → Pools × World

-- The steps of a request, in order.
pub data Action : Type 0 where
  takes : ℕ → Action
  opens : ℕ → Action
  open_fails : Action
  exchanges : ℕ → BeastRequest → Option BeastResponse → Action

-- The request as `exchange` sends it.
unfoldable pub upstream_request : Request → String → BeastRequest
unfolding to_beast_request insert
upstream_request request host =
    let message = to_beast_request request in
    record message { fields = insert "Host" host message.fields; keep_alive = true }

module _ (n : Network) where
  open n use {World, open_socket, exchange, is_open, others}

  pub record State : Type 0 where
    pub pools : Pools
    pub world : World

  -- A response, or none where the loop goes on to its next attempt.
  abbrev pub Attempt : Type 0
  Attempt = Option Response × (State × List Action)

  -- After an exchange that succeeded.
  unfoldable pub finish : String → ℕ → BeastResponse → State → Option Response × State
  unfolding release_socket_if_reusable to_http_response
  finish prefix socket response s =
      let (pools, w) = others s.world s.pools in
      (
        some (to_http_response response),
        record {
          pools = release_socket_if_reusable prefix socket (is_open s.world socket) response pools;
          world = w;
        },
      )

  -- The exchange on a socket, and what follows it.
  unfoldable pub after_exchange :
      String → ℕ → Bool → BeastRequest → Option BeastResponse × World → Pools → Attempt
  unfolding finish
  after_exchange prefix socket used_pooled message (some response, w) pools =
      let (result, s) = finish prefix socket response (record { pools = pools; world = w }) in
      (result, (s, exchanges socket message (some response) ∷ []))
  after_exchange prefix socket used_pooled message (none, w) pools = (
    if used_pooled then none else some (record { status = bad_gateway; body = "" }),
    (record { pools = pools; world = w }, exchanges socket message none ∷ []),
  )

  unfoldable pub exchange_on : String → ℕ → Bool → BeastRequest → State → Attempt
  unfolding after_exchange
  exchange_on prefix socket used_pooled message s =
      after_exchange prefix socket used_pooled message (exchange s.world socket message) s.pools

  unfoldable pub with_opened : String → BeastRequest → Option ℕ × World → Pools → Attempt
  unfolding exchange_on
  with_opened prefix message (none, w) pools = (
    some (record { status = bad_gateway; body = "" }),
    (record { pools = pools; world = w }, open_fails ∷ []),
  )
  with_opened prefix message (some socket, w) pools =
      let (result, (s, actions)) =
        exchange_on prefix socket false message (record { pools = pools; world = w }) in
      (result, (s, opens socket ∷ actions))

  -- An attempt on a fresh connection.
  unfoldable pub attempt_fresh : String → UpstreamConfiguration → BeastRequest → State → Attempt
  unfolding with_opened
  attempt_fresh prefix config message s =
      with_opened prefix message (open_socket s.world config) s.pools

  unfoldable pub with_pooled :
      String → UpstreamConfiguration → BeastRequest → Option ℕ × Pools → World → Attempt
  unfolding attempt_fresh exchange_on
  with_pooled prefix config message (none, pools) w =
      attempt_fresh prefix config message (record { pools = pools; world = w })
  with_pooled prefix config message (some socket, pools) w =
      let (result, (s, actions)) =
        exchange_on prefix socket true message (record { pools = pools; world = w }) in
      (result, (s, takes socket ∷ actions))

  -- The first attempt of the loop: a pooled socket, if there is one.
  unfoldable pub attempt_pooled : String → UpstreamConfiguration → BeastRequest → State → Attempt
  unfolding with_pooled acquire_pooled_socket
  attempt_pooled prefix config message s =
      let (pools, w) = others s.world s.pools in
      with_pooled prefix config message (acquire_pooled_socket prefix pools) w

  -- The loop over the attempts, and the answer after it.
  abbrev pub or_bad_gateway : Option Response → Response
  or_bad_gateway none = record { status = bad_gateway; body = "" }
  or_bad_gateway (some response) = response

  unfoldable pub after_first :
      String → UpstreamConfiguration → BeastRequest → Attempt → Response × (State × List Action)
  unfolding attempt_fresh
  after_first prefix config message (some response, rest) = (response, rest)
  after_first prefix config message (none, (s, actions)) =
      let (result, (s', more)) = attempt_fresh prefix config message s in
      (or_bad_gateway result, (s', actions ++ more))

  unfoldable pub forward :
      String → UpstreamConfiguration → Request → State → Response × (State × List Action)
  unfolding after_first attempt_pooled upstream_request
  forward prefix config request s =
      let message = upstream_request request config.host.value in
      after_first prefix config message (attempt_pooled prefix config message s)

  -- The loop over the upstreams.
  unfoldable pub forward_to :
      Dict String UpstreamConfiguration → Request → State → Response × (State × List Action)
  unfolding forward
  forward_to [] request s = (record { status = not_found; body = "" }, (s, []))
  forward_to ((prefix, config) ∷ rest) request s =
      let next = forward_to rest request s in
      if starts_with (characters request.path) (characters prefix)
      then forward prefix config request s
      else next

  unfoldable pub handle :
      Dict String UpstreamConfiguration → Request → State → Response × (State × List Action)
  unfolding forward_to
  handle services request s =
      if request.method == unknown
      then (record { status = method_not_allowed; body = "" }, (s, []))
      else forward_to services request s
