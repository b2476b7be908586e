-- ===== src/Examples/Serving.antt =====
-- The HTTP server and the proxy (shared/http, gateway/handlers) on a few requests.
use liquid_pet_project.Prelude.{
  ℕ, ◌+◌, ◌≤◌, ◌≡◌, ◌≢◌, ◌⊎◌, refl, Bool, true, false, Option, none, some, List, [], ◌∷◌, All,
  String, if◌then◌else◌, eqb,
}
use liquid_pet_project.Prelude.Dict.{Dict}
use liquid_pet_project.Models.Host.{UpstreamConfiguration}
use liquid_pet_project.Http.{
  method_beq, get, post, unknown, Request, verb_get, BeastRequest, BeastResponse, Route, Connection,
  answers, throws, handle_request, session, to_http_request, method_not_allowed,
}
use liquid_pet_project.Http.Routing.{Routed, handle_request-Routed}
use liquid_pet_project.Http.Sessions.{Answered, KeptAlive, session_exchanges}
use liquid_pet_project.Gateway
use liquid_pet_project.Gateway.{Network, State, handle, new_pools, acquire_pooled_socket}
use liquid_pet_project.Gateway.Exchanges.{Forwarded, request_proxied}
use liquid_pet_project.Gateway.Ownership.{
  Held, Reach, here, next, connects, returns, idle_count, count, sockets_owned_once,
}

-- Two requests arrive and then the client closes; handler 0 answers, every other one throws.
abbrev asks : Bool → String → BeastRequest
asks keep_alive target = record {
  verb = verb_get;
  target = target;
  body = "";
  version = 11;
  keep_alive = keep_alive;
  fields = [];
}

abbrev next_of : List BeastRequest → Option BeastRequest × List BeastRequest
next_of [] = (none, [])
next_of (r ∷ rs) = (some r, rs)

abbrev connection : Connection
connection = record {
  World = List BeastRequest;
  Handler = ℕ;
  handle = λ w h request.
      (if eqb h 0 then answers (record { status = 200; body = "{}" }) else throws, w);
  read = next_of;
  write = λ w response. (true, w);
}

abbrev routes : List (Route ℕ)
routes =
    record { method = get; path_prefix = "/health"; handler = 0 }
    ∷ record { method = get; path_prefix = "/orders"; handler = 1 }
    ∷ []

abbrev arriving : List BeastRequest
arriving = asks true "/health" ∷ asks false "/orders/7" ∷ asks true "/health" ∷ []

handle_request-Routed_example :
    Routed connection routes
      (to_http_request (asks true "/orders/7"))
      arriving
      (handle_request connection routes (asks true "/orders/7") arriving)
handle_request-Routed_example =
    handle_request-Routed connection routes (asks true "/orders/7") arriving

session_exchanges_example :
    All (Answered connection routes) (session connection 5 routes arriving).0
    × KeptAlive (session connection 5 routes arriving).0
session_exchanges_example = session_exchanges connection 5 routes arriving

abbrev placed : Request
placed = record { method = post; path = "/orders"; body = "{}" }

-- An upstream that has closed connection 7; connection 8 is made.
abbrev network : Network
network = record {
  World = ℕ;
  open_socket = λ w config. (some 8, w + 1);
  exchange = λ w socket message. (
    if eqb socket 7
        then none
        else some (record { result = 201; body = "{}"; version = 11; keep_alive = true }),
    w + 1,
  );
  is_open = λ w socket. true;
  others = λ w pools. (pools, w);
}

abbrev services : Dict String UpstreamConfiguration
services = ("/orders", record { host = record { value = "order-service" }; port = 8080 }) ∷ []

abbrev stale_pool : State network
stale_pool = record { pools = ("/orders", 7 ∷ []) ∷ []; world = 0 }

request_proxied_example :
    ((placed.method ≡ unknown)
      × (handle network services placed stale_pool
          ≡ (record { status = method_not_allowed; body = "" }, (stale_pool, []))))
    ⊎ ((placed.method ≢ unknown)
        × Forwarded network services placed stale_pool (handle network services placed stale_pool))
request_proxied_example = request_proxied network services placed stale_pool

-- After the retry the fresh connection is the idle one.
fresh_one_kept : (handle network services placed stale_pool).1.0.pools ≡ ("/orders", 8 ∷ []) ∷ []
unfolding handle method_beq
fresh_one_kept = refl

abbrev one_busy : Held
one_busy = record { pools = new_pools services; busy = 8 ∷ [] }

abbrev response : BeastResponse
response = record { result = 201; body = "{}"; version = 11; keep_alive = true }

abbrev one_idle : Held
one_idle = record {
  pools = Gateway.release_socket_if_reusable "/orders" 8 true response (new_pools services);
  busy = [];
}

used_once : Reach (record { pools = new_pools services; busy = [] }) one_idle
unfolding new_pools
used_once =
    next (next here (connects (record { pools = new_pools services; busy = [] }) 8 refl refl))
      (returns one_busy "/orders" 8 true response [] [] refl)

sockets_owned_once_example : idle_count 8 one_idle.pools + count 8 one_idle.busy ≤ 1
sockets_owned_once_example = sockets_owned_once services used_once 8
