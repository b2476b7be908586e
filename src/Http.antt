-- ===== src/Http.antt =====
-- shared/models/HttpMessage.h and shared/http: messages, their conversion (HttpMessageConverter.cpp),
-- routes (Route.h) and what the server does with a connection (HttpServer.cpp). Boost.Beast, the
-- sockets and the handlers are parameters; the content length that `prepare_payload` sets is not
-- modelled.
pub mod Routing
pub mod Sessions
use liquid_pet_project.Prelude.{
  ℕ, zero, suc, ◌%◌, ◌^◌, ◌≡◌, ◌↔◌, refl, arith, Bool, true, false, ◌&&◌, Option, none, some, List,
  [], ◌∷◌, String, if◌then◌else◌, Eq, ◌==◌, eq_string, characters, starts_with,
}
use liquid_pet_project.Prelude.Dict.{Dict, insert}

pub data Method : Type 0 where
  get post unknown : Method

unfoldable pub method_beq : Method → Method → Bool
method_beq get get = true
method_beq post post = true
method_beq unknown unknown = true
method_beq _ _ = false

pub method_beq_iff : (a b : Method) → (method_beq a b ≡ true) ↔ (a ≡ b)
unfolding method_beq
method_beq_iff get get = (λ h. refl, λ h. refl)
method_beq_iff post post = (λ h. refl, λ h. refl)
method_beq_iff unknown unknown = (λ h. refl, λ h. refl)
method_beq_iff _ _ = (λ h. cc, λ h. cc)

instance abbrev pub eq_method : Eq Method
eq_method = record { same = method_beq; same_iff = method_beq_iff }

-- An enum with an underlying uint16_t, which also holds values that have no name.
abbrev pub Status : Type 0
Status = ℕ

abbrev pub not_found : Status
not_found = 404

abbrev pub method_not_allowed : Status
method_not_allowed = 405

abbrev pub internal_server_error : Status
internal_server_error = 500

abbrev pub bad_gateway : Status
bad_gateway = 502

pub record Request : Type 0 where
  pub method : Method
  pub path : String
  pub body : String

pub record Response : Type 0 where
  pub status : Status
  pub body : String

-- boost::beast::http::verb: the two that the program names, `unknown`, and the others.
pub data Verb : Type 0 where
  verb_get verb_post verb_unknown : Verb
  verb_other : String → Verb

-- A request and a response of Beast; `fields` are the headers that the program sets.
pub record BeastRequest : Type 0 where
  pub verb : Verb
  pub target : String
  pub body : String
  pub version : ℕ
  pub keep_alive : Bool
  pub fields : Dict String String

pub record BeastResponse : Type 0 where
  pub result : ℕ
  pub body : String
  pub version : ℕ
  pub keep_alive : Bool

unfoldable pub to_verb : Method → Verb
to_verb get = verb_get
to_verb post = verb_post
to_verb unknown = verb_unknown

unfoldable pub to_http_method : Verb → Method
to_http_method verb_get = get
to_http_method verb_post = post
to_http_method verb_unknown = unknown
to_http_method (verb_other name) = unknown

unfoldable pub to_http_request : BeastRequest → Request
unfolding to_http_method
to_http_request r = record { method = to_http_method r.verb; path = r.target; body = r.body }

-- A message is made with version 1.1.
unfoldable pub to_beast_response : Response → BeastResponse
to_beast_response r = record { result = r.status; body = r.body; version = 11; keep_alive = false }

unfoldable pub to_beast_request : Request → BeastRequest
unfolding to_verb
to_beast_request r = record {
  verb = to_verb r.method;
  target = r.path;
  body = r.body;
  version = 11;
  keep_alive = true;
  fields = ("Content-Type", "application/json") ∷ [];
}

unfoldable pub to_http_response : BeastResponse → Response
to_http_response r = record { status = r.result % 2 ^ 16; body = r.body }

module _ (H : Type 0) where
  pub record Route : Type 0 where
    pub method : Method
    pub path_prefix : String
    pub handler : H

  -- The test in `findHandler`.
  unfoldable pub accepts : Route → Method → String → Bool
  accepts r method path =
      (r.method == method) && starts_with (characters path) (characters r.path_prefix)

  unfoldable pub find_handler : List Route → Method → String → Option H
  unfolding accepts
  find_handler [] method path = none
  find_handler (r ∷ rs) method path =
      let rest = find_handler rs method path in
      if accepts r method path then some r.handler else rest

-- What a handler does: it answers or throws.
pub data Handled : Type 0 where
  answers : Response → Handled
  throws : Handled

-- The surroundings of a server: its handlers, and the connection.
pub record Connection : Type 1 where
  pub World : Type 0
  pub Handler : Type 0
  pub handle : World → Handler → Request → Handled × World
  -- async_read, where none is that it throws, and async_write, where false is that it throws
  pub read : World → Option BeastRequest × World
  pub write : World → BeastResponse → Bool × World

unfoldable pub response_of : Handled → Response
response_of (answers r) = r
response_of throws = record { status = internal_server_error; body = "internal server error" }

-- What `handleSession` changes in a response.
unfoldable pub with_session : BeastRequest → BeastResponse → BeastResponse
with_session request response = record response {
  version = request.version;
  keep_alive = request.keep_alive;
}

abbrev pub log_exchange :
    Option (BeastRequest × BeastResponse)
    → List (BeastRequest × BeastResponse)
    → List (BeastRequest × BeastResponse)
log_exchange none rest = rest
log_exchange (some x) rest = x ∷ rest

module _ (c : Connection) where
  open c use {World, Handler, handle, read, write}

  -- The part of `handleRequest` after the search for a handler.
  unfoldable pub respond : Option Handler → Request → World → BeastResponse × World
  unfolding to_beast_response response_of
  respond none request w = (to_beast_response (record { status = not_found; body = "" }), w)
  respond (some h) request w =
      let (handled, w') = handle w h request in (to_beast_response (response_of handled), w')

  unfoldable pub handle_request :
      List (Route Handler) → BeastRequest → World → BeastResponse × World
  unfolding to_http_request find_handler respond
  handle_request routes beast_request w =
      let request = to_http_request beast_request in
      respond (find_handler Handler routes request.method request.path) request w

  -- One round of the loop in `handleSession`, on what was read: the exchange that was completed, and
  -- whether the loop goes on.
  unfoldable pub serve :
      List (Route Handler)
      → Option BeastRequest
      → World
      → Option (BeastRequest × BeastResponse) × (Bool × World)
  unfolding handle_request with_session
  serve routes none w = (none, (false, w))
  serve routes (some request) w =
      let (handled, w1) = handle_request routes request w in
      let response = with_session request handled in
      let (written, w2) = write w1 response in
      if written then (some (request, response), (response.keep_alive, w2)) else (none, (false, w2))

  -- `handleSession`, for at most as many rounds as there is fuel: the exchanges, in order, and whether
  -- the session has ended.
  unfoldable pub session :
      ℕ → List (Route Handler) → World → List (BeastRequest × BeastResponse) × (Bool × World)
  unfolding serve
  session zero routes w = ([], (false, w))
  session (suc fuel) routes w =
      let (request, w1) = read w in
      let (exchange, (goes_on, w2)) = serve routes request w1 in
      let (exchanges, rest) = session fuel routes w2 in
      if goes_on
      then (log_exchange exchange exchanges, rest)
      else (log_exchange exchange [], (true, w2))
