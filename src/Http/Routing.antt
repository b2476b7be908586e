-- ===== src/Http/Routing.antt =====
-- Which handler answers a request (shared/http/HttpServer.cpp), and the conversion of messages
-- (HttpMessageConverter.cpp).
use liquid_pet_project.Prelude.{
  ℕ, ◌^◌, ◌<◌, ◌≡◌, ◌↔◌, ◌⊎◌, ◌∙◌, refl, sym, ap, inl, inr, arith, true, false, Option, none, some,
  List, [], ◌∷◌, ◌++◌, String, Bool-cases, All, characters, starts_with_iff,
}
use liquid_pet_project.Http.{
  Method, eq_method, method_beq_iff, Request, Response, Route, accepts, find_handler, BeastRequest,
  BeastResponse, Connection, handle_request, respond, response_of, to_http_request,
  to_beast_response, to_beast_request, to_http_response, to_http_method, to_verb, get, post,
  unknown, not_found, answers, throws, Handled, internal_server_error,
}

module _ (H : Type 0) where
  -- The route has the method, and its prefix begins the path.
  abbrev pub Fits : Method → String → Route H → Type 0
  Fits method path r =
      (r.method ≡ method) × ((rest : List ℕ) × (characters path ≡ characters r.path_prefix ++ rest))

  abbrev Misses : Method → String → Route H → Type 0
  Misses method path r = accepts H r method path ≡ false

  accepts_iff :
      (r : Route H) (method : Method) (path : String)
      → (accepts H r method path ≡ true) ↔ Fits method path r
  unfolding accepts
  accepts_iff r method path = (
    λ h. (
      (method_beq_iff r.method method).0 (ground arith),
      (starts_with_iff (characters path) (characters r.path_prefix)).0 (ground arith),
    ),
    λ f.
        let a = (method_beq_iff r.method method).1 f.0 in
        let b = (starts_with_iff (characters path) (characters r.path_prefix)).1 f.1 in
        ground arith,
  )

  -- The first route that fits is the one: it stands after routes that do not fit.
  abbrev pub FirstFit : List (Route H) → Method → String → H → Type 0
  FirstFit routes method path h =
      (before : List (Route H)) × (r : Route H) × (after : List (Route H)) × (routes
        ≡ before ++ r ∷ after)
      × All (λ q. Fits method path q → ⊥) before
      × Fits method path r
      × (r.handler ≡ h)

  abbrev Found : List (Route H) → Method → String → Option H → Type 0
  Found routes method path none = All (λ q. Fits method path q → ⊥) routes
  Found routes method path (some h) = FirstFit routes method path h

  Found-later :
      (r : Route H) (rs : List (Route H)) (method : Method) (path : String) (o : Option H)
      → (Fits method path r → ⊥)
      → Found rs method path o
      → Found (r ∷ rs) method path o
  Found-later r rs method path none misses f = (misses, f)
  Found-later r rs method path (some h) misses (before, q, after, e, none_before, fits, same) =
      (r ∷ before, q, after, ap (λ l. r ∷ l) e, (misses, none_before), fits, same)

  find_handler-Found :
      (routes : List (Route H)) (method : Method) (path : String)
      → Found routes method path (find_handler H routes method path)
  unfolding find_handler
  find_handler-Found [] method path = tt
  find_handler-Found (r ∷ rs) method path = elim (Bool-cases (accepts H r method path)) [
    | inl fits ↦ rw fits ([], r, rs, refl, tt, (accepts_iff r method path).0 fits, refl)
    | inr misses ↦ rw misses (
        Found-later r rs method path (find_handler H rs method path)
          (λ f. cc (sym misses ∙ (accepts_iff r method path).1 f))
          (find_handler-Found rs method path))
  ]

module _ (c : Connection) where
  open c use {World, Handler, handle}

  -- How a request was answered: by no handler, with 404 and the surroundings unchanged, where no route
  -- fits; or by the handler of the first route that fits, with what it answers, or with 500 and a
  -- fixed body where it throws.
  abbrev pub Routed : List (Route Handler) → Request → World → BeastResponse × World → Type 0
  Routed routes request w result =
      (All (λ q. Fits Handler request.method request.path q → ⊥) routes
        × (result ≡ (to_beast_response (record { status = not_found; body = "" }), w)))
      ⊎ ((h : Handler) × FirstFit Handler routes request.method request.path h
          × (result.1 ≡ (handle w h request).1)
          × ((((handle w h request).0 ≡ throws) × (result.0.result ≡ internal_server_error))
              ⊎ ((r : Response) × ((handle w h request).0 ≡ answers r)
                  × (result.0 ≡ to_beast_response r))))

  answered :
      (x : Handled)
      → ((x ≡ throws) × ((to_beast_response (response_of x)).result ≡ internal_server_error))
        ⊎ ((r : Response) × (x ≡ answers r)
            × (to_beast_response (response_of x) ≡ to_beast_response r))
  unfolding response_of to_beast_response
  answered throws = inl (refl, refl)
  answered (answers r) = inr (r, refl, refl)

  respond-Routed :
      (routes : List (Route Handler)) (request : Request) (w : World) (o : Option Handler)
      → Found Handler routes request.method request.path o
      → Routed routes request w (respond c o request w)
  unfolding respond
  respond-Routed routes request w none f = inl (f, refl)
  respond-Routed routes request w (some h) f = inr (h, f, refl, answered (handle w h request).0)

  -- A request is answered with 404, and nothing else happens, if no route has its method and a prefix
  -- of its path; otherwise the handler of the first such route is called once, and its answer is
  -- sent, or 500 if it throws.
  pub handle_request-Routed :
      (routes : List (Route Handler)) (r : BeastRequest) (w : World)
      → Routed routes (to_http_request r) w (handle_request c routes r w)
  unfolding handle_request
  handle_request-Routed routes r w =
      respond-Routed routes (to_http_request r) w _
        (find_handler-Found Handler routes (to_http_request r).method (to_http_request r).path)

method_roundtrip : (m : Method) → to_http_method (to_verb m) ≡ m
unfolding to_http_method to_verb
method_roundtrip get = refl
method_roundtrip post = refl
method_roundtrip unknown = refl

-- A request or a response that is converted to a message of the library and back is what it was; the
-- status of a response takes sixteen bits.
pub message_roundtrip :
    (request : Request) (response : Response)
    → response.status < 2 ^ 16
    → (to_http_request (to_beast_request request) ≡ request)
      × (to_http_response (to_beast_response response) ≡ response)
unfolding to_http_request to_beast_request to_http_response to_beast_response
message_roundtrip request response h = (
  ap (λ m. record { method = m; path = request.path; body = request.body })
      (method_roundtrip request.method),
  ap (λ s. record { status = s; body = response.body }) (omega arith),
)
