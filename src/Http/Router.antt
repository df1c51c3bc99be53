-- ===== src/Http/Router.antt =====
-- backend/internal/http/router/router.go: the routes and the middleware that each goes through.
use gitactionflow.Base.{
  ◌≡◌, refl, Bool, true, false, List, [], ◌∷◌, ◌++◌, if◌then◌else◌, All, All-append,
}
use gitactionflow.Base.Int.{ℤ, pos}
use gitactionflow.Base.Text.{Text, codes, has_prefix}

pub data Method : Type 0 where
  get : Method
  post : Method
  put : Method
  delete : Method

-- The two limiters.
pub data Limiter : Type 0 where
  auth_limit : Limiter
  api_limit : Limiter

-- The rate, in microseconds for a token, and the burst.
pub settings : Limiter → ℤ × ℤ
settings Limiter.auth_limit = (pos 2000000, pos 20)
settings Limiter.api_limit = (pos 1000000, pos 60)

pub data Middleware : Type 0 where
  recovery : Middleware
  request_id : Middleware
  security_headers : Middleware
  logger : Middleware
  cors : (frontend_url : Text) → Middleware
  limit : Limiter → Middleware
  csrf_origin : (frontend_url : Text) → Middleware
  require_auth : Middleware

pub data Handler : Type 0 where
  health : Handler
  ready : Handler
  handle_post : Handler
  start_github : Handler
  callback_github : Handler
  logout : Handler
  me : Handler
  list_github_repositories : Handler
  get_connected : Handler
  connect : Handler
  disconnect : Handler
  list_rules : Handler
  create_rule : Handler
  get_rule : Handler
  update_rule : Handler
  delete_rule : Handler
  list_events : Handler
  list_actions : Handler

pub record Route : Type 0 where
  pub method : Method
  pub path : Text
  pub middleware : List Middleware
  pub handler : Handler

-- Dependencies: of each handler that can be nil, whether it is there.
pub record Dependencies : Type 0 where
  pub frontend_url : Text
  pub auth : Bool
  pub repos : Bool
  pub rules : Bool
  pub activity : Bool
  pub webhooks : Bool

module _ (d : Dependencies) where
  -- What `r.Use` puts before every route.
  abbrev base : List Middleware
  base =
      Middleware.recovery
      ∷ Middleware.request_id
      ∷ Middleware.security_headers
      ∷ Middleware.logger
      ∷ Middleware.cors d.frontend_url
      ∷ []

  -- A route of the engine.
  abbrev route : Method → Text → List Middleware → Handler → Route
  route method path own handler = record {
    method = method;
    path = path;
    middleware = base ++ own;
    handler = handler;
  }

  -- What `api.Use` adds for the routes of the group "/api".
  abbrev pub api_chain : List Middleware
  api_chain =
      Middleware.csrf_origin d.frontend_url
      ∷ Middleware.limit Limiter.api_limit
      ∷ Middleware.require_auth
      ∷ []

  -- A route of the group "/api".
  abbrev api : Method → Text → Handler → Route
  api method path handler = route method (codes "/api" ++ path) api_chain handler

  abbrev if_there : Bool → List Route → List Route
  if_there b rs = if b then rs else []

  repo_routes : List Route
  repo_routes =
      api Method.get (codes "/github/repositories") Handler.list_github_repositories
      ∷ api Method.get (codes "/repository") Handler.get_connected
      ∷ api Method.post (codes "/repository") Handler.connect
      ∷ api Method.delete (codes "/repository") Handler.disconnect
      ∷ []

  rule_routes : List Route
  rule_routes =
      api Method.get (codes "/rules") Handler.list_rules
      ∷ api Method.post (codes "/rules") Handler.create_rule
      ∷ api Method.get (codes "/rules/:id") Handler.get_rule
      ∷ api Method.put (codes "/rules/:id") Handler.update_rule
      ∷ api Method.delete (codes "/rules/:id") Handler.delete_rule
      ∷ []

  activity_routes : List Route
  activity_routes =
      api Method.get (codes "/events") Handler.list_events
      ∷ api Method.get (codes "/actions") Handler.list_actions
      ∷ []

  webhook_routes : List Route
  webhook_routes = route Method.post (codes "/webhooks/github") [] Handler.handle_post ∷ []

  auth_routes : List Route
  auth_routes =
      route Method.get (codes "/auth/github") (Middleware.limit Limiter.auth_limit ∷ [])
        Handler.start_github
      ∷ route Method.get (codes "/auth/github/callback") (Middleware.limit Limiter.auth_limit ∷ [])
          Handler.callback_github
      ∷ route Method.post (codes "/auth/logout")
          (Middleware.csrf_origin d.frontend_url ∷ Middleware.limit Limiter.api_limit ∷ [])
          Handler.logout
      ∷ api Method.get (codes "/me") Handler.me
      ∷ []

  optional_routes : List Route
  unfolding repo_routes rule_routes activity_routes webhook_routes auth_routes
  optional_routes =
      if_there d.webhooks webhook_routes
      ++ if_there d.auth (
          auth_routes
          ++ (if_there d.repos repo_routes
              ++ (if_there d.rules rule_routes ++ if_there d.activity activity_routes)))

  -- New
  unfoldable pub new : List Route
  unfolding optional_routes
  new =
      route Method.get (codes "/health") [] Handler.health
      ∷ route Method.get (codes "/ready") [] Handler.ready
      ∷ optional_routes

  -- A route under /api goes through the group's middleware, after that of every route.
  abbrev pub IsGuarded : Route → Type 0
  IsGuarded r = has_prefix r.path (codes "/api") ≡ true → r.middleware ≡ base ++ api_chain

  -- Whichever handlers are there, every route under /api has this middleware, which checks the
  -- origin and requires a user.
  pub new-IsGuarded : All IsGuarded new
  unfolding new optional_routes repo_routes rule_routes activity_routes webhook_routes auth_routes
      has_prefix
  new-IsGuarded = (
    λ p. absurd (cc),
    (
      λ p. absurd (cc),
      All-append IsGuarded (if_there d.webhooks webhook_routes) _
          (when d.webhooks webhook_routes (λ p. absurd (cc), tt))
          (when d.auth _ (
            All-append IsGuarded auth_routes _
              (λ p. absurd (cc), (λ p. absurd (cc), (λ p. absurd (cc), (λ p. refl, tt))))
              (All-append IsGuarded (if_there d.repos repo_routes) _
                (when d.repos repo_routes (λ p. refl, (λ p. refl, (λ p. refl, (λ p. refl, tt)))))
                (All-append IsGuarded (if_there d.rules rule_routes) _
                  (when d.rules rule_routes
                    (λ p. refl, (λ p. refl, (λ p. refl, (λ p. refl, (λ p. refl, tt))))))
                  (when d.activity activity_routes (λ p. refl, (λ p. refl, tt))))))),
    ),
  )
    where
      when : (b : Bool) (rs : List Route) → All IsGuarded rs → All IsGuarded (if_there b rs)
      when true rs h = h
      when false rs h = tt
