-- ===== src/Resources/Observer.antt =====
-- resources/observer.go: the observer runs one provider per resource type and hands each reader to
-- a chain of middleware. What a handler does is a change of a state S.
use awslib.Dict
use awslib.Dict.{Dict}
use awslib.Errors.{Error}
use awslib.Prelude.{String, ◌≡◌, refl, ◌∙◌, ap, Option, none, some, List, [], ◌∷◌, ◌++◌, string_eq}

-- HandlerFunc, over the readers C, and MiddlewareInterface
abbrev pub HandlerFunc : Type 0 → Type 0 → Type 0
HandlerFunc S C = C → S → Option Error × S

abbrev pub Middleware : Type 0 → Type 0 → Type 0
Middleware S C = HandlerFunc S C → HandlerFunc S C

-- The providers are made once per resource type, by the pool's List and NewProvider.
pub record ResourceObserver (S C P : Type 0) : Type 0 where
  pub make_provider : String → P
  pub run : P → S → C × S
  pub providers : Dict String P
  pub handler : HandlerFunc S C
  pub middleware : List (Middleware S C)

module _ {S C : Type 0} where
  -- the loop of applyMiddleware, from the last middleware to the first
  unfoldable pub apply_middleware : HandlerFunc S C → List (Middleware S C) → HandlerFunc S C
  apply_middleware h [] = h
  apply_middleware h (m ∷ middleware) = m (apply_middleware h middleware)

  apply_middleware-append :
      (h : HandlerFunc S C) (ms ns : List (Middleware S C))
      → apply_middleware h (ms ++ ns) ≡ apply_middleware (apply_middleware h ns) ms
  unfolding apply_middleware
  apply_middleware-append h [] ns = refl
  apply_middleware-append h (m ∷ ms) ns = ap m (apply_middleware-append h ms ns)

module _ {S C P : Type 0} where
  -- Use
  abbrev pub add_middleware :
      List (Middleware S C) → ResourceObserver S C P → ResourceObserver S C P
  add_middleware middlewares r = record r { middleware = r.middleware ++ middlewares }

  unfoldable pub get_provider : ResourceObserver S C P → String → P × ResourceObserver S C P
  get_provider r resource_type = elim (Dict.lookup resource_type r.providers) [
    | some provider ↦ (provider, r)
    | none ↦
        let provider = r.make_provider resource_type in
        (provider, record r { providers = Dict.insert resource_type provider r.providers })
  ]

  -- the loop of Serve
  unfoldable pub serve_with :
      HandlerFunc S C
      → ResourceObserver S C P
      → List String
      → S
      → Option Error × (ResourceObserver S C P × S)
  serve_with h r [] s = (none, (r, s))
  serve_with h r (resource_type ∷ resource_types) s =
      let (provider, r') = get_provider r resource_type in
      let (reader, s') = r'.run provider s in
      let (err, s'') = h reader s' in
      elim err [ some e ↦ (some e, (r', s'')) | none ↦ serve_with h r' resource_types s'' ]

  unfoldable pub serve :
      ResourceObserver S C P → List String → S → Option Error × (ResourceObserver S C P × S)
  serve r resource_types s = serve_with (apply_middleware r.handler r.middleware) r resource_types s

  -- Middleware that is added later is inside what was added before: serving after two `Use` calls
  -- is serving with one handler that the second call's middleware wraps, in the first call's.
  pub serve-add_middleware :
      (r : ResourceObserver S C P) (ms ns : List (Middleware S C)) (types : List String) (s : S)
      → serve (add_middleware ns (add_middleware ms r)) types s
        ≡ serve_with
            (apply_middleware (apply_middleware (apply_middleware r.handler ns) ms) r.middleware)
            (add_middleware ns (add_middleware ms r))
            types
            s
  unfolding serve
  serve-add_middleware r ms ns types s =
      ap (λ h. serve_with h (add_middleware ns (add_middleware ms r)) types s)
        (apply_middleware-append r.handler (r.middleware ++ ms) ns
          ∙ apply_middleware-append (apply_middleware r.handler ns) r.middleware ms)
