-- ===== src/Router/Builder/Laws.antt =====
-- What a route builder holds after any registrations, and what each registration does.
use go_http_mqtt_boilerplate.Prelude.{
  ℕ, suc, ◌≡◌, refl, ap, inl, inr, Bool, false, List, [], ◌∷◌, ◌++◌, Text, member, length,
  text_eq_inst, text_eq_iff, All, is_none, Result, ok, err, Result-cases, arith,
}
use go_http_mqtt_boilerplate.Generate.Sanitize.{sanitize_path}
use go_http_mqtt_boilerplate.Generate.Sanitize.Laws.{IsClean, sanitize_path-IsClean}
use go_http_mqtt_boilerplate.Generate.DocTypes.{RouteInfo}
use go_http_mqtt_boilerplate.Generate.Interface.{MetadataCollector}
use go_http_mqtt_boilerplate.Router.Spec.{RouteSpec, validate_route_spec}
use go_http_mqtt_boilerplate.Router.Builder.{
  RouteBuilder, RouteError, placed, check_route, store_route, add,
}

-- No two entries are equal.
abbrev pub Distinct : List Text → Type 0
Distinct [] = Unit
Distinct (k ∷ ks) = (member k ks ≡ false) × Distinct ks

module _ (c : MetadataCollector) (is_digit : ℕ → Bool) where
  open c use {State, Error, register_route}

  -- Every route has a clean path and a handler, the operation ids are distinct, and there is one for
  -- each route.
  pub record IsSound (rb : RouteBuilder c) : Type 0 where
    pub routes : All (λ r. IsClean r.path × (is_none r.handler ≡ false)) rb.shared.routes
    pub distinct : Distinct rb.shared.operation_ids
    pub counted : length rb.shared.operation_ids ≡ length rb.shared.routes

  -- What the checks of `add` guarantee.
  pub record IsAllowed (rb : RouteBuilder c) (path : Text) (spec : RouteSpec) : Type 0 where
    pub clean : path ≡ sanitize_path path
    pub fresh : member spec.operation_id rb.shared.operation_ids ≡ false
    pub valid : validate_route_spec (placed c rb.prefix path spec) ≡ ok tt

  check_route-IsAllowed :
      (rb : RouteBuilder c) (path : Text) (spec : RouteSpec) (info : RouteInfo)
      → check_route c is_digit rb path spec ≡ ok info
      → IsAllowed rb path spec
  unfolding check_route
  check_route-IsAllowed rb path spec info h = ground (arith, text_eq_iff path (sanitize_path path))

  validate_route_spec-handler :
      (spec : RouteSpec) → validate_route_spec spec ≡ ok tt → is_none spec.handler ≡ false
  unfolding validate_route_spec
  validate_route_spec-handler spec h = ground arith

  store_route-IsSound :
      (rb : RouteBuilder c) (path : Text) (spec : RouteSpec) (out : State × Result Error (Unit {0}))
      → IsSound rb
      → IsAllowed rb path spec
      → IsSound (store_route c is_digit rb (placed c rb.prefix path spec) out).0
  unfolding store_route placed
  store_route-IsSound rb path spec (s, err e) v allowed = record {
    routes = v.routes;
    distinct = v.distinct;
    counted = v.counted;
  }
  store_route-IsSound rb path spec (s, ok _) v allowed = record {
    routes = (
      (sanitize_path-IsClean (rb.prefix ++ path), validate_route_spec-handler _ allowed.valid),
      v.routes,
    );
    distinct = (allowed.fresh, v.distinct);
    counted = ap suc v.counted;
  }

  -- Whatever `add` returns, it keeps the table of routes sound: each route has a clean path and a
  -- handler, and the operation ids are distinct, one for each route.
  pub add-IsSound :
      (path : Text) (spec : RouteSpec) (rb : RouteBuilder c)
      → IsSound rb
      → IsSound (add c is_digit path spec rb).0
  unfolding add
  add-IsSound path spec rb v = elim (Result-cases (check_route c is_digit rb path spec)) [
    | inl (info, e) ↦
        rw (e, add)
          (store_route-IsSound rb path spec (register_route info rb.shared.collector) v
            (check_route-IsAllowed rb path spec info e))
    | inr (error, e) ↦ rw (e, add) v
  ]

  -- An `add` that returns an error changes nothing but the state of the collector.
  pub add-err :
      (path : Text) (spec : RouteSpec) (rb : RouteBuilder c) (e : RouteError Error)
      → (add c is_digit path spec rb).1 ≡ err e
      → (add c is_digit path spec rb).0 ≡ record rb {
        shared = record rb.shared { collector = (add c is_digit path spec rb).0.shared.collector };
      }
  unfolding add store_route
  add-err path spec rb e h = ground arith

  -- What a successful `add` has checked and registered.
  pub record IsAdded (path : Text) (spec : RouteSpec) (rb rb' : RouteBuilder c) : Type 0 where
    pub allowed : IsAllowed rb path spec
    pub registered :
        rb'.shared.routes
        ≡ record {
          method = spec.method;
          path = sanitize_path (rb.prefix ++ path);
          handler = spec.handler;
        }
          ∷ rb.shared.routes
    pub ids : rb'.shared.operation_ids ≡ spec.operation_id ∷ rb.shared.operation_ids
    pub prefix : rb'.prefix ≡ rb.prefix

  store_route-ok :
      (path : Text) (spec : RouteSpec) (rb : RouteBuilder c) (out : State × Result Error (Unit {0}))
      → IsAllowed rb path spec
      → (store_route c is_digit rb (placed c rb.prefix path spec) out).1 ≡ ok tt
      → IsAdded path spec rb (store_route c is_digit rb (placed c rb.prefix path spec) out).0
  unfolding store_route placed
  store_route-ok path spec rb (s, err e) allowed h = cc
  store_route-ok path spec rb (s, ok _) allowed h = record {
    allowed = allowed;
    registered = refl;
    ids = refl;
    prefix = refl;
  }

  -- A successful `add` was given a clean path, an operation id not in use and a valid specification.
  -- It registers the handler for the method at the sanitized path behind the prefix, takes the
  -- operation id, and keeps the prefix.
  pub add-ok :
      (path : Text) (spec : RouteSpec) (rb : RouteBuilder c)
      → (add c is_digit path spec rb).1 ≡ ok tt
      → IsAdded path spec rb (add c is_digit path spec rb).0
  add-ok path spec rb h = elim (Result-cases (check_route c is_digit rb path spec)) [
    | inl (info, e) ↦
        let out = register_route info rb.shared.collector in
        let same : add c is_digit path spec rb
            ≡ store_route c is_digit rb (placed c rb.prefix path spec) out =
          unfold add in rw (e, add) refl in
        rw same (
          store_route-ok path spec rb out (check_route-IsAllowed rb path spec info e)
            (rw same at h))
    | inr (error, e) ↦ unfold add in ground arith
  ]
