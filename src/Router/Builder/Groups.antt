-- ===== src/Router/Builder/Groups.antt =====
-- Routes that are added in groups nested to any depth.
use go_http_mqtt_boilerplate.Prelude.{
  ℕ, ◌≡◌, refl, sym, ap, ◌∙◌, Bool, List, [], ◌∷◌, ◌++◌, append-nil, append_assoc, Text, ok,
}
use go_http_mqtt_boilerplate.Generate.Sanitize.{sanitize_path}
use go_http_mqtt_boilerplate.Generate.Interface.{MetadataCollector}
use go_http_mqtt_boilerplate.Router.Spec.{RouteSpec}
use go_http_mqtt_boilerplate.Router.Builder.{RouteBuilder, Shared, route, add}
use go_http_mqtt_boilerplate.Router.Builder.Laws.{IsAllowed, add-ok}

-- all parts, one behind the other
abbrev pub concat : List Text → Text
concat [] = []
concat (part ∷ parts) = part ++ concat parts

module _ (c : MetadataCollector) (is_digit : ℕ → Bool) where
  -- `Route` in the callback of `Route`, and so on, with the callback in the innermost group
  unfoldable pub groups :
      List Text → (RouteBuilder c → RouteBuilder c) → RouteBuilder c → RouteBuilder c
  groups [] fn rb = fn rb
  groups (path ∷ paths) fn rb = route c path (groups paths fn) rb

  -- the builder that the innermost callback gets
  abbrev pub inside : List Text → RouteBuilder c → RouteBuilder c
  inside paths rb = record { prefix = rb.prefix ++ concat paths; shared = rb.shared }

  groups-shared :
      (paths : List Text) (fn : RouteBuilder c → RouteBuilder c) (rb : RouteBuilder c)
      → (groups paths fn rb).shared ≡ (fn (inside paths rb)).shared
  unfolding groups route
  groups-shared [] fn rb =
      ap (λ p. (fn (record { prefix = p; shared = rb.shared })).shared) (sym (append-nil rb.prefix))
  groups-shared (path ∷ paths) fn rb =
      groups-shared paths fn (record { prefix = rb.prefix ++ path; shared = rb.shared })
      ∙ ap (λ p. (fn (record { prefix = p; shared = rb.shared })).shared)
          (append_assoc rb.prefix path (concat paths))

  groups-prefix :
      (paths : List Text) (fn : RouteBuilder c → RouteBuilder c) (rb : RouteBuilder c)
      → (fn (inside paths rb)).prefix ≡ (inside paths rb).prefix
      → (groups paths fn rb).prefix ≡ rb.prefix
  unfolding groups route
  groups-prefix [] fn rb h =
      ap (λ p. (fn (record { prefix = p; shared = rb.shared })).prefix) (sym (append-nil rb.prefix))
      ∙ h
      ∙ append-nil rb.prefix
  groups-prefix (path ∷ paths) fn rb h = refl

  -- What a route that is added in groups leaves in the outer builder.
  pub record IsGrouped (paths : List Text) (path : Text) (spec : RouteSpec)
      (rb rb' : RouteBuilder c) : Type 0 where
    pub allowed : IsAllowed c is_digit (inside paths rb) path spec
    pub registered :
        rb'.shared.routes
        ≡ record {
          method = spec.method;
          path = sanitize_path (rb.prefix ++ concat paths ++ path);
          handler = spec.handler;
        }
          ∷ rb.shared.routes
    pub ids : rb'.shared.operation_ids ≡ spec.operation_id ∷ rb.shared.operation_ids
    pub prefix : rb'.prefix ≡ rb.prefix

  -- A route that `add` accepts in the innermost of nested groups is registered, with its handler and
  -- method, at the sanitized path behind the builder's prefix and the paths of all groups from the
  -- outermost to the innermost; its operation id is taken for the outer builder, too, and after the
  -- groups the builder has its own prefix again.
  pub groups-IsGrouped :
      (paths : List Text) (path : Text) (spec : RouteSpec) (rb : RouteBuilder c)
      → (add c is_digit path spec (inside paths rb)).1 ≡ ok tt
      → IsGrouped paths path spec rb (groups paths (λ sub. (add c is_digit path spec sub).0) rb)
  groups-IsGrouped paths path spec rb h =
      let added = add-ok c is_digit path spec (inside paths rb) h in
      let same = groups-shared paths (λ sub. (add c is_digit path spec sub).0) rb in
      record {
        allowed = added.allowed;
        registered = ap (λ (s : Shared c). s.routes) same ∙ added.registered;
        ids = ap (λ (s : Shared c). s.operation_ids) same ∙ added.ids;
        prefix = groups-prefix paths (λ sub. (add c is_digit path spec sub).0) rb added.prefix;
      }
