-- ===== src/Generate/OpenApi/Each.antt =====
-- Properties of all operations of the paths of the document.
use go_http_mqtt_boilerplate.Prelude.{
  ℕ, ◌≡◌, Bool, true, false, some, [], ◌∷◌, All, All-insert, Text, codes, Map, lookup, text_eq_inst,
  ◌==◌, if◌then◌else◌, Result, ok, wrap, bind-ok_inv, wrap-ok_inv, ok-inj, arith,
}
use mathlib.Core.Path.{subst}
use go_http_mqtt_boilerplate.Generate.DocTypes.{RouteInfo}
use go_http_mqtt_boilerplate.Generate.Marks.{Types}
use go_http_mqtt_boilerplate.Generate.OpenApi.Document.{
  Operation, PathItem, DocumentError, build_operation, in_operation,
}
use go_http_mqtt_boilerplate.Generate.OpenApi.Paths.{
  or_empty, empty_path_item, set_operation, add_paths,
}
use go_http_mqtt_boilerplate.Generate.OpenApi.Operations.{When}

-- The operations of a path have a property.
pub record EachOperation (Q : Operation → Type 0) (item : PathItem) : Type 0 where
  pub get : When Q item.get
  pub post : When Q item.post
  pub put : When Q item.put
  pub patch : When Q item.patch
  pub delete : When Q item.delete

module _ (Q : Operation → Type 0) where
  branch :
      (test : Bool) (item : PathItem) (rest : Result DocumentError PathItem) (done : PathItem)
      → EachOperation Q item
      → (rest ≡ ok done → EachOperation Q done)
      → (if test then ok item else rest) ≡ ok done
      → EachOperation Q done
  branch true item rest done each after h = subst (EachOperation Q) (ok-inj h) each
  branch false item rest done each after h = after h

  set_operation-Each :
      (method : Text) (op : Operation) (item done : PathItem)
      → Q op
      → EachOperation Q item
      → set_operation method op item ≡ ok done
      → EachOperation Q done
  unfolding set_operation
  set_operation-Each method op item done q each = λ h.
      branch (method == codes "GET") (record item { get = some op }) _ done
        (record {
          get = q;
          post = each.post;
          put = each.put;
          patch = each.patch;
          delete = each.delete;
        })
        (λ h.
          branch (method == codes "POST") (record item { post = some op }) _ done
            (record {
              get = each.get;
              post = q;
              put = each.put;
              patch = each.patch;
              delete = each.delete;
            })
            (λ h.
              branch (method == codes "PUT") (record item { put = some op }) _ done
                (record {
                  get = each.get;
                  post = each.post;
                  put = q;
                  patch = each.patch;
                  delete = each.delete;
                })
                (λ h.
                  branch (method == codes "PATCH") (record item { patch = some op }) _ done
                    (record {
                      get = each.get;
                      post = each.post;
                      put = each.put;
                      patch = q;
                      delete = each.delete;
                    })
                    (λ h.
                      branch (method == codes "DELETE") (record item { delete = some op }) _ done
                        (record {
                          get = each.get;
                          post = each.post;
                          put = each.put;
                          patch = each.patch;
                          delete = q;
                        })
                        (λ h. ground (arith, h)) h)
                    h)
                h)
            h)
        h

  empty-Each : EachOperation Q empty_path_item
  empty-Each = record { get = tt; post = tt; put = tt; patch = tt; delete = tt }

  lookup-Each :
      (path : Text) (items : Map PathItem)
      → All (λ e. EachOperation Q e.1) items
      → EachOperation Q (or_empty (lookup path items))
  unfolding lookup
  lookup-Each path [] all = empty-Each
  lookup-Each path ((p, item) ∷ items) (each, all) =
      let rest = lookup-Each path items all in
      elim (p == path)
        as (λ b. EachOperation Q (or_empty (if b then some item else lookup path items))) [
          | true ↦ each
          | false ↦ rest
        ]

  pub add_paths-Each :
      (itoa : ℕ → Text) (routes : Map RouteInfo) (types : Types) (items done : Map PathItem)
      → All (λ e. (op : Operation) → build_operation itoa e.1 types ≡ ok op → Q op) routes
      → add_paths itoa routes types items ≡ ok done
      → All (λ e. EachOperation Q e.1) items
      → All (λ e. EachOperation Q e.1) done
  unfolding add_paths
  add_paths-Each itoa [] types items done built h all =
      subst (All (λ e. EachOperation Q e.1)) (ok-inj h) all
  add_paths-Each itoa ((id, route) ∷ routes) types items done (here, built) h all =
      let (op, a, h1) =
        bind-ok_inv (wrap (in_operation route.method route.path) (build_operation itoa route types))
          _ done h in
      let (item, b, h2) =
        bind-ok_inv (set_operation route.method op (or_empty (lookup route.path items))) _ done
          h1 in
      add_paths-Each itoa routes types _ done built h2 (
        All-insert (EachOperation Q) route.path item items
          (set_operation-Each route.method op _ item (here op (wrap-ok_inv _ _ op a))
            (lookup-Each route.path items all) b)
          all)
