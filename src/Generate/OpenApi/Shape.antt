-- ===== src/Generate/OpenApi/Shape.antt =====
-- Relations between the types before and after an operation: the same declarations, and the same use
-- by HTTP.
use go_http_mqtt_boilerplate.Prelude.{
  ℕ, zero, suc, ◌≡◌, refl, sym, ◌∙◌, ap, inl, inr, Option, none, some, List, [], ◌∷◌, length, All,
  All-imp, Distinct, Distinct-insert, has_key-insert, Text, lookup, insert, has_key, lookup-insert,
  lookup-insert_inv, member, text_eq_iff, text_eq_inst, arith,
}
use mathlib.Core.Path.{subst}
use go_http_mqtt_boilerplate.Generate.DocTypes.{TypeInfo}
use go_http_mqtt_boilerplate.Generate.Marks.{
  Types, ProtocolType, http, mqtt, is_used_by, use_by, mark_each, unmarked, mark_found, mark_within,
  mark_type_as_used_by,
}
use go_http_mqtt_boilerplate.Generate.Marks.Growth.{
  is_marked, references_of, IsReached, IsClosed, Grows, All-IsReached,
}
use go_http_mqtt_boilerplate.Generate.Marks.Closure.{unmarked-some}
use go_http_mqtt_boilerplate.Generate.OpenApi.Closed.{type_refs}
use go_http_mqtt_boilerplate.Generate.OpenApi.Components.{IsResolved}

-- The declarations of the types are the same.
pub record Shape (before after : Types) : Type 0 where
  distinct : Distinct before → Distinct after
  keys : (k : Text) → has_key k after ≡ has_key k before
  found :
      (name : Text) (info : TypeInfo)
      → lookup name after ≡ some info
      → (old : TypeInfo) × (lookup name before ≡ some old)
        × (info.references ≡ old.references)
        × (type_refs info ≡ type_refs old)

pub Shape-refl : (types : Types) → Shape types types
Shape-refl types = record {
  distinct = λ d. d;
  keys = λ k. refl;
  found = λ name info h. (info, h, refl, refl);
}

pub Shape-trans : {a b c : Types} → Shape a b → Shape b c → Shape a c
Shape-trans s t = record {
  distinct = λ d. t.distinct (s.distinct d);
  keys = λ k. t.keys k ∙ s.keys k;
  found = λ name info h.
      let (mid, h1, r1, e1) = t.found name info h in
      let (old, h2, r2, e2) = s.found name mid h1 in (old, h2, r1 ∙ r2, e1 ∙ e2);
}

-- an update of a known type that leaves its declaration as it is
pub Shape-insert :
    (name : Text) (info new : TypeInfo) (types : Types)
    → lookup name types ≡ some info
    → new.references ≡ info.references
    → type_refs new ≡ type_refs info
    → Shape types (insert name new types)
Shape-insert name info new types h r e = record {
  distinct = Distinct-insert name new types;
  keys = λ k. ground (arith, has_key-insert name k new types, h, text_eq_iff name k);
  found = λ k v found. elim (lookup-insert_inv name k new v types found) [
    | inl (same, changed) ↦ (
      info,
      subst (λ n. lookup n types ≡ some info) same h,
      subst (λ i. i.references ≡ info.references) changed r,
      subst (λ i. type_refs i ≡ type_refs info) changed e,
    )
    | inr old ↦ (v, old, refl, refl)
  ];
}

pub Shape-IsResolved :
    {before after : Types} → Shape before after → IsResolved before → IsResolved after
Shape-IsResolved {before} {after} s r = record {
  unnamed = s.keys [] ∙ r.unnamed;
  distinct = s.distinct r.distinct;
  known = λ name info h.
      let (old, found, refs, same) = s.found name info h in
      subst (All _) (sym same) (
        All-imp _ _ (λ n (listed, here). (ap (member n) refs ∙ listed, s.keys n ∙ here))
          (type_refs old) (r.known name old found));
}

pub use_by-type_refs :
    (p : ProtocolType) (info : TypeInfo) → type_refs (use_by p info) ≡ type_refs info
unfolding use_by type_refs
use_by-type_refs http info = refl
use_by-type_refs mqtt info = refl

pub use_by-references :
    (p : ProtocolType) (info : TypeInfo) → (use_by p info).references ≡ info.references
unfolding use_by
use_by-references http info = refl
use_by-references mqtt info = refl

-- Relations that marking a type of its own establishes, and so `markTypeAsUsedBy`.
module _ (p : ProtocolType) (R : Types → Types → Type 0) (refl_of : (types : Types) → R types types)
    (trans : (a b c : Types) → R a b → R b c → R a c)
    (marks : (name : Text) (info : TypeInfo) (types : Types)
      → lookup name types ≡ some info
      → R types (insert name (use_by p info) types)) where
  mark_each-by :
      (mark : Text → Types → Types)
      → ((name : Text) (types : Types) → R types (mark name types))
      → (names : List Text) (types : Types) → R types (mark_each mark names types)
  unfolding mark_each
  mark_each-by mark each [] types = refl_of types
  mark_each-by mark each (name ∷ names) types =
      trans _ _ _ (each name types) (mark_each-by mark each names (mark name types))

  mark_found-by :
      (mark : Text → Types → Types)
      → ((name : Text) (types : Types) → R types (mark name types))
      → (name : Text) (types : Types) (o : Option TypeInfo) → unmarked p name types ≡ o
      → R types (mark_found mark p name o types)
  unfolding mark_found
  mark_found-by mark each name types none h = refl_of types
  mark_found-by mark each name types (some info) h =
      trans _ _ _ (marks name info types (unmarked-some p name types info h).0)
        (mark_each-by mark each info.references (insert name (use_by p info) types))

  mark_within-by : (n : ℕ) (name : Text) (types : Types) → R types (mark_within n p name types)
  unfolding mark_within
  mark_within-by zero name types = refl_of types
  mark_within-by (suc n) name types =
      mark_found-by (mark_within n p) (mark_within-by n) name types (unmarked p name types) refl

  pub mark_type_as_used_by-by :
      (name : Text) (types : Types) → R types (mark_type_as_used_by p name types)
  unfolding mark_type_as_used_by
  mark_type_as_used_by-by name types = mark_within-by (suc (length types)) name types

-- What HTTP uses, and the references, are the same.
pub record Quiet (before after : Types) : Type 0 where
  keys : (k : Text) → has_key k after ≡ has_key k before
  references : (k : Text) → references_of http k after ≡ references_of http k before
  marks : (k : Text) → is_marked http k after ≡ is_marked http k before

pub Quiet-refl : (types : Types) → Quiet types types
Quiet-refl types = record { keys = λ k. refl; references = λ k. refl; marks = λ k. refl }

pub Quiet-trans : {a b c : Types} → Quiet a b → Quiet b c → Quiet a c
Quiet-trans q r = record {
  keys = λ k. r.keys k ∙ q.keys k;
  references = λ k. r.references k ∙ q.references k;
  marks = λ k. r.marks k ∙ q.marks k;
}

pub Quiet-insert :
    (name : Text) (info new : TypeInfo) (types : Types)
    → lookup name types ≡ some info
    → new.references ≡ info.references
    → new.used_by_http ≡ info.used_by_http
    → Quiet types (insert name new types)
unfolding is_marked references_of is_used_by
Quiet-insert name info new types h r u = record {
  keys = λ k. ground (arith, lookup-insert name k new types, text_eq_iff name k);
  references = λ k. ground (arith, lookup-insert name k new types, text_eq_iff name k);
  marks = λ k. ground (arith, lookup-insert name k new types, text_eq_iff name k);
}

pub Quiet-Grows : {a b : Types} → Quiet a b → Grows http a b
Quiet-Grows q = record { keys = q.keys; references = q.references; marks = λ k m. q.marks k ∙ m }

pub Quiet-IsClosed : {a b : Types} → Quiet a b → IsClosed http a → IsClosed http b
unfolding IsClosed
Quiet-IsClosed {a} {b} q closed = λ k m.
    subst (All (IsReached http b)) (sym (q.references k))
      (All-IsReached http (references_of http k a) (Quiet-Grows q) (closed k (sym (q.marks k) ∙ m)))
