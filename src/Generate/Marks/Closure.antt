-- ===== src/Generate/Marks/Closure.antt =====
-- The marks reach everything that a marked type refers to.
use go_http_mqtt_boilerplate.Prelude.{
  ℕ, zero, suc, ◌<◌, ◌≤◌, ◌≡◌, refl, sym, ◌∙◌, Bool-cases, Option-cases, inl, inr, true, false,
  none, some, List, [], ◌∷◌, All, length, Text, lookup, insert, text_eq_iff, text_eq_inst, ◌==◌,
  arith,
}
use mathlib.Core.Path.{subst}
use go_http_mqtt_boilerplate.Generate.DocTypes.{TypeInfo}
use go_http_mqtt_boilerplate.Generate.Marks.{
  Types, ProtocolType, is_used_by, use_by, unmarked, mark_each, mark_found, mark_within,
  mark_type_as_used_by,
}
use go_http_mqtt_boilerplate.Generate.Marks.Growth.{
  is_marked, references_of, IsReached, IsClosed, Grows, SameRest, SameRest-insert, open_count,
  open_count-length, open_count-insert, is_marked-insert, Grows-insert, Grows-refl, Grows-trans,
  IsReached-Grows, All-IsReached,
}

module _ (p : ProtocolType) where
  -- What a call that is to mark the names has done, where there was fuel enough.
  record Marks (names : List Text) (before after : Types) : Type 0 where
    grows : Grows p before after
    rest : SameRest p before after
    fewer : open_count p after ≤ open_count p before
    new :
        (k : Text)
        → is_marked p k before ≡ false
        → is_marked p k after ≡ true
        → All (IsReached p after) (references_of p k before)
    reached : All (IsReached p after) names

  Marks-none : (types : Types) → Marks [] types types
  Marks-none types = record {
    grows = Grows-refl p types;
    rest = λ k. refl;
    fewer = omega arith;
    new = λ k closed opened. ground arith;
    reached = tt;
  }

  Marks-then :
      {names : List Text} {name : Text} {a b c : Types}
      → Marks (name ∷ []) a b
      → Marks names b c
      → Marks (name ∷ names) a c
  Marks-then {names} {name} {a} {b} {c} m m' = record {
    grows = Grows-trans p m.grows m'.grows;
    rest = λ k. m'.rest k ∙ m.rest k;
    fewer = omega (arith, m.fewer, m'.fewer);
    new = λ k unused used. elim (Bool-cases (is_marked p k b)) [
      | inl old ↦ All-IsReached p (references_of p k a) m'.grows (m.new k unused old)
      | inr later ↦ subst (All (IsReached p c)) (m.grows.references k) (m'.new k later used)
    ];
    reached = (IsReached-Grows p name m'.grows m.reached.0, m'.reached);
  }

  mark_each-Marks :
      (mark : Text → Types → Types) (n : ℕ)
      → ((name : Text) (types : Types)
          → open_count p types < n
          → Marks (name ∷ []) types (mark name types))
      → (names : List Text) (types : Types) → open_count p types < n
      → Marks names types (mark_each mark names types)
  unfolding mark_each
  mark_each-Marks mark n marks [] types enough = Marks-none types
  mark_each-Marks mark n marks (name ∷ names) types enough =
      let m = marks name types enough in
      Marks-then m
        (mark_each-Marks mark n marks names (mark name types) (omega (arith, m.fewer, enough)))

  pub unmarked-some :
      (name : Text) (types : Types) (info : TypeInfo)
      → unmarked p name types ≡ some info
      → (lookup name types ≡ some info) × (is_used_by p info ≡ false)
  unfolding unmarked
  unmarked-some [] types info h = ground arith
  unmarked-some (c ∷ name) types info h = ground arith

  unmarked-none :
      (name : Text) (types : Types) → unmarked p name types ≡ none → IsReached p types name
  unfolding unmarked is_marked
  unmarked-none [] types h = λ nonempty known. elim (nonempty refl) [ ]
  unmarked-none (c ∷ name) types h = λ nonempty known. ground arith

  references_of_found :
      (name k : Text) (types : Types) (info : TypeInfo)
      → lookup name types ≡ some info
      → (name == k) ≡ true
      → info.references ≡ references_of p k types
  unfolding references_of
  references_of_found name k types info h same = ground (arith, text_eq_iff name k)

  module _ (mark : Text → Types → Types) (n : ℕ)
      (marks : (name : Text) (types : Types)
        → open_count p types < n
        → Marks (name ∷ []) types (mark name types)) where
    mark_opened :
        (name : Text) (types : Types) (info : TypeInfo)
        → open_count p types < suc n
        → lookup name types ≡ some info
        → is_used_by p info ≡ false
        → Marks
            (name ∷ [])
            types
            (mark_each mark info.references (insert name (use_by p info) types))
    mark_opened name types info enough found unused =
        let start = insert name (use_by p info) types in
        let grown = Grows-insert p name info types found in
        let fewer = open_count-insert p name info types found unused in
        let m = mark_each-Marks mark n marks info.references start (omega (arith, fewer, enough)) in
        record {
          grows = Grows-trans p grown m.grows;
          rest = λ k. m.rest k ∙ SameRest-insert p name info types found k;
          fewer = omega (arith, fewer, m.fewer);
          new = λ k open_before used_after. elim (Bool-cases (name == k)) [
            | inl same ↦
                subst (All (IsReached p (mark_each mark info.references start)))
                  (references_of_found name k types info found same) m.reached
            | inr other ↦
                subst (All (IsReached p (mark_each mark info.references start)))
                  (grown.references k)
                  (m.new k
                    (ground (arith, is_marked-insert p name info types found k, other, open_before))
                    used_after)
          ];
          reached = (
            λ nonempty known. m.grows.marks name (
                ground
                  (arith, is_marked-insert p name info types found name, text_eq_iff name name)),
            tt,
          );
        }

    mark_found-Marks :
        (name : Text) (types : Types)
        → open_count p types < suc n
        → Marks (name ∷ []) types (mark_found mark p name (unmarked p name types) types)
    unfolding mark_found
    mark_found-Marks name types enough = elim (Option-cases (unmarked p name types)) [
      | inl closed ↦
          rw (closed, mark_found)
            (record {
              grows = Grows-refl p types;
              rest = λ k. refl;
              fewer = omega arith;
              new = λ k open_before used_after. ground arith;
              reached = (unmarked-none name types closed, tt);
            })
      | inr (info, opened) ↦
          let found = unmarked-some name types info opened in
          rw (opened, mark_found) (mark_opened name types info enough found.0 found.1)
    ]

  mark_within-Marks :
      (n : ℕ) (name : Text) (types : Types)
      → open_count p types < n
      → Marks (name ∷ []) types (mark_within n p name types)
  unfolding mark_within
  mark_within-Marks zero name types enough = ground arith
  mark_within-Marks (suc n) name types enough =
      mark_found-Marks (mark_within n p) n (λ k now less. mark_within-Marks n k now less) name types
        enough

  -- If everything that a marked type refers to has the mark, then it is so after
  -- `markTypeAsUsedBy`, which gives the mark to the named type if it is known and takes no mark away.
  -- Apart from this mark, no known type is changed in any field, and none is added. So the fuel is
  -- enough, also where types refer to each other in a cycle.
  pub mark_type_as_used_by-IsClosed :
      (name : Text) (types : Types)
      → IsClosed p types
      → IsClosed p (mark_type_as_used_by p name types)
        × IsReached p (mark_type_as_used_by p name types) name
        × Grows p types (mark_type_as_used_by p name types)
        × SameRest p types (mark_type_as_used_by p name types)
  unfolding mark_type_as_used_by IsClosed
  mark_type_as_used_by-IsClosed name types closed =
      let m =
        mark_within-Marks (suc (length types)) name types
          (omega (arith, open_count-length p types)) in
      (
        λ k used. elim (Bool-cases (is_marked p k types)) [
          | inl old ↦
              subst (All (IsReached p (mark_within (suc (length types)) p name types)))
                (sym (m.grows.references k))
                (All-IsReached p (references_of p k types) m.grows (closed k old))
          | inr later ↦
              subst (All (IsReached p (mark_within (suc (length types)) p name types)))
                (sym (m.grows.references k)) (m.new k later used)
        ],
        m.reached.0,
        m.grows,
        m.rest,
      )
