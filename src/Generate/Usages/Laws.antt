-- ===== src/Generate/Usages/Laws.antt =====
-- What `buildUsedBy` records of each type.
use go_http_mqtt_boilerplate.Prelude.{
  ◌≡◌, ◌≢◌, refl, ◌∙◌, Option-cases, inl, inr, Bool-cases, true, false, not, ◌&&◌, ◌||◌, Option,
  none, some, List, [], ◌∷◌, ◌++◌, Text, lookup, has_key, lookup-insert, member, text_eq_iff,
  text_eq_inst, ◌==◌, if◌then◌else◌, map, arith,
}
use go_http_mqtt_boilerplate.Generate.DocTypes.{TypeInfo, UsageInfo}
use go_http_mqtt_boilerplate.Generate.Marks.{Types}
use go_http_mqtt_boilerplate.Generate.Collector.{OpenApiCollector}
use go_http_mqtt_boilerplate.Generate.Usages.{
  clear_used, append_usage, add_usage, add_usages, all_usages, usage_key, dedupe, dedupe_each,
  build_used_by,
}
use go_http_mqtt_boilerplate.Generate.Usages.Users.{uses, is_used_as, uses-all_usages}

abbrev usages_in : Option TypeInfo → List UsageInfo
usages_in none = []
usages_in (some info) = info.used_by

-- the keys of the usages of a type
unfoldable pub used_keys : Text → Types → List Text
used_keys k types = map usage_key (usages_in (lookup k types))

-- No text stands twice in the list.
abbrev pub NoRepeats : List Text → Type 0
NoRepeats [] = Unit
NoRepeats (k ∷ ks) = (member k ks ≡ false) × NoRepeats ks

member-dedupe :
    (key : Text) (seen : List Text) (usages : List UsageInfo)
    → member key (map usage_key (dedupe seen usages))
      ≡ (member key (map usage_key usages) && not (member key seen))
unfolding dedupe
member-dedupe key seen [] = refl
member-dedupe key seen (usage ∷ usages) = ground (
  arith,
  text_eq_iff (usage_key usage) key,
  member-dedupe key seen usages,
  member-dedupe key (usage_key usage ∷ seen) usages,
)

dedupe-NoRepeats :
    (seen : List Text) (usages : List UsageInfo) → NoRepeats (map usage_key (dedupe seen usages))
unfolding dedupe
dedupe-NoRepeats seen [] = tt
dedupe-NoRepeats seen (usage ∷ usages) =
    let later = member-dedupe (usage_key usage) (usage_key usage ∷ seen) usages in
    elim (Bool-cases (member (usage_key usage) seen)) [
      | inl old ↦ rw old (dedupe-NoRepeats seen usages)
      | inr new ↦ rw new (
        ground (arith, later, text_eq_iff (usage_key usage) (usage_key usage)),
        dedupe-NoRepeats (usage_key usage ∷ seen) usages,
      )
    ]

map_key-append :
    (key : Text) (usages : List UsageInfo) (usage : UsageInfo)
    → member key (map usage_key (usages ++ usage ∷ []))
      ≡ (member key (map usage_key usages) || usage_key usage == key)
map_key-append key [] usage = ground arith
map_key-append key (u ∷ usages) usage = ground (arith, map_key-append key usages usage)

used_keys-add_usage :
    (name : Text) (usage : UsageInfo) (key r : Text) (types : Types)
    → r ≢ []
    → has_key r types ≡ true
    → (member key (used_keys r (add_usage name usage types))
        ≡ (member key (used_keys r types) || (if name == r then usage_key usage == key else false)))
      × (has_key r (add_usage name usage types) ≡ true)
unfolding add_usage used_keys
used_keys-add_usage [] usage key r types nonempty known = (ground (arith, text_eq_iff [] r), known)
used_keys-add_usage (c ∷ name) usage key r types nonempty known =
    elim (Option-cases (lookup (c ∷ name) types)) [
      | inl absent ↦ rw (absent, add_usage) (ground (arith, text_eq_iff (c ∷ name) r), known)
      | inr (info, found) ↦
          rw (found, add_usage)
            (
              ground (
                arith,
                lookup-insert (c ∷ name) r (append_usage usage info) types,
                text_eq_iff (c ∷ name) r,
                map_key-append key info.used_by usage,
              ),
              ground (arith, lookup-insert (c ∷ name) r (append_usage usage info) types),
            )
    ]

used_keys-add_usages :
    (key r : Text) (usages : List (Text × UsageInfo)) (types : Types)
    → r ≢ []
    → has_key r types ≡ true
    → member key (used_keys r (add_usages usages types))
      ≡ (member key (used_keys r types) || uses key r usages)
unfolding add_usages uses
used_keys-add_usages key r [] types nonempty known = ground arith
used_keys-add_usages key r ((name, usage) ∷ usages) types nonempty known =
    let one = used_keys-add_usage name usage key r types nonempty known in
    ground
      (arith, one.0, used_keys-add_usages key r usages (add_usage name usage types) nonempty one.1)

used_keys-clear_used :
    (r : Text) (types : Types)
    → (used_keys r (clear_used types) ≡ []) × (has_key r (clear_used types) ≡ has_key r types)
unfolding clear_used used_keys lookup
used_keys-clear_used r [] = (refl, refl)
used_keys-clear_used r ((k, info) ∷ types) =
    (ground (arith, used_keys-clear_used r types), ground (arith, used_keys-clear_used r types))

used_keys-dedupe_each :
    (key r : Text) (types : Types)
    → (member key (used_keys r (dedupe_each types)) ≡ member key (used_keys r types))
      × NoRepeats (used_keys r (dedupe_each types))
unfolding dedupe_each used_keys lookup
used_keys-dedupe_each key r [] = (refl, tt)
used_keys-dedupe_each key r ((k, info) ∷ types) = elim (Bool-cases (k == r)) [
  | inl same ↦
      rw same (ground (arith, member-dedupe key [] info.used_by), dedupe-NoRepeats [] info.used_by)
  | inr other ↦ rw other (used_keys-dedupe_each key r types)
]

-- After `buildUsedBy`, the `UsedBy` of a known type with a name, whatever it was before, has a usage
-- with an operation and a role exactly when some registered operation has the type in that role: as
-- the type of an HTTP request, response or parameter or of the message of an MQTT publication or
-- subscription, but not of an MQTT topic parameter. No two of the usages have the same operation
-- and role.
pub build_used_by-exact :
    (key r : Text) (g : OpenApiCollector)
    → r ≢ []
    → has_key r g.types ≡ true
    → (member key (used_keys r (build_used_by g).types) ≡ is_used_as key r g)
      × NoRepeats (used_keys r (build_used_by g).types)
unfolding build_used_by
build_used_by-exact key r g nonempty known =
    let cleared = used_keys-clear_used r g.types in
    let added =
      used_keys-add_usages key r (all_usages g) (clear_used g.types) nonempty (cleared.1 ∙ known) in
    let deduped = used_keys-dedupe_each key r (add_usages (all_usages g) (clear_used g.types)) in
    (ground (arith, deduped.0, added, cleared.0, uses-all_usages key r g), deduped.1)
