-- ===== src/Loader/Channels.antt =====
-- Which modules are loaded, and where they are found.
use mathlib.Core.List.{append_assoc, append-nil}
use plaid.Base.{
  ◌≡◌, inl, inr, refl, sym, ◌∙◌, String, str_eq, eq_iff, Option, none, some, List, [], ◌∷◌, ◌++◌,
  arith, Option-cases, Bool-cases, if◌then◌else◌,
}
use plaid.Base.Dict.{lookup, lookup-insert, or_else}
use plaid.Env.{PlaidModule}
use plaid.Loader.Load.{PlaidModules, add_module, add_modules}

abbrev or_nothing : Option (List PlaidModule) → List PlaidModule
or_nothing none = []
or_nothing (some channel) = channel

-- The modules that messages of a type are for.
abbrev pub channel_of : String → PlaidModules → List PlaidModule
channel_of type_ mods = or_nothing (lookup type_ mods.channels)

-- Those of a list with this log type, in their order, and the last one of this name.
abbrev pub of_type : String → List PlaidModule → List PlaidModule
of_type type_ [] = []
of_type type_ (m ∷ rest) =
    let others = of_type type_ rest in if str_eq m.logtype type_ then m ∷ others else others

abbrev pub last_named : String → List PlaidModule → Option PlaidModule
last_named name [] = none
last_named name (m ∷ rest) =
    or_else (last_named name rest) (if str_eq m.name name then some m else none)

add_module-channel_of :
    (type_ : String) (m : PlaidModule) (mods : PlaidModules)
    → channel_of type_ (add_module m mods)
      ≡ (if str_eq m.logtype type_ then channel_of type_ mods ++ m ∷ [] else channel_of type_ mods)
unfolding add_module
add_module-channel_of type_ m mods = elim (Option-cases (lookup m.logtype mods.channels)) [
  | inl fresh ↦
      ground
        (arith, fresh, eq_iff m.logtype type_, lookup-insert m.logtype type_ (m ∷ []) mods.channels)
  | inr (channel, is) ↦ ground (
    arith,
    is,
    eq_iff m.logtype type_,
    lookup-insert m.logtype type_ (channel ++ m ∷ []) mods.channels,
  )
]

pub add_modules-channel_of :
    (type_ : String) (ms : List PlaidModule) (mods : PlaidModules)
    → channel_of type_ (add_modules ms mods) ≡ channel_of type_ mods ++ of_type type_ ms
unfolding add_modules
add_modules-channel_of type_ [] mods = sym (append-nil (channel_of type_ mods))
add_modules-channel_of type_ (m ∷ rest) mods =
    add_modules-channel_of type_ rest (add_module m mods)
    ∙ elim (Bool-cases (str_eq m.logtype type_)) [
      | inl same ↦
          let added = add_module-channel_of type_ m mods in
          rw (added, same) (append_assoc (channel_of type_ mods) (m ∷ []) (of_type type_ rest))
      | inr other ↦ let added = add_module-channel_of type_ m mods in rw (added, other) refl
    ]

add_module-modules :
    (name : String) (m : PlaidModule) (mods : PlaidModules)
    → lookup name (add_module m mods).modules
      ≡ (if str_eq m.name name then some m else lookup name mods.modules)
unfolding add_module
add_module-modules name m mods = elim (Option-cases (lookup m.logtype mods.channels)) [
  | inl fresh ↦ ground (arith, fresh, lookup-insert m.name name m mods.modules)
  | inr (channel, is) ↦ ground (arith, is, lookup-insert m.name name m mods.modules)
]

pub add_modules-modules :
    (name : String) (ms : List PlaidModule) (mods : PlaidModules)
    → lookup name (add_modules ms mods).modules
      ≡ or_else (last_named name ms) (lookup name mods.modules)
unfolding add_modules
add_modules-modules name [] mods = refl
add_modules-modules name (m ∷ rest) mods =
    add_modules-modules name rest (add_module m mods) ∙ elim (Option-cases (last_named name rest)) [
      | inl last ↦ elim (Bool-cases (str_eq m.name name)) [
        | inl same ↦ let added = add_module-modules name m mods in rw (last, added, same) refl
        | inr other ↦ let added = add_module-modules name m mods in rw (last, added, other) refl
      ]
      | inr (later, is) ↦ rw is refl
    ]
