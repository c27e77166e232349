-- ===== src/Maps/Chain.antt =====
-- Chains of setters of the free-form maps (internal/core/properties.go, traits.go, integrations.go): what the
-- map holds at their end.
use origamy_go_sdk.Base.{
  ◌≡◌, refl, ap, ◌∙◌, String, true, false, Option, none, some, List, [], ◌∷◌, ◌++◌, arith,
  if◌then◌else◌,
}
use origamy_go_sdk.Data.{Value, bool}
use origamy_go_sdk.Data.Dict.{Dict, same, lookup, insert, lookup-insert}
use origamy_go_sdk.Maps.{Map, set}
use origamy_go_sdk.Maps.Integrations.{enable, disable, enable_all, disable_all}

-- A chain of calls; a panic ends it.
abbrev pub and_then : Option Map → (Map → Option Map) → Option Map
and_then none f = none
and_then (some m) f = f m

-- What an application does with the integrations.
pub data Call : Type 0 where
  enables disables : String → Call
  enables_all disables_all : Call
  sets : String → Value → Call

unfoldable pub call : Call → Map → Option Map
call (enables name) m = enable name m
call (disables name) m = disable name m
call enables_all m = enable_all m
call disables_all m = disable_all m
call (sets name value) m = set name value m

-- The calls, the first one last in the list.
unfoldable pub chain : List Call → Map → Option Map
unfolding call
chain [] m = some m
chain (c ∷ cs) m = and_then (chain cs m) (call c)

-- What a call decides about a name.
abbrev pub decides : Call → String × Value
decides (enables name) = (name, bool true)
decides (disables name) = (name, bool false)
decides enables_all = ("all", bool true)
decides disables_all = ("all", bool false)
decides (sets name value) = (name, value)

-- The decision of the last call that names it; what the map held before for a name of no call.
abbrev pub decided : Dict Value → String → List Call → Option Value
decided start name [] = lookup name start
decided start name (c ∷ cs) =
    let rest = decided start name cs in
    let d = decides c in if same name d.0 then some d.1 else rest

-- A call on a map that is not nil.
call_inserts :
    (c : Call) (m : Dict Value)
    → call c (some m) ≡ some (some (insert (decides c).0 (decides c).1 m))
unfolding call set enable disable enable_all disable_all
call_inserts (enables name) m = refl
call_inserts (disables name) m = refl
call_inserts enables_all m = refl
call_inserts disables_all m = refl
call_inserts (sets name value) m = refl

inserts-chain :
    (c : Call) (cs : List Call) (start m : Dict Value)
    → chain cs (some start) ≡ some (some m)
    → chain (c ∷ cs) (some start) ≡ some (some (insert (decides c).0 (decides c).1 m))
unfolding chain
inserts-chain c cs start m e = ap (λ o. and_then o (call c)) e ∙ call_inserts c m

-- A chain of calls on integrations that are not nil does not panic, and the map then holds, for each
-- name, what the last call that names it has decided, and what it held before for a name of no
-- call; `EnableAll` and `DisableAll` name "all".
pub chain-decided :
    (start : Dict Value) (cs : List Call)
    → (m : Dict Value) × (chain cs (some start) ≡ some (some m))
      × ((name : String) → lookup name m ≡ decided start name cs)
unfolding chain
chain-decided start [] = (start, refl, λ name. refl)
chain-decided start (c ∷ cs) =
    let (m, e, h) = chain-decided start cs in
    let d = decides c in
    (
      insert d.0 d.1 m,
      inserts-chain c cs start m e,
      λ name.
          lookup-insert name d.0 d.1 m ∙ ap (λ o. if same name d.0 then some d.1 else o) (h name),
    )

-- A call on a nil map panics, and the chain with it.
pub nil_panics : (c : Call) (cs : List Call) → chain (cs ++ c ∷ []) none ≡ none
unfolding chain call set enable disable enable_all disable_all
nil_panics c [] = ground arith
nil_panics c (d ∷ cs) = ap (λ o. and_then o (call d)) (nil_panics c cs)
