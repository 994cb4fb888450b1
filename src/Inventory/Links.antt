-- ===== src/Inventory/Links.antt =====
-- backend/base.py: the veth pairs of an inventory, by the link identity that both ends share.
use nslab.Base.{
  String, Bool, true, false, not, ◌&&◌, Option, none, some, List, [], ◌∷◌, ◌++◌, ◌<>◌, ◌==◌,
  string_eq, option_eq, pair_eq, contains, if◌then◌else◌,
}
use mathlib.Core.Option
pub mod Pairs
pub mod Veths
use nslab.Base.Dict.{Dict, lookup}
use nslab.Json.{Json, str, obj, get}
use nslab.Plan.Types.{EndpointPlan, LinkPlan, TopologyPlan}
use nslab.Inventory.Types.{InterfaceInventory, NamespaceInventory, LiveInventory}
use nslab.Inventory.Equality.{same_set}

-- A namespace and the name of an interface in it.
abbrev pub Place : Type 0
Place = String × String

-- `isinstance(link_id, str) and link_id`
abbrev pub usable : Option String → Option String
usable none = none
usable (some s) = if s == "" then none else some s

-- The veths of one namespace, with their link identities; `none` where one has no usable identity.
unfoldable pub veths_of : String → Dict InterfaceInventory → Option (List (String × Place))
veths_of namespace [] = some []
veths_of namespace ((name, i) ∷ rest) =
    let others = veths_of namespace rest in
    if i.kind == "veth"
    then elim (usable i.link_id) [
      | none ↦ none
      | some id ↦ Option.map (λ o. (id, (namespace, name)) ∷ o) others
    ]
    else others

-- `observed_groups`, as the pairs of an identity and a place that has it
unfoldable pub observed_veths : Dict NamespaceInventory → Option (List (String × Place))
unfolding veths_of
observed_veths [] = some []
observed_veths ((namespace, n) ∷ rest) = elim (veths_of namespace n.interfaces) [
  | none ↦ none
  | some here ↦ Option.map (λ others. here ++ others) (observed_veths rest)
]

-- `observed_groups.get(link_id)`
abbrev pub group : String → List (String × Place) → List Place
group id [] = []
group id ((j, place) ∷ rest) =
    let others = group id rest in if id == j then place ∷ others else others

-- `inventory.namespaces.get(...).interfaces.get(...)`
abbrev pub interface_at : LiveInventory → EndpointPlan → Option InterfaceInventory
interface_at inventory e = elim (lookup e.namespace inventory.namespaces) [
  | none ↦ none
  | some n ↦ lookup e.interface n.interfaces
]

abbrev pub observed_id : LiveInventory → EndpointPlan → Option String
observed_id inventory e = elim (interface_at inventory e) [
  | none ↦ none
  | some i ↦ usable i.link_id
]

abbrev pub place : EndpointPlan → Place
place e = (e.namespace, e.interface)

-- The tests of one link, on the identities that were read at its two ends.
abbrev pub pair_of : Option String → Option String → Option String
pair_of (some l) (some r) = if r == l then some l else none
pair_of none r = none
pair_of (some l) none = none

unfoldable pub match_links :
    LiveInventory → List (String × Place) → List String → List LinkPlan → Bool
match_links inventory veths seen [] = true
match_links inventory veths seen (l ∷ ls) =
    elim (pair_of (observed_id inventory l.left) (observed_id inventory l.right)) [
      | none ↦ false
      | some id ↦
          not (contains seen id)
          && same_set (group id veths) (place l.left ∷ place l.right ∷ [])
          && match_links inventory veths (id ∷ seen) ls
    ]

-- `_links_match`
unfoldable pub links_match : TopologyPlan → LiveInventory → Bool
links_match plan inventory = elim (observed_veths inventory.namespaces) [
  | none ↦ false
  | some veths ↦ match_links inventory veths [] plan.links
]

-- `ownership.get("link_id")`, where the ownership is an object and the identity a non-empty text
abbrev text_of : Option Json → Option String
text_of (some (str s)) = usable (some s)
text_of _ = none

abbrev recorded_link_id : Option Json → Option String
recorded_link_id (some (obj f)) = text_of (get "link_id" f)
recorded_link_id _ = none

abbrev pub recorded_id : Dict Json → EndpointPlan → Option String
recorded_id recorded e = recorded_link_id (lookup (e.node <> ":" <> e.interface) recorded)

-- The recorded identity of an end, where the interface there has that identity.
abbrev pub confirmed_id : LiveInventory → Dict Json → EndpointPlan → Option String
confirmed_id inventory recorded e = elim (recorded_id recorded e) [
  | none ↦ none
  | some id ↦ elim (interface_at inventory e) [
    | none ↦ none
    | some i ↦ if i.link_id == some id then some id else none
  ]
]

unfoldable pub match_recorded : LiveInventory → Dict Json → List String → List LinkPlan → Bool
match_recorded inventory recorded seen [] = true
match_recorded inventory recorded seen (l ∷ ls) =
    elim (pair_of (confirmed_id inventory recorded l.left)
      (confirmed_id inventory recorded l.right)) [
        | none ↦ false
        | some id ↦ not (contains seen id) && match_recorded inventory recorded (id ∷ seen) ls
      ]

-- `recorded_link_ids_match_inventory`
unfoldable pub recorded_link_ids_match_inventory : TopologyPlan → LiveInventory → Dict Json → Bool
recorded_link_ids_match_inventory plan inventory recorded =
    links_match plan inventory && match_recorded inventory recorded [] plan.links
