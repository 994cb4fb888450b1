-- ===== src/Lifecycle/Ownership.antt =====
-- lifecycle.py: what a snapshot records of a plan, `_snapshot_for_plan` and `_interface_ownership`.
use nslab.Base.{ℕ, String, Option, none, some, List, [], ◌∷◌, ◌<>◌, ◌==◌, string_eq, if◌then◌else◌}
use nslab.Base.Dict.{Dict, lookup, insert, values}
use nslab.Base.Int.{pos}
use nslab.Json.{Json, null, int, str, arr, object, Items, nil, cons}
use nslab.Error.{Result, ok, err, exception, ◌>>=◌}
use nslab.Plan.Address.{IpAddress}
use nslab.Plan.Types.{
  NodePlan, NodeKind, linux, bridge, EndpointPlan, LinkPlan, TopologyPlan, DevicePlan, vlan, vrf,
  bond, gre, ipip, vxlan, dummy, geneve, macvlan, ipvlan,
}
use nslab.Plan.Interfaces.{device_name}
use nslab.Inventory.Types.{InterfaceInventory, LiveInventory}
use nslab.Plan.Mtu.{link_ends}

abbrev texts : List String → Items
texts [] = nil
texts (s ∷ ss) = cons (str s) (texts ss)

abbrev number : ℕ → Json
number n = int (pos n)

abbrev optional : Option ℕ → Json
optional none = null
optional (some n) = number n

abbrev optional_text : Option String → Json
optional_text none = null
optional_text (some s) = str s

-- `str(address)` of the standard library is a parameter.
module _ (address_text : IpAddress → String) where
  -- The `ownership.update(...)` for the class of the device.
  unfoldable pub device_ownership : DevicePlan → Dict Json
  device_ownership (vlan d) =
      ("kind", str "vlan") ∷ ("parent", str d.link) ∷ ("vlan_id", number d.vlan_id) ∷ []
  device_ownership (vrf d) = ("kind", str "vrf") ∷ ("vrf_table", number d.table) ∷ []
  device_ownership (bond d) =
      ("kind", str "bond")
      ∷ ("bond_mode", str d.mode)
      ∷ ("interfaces", arr (texts d.interfaces))
      ∷ []
  device_ownership (dummy d) = ("kind", str "dummy") ∷ []
  device_ownership (geneve d) =
      ("kind", str "geneve")
      ∷ ("vni", number d.vni)
      ∷ ("link", str d.link)
      ∷ ("remote", str (address_text d.remote))
      ∷ ("dst_port", number d.dst_port)
      ∷ []
  device_ownership (gre d) =
      ("kind", str "gre")
      ∷ ("link", str d.link)
      ∷ ("local", str (address_text d.local))
      ∷ ("remote", str (address_text d.remote))
      ∷ ("key", optional d.key)
      ∷ ("ttl", number d.ttl)
      ∷ []
  device_ownership (ipip d) =
      ("kind", str "ipip")
      ∷ ("link", str d.link)
      ∷ ("local", str (address_text d.local))
      ∷ ("remote", str (address_text d.remote))
      ∷ ("ttl", number d.ttl)
      ∷ []
  device_ownership (macvlan d) =
      ("kind", str "macvlan") ∷ ("parent", str d.link) ∷ ("mode", str d.mode) ∷ []
  device_ownership (ipvlan d) =
      ("kind", str "ipvlan") ∷ ("parent", str d.link) ∷ ("mode", str d.mode) ∷ []
  device_ownership (vxlan d) =
      ("kind", str "vxlan")
      ∷ ("vni", number d.vni)
      ∷ ("link", str d.link)
      ∷ ("local", str (address_text d.local))
      ∷ ("remote", str (address_text d.remote))
      ∷ ("dst_port", number d.dst_port)
      ∷ []

  abbrev key_error : {A : Type 0} → String → Result A
  key_error k = err (exception "KeyError" k [])

  -- `inventory.namespaces[namespace].interfaces[name]`
  unfoldable pub observed : LiveInventory → String → String → Result InterfaceInventory
  observed inventory namespace name = elim (lookup namespace inventory.namespaces) [
    | none ↦ key_error namespace
    | some n ↦ elim (lookup name n.interfaces) [ none ↦ key_error name | some i ↦ ok i ]
  ]

  -- A field of an observed interface, or `None` before there is an inventory.
  abbrev observed_field :
      (InterfaceInventory → Json) → Option LiveInventory → String → String → Result Json
  observed_field f none namespace name = ok null
  observed_field f (some inventory) namespace name =
      observed inventory namespace name >>= λ i. ok (f i)

  abbrev ifindex : Option LiveInventory → String → String → Result Json
  ifindex = observed_field (λ (i : InterfaceInventory). optional i.ifindex)

  abbrev link_id : Option LiveInventory → String → String → Result Json
  link_id = observed_field (λ (i : InterfaceInventory). optional_text i.link_id)

  -- `cast(str, node.bridge_name)`; a bridge node has a bridge name.
  abbrev bridge_text : Option String → String
  bridge_text none = "None"
  bridge_text (some s) = s

  abbrev own_bridge :
      String → NodePlan → NodeKind → Option LiveInventory → Dict Json → Result (Dict Json)
  own_bridge node_name node linux inventory result = ok result
  own_bridge node_name node bridge inventory result = do
    let name = bridge_text node.bridge_name
    index ← ifindex inventory node.namespace name
    ok (
        insert (node_name <> ":" <> name)
          (object (
            ("name", str name)
            ∷ ("kind", str "bridge")
            ∷ ("namespace", str node.namespace)
            ∷ ("ifindex", index)
            ∷ []))
          result)

  abbrev own_devices :
      String → String → List DevicePlan → Option LiveInventory → Dict Json → Result (Dict Json)
  own_devices node namespace [] inventory result = ok result
  own_devices node namespace (d ∷ ds) inventory result = do
    index ← ifindex inventory namespace (device_name d)
    own_devices node namespace ds inventory (
        insert (node <> ":" <> device_name d)
          (object (
            ("name", str (device_name d))
            ∷ ("namespace", str namespace)
            ∷ ("ifindex", index)
            ∷ device_ownership d))
          result)

  abbrev own_end : String → EndpointPlan → Option LiveInventory → Dict Json → Result (Dict Json)
  own_end node e inventory result = do
    index ← ifindex inventory e.namespace e.interface
    id ← link_id inventory e.namespace e.interface
    ok (
        insert (node <> ":" <> e.interface)
          (object (
            ("name", str e.interface)
            ∷ ("kind", str "veth")
            ∷ ("namespace", str e.namespace)
            ∷ ("ifindex", index)
            ∷ ("temporary_name", str e.temporary_name)
            ∷ ("link_id", id)
            ∷ []))
          result)

  -- The ends of links that are at the node, in order.
  abbrev own_ends :
      String
      → List (LinkPlan × EndpointPlan)
      → Option LiveInventory
      → Dict Json
      → Result (Dict Json)
  own_ends node [] inventory result = ok result
  own_ends node ((l, e) ∷ rest) inventory result =
      let here = (own_end node e inventory result >>= own_ends node rest inventory) in
      let skip = own_ends node rest inventory result in if e.node == node then here else skip

  abbrev own_nodes :
      TopologyPlan → Dict NodePlan → Option LiveInventory → Dict Json → Result (Dict Json)
  own_nodes plan [] inventory result = ok result
  own_nodes plan ((name, node) ∷ nodes) inventory result = do
    bridged ← own_bridge name node node.kind inventory result
    owned ← own_devices name node.namespace (values node.devices) inventory bridged
    linked ← own_ends name (link_ends plan.links) inventory owned
    own_nodes plan nodes inventory linked

  -- `_interface_ownership`
  unfoldable pub interface_ownership : TopologyPlan → Option LiveInventory → Result (Dict Json)
  interface_ownership plan inventory = own_nodes plan plan.nodes inventory []
