-- ===== src/Fake/Dropped.antt =====
-- backend/fake.py, `delete_namespace`: what one round of its loop does to the peers and the interfaces.
use nslab.Base.{
  String, ◌≡◌, refl, sym, ◌∙◌, subst, Bool, true, false, not, Option, none, some, List, ◌==◌,
  string_eq, filter, if◌then◌else◌, inl, inr, beq_iff, Bool-cases,
}
use nslab.Base.Dict.{Dict, lookup, insert, erase, has_key, lookup-insert}
use nslab.Error.{Result, ok, err}
use nslab.Exec.{pure, lift, given, ◌>>=◌}
use nslab.Plan.Types.{RoutePlan}
use nslab.Fake.{routes_without, set_namespace, lose_end, drop_end, drop_endpoint}
use nslab.Fake.State.{
  FakeNamespaceState, FakeNetworkBackend, EndpointKey, key_beq, peer_of, drop_peer, read, write,
}
use nslab.Fake.Paired.{has_end, holds, key_beq_iff}
use nslab.Fake.Unlinked.{has_key-erase, unlinked}

pub has_end_lem :
    (k : EndpointKey) (d : Dict FakeNamespaceState) (o : Option FakeNamespaceState)
    → lookup k.0 d ≡ o
    → has_end k d ≡ holds k.1 o
has_end_lem k d none q = rw (has_end, q) refl
has_end_lem k d (some s) q = rw (has_end, q) refl

-- The ends where a namespace is put in the place of one with one interface more.
has_end_cut :
    (p k : EndpointKey) (s t : FakeNamespaceState) (d : Dict FakeNamespaceState)
    → lookup p.0 d ≡ some s
    → ((i : String) → has_key i t.interfaces ≡ (if i == p.1 then false else has_key i s.interfaces))
    → has_end k (insert p.0 t d) ≡ (if key_beq k p then false else has_end k d)
has_end_cut (m, j) (n, i) s t d found cut =
    let after : lookup n (insert m t d) ≡ (if n == m then some t else lookup n d) =
      lookup-insert m n t d in
    elim (Bool-cases (n == m)) [
      | inl same ↦
          let here : lookup n d ≡ some s =
            subst (λ x. lookup x d ≡ some s) (sym ((beq_iff n m).0 same)) found in
          has_end_lem (n, i) (insert m t d) (some t) (after ∙ rw same refl)
          ∙ cut i
          ∙ rw (same, has_end_lem (n, i) d (some s) here) refl
      | inr other ↦
          has_end_lem (n, i) (insert m t d) (lookup n d) (after ∙ rw other refl)
          ∙ sym (has_end_lem (n, i) d _ refl)
          ∙ rw other refl
    ]

-- The state after is the one before without the end `p`.
pub record Lost (p : EndpointKey) (before after : FakeNetworkBackend) : Type 0 where
  pub same_peers : after.veth_peers ≡ before.veth_peers
  pub ends :
      (k : EndpointKey)
      → has_end k after.namespaces ≡ (if key_beq k p then false else has_end k before.namespaces)

module _ (p : EndpointKey) (s : FakeNamespaceState) (b : FakeNetworkBackend)
    (found : lookup p.0 b.namespaces ≡ some s) where
  abbrev left : FakeNamespaceState
  left = record s { interfaces = erase p.1 s.interfaces }

  cut_once : Lost p b (set_namespace p.0 left b)
  cut_once = record {
    same_peers = refl;
    ends = λ k. has_end_cut p k s left b.namespaces found (λ i. has_key-erase i p.1 s.interfaces);
  }

  twice : (t c : Bool) → (if t then false else (if t then false else c)) ≡ (if t then false else c)
  twice true c = refl
  twice false c = refl

  cut_again :
      (t : FakeNamespaceState)
      → ((i : String) → has_key i t.interfaces ≡ has_key i left.interfaces)
      → Lost p b (set_namespace p.0 t (set_namespace p.0 left b))
  cut_again t same = record {
    same_peers = refl;
    ends = λ k.
        has_end_cut p k left t (insert p.0 left b.namespaces)
          (lookup-insert p.0 p.0 left b.namespaces ∙ rw ((beq_iff p.0 p.0).1 refl) refl)
          (λ i.
            same i
            ∙ has_key-erase i p.1 s.interfaces
            ∙ sym
                (rw (has_key-erase i p.1 s.interfaces) (twice (i == p.1) (has_key i s.interfaces))))
        ∙ rw (cut_once.ends k) (twice (key_beq k p) (has_end k b.namespaces));
  }

  routes_read :
      (r : Result (List RoutePlan))
      → Lost p b
          ((lift r >>= λ routes. write (
              set_namespace p.0 (record left {
                routes = routes;
                neighbors = filter (λ n. not (n.dev == p.1)) s.neighbors;
              })))
            (set_namespace p.0 left b)).1
  unfolding write ◌>>=◌
  routes_read (ok routes) = cut_again _ (λ i. refl)
  routes_read (err x) = cut_once

  lose_end-Lost : Lost p b (lose_end p s b).1
  unfolding write ◌>>=◌
  lose_end-Lost = routes_read (routes_without p.1 s.routes)

-- Also where the namespace of the end is not there.
lost :
    (p : EndpointKey) (b : FakeNetworkBackend) (o : Option FakeNamespaceState)
    → lookup p.0 b.namespaces ≡ o
    → Lost p b (given o (pure tt) (lose_end p) b).1
unfolding ◌>>=◌
lost p b none q = record {
  same_peers = refl;
  ends = λ k. elim (Bool-cases (key_beq k p)) [
    | inl same ↦ rw same (
        has_end_lem k b.namespaces none
          (subst (λ x. lookup x.0 b.namespaces ≡ none) (sym ((key_beq_iff k p).0 same)) q))
    | inr other ↦ rw other refl
  ];
}
lost p b (some s) q = lose_end-Lost p s b q

-- The round for the end `e`, by whether it has a peer.
pub data Dropped (e : EndpointKey) (before after : FakeNetworkBackend) : Type 0 where
  single :
      peer_of e before.veth_peers ≡ none
      → after.veth_peers ≡ drop_peer e before.veth_peers
      → ((k : EndpointKey) → has_end k after.namespaces ≡ has_end k before.namespaces)
      → Dropped e before after
  linked :
      (p : EndpointKey)
      → peer_of e before.veth_peers ≡ some p
      → after.veth_peers ≡ unlinked e p before.veth_peers
      → ((k : EndpointKey)
          → has_end k after.namespaces
            ≡ (if key_beq k p then false else has_end k before.namespaces))
      → Dropped e before after

dropped :
    (e : EndpointKey) (b : FakeNetworkBackend) (o : Option EndpointKey)
    → peer_of e b.veth_peers ≡ o
    → Dropped e b
        (given o (pure tt) drop_end (record b { veth_peers = drop_peer e b.veth_peers })).1
unfolding read write ◌>>=◌
dropped e b none q = single q refl (λ k. refl)
dropped e b (some p) q =
    let after = lost p (record b { veth_peers = unlinked e p b.veth_peers }) _ refl in
    linked p q (Lost.same_peers after) (Lost.ends after)

pub drop_endpoint-Dropped :
    (e : EndpointKey) (b : FakeNetworkBackend) → Dropped e b (drop_endpoint e b).1
unfolding drop_endpoint read write ◌>>=◌
drop_endpoint-Dropped e b = dropped e b _ refl
