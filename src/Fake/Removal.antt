-- ===== src/Fake/Removal.antt =====
-- backend/fake.py, `delete_namespace`: both ends of each pair of the namespace go, and then the namespace.
use nslab.Base.{
  String, ◌≡◌, ◌≢◌, refl, sym, ap, ◌∙◌, subst, ◌↔◌, true, false, none, some, List, [], ◌∷◌, ◌==◌,
  string_eq, any, map, filter, All, ◌⊎◌, inl, inr, arith, beq_iff, Bool-cases,
}
use mathlib.Core.Option.{some-injective}
use nslab.Base.Dict.{Dict, lookup, erase, lookup-erase}
use nslab.Exec.{◌>>=◌, ◌>>◌}
use nslab.Exec.Hoare.{Hoare, Hoare-Keeps, Hoare-bind, OnOk}
use nslab.Fake.{drop_endpoint, drop_endpoints, delete_namespace}
use nslab.Fake.State.{
  FakeNamespaceState, FakeNetworkBackend, EndpointKey, key_beq, peer_of, read, write, record_call,
}
use nslab.Fake.Paired.{IsPaired, has_end, key_beq_iff}
use nslab.Fake.Kept.{Local, Local-IsPaired, Keeps-record_call}
use nslab.Fake.Unlinked.{
  unlinked, kept_peer, unlinked_kept, unlinked_symmetric, other_end, drop_single,
}
use nslab.Fake.Dropped.{Dropped, single, linked, drop_endpoint-Dropped, has_end_lem}

-- The ends in the list are all of the namespace that have a peer.
abbrev Only : String → List EndpointKey → FakeNetworkBackend → Type 0
Only namespace es b =
    (k j : EndpointKey)
    → k.0 ≡ namespace
    → peer_of k b.veth_peers ≡ some j
    → any (key_beq k) es ≡ true

listed :
    (namespace : String) (k j : EndpointKey) (d : List (EndpointKey × EndpointKey))
    → (k.0 == namespace) ≡ true
    → peer_of k d ≡ some j
    → any (key_beq k) (filter (λ e. e.0 == namespace) (map (λ (e, _). e) d)) ≡ true
listed namespace k j [] h q = absurd (cc q)
listed namespace k j ((i, w) ∷ d) h q = ground (
  arith,
  beq_iff k.0 i.0,
  beq_iff k.1 i.1,
  beq_iff k.0 namespace,
  beq_iff i.0 namespace,
  listed namespace k j d h,
)

all_inside :
    (namespace : String) (es : List EndpointKey)
    → All (λ e. e.0 ≡ namespace) (filter (λ e. e.0 == namespace) es)
all_inside namespace [] = tt
all_inside namespace (e ∷ es) = elim (Bool-cases (e.0 == namespace)) [
  | inl same ↦ rw same ((beq_iff e.0 namespace).0 same, all_inside namespace es)
  | inr other ↦ rw other (all_inside namespace es)
]

module _ (namespace : String) (peers : List (EndpointKey × EndpointKey))
    (spaces : Dict FakeNamespaceState) where
  -- The state in the loop, where the ends `es` are left to do: `peers` and `spaces` are those at the start.
  record Remaining (es : List EndpointKey) (b : FakeNetworkBackend) : Type 0 where
    paired : IsPaired b
    only : Only namespace es b
    fewer_peers : (k j : EndpointKey) → peer_of k b.veth_peers ≡ some j → peer_of k peers ≡ some j
    other_peers :
        (k j : EndpointKey)
        → peer_of k peers ≡ some j
        → k.0 ≢ namespace
        → j.0 ≢ namespace
        → peer_of k b.veth_peers ≡ some j
    fewer_ends : (k : EndpointKey) → has_end k b.namespaces ≡ true → has_end k spaces ≡ true
    other_ends :
        (k : EndpointKey)
        → has_end k spaces ≡ true
        → k.0 ≢ namespace
        → ((j : EndpointKey) → peer_of k peers ≡ some j → j.0 ≢ namespace)
        → has_end k b.namespaces ≡ true
    lost_ends :
        (k j : EndpointKey)
        → peer_of k peers ≡ some j
        → k.0 ≢ namespace
        → j.0 ≡ namespace
        → (peer_of k b.veth_peers ≡ some j) ⊎ (has_end k b.namespaces ≡ false)

  module _ (e : EndpointKey) (es : List EndpointKey) (inside : e.0 ≡ namespace) where
    outside : (k : EndpointKey) → k.0 ≢ namespace → k ≢ e
    outside k h same = h (ap (λ x. x.0) same ∙ inside)

    round :
        {b after : FakeNetworkBackend}
        → Remaining (e ∷ es) b
        → Dropped e b after
        → Remaining es after
    round {b} {after} h (single free same_peers ends) =
        let same : (k : EndpointKey) → peer_of k after.veth_peers ≡ peer_of k b.veth_peers =
          λ k. ap (peer_of k) same_peers ∙ drop_single k e b.veth_peers free in
        record {
          paired = record {
            symmetric = λ k j q. same j ∙ h.paired.symmetric k j (sym (same k) ∙ q);
            there = λ k j q. ends k ∙ h.paired.there k j (sym (same k) ∙ q);
          };
          only = λ k j here q.
              other_end k e es
                (λ is_e.
                  absurd (
                    cc
                      (free, subst (λ x. peer_of x b.veth_peers ≡ some j) is_e (sym (same k) ∙ q))))
                (h.only k j here (sym (same k) ∙ q));
          fewer_peers = λ k j q. h.fewer_peers k j (sym (same k) ∙ q);
          other_peers = λ k j q out_k out_j. same k ∙ h.other_peers k j q out_k out_j;
          fewer_ends = λ k q. h.fewer_ends k (sym (ends k) ∙ q);
          other_ends = λ k q out apart. ends k ∙ h.other_ends k q out apart;
          lost_ends = λ k j q out_k in_j. elim (h.lost_ends k j q out_k in_j) [
            | inl still ↦ inl (same k ∙ still)
            | inr gone ↦ inr (ends k ∙ gone)
          ];
        }
    round {b} {after} h (linked p q_e same_peers ends) =
        let d : List (EndpointKey × EndpointKey) = b.veth_peers in
        let same : (k : EndpointKey) → peer_of k after.veth_peers ≡ peer_of k (unlinked e p d) =
          λ k. ap (peer_of k) same_peers in
        let back : peer_of p d ≡ some e = h.paired.symmetric e p q_e in
        let at_p : (k : EndpointKey) → key_beq k p ≡ true → has_end k after.namespaces ≡ false =
          λ k yes'. ends k ∙ rw yes' refl in
        let not_p : (k : EndpointKey)
            → key_beq k p ≡ false
            → has_end k after.namespaces ≡ has_end k b.namespaces =
          λ k no'. ends k ∙ rw no' refl in
        let kept : (k : EndpointKey) → k ≢ p → has_end k after.namespaces ≡ has_end k b.namespaces =
          λ k apart. elim (Bool-cases (key_beq k p)) [
            | inl yes' ↦ absurd (apart ((key_beq_iff k p).0 yes'))
            | inr no' ↦ not_p k no'
          ] in
        record {
          paired = record {
            symmetric = λ k j q.
                same j ∙ unlinked_symmetric e p d q_e h.paired.symmetric k j (sym (same k) ∙ q);
            there = λ k j q.
                let (_, (apart, before)) = kept_peer e p d k j (sym (same k) ∙ q) in
                kept k apart ∙ h.paired.there k j before;
          };
          only = λ k j here q.
              let (not_e, (_, before)) = kept_peer e p d k j (sym (same k) ∙ q) in
              other_end k e es not_e (h.only k j here before);
          fewer_peers = λ k j q.
              let (_, (_, before)) = kept_peer e p d k j (sym (same k) ∙ q) in
              h.fewer_peers k j before;
          other_peers = λ k j q out_k out_j.
              let now : peer_of k d ≡ some j = h.other_peers k j q out_k out_j in
              same k
              ∙ unlinked_kept e p d k (outside k out_k) (λ is_p. out_j (
                  ap (λ (x : EndpointKey). x.0)
                    (some-injective _ _
                      (sym now ∙ subst (λ x. peer_of x d ≡ some e) (sym is_p) back))
                  ∙ inside))
              ∙ now;
          fewer_ends = λ k q. elim (Bool-cases (key_beq k p)) [
            | inl yes' ↦ absurd (cc (q, at_p k yes'))
            | inr no' ↦ h.fewer_ends k (sym (not_p k no') ∙ q)
          ];
          other_ends = λ k q out apart.
              kept k (λ is_p.
                apart e (h.fewer_peers k e (subst (λ x. peer_of x d ≡ some e) (sym is_p) back))
                  inside)
              ∙ h.other_ends k q out apart;
          lost_ends = λ k j q out_k in_j. elim (Bool-cases (key_beq k p)) [
            | inl yes' ↦ inr (at_p k yes')
            | inr no' ↦ elim (h.lost_ends k j q out_k in_j) [
              | inl still ↦ inl (
                  same k
                  ∙ unlinked_kept e p d k (outside k out_k)
                      (λ is_p. absurd (cc (no', (key_beq_iff k p).1 is_p)))
                  ∙ still)
              | inr gone ↦ inr (not_p k no' ∙ gone)
            ]
          ];
        }

  -- An error leaves the pairs in order too.
  drop_endpoints-Remaining :
      (es : List EndpointKey)
      → All (λ e. e.0 ≡ namespace) es
      → Hoare (Remaining es) (drop_endpoints es) (λ r b. IsPaired b × OnOk (λ _. Remaining []) r b)
  unfolding drop_endpoints ◌>>=◌
  drop_endpoints-Remaining [] inside = record { at = λ b h. (h.paired, h) }
  drop_endpoints-Remaining (e ∷ es) (inside, more) =
      Hoare-bind {Q = λ _. Remaining es} (drop_endpoint e) _
        (record { at = λ b h. round e es inside h (drop_endpoint-Dropped e b) })
        (λ a. drop_endpoints-Remaining es more) (λ x b h. (h.paired, tt))

-- What is left of the peers and of the interfaces of the backend `before` once the namespace is deleted: the
-- pairs that have no end in it, and the interfaces outside it whose peer is not in it.
pub record Gone (namespace : String) (before after : FakeNetworkBackend) : Type 0 where
  pub absent : lookup namespace after.namespaces ≡ none
  pub peers :
      (k j : EndpointKey)
      → (peer_of k after.veth_peers ≡ some j)
        ↔ ((peer_of k before.veth_peers ≡ some j) × ((k.0 ≢ namespace) × (j.0 ≢ namespace)))
  pub ends :
      (k : EndpointKey)
      → (has_end k after.namespaces ≡ true) ↔ (
          (has_end k before.namespaces ≡ true)
          × ((k.0 ≢ namespace)
              × ((j : EndpointKey) → peer_of k before.veth_peers ≡ some j → j.0 ≢ namespace)))

-- The peers and the namespaces are those.
record Holds (peers : List (EndpointKey × EndpointKey)) (spaces : Dict FakeNamespaceState)
    (b : FakeNetworkBackend) : Type 0 where
  paired : IsPaired b
  same_peers : b.veth_peers ≡ peers
  same_spaces : b.namespaces ≡ spaces

Local-Holds :
    (peers : List (EndpointKey × EndpointKey)) (spaces : Dict FakeNamespaceState)
    → Local (Holds peers spaces)
Local-Holds peers spaces = record {
  counted = λ b h. record {
    paired = Local-IsPaired.counted b h.paired;
    same_peers = h.same_peers;
    same_spaces = h.same_spaces;
  };
  indexed = λ b h. record {
    paired = Local-IsPaired.indexed b h.paired;
    same_peers = h.same_peers;
    same_spaces = h.same_spaces;
  };
}

module _ (namespace : String) (start : FakeNetworkBackend) where
  abbrev AtEnd : List EndpointKey → FakeNetworkBackend → Type 0
  AtEnd = Remaining namespace start.veth_peers start.namespaces

  no_peers :
      (b : FakeNetworkBackend)
      → AtEnd [] b
      → (k j : EndpointKey) → peer_of k b.veth_peers ≡ some j
      → (k.0 ≢ namespace) × (j.0 ≢ namespace)
  no_peers b h k j q = (
    (λ e. absurd (cc (h.only k j e q))),
    (λ e. absurd (cc (h.only j k e (h.paired.symmetric k j q)))),
  )

  end_erased :
      (k : EndpointKey) (d : Dict FakeNamespaceState)
      → k.0 ≢ namespace
      → has_end k (erase namespace d) ≡ has_end k d
  end_erased k d apart =
      let kept : lookup k.0 (erase namespace d) ≡ lookup k.0 d =
        lookup-erase namespace k.0 d ∙ ground (arith, beq_iff k.0 namespace, apart) in
      has_end_lem k (erase namespace d) _ kept ∙ sym (has_end_lem k d _ refl)

  end_inside :
      (k : EndpointKey) (d : Dict FakeNamespaceState)
      → has_end k (erase namespace d) ≡ true
      → k.0 ≢ namespace
  end_inside k d h inside =
      let gone : lookup k.0 (erase namespace d) ≡ none =
        lookup-erase namespace k.0 d ∙ rw ((beq_iff k.0 namespace).1 inside) refl in
      absurd (cc (h, has_end_lem k (erase namespace d) none gone))

  abbrev emptied : FakeNetworkBackend → FakeNetworkBackend
  emptied b = record b {
    namespaces = erase namespace b.namespaces;
    next_ifindex = erase namespace b.next_ifindex;
  }

  emptied-Gone :
      (b : FakeNetworkBackend)
      → AtEnd [] b
      → IsPaired (emptied b) × Gone namespace start (emptied b)
  emptied-Gone b h = (
    record {
      symmetric = h.paired.symmetric;
      there = λ k j q. end_erased k b.namespaces (no_peers b h k j q).0 ∙ h.paired.there k j q;
    },
    record {
      absent =
          lookup-erase namespace namespace b.namespaces
          ∙ rw ((beq_iff namespace namespace).1 refl) refl;
      peers = λ k j. (
        λ q. (h.fewer_peers k j q, no_peers b h k j q),
        λ (q, (out_k, out_j)). h.other_peers k j q out_k out_j,
      );
      ends = λ k. (
        λ there.
            let out = end_inside k b.namespaces there in
            let now : has_end k b.namespaces ≡ true = sym (end_erased k b.namespaces out) ∙ there in
            (
              h.fewer_ends k now,
              (
                out,
                λ j q in_j. elim (h.lost_ends k j q out in_j) [
                  | inl still ↦ absurd ((no_peers b h k j still).1 in_j)
                  | inr gone ↦ absurd (cc (now, gone))
                ],
              ),
            ),
        λ (there, (out, apart)). end_erased k b.namespaces out ∙ h.other_ends k there out apart,
      );
    },
  )

  after_call :
      (es : List EndpointKey)
      → All (λ e. e.0 ≡ namespace) es
      → Hoare
          (AtEnd es)
          (drop_endpoints es >> write emptied)
          (λ r b. IsPaired b × OnOk (λ _. Gone namespace start) r b)
  unfolding write
  after_call es inside =
      Hoare-bind _ _
        (drop_endpoints-Remaining namespace start.veth_peers start.namespaces es inside)
        (λ a. record { at = λ b (paired, h). emptied-Gone b h }) (λ x b h. h)

  begin :
      (b : FakeNetworkBackend)
      → Holds start.veth_peers start.namespaces b
      → AtEnd (filter (λ e. e.0 == namespace) (map (λ (e, _). e) b.veth_peers)) b
  begin b h = record {
    paired = h.paired;
    only = λ k j here q. listed namespace k j b.veth_peers ((beq_iff k.0 namespace).1 here) q;
    fewer_peers = λ k j q. sym (ap (peer_of k) h.same_peers) ∙ q;
    other_peers = λ k j q out_k out_j. ap (peer_of k) h.same_peers ∙ q;
    fewer_ends = λ k q. sym (ap (has_end k) h.same_spaces) ∙ q;
    other_ends = λ k q out apart. ap (has_end k) h.same_spaces ∙ q;
    lost_ends = λ k j q out_k in_j. inl (ap (peer_of k) h.same_peers ∙ q);
  }

  deletion :
      Hoare
        (Holds start.veth_peers start.namespaces)
        (delete_namespace namespace)
        (λ r b. IsPaired b × OnOk (λ _. Gone namespace start) r b)
  unfolding delete_namespace read ◌>>=◌
  deletion =
      Hoare-bind (record_call "delete_namespace" namespace) _
        (Hoare-Keeps (Keeps-record_call (Local-Holds _ _) "delete_namespace" namespace))
        (λ a. record {
          at = λ b h.
              (after_call _ (all_inside namespace (map (λ (e, _). e) b.veth_peers))).at b
                (begin b h);
        })
        (λ x b h. (h.paired, tt))

-- Let the peer of each end's peer be the end itself, and each end with a peer an interface of a namespace.
-- This holds again after the deletion of a namespace, whether it returns or raises. Where it returns, the
-- namespace is not there; the pairs left are those without an end in it; and the interfaces left are those
-- outside it whose peer, if they had one, was not in it: so both ends of its pairs are removed, and no other.
pub delete_namespace-Gone :
    (namespace : String) (b : FakeNetworkBackend)
    → IsPaired b
    → IsPaired (delete_namespace namespace b).1
      × OnOk
          (λ _. Gone namespace b)
          (delete_namespace namespace b).0
          (delete_namespace namespace b).1
delete_namespace-Gone namespace b h =
    (deletion namespace b).at b (record { paired = h; same_peers = refl; same_spaces = refl })
