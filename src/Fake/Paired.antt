-- ===== src/Fake/Paired.antt =====
-- The invariant of the backend in memory: the ends of veth pairs know each other, and are there.
use nslab.Base.{
  String, ◌≡◌, refl, subst, Bool, true, false, Option, none, some, List, [], ◌∷◌, string_eq,
  beq_iff, arith, if◌then◌else◌, ◌↔◌, inl, inr, Option-cases,
}
use nslab.Base.Dict.{Dict, lookup, has_key}
use mathlib.Core.Bool.{false≢true}
use nslab.Fake.State.{
  FakeNamespaceState, FakeNetworkBackend, EndpointKey, key_beq, peer_of, set_peer, drop_peer,
}

pub key_beq_iff : (a b : EndpointKey) → (key_beq a b ≡ true) ↔ (a ≡ b)
key_beq_iff (a, x) (b, y) = ground (arith, beq_iff a b, beq_iff x y)

pub peer_of-set_peer :
    (k j v : EndpointKey) (d : List (EndpointKey × EndpointKey))
    → peer_of j (set_peer k v d) ≡ (if key_beq j k then some v else peer_of j d)
peer_of-set_peer k j v [] = refl
peer_of-set_peer k j v ((i, w) ∷ d) =
    ground (arith, key_beq_iff k i, key_beq_iff j k, key_beq_iff j i, peer_of-set_peer k j v d)

pub peer_of-drop_peer :
    (k j : EndpointKey) (d : List (EndpointKey × EndpointKey))
    → peer_of j (drop_peer k d) ≡ (if key_beq j k then none else peer_of j d)
peer_of-drop_peer k j [] = ground arith
peer_of-drop_peer k j ((i, w) ∷ d) =
    ground (arith, key_beq_iff k i, key_beq_iff j k, key_beq_iff j i, peer_of-drop_peer k j d)

-- The end `k` is an interface of a namespace.
abbrev pub has_end : EndpointKey → Dict FakeNamespaceState → Bool
has_end (namespace, name) d = elim (lookup namespace d) [
  | none ↦ false
  | some s ↦ has_key name s.interfaces
]

-- The peer of a peer is the first end, and each end is there.
pub record IsPaired (b : FakeNetworkBackend) : Type 0 where
  pub symmetric :
      (k j : EndpointKey) → peer_of k b.veth_peers ≡ some j → peer_of j b.veth_peers ≡ some k
  pub there : (k j : EndpointKey) → peer_of k b.veth_peers ≡ some j → has_end k b.namespaces ≡ true

pub has_end-lookup :
    (n i : String) (d : Dict FakeNamespaceState)
    → has_end (n, i) d ≡ true
    → (s : FakeNamespaceState) × ((lookup n d ≡ some s) × (has_key i s.interfaces ≡ true))
has_end-lookup n i d h = elim (Option-cases (lookup n d)) [
  | inl q ↦ absurd (
      false≢true
        (subst (λ o. (elim o [ none ↦ false | some s ↦ has_key i s.interfaces ]) ≡ true) q h))
  | inr (s, q) ↦
      (s, (q, subst (λ o. (elim o [ none ↦ false | some s ↦ has_key i s.interfaces ]) ≡ true) q h))
]

pub lookup-has_end :
    (n i : String) (s : FakeNamespaceState) (d : Dict FakeNamespaceState)
    → lookup n d ≡ some s
    → has_key i s.interfaces ≡ true
    → has_end (n, i) d ≡ true
lookup-has_end n i s d q h = rw (has_end, q) h

abbrev pub holds : String → Option FakeNamespaceState → Bool
holds name none = false
holds name (some s) = has_key name s.interfaces

pub has_end-holds :
    (n i : String) (d : Dict FakeNamespaceState)
    → has_end (n, i) d ≡ true
    → holds i (lookup n d) ≡ true
has_end-holds n i d h = let (s, (q, r)) = has_end-lookup n i d h in rw q r
