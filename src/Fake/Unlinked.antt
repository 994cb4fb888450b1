-- ===== src/Fake/Unlinked.antt =====
-- backend/fake.py, `delete_namespace`: the peers and the interfaces that stay where a pair is let go.
use nslab.Base.{
  String, ◌≡◌, ◌≢◌, refl, sym, ◌∙◌, subst, true, false, none, some, List, [], ◌∷◌, any, ◌==◌,
  string_eq, if◌then◌else◌, ◌⊎◌, inl, inr, Bool-cases, arith, beq_iff,
}
use mathlib.Core.Option.{some-injective}
use nslab.Base.Dict.{Dict, erase, has_key}
use nslab.Inventory.Types.{InterfaceInventory}
use nslab.Fake.State.{EndpointKey, key_beq, peer_of, drop_peer}
use nslab.Fake.Paired.{key_beq_iff, peer_of-drop_peer}

pub has_key-erase :
    (i j : String) (d : Dict InterfaceInventory)
    → has_key i (erase j d) ≡ (if i == j then false else has_key i d)
has_key-erase i j [] = ground arith
has_key-erase i j ((k, w) ∷ d) =
    ground (arith, beq_iff i j, beq_iff j k, beq_iff i k, has_key-erase i j d)

-- The peers of the ends once a pair is let go.
module _ (e p : EndpointKey) (d : List (EndpointKey × EndpointKey)) where
  abbrev pub unlinked : List (EndpointKey × EndpointKey)
  unlinked = drop_peer p (drop_peer e d)

  unlinked_cases :
      (k : EndpointKey)
      → (peer_of k unlinked ≡ none) ⊎ ((k ≢ e) × ((k ≢ p) × (peer_of k unlinked ≡ peer_of k d)))
  unlinked_cases k = elim (Bool-cases (key_beq k p)) [
    | inl r ↦ inl (peer_of-drop_peer p k (drop_peer e d) ∙ rw r refl)
    | inr r ↦ elim (Bool-cases (key_beq k e)) [
      | inl q ↦
          inl (peer_of-drop_peer p k (drop_peer e d) ∙ rw (r, peer_of-drop_peer e k d, q) refl)
      | inr q ↦ inr (
        (λ same. absurd (cc ((key_beq_iff k e).1 same, q))),
        (
          (λ same. absurd (cc ((key_beq_iff k p).1 same, r))),
          peer_of-drop_peer p k (drop_peer e d) ∙ rw (r, peer_of-drop_peer e k d, q) refl,
        ),
      )
    ]
  ]

  pub peer_of_dropped : peer_of p unlinked ≡ none
  peer_of_dropped = peer_of-drop_peer p p (drop_peer e d) ∙ rw ((key_beq_iff p p).1 refl) refl

  pub kept_peer :
      (k j : EndpointKey)
      → peer_of k unlinked ≡ some j
      → (k ≢ e) × ((k ≢ p) × (peer_of k d ≡ some j))
  kept_peer k j q = elim (unlinked_cases k) [
    | inl r ↦ absurd (cc (q, r))
    | inr (a, (c, r)) ↦ (a, (c, sym r ∙ q))
  ]

  pub unlinked_kept : (k : EndpointKey) → k ≢ e → k ≢ p → peer_of k unlinked ≡ peer_of k d
  unlinked_kept k a c =
      peer_of-drop_peer p k (drop_peer e d)
      ∙ ground (arith, key_beq_iff k p, key_beq_iff k e, peer_of-drop_peer e k d, a, c)

  module _ (linked : peer_of e d ≡ some p)
      (before : (k j : EndpointKey) → peer_of k d ≡ some j → peer_of j d ≡ some k) where
    pub unlinked_symmetric :
        (k j : EndpointKey) → peer_of k unlinked ≡ some j → peer_of j unlinked ≡ some k
    unlinked_symmetric k j q =
        let (not_e, (not_p, r)) = kept_peer k j q in
        let back : peer_of j d ≡ some k = before k j r in
        unlinked_kept j
          (λ same.
            not_p
              (some-injective _ _ (sym back ∙ subst (λ i. peer_of i d ≡ some p) (sym same) linked)))
          (λ same. not_e (
            some-injective _ _
              (sym back ∙ subst (λ i. peer_of i d ≡ some e) (sym same) (before e p linked))))
        ∙ back

pub other_end :
    (k e : EndpointKey) (es : List EndpointKey)
    → k ≢ e
    → any (key_beq k) (e ∷ es) ≡ true
    → any (key_beq k) es ≡ true
other_end k e es apart h = ground (arith, key_beq_iff k e, apart, h)

pub drop_single :
    (k e : EndpointKey) (d : List (EndpointKey × EndpointKey))
    → peer_of e d ≡ none
    → peer_of k (drop_peer e d) ≡ peer_of k d
drop_single k e d free = elim (Bool-cases (key_beq k e)) [
  | inl r ↦
      peer_of-drop_peer e k d
      ∙ rw r (sym (subst (λ i. peer_of i d ≡ none) (sym ((key_beq_iff k e).0 r)) free))
  | inr r ↦ peer_of-drop_peer e k d ∙ rw r refl
]
