-- ===== src/Fake/Pairs.antt =====
-- backend/fake.py, `create_veth`: the peers of the ends once a pair is linked.
use nslab.Base.{◌≡◌, refl, sym, ap, ◌∙◌, none, some, List, string_eq, ◌⊎◌, inl, inr, Bool-cases}
use nslab.Fake.State.{EndpointKey, key_beq, peer_of, set_peer}
use nslab.Fake.Paired.{key_beq_iff, peer_of-set_peer}

-- The peers of the ends once a pair is linked.
module _ (left right : EndpointKey) (d : List (EndpointKey × EndpointKey)) where
  abbrev after : List (EndpointKey × EndpointKey)
  after = set_peer right left (set_peer left right d)

  pub pair_cases :
      (k : EndpointKey)
      → ((k ≡ right) × (peer_of k after ≡ some left))
        ⊎ (((k ≡ left) × (peer_of k after ≡ some right)) ⊎ (peer_of k after ≡ peer_of k d))
  pair_cases k = elim (Bool-cases (key_beq k right)) [
    | inl r ↦ inl (
      (key_beq_iff k right).0 r,
      peer_of-set_peer right k left (set_peer left right d) ∙ rw r refl,
    )
    | inr r ↦ elim (Bool-cases (key_beq k left)) [
      | inl q ↦ inr (
          inl (
            (key_beq_iff k left).0 q,
            peer_of-set_peer right k left (set_peer left right d)
                ∙ rw (r, peer_of-set_peer left k right d, q) refl,
          ))
      | inr q ↦ inr (
          inr (
            peer_of-set_peer right k left (set_peer left right d)
            ∙ rw (r, peer_of-set_peer left k right d, q) refl))
    ]
  ]

  peer_of_right : peer_of right after ≡ some left
  peer_of_right =
      peer_of-set_peer right right left (set_peer left right d)
      ∙ rw ((key_beq_iff right right).1 refl) refl

  peer_of_left : peer_of left after ≡ some right
  peer_of_left = elim (Bool-cases (key_beq left right)) [
    | inl r ↦
        peer_of-set_peer right left left (set_peer left right d)
        ∙ rw r (ap some ((key_beq_iff left right).0 r))
    | inr r ↦
        peer_of-set_peer right left left (set_peer left right d)
        ∙ rw (r, peer_of-set_peer left left right d, (key_beq_iff left left).1 refl) refl
  ]

  module _ (left_free : peer_of left d ≡ none) (right_free : peer_of right d ≡ none) where
    pub pair_symmetric :
        ((k j : EndpointKey) → peer_of k d ≡ some j → peer_of j d ≡ some k)
        → (k j : EndpointKey) → peer_of k after ≡ some j
        → peer_of j after ≡ some k
    pair_symmetric before k j q = elim (pair_cases k) [
      | inl (is_right, r) ↦ cc (r, q, is_right, peer_of_left)
      | inr (inl (is_left, r)) ↦ cc (r, q, is_left, peer_of_right)
      | inr (inr same) ↦
          let back : peer_of j d ≡ some k = before k j (sym same ∙ q) in
          elim (pair_cases j) [
            | inl (e, _) ↦ absurd (cc (ap (λ x. peer_of x d) e, back, right_free))
            | inr (inl (e, _)) ↦ absurd (cc (ap (λ x. peer_of x d) e, back, left_free))
            | inr (inr kept) ↦ kept ∙ back
          ]
    ]
