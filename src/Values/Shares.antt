-- ===== src/Values/Shares.antt =====
-- How a correction word turns two pseudorandom elements into shares of a value, in any group.
use distributed_point_functi.Base.{◌≡◌, sym, ap, ◌∙◌}
use distributed_point_functi.Values.{ElementType, Element, HasType, default, add, neg, sub}
use distributed_point_functi.Values.Group.{
  add_comm, add_assoc, add-default, add-neg, add-HasType, neg-HasType, sub-add-neg,
}

module _ {t : ElementType} where
  pub default-add : {a : Element} → HasType t a → HasType t (default t) → add t (default t) a ≡ a
  default-add p d = add_comm d p ∙ add-default p

  -- a + (x - a) is x.
  add-sub_cancel : {x a : Element} → HasType t x → HasType t a → add t a (sub t x a) ≡ x
  add-sub_cancel {x} {a} p q =
      rw
        (
          sub-add-neg p q,
          add_comm q (add-HasType p (neg-HasType q)),
          add_assoc p (neg-HasType q) q,
          add_comm (neg-HasType q) q,
          add-neg q,
        )
        (add-default p)

  -- (b + x) - b is x.
  add-neg_cancel : {x b : Element} → HasType t x → HasType t b → add t (add t b x) (neg t b) ≡ x
  add-neg_cancel p q = rw (add_comm q p, add_assoc p q (neg-HasType q), add-neg q) (add-default p)

  pub default-HasType : {a : Element} → HasType t a → HasType t (default t)
  default-HasType p = rw (add-neg p) at (add-HasType p (neg-HasType p))

  -- An inverse is the inverse.
  neg_unique : {u v : Element} → HasType t u → HasType t v → add t u v ≡ default t → v ≡ neg t u
  neg_unique {u} {v} p q e =
      sym (add-neg_cancel q p)
      ∙ ap (λ w. add t w (neg t u)) e
      ∙ default-add (neg-HasType p) (default-HasType p)

  pub neg-neg : {a : Element} → HasType t a → neg t (neg t a) ≡ a
  neg-neg p = sym (neg_unique (neg-HasType p) p (add_comm (neg-HasType p) p ∙ add-neg p))

  -- -(b + -w) is w - b.
  neg-add-neg :
      {b w : Element} → HasType t b → HasType t w → neg t (add t b (neg t w)) ≡ add t w (neg t b)
  neg-add-neg {b} {w} p q = sym (neg_unique u v cancels)
    where
      u : HasType t (add t b (neg t w))
      u = add-HasType p (neg-HasType q)

      v : HasType t (add t w (neg t b))
      v = add-HasType q (neg-HasType p)

      cancels : add t (add t b (neg t w)) (add t w (neg t b)) ≡ default t
      cancels =
          rw
            (
              add_assoc p (neg-HasType q) v,
              ← add_assoc (neg-HasType q) q (neg-HasType p),
              add_comm (neg-HasType q) q,
              add-neg q,
              default-add (neg-HasType p) (default-HasType q),
            )
            (add-neg p)

  -- The correction applied by party 0: its element plus the correction word is the other party's
  -- element plus beta.
  pub share_not_inverted :
      {a b beta : Element}
      → HasType t a
      → HasType t b
      → HasType t beta
      → add t (add t a (sub t (add t b beta) a)) (neg t b) ≡ beta
  share_not_inverted p q r = rw (add-sub_cancel (add-HasType q r) p) (add-neg_cancel r q)

  -- The correction applied by party 1, with the word inverted.
  pub share_inverted :
      {a b beta : Element}
      → HasType t a
      → HasType t b
      → HasType t beta
      → add t a (neg t (add t b (neg t (sub t (add t b beta) a)))) ≡ beta
  share_inverted {a} {b} {beta} p q r =
      rw (neg-add-neg q w, ← add_assoc p w (neg-HasType q), add-sub_cancel (add-HasType q r) p)
        (add-neg_cancel r q)
    where
      w : HasType t (sub t (add t b beta) a)
      w = rw (sub-add-neg (add-HasType q r) p) (add-HasType (add-HasType q r) (neg-HasType p))
