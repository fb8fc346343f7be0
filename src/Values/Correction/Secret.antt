-- ===== src/Values/Correction/Secret.antt =====
-- The two parties' outputs are additive shares: of beta at the index, of zero elsewhere.
use mathlib.Core.Bool.{false≢true}
use distributed_point_functi.Base.{
  ℕ, zero, suc, ◌<◌, ◌≡◌, refl, ap, ◌∙◌, Bool, true, false, xor, List, [], ◌∷◌, map, ok, ◌==◌,
  if◌then◌else◌, length, get_or, arith, All, eq→==, length-map,
}
use distributed_point_functi.Values.{ElementType, Element, HasType, add, default}
use distributed_point_functi.Values.Group.{
  add-HasType, neg-HasType, sub-add-neg, add-default, add-neg,
}
use distributed_point_functi.Values.Shares.{share_not_inverted, share_inverted, default-HasType}
use distributed_point_functi.Values.Convert.{to_value}
use distributed_point_functi.Values.Convert.RoundTrip.{from_value-round_trip}
use distributed_point_functi.Values.Bytes.{elements_per_block}
use distributed_point_functi.Values.Bytes.Typed.{IsArray}
use distributed_point_functi.Values.Correction.{
  add_at, correction_of, corrections_of, from_each_value, values_to_array, correct_output,
}

module _ {t : ElementType} where
  -- One element: the party whose control bit is set applies the correction.
  pub correct_output_shares :
      (t0 t1 : Bool) {a b beta : Element}
      → xor t0 t1 ≡ true
      → HasType t a
      → HasType t b
      → HasType t beta
      → let w = correction_of t t1 a (add t b beta) in
        add t (correct_output t t0 0 w a) (correct_output t t1 1 w b) ≡ beta
  unfolding correct_output correction_of
  correct_output_shares true true h p q r = absurd (false≢true h)
  correct_output_shares true false h p q r = share_not_inverted p q r
  correct_output_shares false true h p q r = share_inverted p q r
  correct_output_shares false false h p q r = absurd (false≢true h)

  -- If both parties have the same control bit and the same element of type t, and the correction word
  -- has that type, their outputs add up to zero.
  pub correct_output_cancels :
      (control : Bool) {w e : Element}
      → HasType t w
      → HasType t e
      → add t (correct_output t control 0 w e) (correct_output t control 1 w e) ≡ default t
  unfolding correct_output
  correct_output_cancels true p q = add-neg (add-HasType q p)
  correct_output_cancels false p q = add-neg q

  correction_of-HasType :
      (invert : Bool) {a b : Element}
      → HasType t a
      → HasType t b
      → HasType t (correction_of t invert a b)
  unfolding correction_of
  correction_of-HasType true p q =
      rw (sub-add-neg q p) (neg-HasType (add-HasType q (neg-HasType p)))
  correction_of-HasType false p q = rw (sub-add-neg q p) (add-HasType q (neg-HasType p))

module _ (t : ElementType) where
  corrections_of-IsArray :
      (invert : Bool) (xs ys : List Element)
      → length xs ≡ length ys
      → All (HasType t) xs
      → All (HasType t) ys
      → IsArray t (length xs) (corrections_of t invert xs ys)
  unfolding corrections_of
  corrections_of-IsArray invert [] [] e p q = (refl, tt)
  corrections_of-IsArray invert [] (y ∷ ys) e p q = absurd (omega arith)
  corrections_of-IsArray invert (x ∷ xs) [] e p q = absurd (omega arith)
  corrections_of-IsArray invert (x ∷ xs) (y ∷ ys) e p q =
      let rest = corrections_of-IsArray invert xs ys (omega arith) p.1 q.1 in
      (ap suc rest.0, (correction_of-HasType invert p.0 q.0, rest.1))

  add_at-IsArray :
      (i : ℕ) (ys : List Element) {beta : Element}
      → HasType t beta
      → All (HasType t) ys
      → IsArray t (length ys) (add_at t i beta ys)
  unfolding add_at
  add_at-IsArray i [] r q = (refl, tt)
  add_at-IsArray zero (y ∷ ys) r q = (refl, (add-HasType q.0 r, q.1))
  add_at-IsArray (suc i) (y ∷ ys) r q =
      let rest = add_at-IsArray i ys r q.1 in (ap suc rest.0, (q.0, rest.1))

  -- The correction words are as many objects of the type as the two parties' elements.
  pub corrections_of-add_at-IsArray :
      (invert : Bool) (i n : ℕ) (xs ys : List Element) {beta : Element}
      → HasType t beta
      → IsArray t n xs
      → IsArray t n ys
      → IsArray t n (corrections_of t invert xs (add_at t i beta ys))
  corrections_of-add_at-IsArray invert i n xs ys {beta} r p q =
      let added = add_at-IsArray i ys r q.1 in
      let all = corrections_of-IsArray invert xs (add_at t i beta ys) (omega arith) p.1 added.1 in
      (all.0 ∙ p.0, all.1)

  get_or-corrections_of :
      (invert : Bool) (j : ℕ) (xs ys : List Element) (d : Element)
      → length xs ≡ length ys
      → j < length xs
      → get_or (corrections_of t invert xs ys) j d
        ≡ correction_of t invert (get_or xs j d) (get_or ys j d)
  unfolding corrections_of
  get_or-corrections_of invert j [] ys d e l = absurd (omega arith)
  get_or-corrections_of invert j (x ∷ xs) [] d e l = absurd (omega arith)
  get_or-corrections_of invert zero (x ∷ xs) (y ∷ ys) d e l = refl
  get_or-corrections_of invert (suc j) (x ∷ xs) (y ∷ ys) d e l =
      get_or-corrections_of invert j xs ys d (omega arith) (omega arith)

  get_or-add_at :
      (i j : ℕ) (beta : Element) (ys : List Element) (d : Element)
      → j < length ys
      → get_or (add_at t i beta ys) j d
        ≡ (if j == i then add t (get_or ys j d) beta else get_or ys j d)
  unfolding add_at
  get_or-add_at i j beta [] d l = absurd (omega arith)
  get_or-add_at zero zero beta (y ∷ ys) d l = refl
  get_or-add_at zero (suc j) beta (y ∷ ys) d l = ground arith
  get_or-add_at (suc i) zero beta (y ∷ ys) d l = ground arith
  get_or-add_at (suc i) (suc j) beta (y ∷ ys) d l = ground (arith, get_or-add_at i j beta ys d)

  pub get_or-HasType :
      (j : ℕ) (xs : List Element) (d : Element)
      → All (HasType t) xs
      → j < length xs
      → HasType t (get_or xs j d)
  get_or-HasType j [] d h l = absurd (omega arith)
  get_or-HasType zero (x ∷ xs) d h l = h.0
  get_or-HasType (suc j) (x ∷ xs) d h l = get_or-HasType j xs d h.1 (omega arith)

  -- If the parties' control bits differ, and both blocks are arrays of n objects of type t, then the
  -- outputs at element j < n, corrected with the words computed for index i, add up to beta if j is
  -- i, and to zero otherwise.
  pub corrections_of_share :
      (t0 t1 : Bool) (i j n : ℕ) (xs ys : List Element) {beta : Element}
      → xor t0 t1 ≡ true
      → HasType t beta
      → IsArray t n xs
      → IsArray t n ys
      → j < n
      → let d = default t in
        let w = get_or (corrections_of t t1 xs (add_at t i beta ys)) j d in
        add t (correct_output t t0 0 w (get_or xs j d)) (correct_output t t1 1 w (get_or ys j d))
        ≡ (if j == i then beta else d)
  corrections_of_share t0 t1 i j n xs ys {beta} h r p q l =
      rw
        (
          get_or-corrections_of t1 j xs (add_at t i beta ys) (default t)
              (omega (arith, (add_at-IsArray i ys r q.1).0)) (omega arith),
          get_or-add_at i j beta ys (default t) (omega arith),
        )
        (pointwise (j == i))
    where
      x : HasType t (get_or xs j (default t))
      x = get_or-HasType j xs (default t) p.1 (omega arith)

      y : HasType t (get_or ys j (default t))
      y = get_or-HasType j ys (default t) q.1 (omega arith)

      pointwise :
          (b : Bool)
          → let w =
              correction_of t t1
                (get_or xs j (default t))
                (if b then add t (get_or ys j (default t)) beta else get_or ys j (default t)) in
            add t
              (correct_output t t0 0 w (get_or xs j (default t)))
              (correct_output t t1 1 w (get_or ys j (default t)))
            ≡ (if b then beta else default t)
      pointwise true = correct_output_shares t0 t1 h x y r
      pointwise false =
          rw (add-default y) at (correct_output_shares t0 t1 h x y (default-HasType x))

  from_each_value-to_value :
      (es : List Element) → All (HasType t) es → from_each_value t (map (to_value t) es) ≡ ok es
  unfolding from_each_value
  from_each_value-to_value [] h = refl
  from_each_value-to_value (e ∷ es) h =
      rw (from_value-round_trip h.0, from_each_value-to_value es h.1)

  -- As many objects of type t as fit a block, written as `Value` messages, are read back by
  -- `ValuesToArray` as the same objects.
  pub values_to_array-round_trip :
      (es : List Element)
      → IsArray t (elements_per_block t) es
      → values_to_array t (map (to_value t) es) ≡ ok es
  unfolding values_to_array
  values_to_array-round_trip es h =
      rw
        (eq→== (length (map (to_value t) es)) (elements_per_block t)
          (length-map es (to_value t) ∙ h.0))
        (from_each_value-to_value es h.1)
