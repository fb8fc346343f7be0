-- ===== src/Values/Group.antt =====
-- Every output type is an abelian group: the laws that additive secret sharing rests on.
use distributed_point_functi.Base.{
  ℕ, ◌+◌, ◌-◌, ◌*◌, ◌%◌, ◌<◌, ◌≡◌, refl, ap, ap₂, arith, bit_xor_comm, bit_xor_assoc, bit_xor_self,
  bit_xor-lt, bit_xor-zero, ◌∙◌,
}
use distributed_point_functi.Values.{
  ElementType, ElementTypes, Element, Elements, number, elements, join, range, HasType, HasTypes,
  is_uint, is_mod_int, is_xor_uint, is_tuple, at_end, and_then, default, defaults, add, adds, neg,
  negs, sub,
}
use native.Mathlib.Nat.{one-le-pow, mod-lt, mod-eq_of_lt, mod-add-mod, add-mod-mod, mod_self}

range_pos : (size : ℕ) → 0 < range size
range_pos size = one-le-pow (8 * size) 2 (omega arith)

mod_assoc : (m a b c : ℕ) → ((a + b) % m + c) % m ≡ (a + (b + c) % m) % m
mod_assoc m a b c =
    rw (mod-add-mod (a + b) m c, add-mod-mod a (b + c) m) (ap (λ t. t % m) (omega arith))

mod_neg : (m a : ℕ) → a < m → (a + (m - a) % m) % m ≡ 0
mod_neg m a h = rw (add-mod-mod a (m - a) m) (ap (λ t. t % m) (omega arith) ∙ mod_self m)

mod_sub : (m a b : ℕ) → b < m → (a + m - b) % m ≡ (a + (m - b) % m) % m
mod_sub m a b h = rw (add-mod-mod a (m - b) m) (ap (λ t. t % m) (omega arith))

mutual
  unfolding add

  pub add_comm :
      {t : ElementType} {a b : Element} → HasType t a → HasType t b → add t a b ≡ add t b a
  add_comm (is_uint {size} {a} p) (is_uint {a = b} q) =
      ap (λ s. number (s % range size)) (omega arith)
  add_comm (is_mod_int p m) (is_mod_int q k) = ground arith
  add_comm (is_xor_uint {a} p) (is_xor_uint {a = b} q) = ap number (bit_xor_comm a b)
  add_comm (is_tuple p) (is_tuple q) = ap elements (adds_comm p q)

  adds_comm :
      {ts : ElementTypes} {xs ys : Elements}
      → HasTypes ts xs
      → HasTypes ts ys
      → adds ts xs ys ≡ adds ts ys xs
  adds_comm at_end at_end = refl
  adds_comm (and_then p ps) (and_then q qs) = ap₂ join (add_comm p q) (adds_comm ps qs)

mutual
  unfolding add

  pub add-HasType :
      {t : ElementType} {a b : Element} → HasType t a → HasType t b → HasType t (add t a b)
  add-HasType (is_uint {size} {a} p) (is_uint {a = b} q) = is_uint (mod-lt (a + b) (range_pos size))
  add-HasType (is_mod_int p m) (is_mod_int q k) = is_mod_int (ground arith) m
  add-HasType (is_xor_uint {size} {a} p) (is_xor_uint {a = b} q) =
      is_xor_uint (bit_xor-lt (8 * size) a b p q)
  add-HasType (is_tuple p) (is_tuple q) = is_tuple (adds-HasTypes p q)

  adds-HasTypes :
      {ts : ElementTypes} {xs ys : Elements}
      → HasTypes ts xs
      → HasTypes ts ys
      → HasTypes ts (adds ts xs ys)
  adds-HasTypes at_end at_end = at_end
  adds-HasTypes (and_then p ps) (and_then q qs) = and_then (add-HasType p q) (adds-HasTypes ps qs)

mutual
  unfolding add

  pub add_assoc :
      {t : ElementType} {a b c : Element}
      → HasType t a
      → HasType t b
      → HasType t c
      → add t (add t a b) c ≡ add t a (add t b c)
  add_assoc (is_uint {size} {a} p) (is_uint {a = b} q) (is_uint {a = c} r) =
      ap number (mod_assoc (range size) a b c)
  add_assoc (is_mod_int p m) (is_mod_int q k) (is_mod_int r l) = ground arith
  add_assoc (is_xor_uint {a} p) (is_xor_uint {a = b} q) (is_xor_uint {a = c} r) =
      ap number (bit_xor_assoc a b c)
  add_assoc (is_tuple p) (is_tuple q) (is_tuple r) = ap elements (adds_assoc p q r)

  adds_assoc :
      {ts : ElementTypes} {xs ys zs : Elements}
      → HasTypes ts xs
      → HasTypes ts ys
      → HasTypes ts zs
      → adds ts (adds ts xs ys) zs ≡ adds ts xs (adds ts ys zs)
  adds_assoc at_end at_end at_end = refl
  adds_assoc (and_then p ps) (and_then q qs) (and_then r rs) =
      ap₂ join (add_assoc p q r) (adds_assoc ps qs rs)

mutual
  unfolding add default

  pub add-default : {t : ElementType} {a : Element} → HasType t a → add t a (default t) ≡ a
  add-default (is_uint {size} {a} p) =
      ap number (ap (λ s. s % range size) (omega arith) ∙ mod-eq_of_lt p)
  add-default (is_mod_int p m) = ground arith
  add-default (is_xor_uint {a} p) = ap number (bit_xor-zero a)
  add-default (is_tuple p) = ap elements (adds-defaults p)

  adds-defaults :
      {ts : ElementTypes} {xs : Elements} → HasTypes ts xs → adds ts xs (defaults ts) ≡ xs
  adds-defaults at_end = refl
  adds-defaults (and_then p ps) = ap₂ join (add-default p) (adds-defaults ps)

mutual
  unfolding add default neg

  pub add-neg : {t : ElementType} {a : Element} → HasType t a → add t a (neg t a) ≡ default t
  add-neg (is_uint {size} {a} p) = ap number (mod_neg (range size) a p)
  add-neg (is_mod_int p m) = ground arith
  add-neg (is_xor_uint {a} p) = ap number (bit_xor_self a)
  add-neg (is_tuple p) = ap elements (adds-negs p)

  adds-negs :
      {ts : ElementTypes} {xs : Elements} → HasTypes ts xs → adds ts xs (negs ts xs) ≡ defaults ts
  adds-negs at_end = refl
  adds-negs (and_then p ps) = ap₂ join (add-neg p) (adds-negs ps)

mutual
  unfolding neg

  pub neg-HasType : {t : ElementType} {a : Element} → HasType t a → HasType t (neg t a)
  neg-HasType (is_uint {size} {a} p) = is_uint (mod-lt (range size - a) (range_pos size))
  neg-HasType (is_mod_int p m) = is_mod_int (ground arith) m
  neg-HasType (is_xor_uint p) = is_xor_uint p
  neg-HasType (is_tuple p) = is_tuple (negs-HasTypes p)

  negs-HasTypes : {ts : ElementTypes} {xs : Elements} → HasTypes ts xs → HasTypes ts (negs ts xs)
  negs-HasTypes at_end = at_end
  negs-HasTypes (and_then p ps) = and_then (neg-HasType p) (negs-HasTypes ps)

pub sub-add-neg :
    {t : ElementType} {a b : Element} → HasType t a → HasType t b → sub t a b ≡ add t a (neg t b)
unfolding sub
sub-add-neg (is_uint {size} {a} p) (is_uint {a = b} q) = ap number (mod_sub (range size) a b q)
sub-add-neg (is_mod_int p m) (is_mod_int q k) = ground arith
sub-add-neg (is_xor_uint p) (is_xor_uint q) = refl
sub-add-neg (is_tuple p) (is_tuple q) = refl

-- The objects of every type, tuples included, are a commutative group: addition is associative and
-- commutative, `T{}` is neutral, unary minus is the inverse, and binary minus adds it.
pub add_group_laws :
    {t : ElementType} {a b c : Element}
    → HasType t a
    → HasType t b
    → HasType t c
    → (add t (add t a b) c ≡ add t a (add t b c))
      × (add t a b ≡ add t b a)
      × (add t a (default t) ≡ a)
      × (add t a (neg t a) ≡ default t)
      × (sub t a b ≡ add t a (neg t b))
add_group_laws p q r = (add_assoc p q r, add_comm p q, add-default p, add-neg p, sub-add-neg p q)
