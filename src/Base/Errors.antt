-- ===== src/Base/Errors.antt =====
-- absl::Status and absl::StatusOr, with the messages left out (dpf/status_macros.h).
use Prim.Native.Nat.{ℕ, ◌<◌, ◌≤◌}
use native.Mathlib.Omega.{arith}
use distributed_point_functi.Base.Tests.{ltb, leb, ◌==◌, if◌then◌else◌}
use mathlib.Core.Path.{◌≡◌, refl, ap, ◌∙◌, subst}
use mathlib.Core.Bool.{Bool, true, false}

pub data Code : Type 0 where
  invalid_argument failed_precondition unimplemented internal resource_exhausted : Code
  -- A `CHECK` that fails, a `substr` that starts past the end, or undefined behaviour: an int that
  -- overflows, a division by zero, a floating point number converted to an int that cannot hold it.
  crash : Code

pub data Status {ℓ} (A : Type ℓ) : Type ℓ where
  ok : A → Status A
  err : Code → Status A

-- `if (!test) return status;`
abbrev pub guard : Bool → Code → Status (Unit {0})
guard test status = if test then ok tt else err status

-- DPF_ASSIGN_OR_RETURN, and what its success says of both parts.
module _ {ℓ κ} {A : Type ℓ} {B : Type κ} where
  infixl 5 ◌>>=◌
  abbrev pub ◌>>=◌ : Status A → (A → Status B) → Status B
  err status >>= rest = err status
  ok value >>= rest = rest value

  pub >>=-eq-ok :
      (first : Status A) (rest : A → Status B) {result : B}
      → (first >>= rest) ≡ ok result
      → (value : A) × (first ≡ ok value) × (rest value ≡ ok result)
  >>=-eq-ok (err status) rest e = cc
  >>=-eq-ok (ok value) rest e = (value, refl, e)

-- A result that is there.
abbrev pub Succeeds {ℓ} : {A : Type ℓ} → Status A → Type ℓ
Succeeds {A = A} s = (a : A) × (s ≡ ok a)

pub >>=-Succeeds {ℓ κ} :
    {A : Type ℓ} {B : Type κ} {first : Status A} {rest : A → Status B}
    → Succeeds first
    → ((value : A) → first ≡ ok value → Succeeds (rest value))
    → Succeeds (first >>= rest)
>>=-Succeeds {rest = rest} (value, e) h =
    let (b, e') = h value e in (b, ap (λ s. s >>= rest) e ∙ e')

pub >>=-Succeeds_at {ℓ κ} :
    {A : Type ℓ} {B : Type κ} {first : Status A} (rest : A → Status B) {value : A}
    → first ≡ ok value
    → Succeeds (rest value)
    → Succeeds (first >>= rest)
>>=-Succeeds_at rest e (b, e') = (b, ap (λ s. s >>= rest) e ∙ e')

pub guard-Succeeds : {b : Bool} (e : Code) → b ≡ true → Succeeds (guard b e)
guard-Succeeds e h = (tt, ap (λ b. guard b e) h)

pub ok-Succeeds {ℓ} : {A : Type ℓ} (a : A) → Succeeds (ok a)
ok-Succeeds a = (a, refl)

-- DPF_RETURN_IF_ERROR.
infixl 5 ◌>>◌
abbrev pub ◌>>◌ {ℓ} : {B : Type ℓ} → Status (Unit {0}) → Status B → Status B
check >> rest = check >>= λ _. rest

pub ok-injective {ℓ} : {A : Type ℓ} {a b : A} → ok a ≡ ok b → a ≡ b
ok-injective h = cc

pub err≢ok {ℓ} : {A : Type ℓ} {a : A} {e : Code} → err e ≡ ok a → ⊥
err≢ok h = cc

-- What a test that passed says.
pub guard-true : (b : Bool) (e : Code) {u : Unit {0}} → guard b e ≡ ok u → b ≡ true
guard-true b e h = ground arith

pub eq_of_guard : (a b : ℕ) (e : Code) {u : Unit {0}} → guard (a == b) e ≡ ok u → a ≡ b
eq_of_guard a b e h = ground arith

pub lt_of_guard : (a b : ℕ) (e : Code) {u : Unit {0}} → guard (ltb a b) e ≡ ok u → a < b
lt_of_guard a b e h = ground arith

pub le_of_guard : (a b : ℕ) (e : Code) {u : Unit {0}} → guard (leb a b) e ≡ ok u → a ≤ b
le_of_guard a b e h = ground arith

-- What holds of the result, if there is one.
pub record Ensures {ℓ κ} {A : Type ℓ} (P : A → Type κ) (s : Status A) : Type (ℓ ⊔ κ) where
  pub holds : (a : A) → s ≡ ok a → P a

module _ {ℓ κ μ} {A : Type ℓ} {B : Type κ} {P : B → Type μ} where
  pub >>=-Ensures :
      {first : Status A} {rest : A → Status B}
      → ((a : A) → first ≡ ok a → Ensures P (rest a))
      → Ensures P (first >>= rest)
  >>=-Ensures {first} {rest} h = record {
    holds = λ b e. let (a, e1, e2) = >>=-eq-ok first rest e in (h a e1).holds b e2;
  }

module _ {ℓ κ} {A : Type ℓ} {P : A → Type κ} where
  pub ok-Ensures : {a : A} → P a → Ensures P (ok a)
  ok-Ensures p = record { holds = λ b e. subst P (ok-injective e) p }

err-injective {ℓ} : {A : Type ℓ} {e e' : Code} → ◌≡◌ {A = Status A} (err e) (err e') → e ≡ e'
err-injective h = cc

-- There is a result, or the one error.
pub record Refuses {ℓ} {A : Type ℓ} (code : Code) (s : Status A) : Type ℓ where
  pub refuses : (e : Code) → s ≡ err e → e ≡ code

module _ {ℓ κ} {A : Type ℓ} {B : Type κ} {code : Code} where
  pub >>=-Refuses :
      (first : Status A) {rest : A → Status B}
      → Refuses code first
      → ((a : A) → first ≡ ok a → Refuses code (rest a))
      → Refuses code (first >>= rest)
  >>=-Refuses (ok a) p h = h a refl
  >>=-Refuses (err e') p h = record {
    refuses = λ e same. p.refuses e (ap err (err-injective same));
  }

pub ok-Refuses {ℓ} : {A : Type ℓ} {code : Code} (a : A) → Refuses code (ok a)
ok-Refuses a = record { refuses = λ e same. cc }

pub guard-Refuses : (b : Bool) (code : Code) → Refuses code (guard b code)
guard-Refuses true code = record { refuses = λ e same. cc }
guard-Refuses false code = record { refuses = λ e same. cc }

-- A chain of results, and the same chain with one more step at its end.
pub >>=-through {ℓ κ μ} :
    {A : Type ℓ} {B : Type κ} {C : Type μ} (first : Status A) {rest : A → Status C}
    (rest' : A → Status B) (then_ : B → Status C)
    → ((a : A) → first ≡ ok a → rest a ≡ (rest' a >>= then_))
    → (first >>= rest) ≡ ((first >>= rest') >>= then_)
>>=-through (ok a) rest' then_ h = h a refl
>>=-through (err e) rest' then_ h = refl
