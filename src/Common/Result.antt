-- ===== src/Common/Result.antt =====
-- Steps that may end a call, chained by `do`.
use Prim.Native.Nat.{ℕ}
use mathlib.Core.Path.{◌≡◌, refl}
use mathlib.Core.Logic.{◌⊎◌, inl, inr}
use mathlib.Core.Bool.{Bool, true, false}
use so2_202110206_2svac.Common.Bools.{◌==◌, if◌then◌else◌}

-- The code with which the call returns, or the step's value.
pub data Result {ℓ} (A : Type ℓ) : Type ℓ where
  err : ℕ → Result A
  ok : A → Result A

module _ {ℓ} {B : Type ℓ} where
  infixl 5 ◌>>◌
  abbrev pub ◌>>◌ : Result (Unit {0}) → Result B → Result B
  err code >> next = err code
  ok done >> next = next

  module _ {κ} {A : Type κ} where
    infixl 5 ◌>>=◌
    abbrev pub ◌>>=◌ : Result A → (A → Result B) → Result B
    err code >>= next = err code
    ok value >>= next = next value

-- A condition under which the call returns an error, and a code that is one unless it is 0.
abbrev pub refuse_if : Bool → ℕ → Result (Unit {0})
refuse_if true e = err e
refuse_if false e = ok tt

abbrev pub refuse : ℕ → Result (Unit {0})
refuse e = if e == 0 then ok tt else err e

pub Result-cases {ℓ} :
    {A : Type ℓ} (m : Result A) → ((e : ℕ) × (m ≡ err e)) ⊎ ((a : A) × (m ≡ ok a))
Result-cases (err e) = inl (e, refl)
Result-cases (ok a) = inr (a, refl)

pub ok_inj {ℓ} : {A : Type ℓ} (a b : A) → ok a ≡ ok b → a ≡ b
ok_inj a b e = cc

-- What is known where a chain of refusals ends well.
module _ {ℓ} {B : Type ℓ} {x : B} where
  pub passed :
      (b : Bool) (e : ℕ) (m : Result B) → (refuse_if b e >> m) ≡ ok x → (b ≡ false) × (m ≡ ok x)
  passed true e m h = absurd (cc)
  passed false e m h = (refl, h)

  pub passed_by :
      (r : Result (Unit {0})) (m : Result B) → (r >> m) ≡ ok x → (r ≡ ok tt) × (m ≡ ok x)
  passed_by (err e) m h = absurd (cc)
  passed_by (ok done) m h = (refl, h)

pub not_refused : (b : Bool) (e : ℕ) → refuse_if b e ≡ ok tt → b ≡ false
not_refused true e h = absurd (cc)
not_refused false e h = refl
