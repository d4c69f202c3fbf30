-- ===== src/Base/Results.antt =====
-- A value or the refusal of one code path, with `do` for Go's `if err != nil { return err }`.
use mathlib.Core.Path.{◌≡◌, refl}
use mathlib.Core.Logic.{◌⊎◌, inl, inr}
use mathlib.Core.Option.{some}
use mathlib.Core.Bool.{Bool, true, false}

pub data Outcome {ℓ} (E : Type 0) (A : Type ℓ) : Type ℓ where
  ok : A → Outcome E A
  err : E → Outcome E A

infixl 5 ◌>>=◌ ◌>>◌
abbrev pub ◌>>=◌ {ℓ κ} :
    {E : Type 0} {A : Type ℓ} {B : Type κ} → Outcome E A → (A → Outcome E B) → Outcome E B
err refusal >>= next = err refusal
ok value >>= next = next value

abbrev pub ◌>>◌ {ℓ} : {E : Type 0} {B : Type ℓ} → Outcome E (Unit {0}) → Outcome E B → Outcome E B
err refusal >> next = err refusal
ok done >> next = next

-- `if _, err := m; err != nil { return err }`
abbrev pub discard {ℓ} : {E : Type 0} {A : Type ℓ} → Outcome E A → Outcome E (Unit {0})
discard (err refusal) = err refusal
discard (ok value) = ok tt

-- `if bad { return e }`
abbrev pub refuse_if : {E : Type 0} → Bool → E → Outcome E (Unit {0})
refuse_if true e = err e
refuse_if false e = ok tt

abbrev pub is_ok {ℓ} : {E : Type 0} {A : Type ℓ} → Outcome E A → Bool
is_ok (ok a) = true
is_ok (err e) = false

-- Inversion of a successful chain.
pub >>=-eq-ok {ℓ κ} :
    {E : Type 0} {A : Type ℓ} {B : Type κ} (m : Outcome E A) (f : A → Outcome E B) {b : B}
    → (m >>= f) ≡ ok b
    → (a : A) × (m ≡ ok a) × (f a ≡ ok b)
>>=-eq-ok (err refusal) next h = cc
>>=-eq-ok (ok value) next h = (value, refl, h)

pub >>-eq-ok {ℓ} :
    {E : Type 0} {B : Type ℓ} (m : Outcome E (Unit {0})) (n : Outcome E B) {b : B}
    → (m >> n) ≡ ok b
    → (m ≡ ok tt) × (n ≡ ok b)
>>-eq-ok (err refusal) n h = cc
>>-eq-ok (ok done) n h = (refl, h)

-- An early return that was not taken.
pub refuse_if-eq-ok {ℓ} :
    {E : Type 0} {B : Type ℓ} (bad : Bool) (e : E) (n : Outcome E B) {b : B}
    → (refuse_if bad e >> n) ≡ ok b
    → (bad ≡ false) × (n ≡ ok b)
refuse_if-eq-ok true e n h = cc
refuse_if-eq-ok false e n h = (refl, h)

pub some_injective {ℓ} : {A : Type ℓ} {a b : A} → some a ≡ some b → a ≡ b
some_injective h = cc

pub ok_injective {ℓ} :
    {E : Type 0} {A : Type ℓ} {x : Outcome E A} {a b : A} → x ≡ ok a → x ≡ ok b → a ≡ b
ok_injective h k = cc

pub Outcome-cases {ℓ} :
    {E : Type 0} {A : Type ℓ} (m : Outcome E A) → ((a : A) × (m ≡ ok a)) ⊎ ((e : E) × (m ≡ err e))
Outcome-cases (ok a) = inl (a, refl)
Outcome-cases (err e) = inr (e, refl)
