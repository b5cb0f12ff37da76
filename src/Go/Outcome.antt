-- ===== src/Go/Outcome.antt =====
-- How a Go call ends: with its results, in a runtime panic, or not within the fuel of the model.
use mftextractor.Base.{
  Bool, true, false, if◌then◌else◌, ◌≡◌, ◌≢◌, refl, ap, subst, Option, none, some,
}

pub data Outcome {ℓ} (A : Type ℓ) : Type ℓ where
  ok : A → Outcome A
  panic : Outcome A
  stuck : Outcome A

infixl 5 ◌>>=◌
abbrev pub ◌>>=◌ {ℓ κ} : {A : Type ℓ} {B : Type κ} → Outcome A → (A → Outcome B) → Outcome B
ok a >>= f = f a
panic >>= f = panic
stuck >>= f = stuck

-- Reading through a nil pointer, an index out of range or a failed type assertion panics.
abbrev pub or_panic {ℓ} : {A : Type ℓ} → Option A → Outcome A
or_panic (some a) = ok a
or_panic none = panic

pub >>=-ne-stuck {ℓ κ} :
    {A : Type ℓ} {B : Type κ} (m : Outcome A) (f : A → Outcome B)
    → m ≢ stuck
    → ((a : A) → m ≡ ok a → f a ≢ stuck)
    → (m >>= f) ≢ stuck
>>=-ne-stuck (ok a) f h k = k a refl
>>=-ne-stuck panic f h k = λ e. cc
>>=-ne-stuck stuck f h k = λ e. h refl

pub ok-ne-stuck {ℓ} : {A : Type ℓ} (a : A) → ok a ≢ stuck
ok-ne-stuck a e = cc

pub if-ne-stuck {ℓ} :
    {A : Type ℓ} (b : Bool) (x y : Outcome A)
    → (b ≡ true → x ≢ stuck)
    → (b ≡ false → y ≢ stuck)
    → (if b then x else y) ≢ stuck
if-ne-stuck true x y h k = h refl
if-ne-stuck false x y h k = k refl

pub >>=-ok {ℓ κ} :
    {A : Type ℓ} {B : Type κ} (m : Outcome A) (f : A → Outcome B) {a : A}
    → m ≡ ok a
    → (m >>= f) ≡ f a
>>=-ok m f e = ap (λ n. n >>= f) e

-- A result that is only repacked before the next call.
pub >>=-pure {ℓ κ μ} :
    {A : Type ℓ} {B : Type κ} {C : Type μ} (m : Outcome A) (f : A → B) (g : B → Outcome C)
    → ((m >>= λ a. ok (f a)) >>= g) ≡ (m >>= λ a. g (f a))
>>=-pure (ok a) f g = refl
>>=-pure panic f g = refl
>>=-pure stuck f g = refl

pub if-true {ℓ} : {A : Type ℓ} (b : Bool) (x y : A) → b ≡ true → (if b then x else y) ≡ x
if-true true x y h = refl
if-true false x y h = cc

pub if-false {ℓ} : {A : Type ℓ} (b : Bool) (x y : A) → b ≡ false → (if b then x else y) ≡ y
if-false true x y h = cc
if-false false x y h = refl

-- What holds of the result, if there is one.
abbrev pub Returns {ℓ κ} : {A : Type ℓ} → (A → Type κ) → Outcome A → Type κ
Returns P (ok a) = P a
Returns P panic = Unit
Returns P stuck = Unit

ok-injective {ℓ} : {A : Type ℓ} {a b : A} → ok a ≡ ok b → a ≡ b
ok-injective e = cc

module _ {ℓ κ} {A : Type ℓ} (P : A → Type κ) where
  pub >>=-Returns {μ} :
      {B : Type μ} (m : Outcome B) (f : B → Outcome A)
      → ((b : B) → m ≡ ok b → Returns P (f b))
      → Returns P (m >>= f)
  >>=-Returns (ok b) f h = h b refl
  >>=-Returns panic f h = tt
  >>=-Returns stuck f h = tt

  pub if-Returns :
      (b : Bool) (x y : Outcome A)
      → (b ≡ true → Returns P x)
      → (b ≡ false → Returns P y)
      → Returns P (if b then x else y)
  if-Returns true x y h k = h refl
  if-Returns false x y h k = k refl

  pub Returns-ok : (m : Outcome A) (a : A) → Returns P m → m ≡ ok a → P a
  Returns-ok (ok b) a h e = subst P (ok-injective e) h
  Returns-ok panic a h e = absurd (cc)
  Returns-ok stuck a h e = absurd (cc)
