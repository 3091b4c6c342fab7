-- ===== src/Prelude/Checked.antt =====
-- The result of code that goes on with a value or ends with an error (a Go error that is returned
-- at once), and what is known of a chain that ended well.
use ky_server_base.Prelude.{◌≡◌, refl, Bool, true, false}

pub data Checked {ℓ} (E : Type 0) (A : Type ℓ) : Type ℓ where
  good : A → Checked E A
  bad : E → Checked E A

infixl 5 ◌>>=◌ ◌>>◌
abbrev pub ◌>>=◌ {ℓ κ} :
    {E : Type 0} {A : Type ℓ} {B : Type κ} → Checked E A → (A → Checked E B) → Checked E B
good a >>= f = f a
bad e >>= f = bad e

abbrev pub ◌>>◌ {ℓ} : {E : Type 0} {B : Type ℓ} → Checked E (Unit {0}) → Checked E B → Checked E B
m >> k = m >>= λ _. k

-- `if refused { return nil, e }`
abbrev pub refuse_if : {E : Type 0} → Bool → E → Checked E (Unit {0})
refuse_if true e = bad e
refuse_if false e = good tt

pub >>=-good {ℓ κ} :
    {E : Type 0} {A : Type ℓ} {B : Type κ} (m : Checked E A) (f : A → Checked E B) {b : B}
    → (m >>= f) ≡ good b
    → (a : A) × (m ≡ good a) × (f a ≡ good b)
>>=-good (good a) f h = (a, refl, h)
>>=-good (bad e) f h = absurd (cc h)

pub >>-good {ℓ} :
    {E : Type 0} {B : Type ℓ} (m : Checked E (Unit {0})) (k : Checked E B) {b : B}
    → (m >> k) ≡ good b
    → (m ≡ good tt) × (k ≡ good b)
>>-good (good _) k h = (refl, h)
>>-good (bad e) k h = absurd (cc h)

pub good_inj {ℓ} :
    {E : Type 0} {A : Type ℓ} (m : Checked E A) {x y : A} → m ≡ good x → m ≡ good y → x ≡ y
good_inj m e e' = cc (e, e')
