-- ===== src/Query/Result.antt =====
-- The outcome of a run of the tokenizer or the parser.
use quantum_database.Prelude.{◌≡◌, ◌≢◌, refl}

-- `failed` is an exception of the source; `unfinished` means that the fuel ran out.
pub data Result {ℓ} (A : Type ℓ) : Type ℓ where
  ok : A → Result A
  failed unfinished : Result A

infixl 5 ◌>>=◌
abbrev pub ◌>>=◌ {ℓ κ} : {A : Type ℓ} {B : Type κ} → Result A → (A → Result B) → Result B
ok a >>= k = k a
failed >>= k = failed
unfinished >>= k = unfinished

-- The run ended; if it gave a value, the value is as said.
pub data Ends {ℓ κ} {A : Type ℓ} (P : A → Type κ) : Result A → Type (ℓ ⊔ κ) where
  gives : {a : A} → P a → Ends P (ok a)
  raises : Ends P failed

pub Ends-bind {ℓ κ ℓ' κ'} :
    {A : Type ℓ} {B : Type ℓ'} {P : A → Type κ} {Q : B → Type κ'} {r : Result A} {k : A → Result B}
    → Ends P r
    → ((a : A) → P a → Ends Q (k a))
    → Ends Q (r >>= k)
Ends-bind (gives {a} p) h = h a p
Ends-bind raises h = raises

pub Ends-mono {ℓ κ κ'} :
    {A : Type ℓ} {P : A → Type κ} {Q : A → Type κ'} {r : Result A}
    → Ends P r
    → ((a : A) → P a → Q a)
    → Ends Q r
Ends-mono (gives {a} p) h = gives (h a p)
Ends-mono raises h = raises

pub Ends-ne-unfinished {ℓ κ} :
    {A : Type ℓ} {P : A → Type κ} {r : Result A} → Ends P r → r ≢ unfinished
Ends-ne-unfinished (gives p) = cc
Ends-ne-unfinished raises = cc

bind-ok_of {ℓ κ} :
    {A : Type ℓ} {B : Type κ} (r : Result A) (k : A → Result B) {b : B}
    → (r >>= k) ≡ ok b
    → (a : A) × (r ≡ ok a) × (k a ≡ ok b)
bind-ok_of (ok a) k h = (a, refl, h)
bind-ok_of failed k h = absurd (cc)
bind-ok_of unfinished k h = absurd (cc)

-- A chain that gives a value gives one at each step.
pub bind-ok {ℓ κ} :
    {A : Type ℓ} {B : Type κ} {r : Result A} {k : A → Result B} {b : B}
    → (r >>= k) ≡ ok b
    → (a : A) × (r ≡ ok a) × (k a ≡ ok b)
bind-ok {r} {k} h = bind-ok_of r k h

pub ok_inj {ℓ} : {A : Type ℓ} {a b : A} → ok a ≡ ok b → a ≡ b
ok_inj h = cc
