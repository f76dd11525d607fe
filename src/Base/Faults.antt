-- ===== src/Base/Faults.antt =====
-- What a call of the C++ code comes to: a value, or the end of the process or of defined behaviour.

use mathlib.Core.Path.{◌≡◌, refl}
use mathlib.Core.Logic.{◌⊎◌, inl, inr}
use mathlib.Core.Option.{Option, none, some}

-- A failed `assert` of `take_picture` or of `set_data_size`, an access outside of an object or through
-- NULL, a division by zero, an `int` out of range.
pub data Fault : Type 0 where
  state_assertion size_assertion bad_access zero_division overflow : Fault

pub data Result {ℓ} (A : Type ℓ) : Type ℓ where
  ok : A → Result A
  fault : Fault → Result A

infixl 5 ◌>>=◌
abbrev pub ◌>>=◌ {ℓ κ} : {A : Type ℓ} {B : Type κ} → Result A → (A → Result B) → Result B
ok a >>= f = f a
fault e >>= f = fault e

abbrev pub or_fault {ℓ} : {A : Type ℓ} → Option A → Fault → Result A
or_fault none e = fault e
or_fault (some a) e = ok a

-- A result that is no fault, and of which `P` holds.
abbrev pub Returns : {A : Type 0} → (A → Type 0) → Result A → Type 0
Returns P (ok a) = P a
Returns P (fault e) = ⊥

pub Returns->>= :
    {A B : Type 0} (P : A → Type 0) (Q : B → Type 0) (m : Result A) (f : A → Result B)
    → Returns P m
    → ((a : A) → P a → Returns Q (f a))
    → Returns Q (m >>= f)
Returns->>= P Q (ok a) f h k = k a h
Returns->>= P Q (fault e) f h k = absurd h

pub Returns-× :
    {A : Type 0} (P Q : A → Type 0) (m : Result A)
    → Returns P m
    → Returns Q m
    → Returns (λ a. P a × Q a) m
Returns-× P Q (ok a) p q = (p, q)
Returns-× P Q (fault e) p q = p

pub Returns-map :
    {A : Type 0} (P Q : A → Type 0) (m : Result A)
    → Returns P m
    → ((a : A) → P a → Q a)
    → Returns Q m
Returns-map P Q (ok a) h k = k a h
Returns-map P Q (fault e) h k = h

-- A result of which `P` holds, or a fault that is excused: an image as large as its buffer, and a
-- counter that has come round to 0.
abbrev pub Excused : {A : Type 0} → (A → Type 0) → Result A → Type 0
Excused P (ok a) = P a
Excused P (fault size_assertion) = Unit {0}
Excused P (fault zero_division) = Unit {0}
Excused P (fault _) = ⊥

pub Excused->>= :
    {A B : Type 0} (P : A → Type 0) (Q : B → Type 0) (m : Result A) (f : A → Result B)
    → Excused P m
    → ((a : A) → P a → Excused Q (f a))
    → Excused Q (m >>= f)
Excused->>= P Q (ok a) f h k = k a h
Excused->>= P Q (fault size_assertion) f h k = tt
Excused->>= P Q (fault zero_division) f h k = tt
Excused->>= P Q (fault state_assertion) f h k = absurd h
Excused->>= P Q (fault bad_access) f h k = absurd h
Excused->>= P Q (fault overflow) f h k = absurd h

pub Returns-Excused :
    {A : Type 0} (P Q : A → Type 0) (m : Result A)
    → Returns P m
    → ((a : A) → P a → Q a)
    → Excused Q m
Returns-Excused P Q (ok a) h k = k a h
Returns-Excused P Q (fault e) h k = absurd h

pub Excused-map :
    {A : Type 0} (P Q : A → Type 0) (m : Result A)
    → Excused P m
    → ((a : A) → P a → Q a)
    → Excused Q m
Excused-map P Q (ok a) h k = k a h
Excused-map P Q (fault size_assertion) h k = tt
Excused-map P Q (fault zero_division) h k = tt
Excused-map P Q (fault state_assertion) h k = absurd h
Excused-map P Q (fault bad_access) h k = absurd h
Excused-map P Q (fault overflow) h k = absurd h

-- A result of which `P` holds, or a fault that `E` allows.
abbrev pub Within {ℓ} : {A : Type ℓ} → (Fault → Type 0) → (A → Type 0) → Result A → Type 0
Within E P (ok a) = P a
Within E P (fault e) = E e

pub Within->>= {ℓ κ} :
    {A : Type ℓ} {B : Type κ} (E : Fault → Type 0) (P : A → Type 0) (Q : B → Type 0) (m : Result A)
    (f : A → Result B)
    → Within E P m
    → ((a : A) → P a → Within E Q (f a))
    → Within E Q (m >>= f)
Within->>= E P Q (ok a) f h k = k a h
Within->>= E P Q (fault e) f h k = h

pub Within-map {ℓ} :
    {A : Type ℓ} (E : Fault → Type 0) (P Q : A → Type 0) (m : Result A)
    → Within E P m
    → ((a : A) → P a → Q a)
    → Within E Q m
Within-map E P Q (ok a) h k = k a h
Within-map E P Q (fault e) h k = h

pub Returns-Within :
    {A : Type 0} (E : Fault → Type 0) (P : A → Type 0) (m : Result A) → Returns P m → Within E P m
Returns-Within E P (ok a) h = h
Returns-Within E P (fault e) h = absurd h

pub Excused-Within :
    {A : Type 0} (E : Fault → Type 0) (P : A → Type 0) (m : Result A)
    → E size_assertion
    → E zero_division
    → Excused P m
    → Within E P m
Excused-Within E P (ok a) s z h = h
Excused-Within E P (fault size_assertion) s z h = s
Excused-Within E P (fault zero_division) s z h = z
Excused-Within E P (fault state_assertion) s z h = absurd h
Excused-Within E P (fault bad_access) s z h = absurd h
Excused-Within E P (fault overflow) s z h = absurd h

-- The value of the one statement with the faults of the other.
pub Within-both {ℓ} :
    {A : Type ℓ} (E F : Fault → Type 0) (P Q : A → Type 0) (m : Result A)
    → Within E P m
    → Within F Q m
    → Within F P m
Within-both E F P Q (ok a) p q = p
Within-both E F P Q (fault e) p q = q

pub Result-cases {ℓ} :
    {A : Type ℓ} (m : Result A) → ((a : A) × (m ≡ ok a)) ⊎ ((e : Fault) × (m ≡ fault e))
Result-cases (ok a) = inl (a, refl)
Result-cases (fault e) = inr (e, refl)

pub >>=_assoc :
    {A B C : Type 0} (m : Result A) (f : A → Result B) (g : B → Result C)
    → ((m >>= f) >>= g) ≡ (m >>= λ a. f a >>= g)
>>=_assoc (ok a) f g = refl
>>=_assoc (fault e) f g = refl
