-- ===== src/Prelude/Outcome.antt =====
-- How a call of the simulator ends. The process may leave through exit(), stop at a failed
-- assert, or run into what the C++ standard leaves undefined.
use Prim.Native.Nat.{ℕ}
use mathlib.Core.Path.{◌≡◌, refl, subst, ap, ◌∙◌}
use mathlib.Core.Bool.{Bool, true, false}
use mathlib.Core.List.{List, [], ◌∷◌}
use riscv_v2f_optimized.Prelude.Tests.{if◌then◌else◌}

pub data Outcome {ℓ} (A : Type ℓ) : Type ℓ where
  done : A → Outcome A
  exited : ℕ → Outcome A
  aborted : Outcome A
  undefined : Outcome A

infixl 5 ◌>>=◌ ◌>>◌
abbrev pub ◌>>=◌ {ℓ κ} : {A : Type ℓ} {B : Type κ} → Outcome A → (A → Outcome B) → Outcome B
done a >>= f = f a
exited c >>= f = exited c
aborted >>= f = aborted
undefined >>= f = undefined

abbrev pub ◌>>◌ {ℓ} : {B : Type ℓ} → Outcome (Unit {0}) → Outcome B → Outcome B
m >> k = m >>= λ _. k

-- What a call returns, if it returns, satisfies `P`.
abbrev pub Ensures {ℓ κ} : {A : Type ℓ} → (A → Type κ) → Outcome A → Type κ
Ensures P (done a) = P a
Ensures P (exited c) = Unit
Ensures P aborted = Unit
Ensures P undefined = Unit

pub Ensures-bind {ℓ κ λ'} :
    {A : Type ℓ} {B : Type κ} (P : A → Type λ') (Q : B → Type λ') (m : Outcome A)
    (f : A → Outcome B)
    → Ensures P m
    → ((a : A) → P a → Ensures Q (f a))
    → Ensures Q (m >>= f)
Ensures-bind P Q (done a) f h k = k a h
Ensures-bind P Q (exited c) f h k = tt
Ensures-bind P Q aborted f h k = tt
Ensures-bind P Q undefined f h k = tt

-- Inversion of a successful bind.
pub >>=-eq-done {ℓ κ} :
    {A : Type ℓ} {B : Type κ} (m : Outcome A) (f : A → Outcome B) {b : B}
    → (m >>= f) ≡ done b
    → (a : A) × (m ≡ done a) × (f a ≡ done b)
>>=-eq-done (done a) f h = (a, refl, h)
>>=-eq-done (exited c) f h = cc
>>=-eq-done aborted f h = cc
>>=-eq-done undefined f h = cc

pub Ensures-if {ℓ κ} :
    {A : Type ℓ} (P : A → Type κ) (b : Bool) (m n : Outcome A)
    → Ensures P m
    → Ensures P n
    → Ensures P (if b then m else n)
Ensures-if P true m n h k = h
Ensures-if P false m n h k = k

pub Ensures-then {ℓ κ} :
    {A : Type ℓ} (P : A → Type κ) (m : Outcome (Unit {0})) (n : Outcome A)
    → Ensures P n
    → Ensures P (m >> n)
Ensures-then P (done a) n h = h
Ensures-then P (exited c) n h = tt
Ensures-then P aborted n h = tt
Ensures-then P undefined n h = tt

pub done-injective {ℓ} : {A : Type ℓ} {a b : A} → done a ≡ done b → a ≡ b
done-injective e = cc

-- The same with the equation that tells which value the call returned.
pub Ensures-of {ℓ κ} :
    {A : Type ℓ} (P : A → Type κ) (m : Outcome A) (a : A) → Ensures P m → m ≡ done a → P a
Ensures-of P (done b) a h e = subst P (done-injective e) h
Ensures-of P (exited c) a h e = cc
Ensures-of P aborted a h e = cc
Ensures-of P undefined a h e = cc

-- A call that returns returns what it returns: the equation for the later parts of a `do` block.
pub Ensures-self {ℓ} : {A : Type ℓ} (m : Outcome A) → Ensures (λ a. m ≡ done a) m
Ensures-self (done a) = refl
Ensures-self (exited c) = tt
Ensures-self aborted = tt
Ensures-self undefined = tt

-- A bind whose first part returns.
pub Ensures-step {ℓ κ λ'} :
    {A : Type ℓ} {B : Type κ} (Q : B → Type λ') (m : Outcome A) (f : A → Outcome B)
    → ((a : A) → m ≡ done a → Ensures Q (f a))
    → Ensures Q (m >>= f)
Ensures-step Q (done a) f k = k a refl
Ensures-step Q (exited c) f k = tt
Ensures-step Q aborted f k = tt
Ensures-step Q undefined f k = tt

-- `if (test) continue; exit(c);`
pub Ensures-unless {ℓ κ} :
    {A : Type ℓ} (P : A → Type κ) (b : Bool) (m : Outcome A) (c : ℕ)
    → (b ≡ true → Ensures P m)
    → Ensures P (elim b [ true ↦ m | false ↦ exited c ])
Ensures-unless P true m c h = h refl
Ensures-unless P false m c h = tt

pub Ensures-map {ℓ κ λ'} :
    {A : Type ℓ} (P : A → Type κ) (Q : A → Type λ') (m : Outcome A)
    → Ensures P m
    → ((a : A) → P a → Ensures Q (done a))
    → Ensures Q m
Ensures-map P Q (done a) h k = k a h
Ensures-map P Q (exited c) h k = tt
Ensures-map P Q aborted h k = tt
Ensures-map P Q undefined h k = tt

-- A chain goes on with the value of its first part.
pub >>=-done :
    {A : Type 0}
    → {B : Type 0} → {m : Outcome A} → {x : A} → (f : A → Outcome B) → {r : Outcome B} → m ≡ done x
    → f x ≡ r
    → (m >>= f) ≡ r
>>=-done f e k = ap (λ n. n >>= f) e ∙ k

-- Two chains with the same first part agree if their later parts agree wherever `P` holds.
pub >>=-agree {ℓ} :
    {A : Type 0}
    → {B : Type 0} → (P : B → Type ℓ) (m : Outcome A) (f g : A → Outcome B) → Ensures P (m >>= f)
    → ((a : A) → Ensures P (f a) → g a ≡ f a)
    → (m >>= g) ≡ (m >>= f)
>>=-agree P (done a) f g h k = k a h
>>=-agree P (exited c) f g h k = refl
>>=-agree P aborted f g h k = refl
>>=-agree P undefined f g h k = refl

-- The same for a test, and what both of its branches ensure.
pub test-agree {ℓ} :
    {B : Type 0}
    → (P : B → Type ℓ) (b : Bool) (m m' n n' : Outcome B)
    → Ensures P (elim b as (λ _. Outcome B) [ false ↦ m | true ↦ n ])
    → (Ensures P m → m' ≡ m)
    → (Ensures P n → n' ≡ n)
    → elim b as (λ _. Outcome B) [ false ↦ m' | true ↦ n' ]
      ≡ elim b as (λ _. Outcome B) [ false ↦ m | true ↦ n ]
test-agree P false m m' n n' h k l = k h
test-agree P true m m' n n' h k l = l h

pub Ensures-test {ℓ} :
    {B : Type 0}
    → (P : B → Type ℓ) (b : Bool) (m n : Outcome B) → Ensures P m
    → Ensures P n
    → Ensures P (elim b as (λ _. Outcome B) [ false ↦ m | true ↦ n ])
Ensures-test P false m n h k = h
Ensures-test P true m n h k = k

-- Two chains agree if their later parts do on all that their first part can return.
pub >>=-ensured {ℓ} :
    {A : Type 0}
    → {B : Type 0} → (P : A → Type ℓ) (m : Outcome A) (f g : A → Outcome B) → Ensures P m
    → ((a : A) → P a → f a ≡ g a)
    → (m >>= f) ≡ (m >>= g)
>>=-ensured P (done a) f g h k = k a h
>>=-ensured P (exited c) f g h k = refl
>>=-ensured P aborted f g h k = refl
>>=-ensured P undefined f g h k = refl

-- A test on a list, with the equation that its second branch has.
pub Ensures-queue {ℓ} :
    {A : Type 0}
    → {B : Type 0} → (P : B → Type ℓ) (q : List A) (m : Outcome B) (f : A → List A → Outcome B)
    → Ensures P m
    → ((x : A) → (xs : List A) → q ≡ x ∷ xs → Ensures P (f x xs))
    → Ensures P (elim q as (λ _. Outcome B) [ [] ↦ m | x ∷ xs ↦ f x xs ])
Ensures-queue P [] m f h k = h
Ensures-queue P (x ∷ xs) m f h k = k x xs refl
