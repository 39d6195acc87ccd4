-- ===== src/Prelude/Outcome.antt =====
-- Rust's `Result<A, E>` and the `?` operator.
use mathlib.Core.Path.{◌≡◌, refl, sym, subst}
use mathlib.Core.Logic.{⊎_elim}
use mathlib.Core.List.Memᴰ
use mathlib.Core.Bool.{Bool, true, false, ◌&&◌}
use native.Mathlib.Omega.{arith}
use mathlib.Core.List.{Memᴰ, List, [], ◌∷◌}
use mathlib.Core.Option.{Option, none, some}

pub data Result {ℓ κ} (E : Type κ) (A : Type ℓ) : Type (ℓ ⊔ κ) where
  ok : A → Result E A
  err : E → Result E A

infixl 5 ◌>>=◌ ◌>>◌
abbrev pub ◌>>=◌ {ℓ ι κ} :
    {E : Type κ} {A : Type ℓ} {B : Type ι} → Result E A → (A → Result E B) → Result E B
ok x >>= next = next x
err e >>= next = err e

abbrev pub ◌>>◌ {ℓ ι κ} :
    {E : Type κ} {A : Type ℓ} {B : Type ι} → Result E A → Result E B → Result E B
m >> k = m >>= λ _. k

-- `ok_or`
abbrev pub ok_or {ℓ κ} : {E : Type κ} {A : Type ℓ} → Option A → E → Result E A
ok_or none e = err e
ok_or (some a) e = ok a

-- `map_err`, and the `From` conversion that `?` makes
abbrev pub map_err {ℓ ι κ} :
    {E : Type κ} {F : Type ι} {A : Type ℓ} → (E → F) → Result E A → Result F A
map_err f (ok a) = ok a
map_err f (err e) = err (f e)

pub map_err-eq-ok {ℓ ι κ} :
    {E : Type κ} {F : Type ι} {A : Type ℓ} (f : E → F) (m : Result E A) {a : A}
    → map_err f m ≡ ok a
    → m ≡ ok a
map_err-eq-ok f (ok b) h = cc
map_err-eq-ok f (err e) h = cc

pub ok_or-ok {ℓ κ} :
    {E : Type κ} {A : Type ℓ} (o : Option A) (e : E) {a : A} → ok_or o e ≡ ok a → o ≡ some a
ok_or-ok none e h = cc
ok_or-ok (some b) e h = cc

-- `iter().map(f).collect::<Result<Vec<_>, _>>()`: the first error ends it.
unfoldable pub traverse {ℓ ι κ} :
    {E : Type κ} {A : Type ℓ} {B : Type ι} → (A → Result E B) → List A → Result E (List B)
traverse f [] = ok []
traverse f (x ∷ xs) = do y ← f x; ys ← traverse f xs; ok (y ∷ ys)

abbrev pub is_ok {ℓ κ} : {E : Type κ} {A : Type ℓ} → Result E A → Bool
is_ok (ok a) = true
is_ok (err e) = false

pub is_ok-map_err {ℓ ι κ} :
    {E : Type κ} {F : Type ι} {A : Type ℓ} (f : E → F) (m : Result E A)
    → is_ok (map_err f m) ≡ is_ok m
is_ok-map_err f (ok a) = refl
is_ok-map_err f (err e) = refl

-- A chain succeeds when its first step does and the rest does whatever that step gives.
pub is_ok-bind {ℓ ι κ} :
    {E : Type κ} {A : Type ℓ} {B : Type ι} (m : Result E A) (f : A → Result E B) (p q : Bool)
    → is_ok m ≡ p
    → ((a : A) → is_ok (f a) ≡ q)
    → is_ok (m >>= f) ≡ (p && q)
is_ok-bind (ok a) f p q e k = ground (arith, k a)
is_ok-bind (err x) f p q e k = ground arith

pub is_ok-map {ℓ ι κ} :
    {E : Type κ} {A : Type ℓ} {B : Type ι} (m : Result E A) (f : A → B) (p : Bool)
    → is_ok m ≡ p
    → is_ok (m >>= λ a. ok (f a)) ≡ p
is_ok-map (ok a) f p h = h
is_ok-map (err e) f p h = h

pub ok-injective {ℓ κ} :
    {E : Type κ} {A : Type ℓ} {a b : A} → ◌≡◌ {A = Result E A} (ok a) (ok b) → a ≡ b
ok-injective h = cc

-- What a chain that succeeds has gone through.
pub >>=-eq-ok {ℓ ι κ} :
    {E : Type κ} {A : Type ℓ} {B : Type ι} {z : B} (step : Result E A) (next : A → Result E B)
    → (step >>= next) ≡ ok z
    → (x : A) × (step ≡ ok x) × (next x ≡ ok z)
>>=-eq-ok (ok x) next h = (x, refl, h)
>>=-eq-ok (err e) next h = cc

-- A loop over a list that `?` can leave.
unfoldable pub fold_result {ℓ ι κ} :
    {E : Type κ} {A : Type ℓ} {B : Type ι} → (B → A → Result E B) → B → List A → Result E B
fold_result f b [] = ok b
fold_result f b (x ∷ xs) = f b x >>= λ b'. fold_result f b' xs

-- Each element of a list that is traversed has its result.
pub mem-traverse {κ} :
    {E : Type κ} {A B : Type 0} (f : A → Result E B) (x : A) (xs : List A) {ys : List B}
    → traverse f xs ≡ ok ys
    → Memᴰ x xs
    → (y : B) × (f x ≡ ok y) × Memᴰ y ys
unfolding traverse
mem-traverse f x [] h m = absurd (Memᴰ.not-nil m)
mem-traverse f x (z ∷ xs) h m =
    let (y, e, rest) = >>=-eq-ok (f z) _ h in
    let (ys', e', done) = >>=-eq-ok (traverse f xs) _ rest in
    ⊎_elim
      (λ p.
        (y, subst (λ w. f w ≡ ok y) (sym p) e, subst (Memᴰ y) (ok-injective done) (Memᴰ.head refl)))
      (λ t.
        let (y', e'', m') = mem-traverse f x xs e' t in
        (y', e'', subst (Memᴰ y') (ok-injective done) (Memᴰ.tail m')))
      (Memᴰ.cases_cons m)

module _ {κ ι} {E : Type κ} {A B : Type 0} (f : B → A → Result E B) (P : B → Type ι) where
  -- What every step keeps holds at the end.
  pub fold_result_keeps :
      ((b : B) (x : A) (b' : B) → f b x ≡ ok b' → P b → P b')
      → (xs : List A) (b b' : B) → fold_result f b xs ≡ ok b'
      → P b
      → P b'
  unfolding fold_result
  fold_result_keeps keep [] b b' h p = subst P (ok-injective h) p
  fold_result_keeps keep (x ∷ xs) b b' h p =
      let (b₁, e, rest) = >>=-eq-ok (f b x) _ h in
      fold_result_keeps keep xs b₁ b' rest (keep b x b₁ e p)

  -- What the step at one element brings about, and every step keeps, holds at the end.
  pub fold_result_reaches :
      ((b : B) (x : A) (b' : B) → f b x ≡ ok b' → P b → P b')
      → (x : A) → ((b b' : B) → f b x ≡ ok b' → P b')
      → (xs : List A) (b b' : B) → fold_result f b xs ≡ ok b'
      → Memᴰ x xs
      → P b'
  unfolding fold_result
  fold_result_reaches keep x bring [] b b' h m = absurd (Memᴰ.not-nil m)
  fold_result_reaches keep x bring (z ∷ xs) b b' h m =
      let (b₁, e, rest) = >>=-eq-ok (f b z) _ h in
      ⊎_elim
        (λ p.
          fold_result_keeps keep xs b₁ b' rest (bring b b₁ (subst (λ w. f b w ≡ ok b₁) (sym p) e)))
        (λ t. fold_result_reaches keep x bring xs b₁ b' rest t) (Memᴰ.cases_cons m)
