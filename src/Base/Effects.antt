-- ===== src/Base/Effects.antt =====
-- Code that changes a state and may not come back: `none` stands for undefined behaviour (a null
-- pointer written through), or for a loop that is still running when its fuel is used up.
use mathlib.Core.Path.{◌≡◌, refl, subst}
use mathlib.Core.Option.{Option, none, some}
use mathlib.Core.Bool.{Bool, true, false}
use renogy_x.Base.Tests.{if◌then◌else◌}

abbrev pub M : Type 0 → Type 0 → Type 0
M S A = S → Option (A × S)

infixl 5 ◌>>=◌ ◌>>◌
abbrev pub ◌>>=◌ : {S A B : Type 0} → M S A → (A → M S B) → M S B
◌>>=◌ m f s = elim (m s) [ none ↦ none | some (a, s') ↦ f a s' ]

abbrev pub ◌>>◌ : {S A B : Type 0} → M S A → M S B → M S B
◌>>◌ m k s = elim (m s) [ none ↦ none | some (a, s') ↦ k s' ]

abbrev pub pure : {S A : Type 0} → A → M S A
pure a s = some (a, s)

abbrev pub read_state : {S : Type 0} → M S S
read_state s = some (s, s)

abbrev pub modify : {S : Type 0} → (S → S) → M S (Unit {0})
modify f s = some (tt, f s)

abbrev pub fault : {S A : Type 0} → M S A
fault s = none

abbrev pub when : {S A : Type 0} → Bool → M S A → M S A → M S A
when true m k s = m s
when false m k s = k s

-- Whenever `m` comes back from a state that meets `I`, its result and new state meet `Q`.
abbrev pub Ensures : {S A : Type 0} → (S → Type 0) → M S A → (A → S → Type 0) → Type 0
Ensures {S} {A} I m Q = (s : S) → I s → (a : A) (s' : S) → m s ≡ some (a, s') → Q a s'

-- `m` keeps the invariant `I`.
abbrev pub Keeps : {S A : Type 0} → (S → Type 0) → M S A → Type 0
Keeps I m = Ensures I m (λ _ s. I s)

module _ {S : Type 0} where
  pub Ensures-bind :
      {A B : Type 0} (I : S → Type 0) (Q : A → S → Type 0) (R : B → S → Type 0) (m : M S A)
      (f : A → M S B)
      → Ensures I m Q
      → ((a : A) → Ensures (Q a) (f a) R)
      → Ensures I (m >>= f) R
  Ensures-bind {A} {B} I Q R m f hm hf s i b t e = go (m s) refl e
    where
      go :
          (o : Option (A × S))
          → m s ≡ o
          → (elim o [ none ↦ none | some (a, s') ↦ f a s' ]) ≡ some (b, t)
          → R b t
      go none e' h = cc
      go (some (a, s')) e' h = hf a s' (hm s i a s' e') b t h

  pub Keeps-bind :
      {A B : Type 0} (I : S → Type 0) (m : M S A) (f : A → M S B)
      → Keeps I m
      → ((a : A) → Keeps I (f a))
      → Keeps I (m >>= f)
  Keeps-bind I m f hm hf = Ensures-bind I (λ _ s. I s) (λ _ s. I s) m f hm hf

  pub Keeps-then :
      {A B : Type 0} (I : S → Type 0) (m : M S A) (k : M S B)
      → Keeps I m
      → Keeps I k
      → Keeps I (m >> k)
  Keeps-then I m k hm hk = Keeps-bind I m (λ _. k) hm (λ _. hk)

  pub Keeps-when :
      {A : Type 0} (I : S → Type 0) (b : Bool) (m k : M S A)
      → Keeps I m
      → Keeps I k
      → Keeps I (when b m k)
  Keeps-when I true m k hm hk = hm
  Keeps-when I false m k hm hk = hk

  pub Keeps-pure : {A : Type 0} (I : S → Type 0) (a : A) → Keeps I (pure a)
  Keeps-pure I a s i b t e = subst I (cc) i

  pub Keeps-modify :
      {A : Type 0} (I : S → Type 0) (a : S → A) (f : S → S)
      → ((s : S) → I s → I (f s))
      → Keeps I (λ s. some (a s, f s))
  Keeps-modify I a f h s i b t e = let same : f s ≡ t = cc e in subst I same (h s i)

  -- An outcome that, if there is one, meets `Q`.
  abbrev pub Post : {A : Type 0} → (A → S → Type 0) → Option (A × S) → Type 0
  Post {A} Q o = (a : A) (s' : S) → o ≡ some (a, s') → Q a s'

  pub Post-if :
      {A : Type 0} (Q : A → S → Type 0) (b : Bool) (x y : Option (A × S))
      → (b ≡ true → Post Q x)
      → (b ≡ false → Post Q y)
      → Post Q (if b then x else y)
  Post-if Q true x y h k = h refl
  Post-if Q false x y h k = k refl

  pub Ensures-when :
      {A : Type 0} {I : S → Type 0} (Q : A → S → Type 0) (b : Bool) (m k : M S A)
      → Ensures I m Q
      → Ensures I k Q
      → Ensures I (when b m k) Q
  Ensures-when Q true m k hm hk = hm
  Ensures-when Q false m k hm hk = hk
