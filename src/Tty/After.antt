-- ===== src/Tty/After.antt =====
-- Outcomes that may be missing, as of the fallible functions of tty_reader/*.zig.
use mathlib.Core.Option.{some-injective}
use renogy_x.Base.{◌≡◌, refl, subst, if◌then◌else◌}
use renogy_x.Base.{Bool, true, false, Option, none, some}

-- What a result, if there is one, has to meet.
abbrev pub After : {A : Type 0} → (A → Type 0) → Option A → Type 0
After Q o = (a : _) → o ≡ some a → Q a

pub After-elim :
    {A : Type 0} (Q : A → Type 0) (b : Bool) (x y : Option A)
    → After Q x
    → After Q y
    → After Q (elim b [ true ↦ x | false ↦ y ])
After-elim Q true x y hx hy = hx
After-elim Q false x y hx hy = hy

pub After-none : {A : Type 0} (Q : A → Type 0) → After Q none
After-none Q a e = cc e

pub After-some : {A : Type 0} (Q : A → Type 0) (a : A) → Q a → After Q (some a)
After-some Q a q b e = subst Q (some-injective a b e) q

pub After-if :
    {A : Type 0} (Q : A → Type 0) (b : Bool) (x y : Option A)
    → After Q x
    → After Q y
    → After Q (if b then x else y)
After-if Q true x y hx hy = hx
After-if Q false x y hx hy = hy

pub After-bind :
    {A B : Type 0} (Q : A → Type 0) (R : B → Type 0) (o : Option A) (k : A → Option B)
    → After Q o
    → ((a : A) → Q a → After R (k a))
    → After R (elim o [ none ↦ none | some a ↦ k a ])
After-bind Q R none k ho hk = After-none R
After-bind Q R (some a) k ho hk = hk a (ho a refl)

-- Results go on alike if what follows them does.
pub bind_cong :
    {A B : Type 0} (o : Option A) (f g : A → Option B)
    → ((a : A) → f a ≡ g a)
    → (elim o as (λ _. Option B) [ none ↦ none | some a ↦ f a ])
      ≡ (elim o as (λ _. Option B) [ none ↦ none | some a ↦ g a ])
bind_cong none f g h = refl
bind_cong (some a) f g h = h a

pub bind_bind :
    {A B C : Type 0} (o : Option A) (f : A → Option B) (g : B → Option C)
    → (elim o as (λ _. Option C) [
      | none ↦ none
      | some a ↦ elim (f a) as (λ _. Option C) [ none ↦ none | some b ↦ g b ]
    ])
      ≡ (elim (elim o as (λ _. Option B) [ none ↦ none | some a ↦ f a ]) as (λ _. Option C) [
        | none ↦ none
        | some b ↦ g b
      ])
bind_bind none f g = refl
bind_bind (some a) f g = refl
