-- ===== src/Influx/Monitor/Outcomes.antt =====
-- Statements about every outcome of a loop of renogy_influx/renogy_influx.c, and how they pass through
-- its steps.
use renogy_x.Influx.Monitor.Turns.{Outcome, after, repeat}
use renogy_x.Base.{◌≡◌, ◌≢◌, subst, if◌then◌else◌}
use renogy_x.Base.{Bool, true, false, Option, none, some}
use renogy_x.Influx.System.{System}
use renogy_x.Influx.Env.{
  ErrorCode, error_none, error_fatal, error_connect, error_modbus, error_shutdown, Monitor,
}

module _ (S : System) where
  -- What an outcome satisfies, if there is one.
  pub Yields : (ErrorCode → Monitor S → Type 0) → Outcome S → Type 0
  Yields P none = Unit {0}
  Yields P (some (rv, s)) = P rv s

  pub Yields-after :
      (P Q : ErrorCode → Monitor S → Type 0) (m : Outcome S) (k : ErrorCode → Monitor S → Outcome S)
      → Yields P m
      → ((rv : ErrorCode) (s : Monitor S) → P rv s → Yields Q (k rv s))
      → Yields Q (after S m k)
  unfolding after Yields
  Yields-after P Q none k h f = tt
  Yields-after P Q (some (rv, s)) k h f = f rv s h

  pub Yields-some :
      (P : ErrorCode → Monitor S → Type 0) {rv : ErrorCode} {s : Monitor S}
      → P rv s
      → Yields P (some (rv, s))
  unfolding Yields
  Yields-some P h = h

  pub Yields-none : (P : ErrorCode → Monitor S → Type 0) → Yields P none
  unfolding Yields
  Yields-none P = tt

  pub Yields-eq :
      (P : ErrorCode → Monitor S → Type 0) (m : Outcome S) {rv : ErrorCode} {t : Monitor S}
      → Yields P m
      → m ≡ some (rv, t)
      → P rv t
  unfolding Yields
  Yields-eq P none h e = cc
  Yields-eq P (some (rv, s)) h e = subst (Yields P) e h

  -- Every outcome satisfies what every code and state does.
  pub Yields-all :
      (P : ErrorCode → Monitor S → Type 0) (m : Outcome S)
      → ((rv : ErrorCode) (s : Monitor S) → P rv s)
      → Yields P m
  unfolding Yields
  Yields-all P none f = tt
  Yields-all P (some (rv, s)) f = f rv s

  -- A turn is repeated while its code is `ERROR_NONE`.
  pub Yields-repeat :
      (P Q : ErrorCode → Monitor S → Type 0) (again : Monitor S → Outcome S) (rv : ErrorCode)
      (s : Monitor S)
      → ((c : ErrorCode) (t : Monitor S) → P c t → c ≢ error_none → Q c t)
      → P rv s
      → (P error_none s → Yields Q (again s))
      → Yields Q (repeat S again rv s)
  unfolding repeat Yields
  Yields-repeat P Q again error_none s f p g = g p
  Yields-repeat P Q again error_fatal s f p g = f error_fatal s p (λ e. cc)
  Yields-repeat P Q again error_connect s f p g = f error_connect s p (λ e. cc)
  Yields-repeat P Q again error_modbus s f p g = f error_modbus s p (λ e. cc)
  Yields-repeat P Q again error_shutdown s f p g = f error_shutdown s p (λ e. cc)

  pub Yields-if :
      (P : ErrorCode → Monitor S → Type 0) (b : Bool) (m k : Outcome S)
      → Yields P m
      → Yields P k
      → Yields P (if b then m else k)
  Yields-if P true m k h g = h
  Yields-if P false m k h g = g

  pub Yields-option :
      {A : Type 0} (P : ErrorCode → Monitor S → Type 0) (m : Outcome S) (f : A → Outcome S)
      (o : Option A)
      → Yields P m
      → ((a : A) → Yields P (f a))
      → Yields P (elim o [ none ↦ m | some a ↦ f a ])
  Yields-option P m f none h g = h
  Yields-option P m f (some a) h g = g a
