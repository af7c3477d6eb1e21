-- ===== src/Tty/Kept.antt =====
-- A property of what a subscriber works on, over a call of `process_csck_in`
-- (tty_reader/tty_reader_heyu.zig, tty_reader/tty_reader_influx.zig).
use renogy_x.Base.{ℕ, ◌==◌}
use renogy_x.Base.{Option, List, [], ◌∷◌, length, drop, ◌++◌}
use renogy_x.Tty.After.{After, After-elim, After-none, After-some, After-if, After-bind}
use renogy_x.Tty.Parse.{Parse}
use renogy_x.Tty.Subscriber.{Info, on_header, on_message, process_csck_in}

module _ (P : Parse) {App : Type 0} (process_msg : List ℕ → App → Option App) (A B : App → Type 0)
    (weaker : (app : App) → A app → B app)
    (kept : (s : List ℕ) (app : App) → A app → After B (process_msg s app)) where
  abbrev OfInfo : Info App → Type 0
  OfInfo info = B info.app

  on_header-After : (info : Info App) → A info.app → After OfInfo (on_header P process_msg info)
  unfolding on_header
  on_header-After info a =
      After-if OfInfo _ _ _ (After-none OfInfo) (After-some OfInfo _ (weaker info.app a))

  on_message-After : (info : Info App) → A info.app → After OfInfo (on_message P process_msg info)
  unfolding on_message
  on_message-After info a =
      After-bind B OfInfo _ _
        (After-if B (info.code == 0) _ _ (kept (drop 4 info.buffer) info.app a)
          (After-some B info.app (weaker info.app a)))
        (λ app h. After-some OfInfo _ h)

  -- What each message makes of a property is what a call makes of it.
  pub process_csck_in-After :
      (got : List ℕ) (info : Info App)
      → A info.app
      → After (λ next. B next.app) (process_csck_in P process_msg got info)
  unfolding process_csck_in
  process_csck_in-After [] info a = After-none OfInfo
  process_csck_in-After (b ∷ got) info a =
      let next : Info App = record info { buffer = info.buffer ++ (b ∷ got) } in
      After-elim OfInfo (length next.buffer == info.to_read) _ _
        (After-elim OfInfo (info.to_read == 4) _ _ (on_header-After next a)
          (on_message-After next a))
        (After-some OfInfo next (weaker info.app a))
