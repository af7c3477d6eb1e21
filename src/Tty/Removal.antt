-- ===== src/Tty/Removal.antt =====
-- Which peers tty_reader/tty_reader.zig removes (`check_peers`).
use mathlib.Core.List.{Perm, append_assoc, append-nil}
use mathlib.Core.List.Perm
use renogy_x.Base.{ℕ, zero, suc, ◌<◌, ◌≤◌}
use renogy_x.Base.{◌≡◌, refl, ap, subst, sym, ◌∙◌, arith}
use renogy_x.Base.{Bool, true, false, List, [], ◌∷◌, ◌++◌}
use renogy_x.Base.{
  length, take, drop, take_all, drop_all, drop_first, take_first, length-take, length-append,
}
use renogy_x.Tty.Peers.{Peer}
use renogy_x.Tty.Loop.{but_last, last_of, refill, swap_remove, is_marked, remove_marked}

-- The peers that are not marked.
unfoldable pub unmarked : List Peer → List Peer
unmarked [] = []
unmarked (peer ∷ peers) =
    let later = unmarked peers in elim peer.delme [ true ↦ later | false ↦ peer ∷ later ]

unmarked-append : (xs ys : List Peer) → unmarked (xs ++ ys) ≡ unmarked xs ++ unmarked ys
unfolding unmarked
unmarked-append [] ys = refl
unmarked-append (x ∷ xs) ys = go x.delme (unmarked-append xs ys)
  where
    go :
        (b : Bool)
        → unmarked (xs ++ ys) ≡ unmarked xs ++ unmarked ys
        → (elim b as (λ _. List Peer) [
          | true ↦ unmarked (xs ++ ys)
          | false ↦ x ∷ unmarked (xs ++ ys)
        ])
          ≡ (elim b [ true ↦ unmarked xs | false ↦ x ∷ unmarked xs ]) ++ unmarked ys
    go true rec = rec
    go false rec = ap (λ l. x ∷ l) rec

refill-Perm : (xs : List Peer) → Perm (refill xs) xs
unfolding refill
refill-Perm [] = Perm.rfl
refill-Perm (x ∷ []) = Perm.rfl
refill-Perm (x ∷ y ∷ ys) =
    Perm.trans (Perm.swap x (last_of y ys) (but_last y ys)) (Perm.cons x (refill-Perm (y ∷ ys)))

-- The element at an index that a list has.
data At (n : ℕ) (xs : List Peer) : Type 0 where
  at :
      (x : Peer)
      → drop n xs ≡ x ∷ drop (suc n) xs
      → take (suc n) xs ≡ take n xs ++ (x ∷ [])
      → At n xs

marked_here : (n : ℕ) (xs : List Peer) → n < length xs → At n xs
marked_here n [] h = absurd (omega arith)
marked_here zero (x ∷ xs) h = at x refl refl
marked_here (suc n) (x ∷ xs) h = go (marked_here n xs (omega arith))
  where
    go : At n xs → At (suc n) (x ∷ xs)
    go (at y here before) = at y here (ap (λ l. x ∷ l) before)

take-swap_remove : (n : ℕ) (xs : List Peer) → n ≤ length xs → take n (swap_remove n xs) ≡ take n xs
take-swap_remove n xs h =
    take_first n (take n xs) (refill (drop (suc n) xs)) (omega (arith, length-take n xs))

drop-swap_remove :
    (n : ℕ) (xs : List Peer) → n ≤ length xs → drop n (swap_remove n xs) ≡ refill (drop (suc n) xs)
drop-swap_remove n xs h =
    drop_first n (take n xs) (refill (drop (suc n) xs)) (omega (arith, length-take n xs))

-- What is to be left of the elements before an index, and all from it on.
abbrev to_keep : ℕ → List Peer → List Peer
to_keep n xs = unmarked (take n xs) ++ drop n xs

length-swap_remove : (n : ℕ) (xs : List Peer) → n ≤ length xs → n ≤ length (swap_remove n xs)
length-swap_remove n xs h =
    omega (arith, length-append (take n xs) (refill (drop (suc n) xs)), length-take n xs)

-- A marked element is left out.
keep_marked :
    (n : ℕ) (xs : List Peer) (x : Peer)
    → take (suc n) xs ≡ take n xs ++ (x ∷ [])
    → x.delme ≡ true
    → to_keep (suc n) xs ≡ unmarked (take n xs) ++ drop (suc n) xs
unfolding unmarked
keep_marked n xs x before e =
    let gone : unmarked (x ∷ []) ≡ [] = cc e in
    ap (λ l. unmarked l ++ drop (suc n) xs) before
    ∙ ap (λ l. l ++ drop (suc n) xs)
        (unmarked-append (take n xs) (x ∷ [])
          ∙ ap (λ l. unmarked (take n xs) ++ l) gone
          ∙ append-nil (unmarked (take n xs)))

-- Another one stays.
keep_unmarked :
    (n : ℕ) (xs : List Peer) (x : Peer)
    → take (suc n) xs ≡ take n xs ++ (x ∷ [])
    → drop n xs ≡ x ∷ drop (suc n) xs
    → x.delme ≡ false
    → to_keep (suc n) xs ≡ to_keep n xs
unfolding unmarked
keep_unmarked n xs x before here e =
    let stays : unmarked (x ∷ []) ≡ x ∷ [] = cc e in
    ap (λ l. unmarked l ++ drop (suc n) xs) before
    ∙ ap (λ l. l ++ drop (suc n) xs)
        (unmarked-append (take n xs) (x ∷ []) ∙ ap (λ l. unmarked (take n xs) ++ l) stays)
    ∙ append_assoc (unmarked (take n xs)) (x ∷ []) (drop (suc n) xs)
    ∙ ap (λ l. unmarked (take n xs) ++ l) (sym here)

remove_marked-Perm :
    (n : ℕ) (xs : List Peer) → n ≤ length xs → Perm (remove_marked n xs) (to_keep n xs)
unfolding remove_marked unmarked
remove_marked-Perm zero xs h = Perm.rfl
remove_marked-Perm (suc n) xs h =
    go (marked_here n xs h) (remove_marked-Perm n xs (omega arith))
      (remove_marked-Perm n (swap_remove n xs) (length-swap_remove n xs (omega arith)))
  where
    removed_one : Perm (to_keep n (swap_remove n xs)) (unmarked (take n xs) ++ drop (suc n) xs)
    removed_one =
        subst (λ l. Perm l (unmarked (take n xs) ++ drop (suc n) xs))
          (sym (
            ap (λ l. unmarked l ++ drop n (swap_remove n xs)) (take-swap_remove n xs (omega arith))
            ∙ ap (λ l. unmarked (take n xs) ++ l) (drop-swap_remove n xs (omega arith))))
          (Perm.append_left (unmarked (take n xs)) (refill-Perm (drop (suc n) xs)))

    go :
        At n xs
        → Perm (remove_marked n xs) (to_keep n xs)
        → Perm (remove_marked n (swap_remove n xs)) (to_keep n (swap_remove n xs))
        → Perm (remove_marked (suc n) xs) (to_keep (suc n) xs)
    go (at x here before) kept removed =
        subst (λ b. Perm (chosen b) (to_keep (suc n) xs)) (sym (ap is_marked here))
          (pick x.delme refl)
      where
        chosen : Bool → List Peer
        chosen b = elim b [ true ↦ remove_marked n (swap_remove n xs) | false ↦ remove_marked n xs ]

        pick : (b : Bool) → x.delme ≡ b → Perm (chosen b) (to_keep (suc n) xs)
        pick true e =
            subst (Perm (remove_marked n (swap_remove n xs))) (sym (keep_marked n xs x before e))
              (Perm.trans removed removed_one)
        pick false e =
            subst (Perm (remove_marked n xs)) (sym (keep_unmarked n xs x before here e)) kept

-- The second loop of `check_peers` removes the marked peers and no others, up to the order.
pub remove_marked-unmarked :
    (peers : List Peer) → Perm (remove_marked (length peers) peers) (unmarked peers)
remove_marked-unmarked peers =
    subst (Perm (remove_marked (length peers) peers)) all
      (remove_marked-Perm (length peers) peers (omega arith))
  where
    all : to_keep (length peers) peers ≡ unmarked peers
    all =
        ap (λ l. unmarked l ++ drop (length peers) peers)
          (take_all (length peers) peers (omega arith))
        ∙ ap (λ l. unmarked peers ++ l) (drop_all (length peers) peers (omega arith))
        ∙ append-nil (unmarked peers)
