-- ===== src/LoopPool/Turns.antt =====
-- src/eventlooppool.cpp: the order in which nextLoop gives the loops out.
use librapid.Prelude.{
  ℕ, zero, suc, ◌+◌, ◌-◌, ◌%◌, ◌^◌, ◌<◌, ◌≤◌, ◌≡◌, refl, sym, ap, ◌∙◌, List, [], ◌∷◌, ◌++◌, some,
  length, get_elem?, take, drop, arith,
}
use librapid.Outcome.{ok, M, pure, ◌>>=◌}
use native.Mathlib.Nat.{zero-add, suc-add}
use librapid.Outcome.Laws.{and_then-eq-ok}
use librapid.World.{EventLoopPool}
use librapid.LoopPool.{next_loop}

-- So many calls of nextLoop, one after the other.
unfoldable pub turns : ℕ → M EventLoopPool (List ℕ)
turns zero = pure []
turns (suc m) = do l ← next_loop; ls ← turns m; pure (l ∷ ls)

abbrev pool : ℕ → List ℕ → EventLoopPool
pool c ls = record { count = c; loops = ls }

drop_step :
    (ls : List ℕ) (i : ℕ)
    → i < length ls
    → (l : ℕ) × (get_elem? ls i ≡ some l) × (drop i ls ≡ l ∷ drop (suc i) ls)
drop_step [] i h = absurd (omega arith)
drop_step (x ∷ ls) zero h = (x, refl, refl)
drop_step (x ∷ ls) (suc i) h = drop_step ls i (omega arith)

next_loop-some :
    (c : ℕ) (ls : List ℕ) (l : ℕ)
    → 0 < length ls
    → c + 1 < 2 ^ 32
    → get_elem? ls (c % length ls) ≡ some l
    → next_loop (pool c ls) ≡ ok l (pool (c + 1) ls)
unfolding next_loop
next_loop-some c [] l pos fits e = absurd (omega arith)
next_loop-some c (x ∷ ls) l pos fits e = ground arith

mod_next : (c n : ℕ) → c % n + 1 < n → (c + 1) % n ≡ c % n + 1
mod_next c n h = grind arith

mod_end : (c n : ℕ) → 0 < n → (c + (n - c % n)) % n ≡ 0
mod_end c n pos = grind arith

-- A call of `turns` is a call of nextLoop and the turns after it.
turns-suc :
    (m c : ℕ) (ls rest : List ℕ) (l : ℕ) (p : EventLoopPool)
    → next_loop (pool c ls) ≡ ok l (pool (c + 1) ls)
    → turns m (pool (c + 1) ls) ≡ ok rest p
    → turns (suc m) (pool c ls) ≡ ok (l ∷ rest) p
unfolding turns
turns-suc m c ls rest l p e f = rw (e, f) refl

-- Calls that stay within the list take its elements in order.
turns-stretch :
    (m c : ℕ) (ls : List ℕ)
    → 0 < length ls
    → c % length ls + m ≤ length ls
    → c + m < 2 ^ 32
    → turns m (pool c ls) ≡ ok (take m (drop (c % length ls) ls)) (pool (c + m) ls)
turns-stretch zero c ls pos room fits =
    unfold turns in ap (λ (k : ℕ). ok [] (pool k ls)) (omega arith)
turns-stretch (suc zero) c ls pos room fits =
    let (l, e, d) = drop_step ls (c % length ls) (omega arith) in
    rw d (
      turns-suc 0 c ls [] l (pool (c + 1) ls) (next_loop-some c ls l pos (omega arith) e)
        (unfold turns in refl))
turns-stretch (suc (suc m)) c ls pos room fits =
    let (l, e, d) = drop_step ls (c % length ls) (omega arith) in
    let next = mod_next c (length ls) (omega arith) in
    let place : (c + 1) % length ls ≡ suc (c % length ls) = omega (arith, next) in
    let counted : c + 1 + suc m ≡ c + suc (suc m) = omega arith in
    let later = turns-stretch (suc m) (c + 1) ls pos (rw next (omega arith)) (omega arith) in
    rw d (
      turns-suc (suc m) c ls (take (suc m) (drop (suc (c % length ls)) ls)) l
        (pool (c + suc (suc m)) ls) (next_loop-some c ls l pos (omega arith) e)
        (later
          ∙ ap (λ (k : ℕ). ok (take (suc m) (drop k ls)) (pool (c + 1 + suc m) ls)) place
          ∙ ap (λ (k : ℕ). ok (take (suc m) (drop (suc (c % length ls)) ls)) (pool k ls)) counted))

turns-append :
    (a b : ℕ) (p q r : EventLoopPool) (xs ys : List ℕ)
    → turns a p ≡ ok xs q
    → turns b q ≡ ok ys r
    → turns (a + b) p ≡ ok (xs ++ ys) r
unfolding turns
turns-append zero b p q r xs ys e f = ground (arith, zero-add b)
turns-append (suc a) b p q r xs ys e f =
    let (l, p1, e1, g1) = and_then-eq-ok (next_loop p) _ e in
    let (ls, p2, e2, g2) = and_then-eq-ok (turns a p1) _ g1 in
    let rest = turns-append a b p1 p2 r ls ys e2 (ground arith) in
    rw (suc-add a b) (rw (e1, rest) (ground arith))

take_all : (m : ℕ) (xs : List ℕ) → length xs ≤ m → take m xs ≡ xs
take_all zero [] h = refl
take_all zero (x ∷ xs) h = absurd (omega arith)
take_all (suc m) [] h = refl
take_all (suc m) (x ∷ xs) h = ap (◌∷◌ x) (take_all m xs (omega arith))

length-drop : (n : ℕ) (xs : List ℕ) → length (drop n xs) ≡ length xs - n
length-drop zero xs = omega arith
length-drop (suc n) [] = omega arith
length-drop (suc n) (x ∷ xs) = omega (arith, length-drop n xs)

-- As many calls of nextLoop as there are loops give each loop once, in rotation: the list from
-- where the counter stands and then its beginning, for a counter that does not wrap on the way.
pub turns-rotation :
    (c : ℕ) (ls : List ℕ)
    → 0 < length ls
    → c + length ls < 2 ^ 32
    → turns (length ls) (record { count = c; loops = ls })
      ≡ ok
          (drop (c % length ls) ls ++ take (c % length ls) ls)
          (record { count = c + length ls; loops = ls })
turns-rotation c ls pos fits =
    let i = c % length ls in
    let m = length ls - i in
    let inside : i < length ls = omega arith in
    let first = turns-stretch m c ls pos (omega arith) (omega arith) in
    let start : (c + m) % length ls ≡ 0 = mod_end c (length ls) pos in
    let second = turns-stretch i (c + m) ls pos (rw start (omega arith)) (omega arith) in
    let both =
      turns-append m i (pool c ls) (pool (c + m) ls) (pool (c + m + i) ls) _ _ first second in
    let all : take m (drop i ls) ≡ drop i ls =
      take_all m (drop i ls) (omega (arith, length-drop i ls)) in
    let sum : m + i ≡ length ls = omega arith in
    let count : c + m + i ≡ c + length ls = omega arith in
    ap (λ (k : ℕ). turns k (pool c ls)) (sym sum)
    ∙ both
    ∙ ap (λ (k : ℕ). ok (take m (drop i ls) ++ take i (drop k ls)) (pool (c + m + i) ls)) start
    ∙ ap (λ (xs : List ℕ). ok (xs ++ take i ls) (pool (c + m + i) ls)) all
    ∙ ap (λ (k : ℕ). ok (drop i ls ++ take i ls) (pool k ls)) count
