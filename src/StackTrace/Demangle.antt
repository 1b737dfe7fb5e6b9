-- ===== src/StackTrace/Demangle.antt =====
-- src/stacktrace.cpp: demangleSymbols, against a description of it by one pass over the text.
use librapid.Prelude.{
  ℕ, suc, ◌+◌, ◌-◌, ◌≡◌, refl, ap, sym, ◌∙◌, ◌⊎◌, inl, inr, Bool-cases, Option-cases, false, Option,
  none, some, List, [], ◌∷◌, ◌++◌, ◌==◌, if◌then◌else◌, take, drop, arith, ==_iff,
}
use librapid.StackTrace.{Runtime, index_of, substr, left_paren, plus_sign, demangle_symbols}

-- What stands before the first `+`, and what behind it.
abbrev pub cut : List ℕ → Option (List ℕ × List ℕ)
cut [] = none
cut (x ∷ s) =
    if x == plus_sign
    then some ([], s)
    else elim (cut s) [ none ↦ none | some (name, rest) ↦ some (x ∷ name, rest) ]

module _ (R : Runtime) where
  -- Behind the parenthesis: the name, if one ends in a `+` and can be demangled.
  abbrev pub inside : List ℕ → List ℕ
  inside s = elim (cut s) [
    | none ↦ s
    | some (name, rest) ↦ elim (R.cxa_demangle name) [
      | none ↦ s
      | some readable ↦ readable ++ plus_sign ∷ rest
    ]
  ]

  -- Up to the first parenthesis.
  abbrev pub outside : List ℕ → List ℕ
  outside [] = []
  outside (x ∷ s) = x ∷ (if x == left_paren then inside s else outside s)

  cut-index_of :
      (s : List ℕ)
      → ((index_of plus_sign s ≡ none) × (cut s ≡ none))
        ⊎ ((e : ℕ) × (rest : List ℕ) × (index_of plus_sign s ≡ some e)
            × (cut s ≡ some (take e s, rest))
            × (drop e s ≡ plus_sign ∷ rest))
  cut-index_of [] = inl (refl, refl)
  cut-index_of (x ∷ s) = elim (Bool-cases (x == plus_sign)) [
    | inl here ↦
        inr (0, s, rw here refl, rw here refl, ap (λ y. y ∷ s) ((==_iff x plus_sign).0 here))
    | inr other ↦ elim (cut-index_of s) [
      | inl (gone, none_cut) ↦ inl (rw (other, gone) refl, rw (other, none_cut) refl)
      | inr (e, rest, at, cuts, drops) ↦
          inr (suc e, rest, rw (other, at) refl, rw (other, cuts) refl, drops)
    ]
  ]

  demangle_symbols-paren :
      (s : List ℕ) → demangle_symbols R (left_paren ∷ s) ≡ left_paren ∷ inside s
  unfolding demangle_symbols
  demangle_symbols-paren s = elim (cut-index_of s) [
    | inl (gone, none_cut) ↦ rw gone (ap (◌∷◌ left_paren) (rw (none_cut, inside) refl))
    | inr (e, rest, at, cuts, drops) ↦ elim (Option-cases (R.cxa_demangle (take e s))) [
      | inl gone ↦ ground arith
      | inr (name, read) ↦ ground arith
    ]
  ]

  demangle_symbols-found :
      (text : List ℕ) (b i e n : ℕ) (name : List ℕ)
      → b + i ≡ e
      → e - suc b ≡ n
      → index_of left_paren text ≡ some b
      → index_of plus_sign (drop b text) ≡ some i
      → R.cxa_demangle (substr text (suc b) n) ≡ some name
      → demangle_symbols R text ≡ take (suc b) text ++ (name ++ drop e text)
  unfolding demangle_symbols
  demangle_symbols-found text b i e n name sum rest at found read = ground arith

  demangle_symbols-skip :
      (x : ℕ) (s : List ℕ)
      → (x == left_paren) ≡ false
      → demangle_symbols R (x ∷ s) ≡ x ∷ demangle_symbols R s
  unfolding demangle_symbols
  demangle_symbols-skip x s other = elim (Option-cases (index_of left_paren s)) [
    | inl gone ↦ rw (other, gone, demangle_symbols) refl
    | inr (b, at) ↦ elim (Option-cases (index_of plus_sign (drop b s))) [
      | inl gone ↦ ground arith
      | inr (i, found) ↦ elim (Option-cases (R.cxa_demangle (substr s (suc b) (b + i - suc b)))) [
        | inl gone ↦ ground arith
        | inr (name, read) ↦
            demangle_symbols-found (x ∷ s) (suc b) i (suc (b + i)) (b + i - suc b) name
              (omega arith) (omega arith) (rw (other, at) refl) found read
            ∙ ap (◌∷◌ x) (
                sym (
                  demangle_symbols-found s b i (b + i) (b + i - suc b) name refl refl at found
                    read))
      ]
    ]
  ]

  -- demangleSymbols, with its two searches and its substrings, is one pass over the text: up to
  -- the first parenthesis it copies, and behind it the text before the next plus is replaced by
  -- its readable name, if there is a plus and a name.
  pub demangle_symbols-outside : (text : List ℕ) → demangle_symbols R text ≡ outside text
  unfolding demangle_symbols
  demangle_symbols-outside [] = refl
  demangle_symbols-outside (x ∷ s) = elim (Bool-cases (x == left_paren)) [
    | inl here ↦
        ap (λ y. demangle_symbols R (y ∷ s)) ((==_iff x left_paren).0 here)
        ∙ demangle_symbols-paren s
        ∙ rw here (ap (λ y. y ∷ inside s) (sym ((==_iff x left_paren).0 here)))
    | inr other ↦
        demangle_symbols-skip x s other ∙ ap (◌∷◌ x) (demangle_symbols-outside s) ∙ rw other refl
  ]
