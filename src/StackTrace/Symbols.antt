-- ===== src/StackTrace/Symbols.antt =====
-- src/stacktrace.cpp: the lines of formatStack. backtrace_symbols takes its strings from malloc, so
-- they stand in no loaded object, and dladdr of where a string stands finds nothing.
use librapid.Prelude.{◌≡◌, refl, ℕ, some, List, [], ◌∷◌, ◌++◌, arith, map, All, none}
use librapid.StackTrace.{Runtime, Symbol, put_location, put_symbols, format_stack, indent, line_end}
use librapid.StackTrace.Demangle.{outside, demangle_symbols-outside}

abbrev pub lines : List (List ℕ) → List ℕ
lines [] = []
lines (t ∷ rest) = indent ++ (t ++ (line_end ++ lines rest))

module _ (R : Runtime) where
  abbrev pub IsHeap : Symbol → Type 0
  IsHeap s = R.dladdr s.address ≡ none

  put_location-heap : (s : Symbol) → IsHeap s → put_location R s ≡ []
  unfolding put_location
  put_location-heap s heap = ground arith

  put_symbols-lines :
      (symbols : List Symbol)
      → All IsHeap symbols
      → put_symbols R symbols ≡ lines (map (λ s. outside R s.text) symbols)
  unfolding put_symbols
  put_symbols-lines [] h = refl
  put_symbols-lines (s ∷ rest) (heap, h) =
      rw (put_location-heap s heap, demangle_symbols-outside R s.text, put_symbols-lines rest h)
        refl

  -- formatStack, where backtrace_symbols gives strings whose own addresses dladdr does not know,
  -- is a blank line and then one indented line for each string, demangled: no name and no offset
  -- is added to any.
  pub format_stack-lines :
      (trace : List ℕ) (symbols : List Symbol)
      → R.backtrace_symbols trace ≡ some symbols
      → All IsHeap symbols
      → format_stack R trace ≡ line_end ++ lines (map (λ s. outside R s.text) symbols)
  unfolding format_stack
  format_stack-lines trace symbols given h = rw (given, put_symbols-lines symbols h) refl
