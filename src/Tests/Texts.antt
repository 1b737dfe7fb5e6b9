-- ===== src/Tests/Texts.antt =====
-- A backtrace of one line, and a registry of loggers.
use librapid.Prelude.{
  ℕ, ◌≡◌, refl, Bool, true, false, ◌&&◌, Option, none, some, List, [], ◌∷◌, ◌++◌, ◌==◌, map,
  if◌then◌else◌, codes,
}
use librapid.StackTrace.{Runtime, Symbol, demangle_symbols, format_stack, line_end}
use librapid.StackTrace.Demangle.{outside, demangle_symbols-outside}
use librapid.StackTrace.Symbols.{lines, format_stack-lines}

abbrev same_text : List ℕ → List ℕ → Bool
same_text [] [] = true
same_text (a ∷ s) (b ∷ t) = (a == b) && same_text s t
same_text _ _ = false

abbrev frame : Symbol
frame = record { address = 77; text = codes "./prog(_Z3foov+0x15) [0x40]" }

abbrev runtime : Runtime
runtime = record {
  cxa_demangle = λ s. if same_text s (codes "_Z3foov") then some (codes "foo()") else none;
  backtrace = λ n. 1 ∷ [];
  backtrace_symbols = λ trace. some (frame ∷ []);
  dladdr = λ p. none;
  system_error = codes "Success";
}

demangle_symbols-outside_example : demangle_symbols runtime frame.text ≡ outside runtime frame.text
demangle_symbols-outside_example = demangle_symbols-outside runtime frame.text

format_stack-lines_example :
    format_stack runtime (1 ∷ [])
    ≡ line_end ++ lines (map (λ s. outside runtime s.text) (frame ∷ []))
format_stack-lines_example = format_stack-lines runtime (1 ∷ []) (frame ∷ []) refl (refl, tt)

abbrev registered : List ℕ → List (List ℕ × ℕ) → Option ℕ
registered n [] = none
registered n ((m, l) ∷ rest) = if same_text m n then some l else registered n rest
