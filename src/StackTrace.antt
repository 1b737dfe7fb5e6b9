-- ===== src/StackTrace.antt =====
-- src/stacktrace.cpp, include/rapid/core/stacktrace.h, src/exception.cpp: the text of a backtrace.
-- A text is the list of its character codes. What libc, the linker and the C++ runtime give is a
-- parameter.
pub mod Demangle
pub mod Symbols
pub mod Signals
use librapid.Prelude.{
  ℕ, zero, suc, ◌+◌, ◌-◌, ◌/◌, ◌%◌, ◌^◌, Option, none, some, List, [], ◌∷◌, ◌++◌, ltb, ◌==◌,
  if◌then◌else◌, take, drop, min,
}

-- What dladdr(3) gives of an address: dli_sname, or null, and dli_saddr.
pub record DlInfo : Type 0 where
  pub sname : Option (List ℕ)
  pub saddr : ℕ

-- A string of the array of backtrace_symbols(3): where it stands, and its characters.
pub record Symbol : Type 0 where
  pub address : ℕ
  pub text : List ℕ

pub record Runtime : Type 0 where
  -- abi::__cxa_demangle: nothing where the status is not 0
  pub cxa_demangle : List ℕ → Option (List ℕ)
  -- backtrace(3): at most so many return addresses
  pub backtrace : ℕ → List ℕ
  -- backtrace_symbols(3): a string for each address, or null
  pub backtrace_symbols : List ℕ → Option (List Symbol)
  pub dladdr : ℕ → Option DlInfo
  -- std::system_error(errno).what()
  pub system_error : List ℕ

-- The first index of a character; std::string::npos is none.
abbrev pub index_of : ℕ → List ℕ → Option ℕ
index_of c [] = none
index_of c (x ∷ s) =
    if x == c then some 0 else elim (index_of c s) [ none ↦ none | some i ↦ some (suc i) ]

-- std::string::find(c, from)
abbrev pub find : ℕ → ℕ → List ℕ → Option ℕ
find c from s = elim (index_of c (drop from s)) [ none ↦ none | some i ↦ some (from + i) ]

-- std::string::substr(from, count)
abbrev pub substr : List ℕ → ℕ → ℕ → List ℕ
substr s from count = take count (drop from s)

-- `(` and `+`
abbrev pub left_paren : ℕ
left_paren = 40

abbrev pub plus_sign : ℕ
plus_sign = 43

-- A uint64_t in decimal, behind which `rest` stands; 20 digits are enough.
abbrev decimal : ℕ → ℕ → List ℕ → List ℕ
decimal zero v rest = rest
decimal (suc n) v rest =
    let more = decimal n (v / 10) ((48 + v % 10) ∷ rest) in
    if ltb v 10 then (48 + v) ∷ rest else more

abbrev pub line_end : List ℕ
line_end = 13 ∷ 10 ∷ []

abbrev pub indent : List ℕ
indent = 32 ∷ 32 ∷ 32 ∷ 32 ∷ []

module _ (R : Runtime) where
  unfoldable pub demangle_symbols : List ℕ → List ℕ
  demangle_symbols text = elim (find left_paren 0 text) [
    | none ↦ text
    | some begin ↦ elim (find plus_sign begin text) [
      | none ↦ text
      | some end ↦ elim (R.cxa_demangle (substr text (suc begin) (end - suc begin))) [
        | none ↦ text
        | some name ↦ take (suc begin) text ++ (name ++ drop end text)
      ]
    ]
  ]

  -- "(" dli_sname ")+" and the distance of the two pointers
  unfoldable pub put_location : Symbol → List ℕ
  put_location s = elim (R.dladdr s.address) [
    | none ↦ []
    | some info ↦ elim info.sname [
      | none ↦ []
      | some name ↦
          left_paren ∷ name
          ++ 41 ∷ plus_sign ∷ decimal 20 ((s.address + (2 ^ 64 - info.saddr)) % 2 ^ 64) []
    ]
  ]

  -- The loop of formatStack.
  unfoldable pub put_symbols : List Symbol → List ℕ
  unfolding demangle_symbols put_location
  put_symbols [] = []
  put_symbols (s ∷ rest) =
      indent ++ (demangle_symbols s.text ++ (put_location s ++ (line_end ++ put_symbols rest)))

  unfoldable pub format_stack : List ℕ → List ℕ
  unfolding put_symbols
  format_stack trace =
      line_end
      ++ elim (R.backtrace_symbols trace) [ none ↦ [] | some symbols ↦ put_symbols symbols ]

  -- StackTrace::StackTrace and toString
  unfoldable pub stack_trace : List ℕ
  unfolding format_stack
  stack_trace = format_stack (R.backtrace 62)

-- class AssertException
pub record AssertException : Type 0 where
  pub message : List ℕ
  pub file_name : List ℕ
  pub line : ℕ
  pub what : List ℕ
  pub trace : List ℕ

-- AssertException::AssertException
unfoldable pub assert_exception : Runtime → List ℕ → List ℕ → ℕ → List ℕ → AssertException
unfolding stack_trace
assert_exception R message file_name line what = record {
  message = message;
  file_name = file_name;
  line = line;
  what = elim what [ [] ↦ R.system_error | _ ∷ _ ↦ [] ];
  trace = stack_trace R;
}
