-- ===== src/Sym.antt =====
-- dr_print_sym.cpp: the symbol report of an address. DynamoRIO's lookups are the platform's.
pub mod Print
use dr_shadow_stack.Base.{
  ℕ, ◌+◌, ◌-◌, ◌*◌, ◌%◌, ◌^◌, Bool, true, false, not, Option, none, some, List, [], ◌∷◌, ◌++◌,
}
use dr_shadow_stack.Text.{Arg, text, bytes, pointer, number}
use dr_shadow_stack.Platform.{
  Platform, World, M, ModuleData, SymError, SymInfo, success, line_not_available, symbol_not_found,
  other, drsym_init, drsym_exit, syscall, skip, ◌>>=◌, ◌>>◌,
}
use dr_shadow_stack.Runtime.{assert, log_error, message}

-- `... == DRSYM_SUCCESS`
abbrev pub is_success : Option ℕ → Bool
is_success none = false
is_success (some r) = true

abbrev modname : Option (List ℕ) → List Arg
modname none = text "<noname>" ∷ []
modname (some name) = bytes name ∷ []

module _ (p : Platform) where
  -- `addr - data->start - sym.start_offs` in the machine's unsigned words.
  abbrev pub word_diff : ℕ → ℕ → ℕ
  word_diff a b = (a + 256 ^ p.pointer_size - b % 256 ^ p.pointer_size) % 256 ^ p.pointer_size

  unfoldable pub init : M (Unit {0})
  init = do
    λ w. assert p (not w.sym_setup) (some (text "Sym::setup() called twice!" ∷ [])) w
    r ← syscall p drsym_init
    assert p (is_success r) (some (text "drsym_init() failed." ∷ []))
    λ w. skip (record w { sym_setup = true })

  unfoldable pub finish : M (Unit {0})
  finish = do
    λ w. assert p w.sym_setup (some (text "Sym::cleanup() called before setup!" ∷ [])) w
    r ← syscall p drsym_exit
    assert p (is_success r) (some (text "drsym_exit() failed." ∷ []))

  -- The last part of the report hangs on the lookup's result.
  unfoldable pub line_info : SymInfo → SymError → List Arg
  line_info sym line_not_available =
      text "\n\t- File: "
      ∷ bytes sym.file
      ∷ text "\n\t- Line: "
      ∷ number sym.line
      ∷ text " + "
      ∷ number sym.line_offs
      ∷ []
  line_info sym _ = text "\n\t- No line specific information available.\n" ∷ []

  unfoldable pub symbol_info : ℕ → ModuleData → SymInfo → List Arg
  unfolding line_info
  symbol_info addr m sym =
      (text "Address: " ∷ pointer addr ∷ text "\n\t- Module: " ∷ modname m.preferred_name)
      ++ ((text "\n\t- Symbol: "
            ∷ bytes sym.name
            ∷ text " + "
            ∷ number (word_diff (word_diff addr m.start) sym.start_offs)
            ∷ [])
          ++ line_info sym sym.error)

  -- The switch on `symres`.
  unfoldable pub print_found : ℕ → ModuleData → SymInfo → SymError → M (Unit {0})
  print_found addr m sym (other n) = log_error p (
      text "drsym_lookup_address() failed for "
      ∷ pointer addr
      ∷ text "with error number: "
      ∷ number n
      ∷ [])
  print_found addr m sym symbol_not_found =
      log_error p
        (text "drsym_lookup_address() failed for " ∷ pointer addr ∷ text " - symbol not found" ∷ [])
  print_found addr m sym success = message p (symbol_info addr m sym)
  print_found addr m sym line_not_available = message p (symbol_info addr m sym)

  unfoldable pub print_module : ℕ → Option ModuleData → M (Unit {0})
  unfolding print_found
  print_module addr none = log_error p (text "Unknown symbol for " ∷ pointer addr ∷ [])
  print_module addr (some m) =
      let sym = p.lookup_address m (word_diff addr m.start) in print_found addr m sym sym.error

  unfoldable pub print : List Arg → ℕ → M (Unit {0})
  unfolding print_module
  print description addr = do
    message p (text "Printing symbol information for " ∷ (description ++ text "..." ∷ []))
    print_module addr (p.lookup_module addr)
