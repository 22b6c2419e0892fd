-- ===== src/Sym/Print.antt =====
-- The symbol report (dr_print_sym.cpp) ends like any logging, and where it puts file and line.
use dr_shadow_stack.Base.{ℕ, Option, none, some, List}
use dr_shadow_stack.Text.{Arg}
use dr_shadow_stack.Platform.{
  Platform, World, ModuleData, SymError, SymInfo, success, line_not_available, symbol_not_found,
  other,
}
use dr_shadow_stack.Platform.Post.{Ends, Frame, Frame-trans, Ends-and_then, Ends-mono}
use dr_shadow_stack.Runtime.{message}
use dr_shadow_stack.Runtime.Termination.{log_error-Ends, message-Ends}
use dr_shadow_stack.Sym.{print, print_module, print_found}

module _ (p : Platform) where
  print_found-Ends :
      (addr : ℕ) (m : ModuleData) (sym : SymInfo) (e : SymError) (w : World)
      → Ends (λ _ v. Frame w v) (print_found p addr m sym e w)
  unfolding print_found
  print_found-Ends addr m sym (other n) w = log_error-Ends p _ w
  print_found-Ends addr m sym symbol_not_found w = log_error-Ends p _ w
  print_found-Ends addr m sym success w = message-Ends p _ w
  print_found-Ends addr m sym line_not_available w = message-Ends p _ w

  print_module-Ends :
      (addr : ℕ) (o : Option ModuleData) (w : World)
      → Ends (λ _ v. Frame w v) (print_module p addr o w)
  unfolding print_module
  print_module-Ends addr none w = log_error-Ends p _ w
  print_module-Ends addr (some m) w = print_found-Ends addr m _ _ w

  pub print-Ends :
      (description : List Arg) (addr : ℕ) (w : World)
      → Ends (λ _ v. Frame w v) (print p description addr w)
  unfolding print
  print-Ends description addr w =
      Ends-and_then (λ _ v. Frame w v) _ (message p _ w) _ (message-Ends p _ w)
        λ _ v q.
          Ends-mono _ _ (print_module p addr (p.lookup_module addr) v)
            (print_module-Ends addr (p.lookup_module addr) v) λ _ u r. Frame-trans q r
