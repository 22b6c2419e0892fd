-- ===== src/Tests/Overflow.antt =====
-- A name that fills a socket's address and has no room for its NUL.
use dr_shadow_stack.Base.{ℕ, some, List, [], codes, replicate}
use dr_shadow_stack.Platform.{Platform}
use dr_shadow_stack.Mode.{mode_of, external_mode_flag}
use dr_shadow_stack.Start.{Args}
use dr_shadow_stack.Tests.{helpful}

abbrev long_name : List ℕ
long_name = replicate 108 b'a'

abbrev long_names : Platform
long_names = record helpful { unique_path = λ m. some long_name }

abbrev arguments : Args
arguments = record { mode = mode_of external_mode_flag; target = codes "/bin/ls"; target_args = [] }
