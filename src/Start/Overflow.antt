-- ===== src/Start/Overflow.antt =====
-- `main` of shadow_stack.cpp in external mode with a temporary directory whose path is long: the way to
-- the overflow of the socket's address (temp_name.cpp, quick_socket.cpp).
use dr_shadow_stack.Base.{◌≡◌}
use dr_shadow_stack.Platform.{Platform, World, Outcome, undefined, ◌>>◌}

abbrev pub IsUndefined {ℓ} : {A : Type ℓ} → Outcome A → Type ℓ
IsUndefined o = (v : World) × (o ≡ undefined v)
