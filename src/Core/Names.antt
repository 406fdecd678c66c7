-- ===== src/Core/Names.antt =====
-- The names of the objects that the rounds make (controllers/core/context.go).
use cloudrun.Base.{ℕ, ◌≡◌, pos, show_int, show_ℕ-injective, append_cancel_left}
use cloudrun.Core.Context.{Context, name, sub_name}

-- Two rounds of one object, not negative, never share a name for their jobs and stateful sets.
pub sub_name-injective :
    (ctx : Context) (n m : ℕ) → sub_name ctx (pos n) ≡ sub_name ctx (pos m) → n ≡ m
unfolding sub_name show_int
sub_name-injective ctx n m e =
    show_ℕ-injective n m (append_cancel_left "-" _ _ (append_cancel_left (name ctx) _ _ e))
