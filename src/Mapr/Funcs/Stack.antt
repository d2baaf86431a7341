-- ===== src/Mapr/Funcs/Stack.antt =====
-- internal/mapr/funcs/function.go: the loop of NewFunctionStack ends.
use dtail.Base.{
  ℕ, zero, suc, ◌≤◌, ◌<◌, ◌-◌, ◌≡◌, true, [], ◌∷◌, Option, none, some, is_some, arith, length,
  length-take, Bytes, cut_byte,
}
use dtail.Mapr.Funcs.{FunctionStack, stack_from, new_function_stack, without_last}

-- One more than the length of what follows the byte.
abbrev pub rest_size : Option (Bytes × Bytes) → ℕ
rest_size none = 0
rest_size (some (l, r)) = suc (length r)

pub rest_size-cut_byte : (b : ℕ) (s : Bytes) → rest_size (cut_byte b s) ≤ length s
unfolding cut_byte
rest_size-cut_byte b [] = omega arith
rest_size-cut_byte b (c ∷ s) = ground (arith, rest_size-cut_byte b s)

pub length-without_last : (s : Bytes) → length (without_last s) ≤ length s
length-without_last s = length-take (length s - 1) s

-- One round, given that the rest of the loop ends.
round-is_some :
    (fuel : ℕ) (original aux : Bytes) (fs : FunctionStack)
    → ((aux' : Bytes) (fs' : FunctionStack)
        → length aux' < fuel
        → is_some (stack_from fuel original aux' fs') ≡ true)
    → length aux < suc fuel
    → is_some (stack_from (suc fuel) original aux fs) ≡ true
unfolding stack_from
round-is_some fuel original aux fs ih h =
    grind (arith, rest_size-cut_byte b'(' aux, length-without_last, ih)

pub stack_from-is_some :
    (fuel : ℕ) (original aux : Bytes) (fs : FunctionStack)
    → length aux < fuel
    → is_some (stack_from fuel original aux fs) ≡ true
stack_from-is_some zero original aux fs h = ground (arith, h)
stack_from-is_some (suc fuel) original aux fs h =
    round-is_some fuel original aux fs (stack_from-is_some fuel original) h

pub new_function_stack-is_some : (input : Bytes) → is_some (new_function_stack input) ≡ true
new_function_stack-is_some input =
    unfold new_function_stack in
    stack_from-is_some (suc (length input)) input input [] (omega arith)
