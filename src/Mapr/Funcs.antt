-- ===== src/Mapr/Funcs.antt =====
-- internal/mapr/funcs: the functions of a set clause, stacked as in md5sum(maskdigits($line)).
pub mod Stack
use dtail.Base.{
  ℕ, zero, suc, ◌+◌, ◌-◌, Bool, true, false, List, [], ◌∷◌, ◌++◌, Option, none, some, ltb, leb,
  ◌==◌, if◌then◌else◌, length, take, Bytes, codes, str_eq, has_suffix, cut_byte, is_digit,
}
use dtail.Mapr.Result.{
  Result, ok, err, ◌>>=◌, QueryError, unparsable_function, unknown_function, stray_close,
  unclosed_open,
}

pub data CallbackFunc : Type 0 where
  md5_sum mask_digits : CallbackFunc

-- Function, with its Go callback as a value of CallbackFunc.
pub record Function : Type 0 where
  pub name : Bytes
  pub call : CallbackFunc

abbrev pub FunctionStack : Type 0
FunctionStack = List Function

unfoldable pub lookup_callback : Bytes → Result CallbackFunc
unfolding str_eq
lookup_callback name =
    if str_eq name (codes "md5sum")
    then ok md5_sum
    else if str_eq name (codes "maskdigits")
    then ok mask_digits
    else err (unknown_function name)

-- The loop over the bytes; a negative depth ends it.
unfoldable pub balance_from : ℕ → Bytes → Bytes → Result (Unit {0})
balance_from depth [] original = if depth == 0 then ok tt else err (unclosed_open original)
balance_from depth (c ∷ cs) original =
    let deeper = balance_from (depth + 1) cs original in
    let higher = balance_from (depth - 1) cs original in
    let level = balance_from depth cs original in
    if c == b'('
    then deeper
    else if c == b')'
    then (if depth == 0 then err (stray_close original) else higher)
    else level

unfoldable pub validate_paren_balance : Bytes → Bytes → Result (Unit {0})
unfolding balance_from
validate_paren_balance aux original = balance_from 0 aux original

-- aux[index+1 : len(aux)-1], given aux[index+1:]
abbrev pub without_last : Bytes → Bytes
without_last s = take (length s - 1) s

-- The loop of NewFunctionStack. Each round shortens `aux`, so its length is fuel enough; `none`
-- means that the fuel ran out.
unfoldable pub stack_from :
    ℕ → Bytes → Bytes → FunctionStack → Option (Result (FunctionStack × Bytes))
unfolding has_suffix cut_byte lookup_callback validate_paren_balance
stack_from zero original aux fs = none
stack_from (suc fuel) original aux fs = elim (has_suffix aux (codes ")")) [
  | false ↦
      some (elim (validate_paren_balance aux original) [ ok _ ↦ ok (fs, aux) | err e ↦ err e ])
  | true ↦ elim (cut_byte b'(' aux) [
    | none ↦ some (err (unparsable_function original))
    | some (name, rest) ↦ elim (length name == 0) [
      | true ↦ some (err (unparsable_function original))
      | false ↦ elim (lookup_callback name) [
        | err e ↦ some (err e)
        | ok call ↦
            stack_from fuel original (without_last rest)
              (fs ++ (record { name = name; call = call }) ∷ [])
      ]
    ]
  ]
]

-- NewFunctionStack
unfoldable pub new_function_stack : Bytes → Option (Result (FunctionStack × Bytes))
unfolding stack_from
new_function_stack input = stack_from (suc (length input)) input input []

-- MaskDigits
unfoldable pub masked : Bytes → Bytes
masked [] = []
masked (c ∷ cs) = (if is_digit c then b'.' else c) ∷ masked cs

-- The sum of crypto/md5 in hexadecimal is a parameter.
module _ (md5 : Bytes → Bytes) where
  unfoldable pub apply : CallbackFunc → Bytes → Bytes
  unfolding masked
  apply md5_sum s = md5 s
  apply mask_digits s = masked s

  -- FunctionStack.Call: the innermost function, which is the last, goes first.
  unfoldable pub call_stack : FunctionStack → Bytes → Bytes
  unfolding apply
  call_stack [] str = str
  call_stack (f ∷ fs) str = apply f.call (call_stack fs str)
