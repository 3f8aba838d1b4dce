-- ===== src/Core/Script.antt =====
-- core/script.go: the authorization script interpreter. The stack is a list with its top first, and so
-- is the list of open branches, with the innermost first. An error ends the execution, so an action
-- returns the next machine or an error.
pub mod Eval
pub mod Bounds
pub mod Limits
pub mod Run
pub mod Accepted
pub mod Authorized
pub mod Build
pub mod Items
pub mod Predicates
pub mod Spend
pub mod HashRuns
pub mod HashLock
pub mod Tests
pub mod Verify
use dnas.Base.{
  ℕ, zero, suc, ◌+◌, ◌*◌, ◌^◌, ltb, leb, ◌==◌, if◌then◌else◌, Bool, true, false, not, ◌&&◌, ◌||◌,
  Option, none, some, List, [], ◌∷◌, length, take, drop,
}
use dnas.Base.Str.{Str, str_eq}
use dnas.Base.Result.{Result, ok, err, ◌>>=◌, ◌>>◌, fail_if}
use dnas.Core.Block.{max_script_sig_checks}
use dnas.Core.Env.{Env}

abbrev pub max_script_bytes : ℕ
max_script_bytes = 1024

abbrev pub max_script_ops : ℕ
max_script_ops = 256

abbrev pub max_script_stack : ℕ
max_script_stack = 64

abbrev pub max_script_item_bytes : ℕ
max_script_item_bytes = 520

abbrev pub max_script_witness : ℕ
max_script_witness = 32

abbrev pub op_push_data : ℕ
op_push_data = 0x50

pub data ScriptError : Type 0 where
  stack_overflow item_too_large stack_underflow : ScriptError
  script_too_large too_many_ops push_past_end truncated_pushdata : ScriptError
  else_without_if end_if_without_if unterminated_if : ScriptError
  verify_failed equal_verify_failed check_sig_verify_failed check_multi_sig_verify_failed :
      ScriptError
  too_many_sig_checks key_count threshold_range height_too_large : ScriptError
  check_sender_verify unknown_opcode : ScriptError
  no_script not_hex script_size wrong_sender witness_too_long witness_item : ScriptError
  stack_not_clean evaluated_to_false : ScriptError

-- `scriptVM`, without the message.
pub record Vm : Type 0 where
  pub stack : List Str
  pub ops : ℕ
  pub sig_checks : ℕ
  pub min_height : ℕ

-- What the machine returns: a value with the next machine.
abbrev pub Popped : Type 0 → Type 0
Popped A = Result ScriptError (A × Vm)

abbrev pub Ran : Type 0
Ran = Result ScriptError Vm

unfoldable pub push : Str → Vm → Ran
push item v =
    if leb max_script_stack (length v.stack)
    then err ScriptError.stack_overflow
    else if ltb max_script_item_bytes (length item)
    then err ScriptError.item_too_large
    else ok (record v { stack = item ∷ v.stack })

abbrev pub pop_from : List Str → Vm → Popped Str
pop_from [] v = err ScriptError.stack_underflow
pop_from (item ∷ stack) v = ok (item, record v { stack = stack })

unfoldable pub pop : Vm → Popped Str
pop v = pop_from v.stack v

unfoldable pub truthy : Str → Bool
truthy [] = false
truthy (b ∷ item) = not (b == 0) || truthy item

abbrev pub bool_item : Bool → Str
bool_item true = 1 ∷ []
bool_item false = []

-- The fold of `smallInt`, which 8 bytes cannot overflow.
unfoldable pub be_value : ℕ → Str → ℕ
be_value n [] = n
be_value n (b ∷ item) = be_value (n * 256 + b) item

unfoldable pub small_int : Str → ℕ
unfolding be_value
small_int item =
    if length item == 0 || ltb 8 (length item)
    then 0
    else if ltb (2 ^ 31) (be_value 0 item)
    then 2 ^ 31
    else be_value 0 item

-- The loops that pop `n` items, the first popped first.
unfoldable pub pop_n : ℕ → Vm → Popped (List Str)
unfolding pop
pop_n zero v = ok ([], v)
pop_n (suc n) v = pop v >>= λ p. pop_n n p.1 >>= λ q. ok (p.0 ∷ q.0, q.1)

-- `OP_DUP` and `OP_SWAP`, on the stack.
unfoldable pub dup_top : List Str → Vm → Ran
unfolding push
dup_top [] v = err ScriptError.stack_underflow
dup_top (top ∷ stack) v = push top v

abbrev pub swap_top : List Str → Vm → Ran
swap_top [] v = err ScriptError.stack_underflow
swap_top (a ∷ []) v = err ScriptError.stack_underflow
swap_top (a ∷ b ∷ stack) v = ok (record v { stack = b ∷ a ∷ stack })

-- The opcodes from `opPushData` on that `exec` knows, and any other.
pub data Op : Type 0 where
  op_dup op_drop op_swap op_equal op_verify op_true op_false op_sha256 : Op
  op_check_sig op_check_sig_verify op_check_multi_sig op_check_multi_sig_verify : Op
  op_check_height_verify op_check_sender_verify op_equal_verify : Op
  unknown : ℕ → Op

-- A byte of the script.
pub data Instr : Type 0 where
  direct : ℕ → Instr
  push_data op_if op_else op_end_if : Instr
  operation : Op → Instr

unfoldable pub op_of : ℕ → Op
op_of b =
    if b == 0x60
    then Op.op_dup
    else if b == 0x61
    then Op.op_drop
    else if b == 0x62
    then Op.op_swap
    else if b == 0x63
    then Op.op_equal
    else if b == 0x64
    then Op.op_verify
    else if b == 0x65
    then Op.op_true
    else if b == 0x66
    then Op.op_false
    else if b == 0x70
    then Op.op_sha256
    else if b == 0x80
    then Op.op_check_sig
    else if b == 0x81
    then Op.op_check_sig_verify
    else if b == 0x82
    then Op.op_check_multi_sig
    else if b == 0x83
    then Op.op_check_height_verify
    else if b == 0x84
    then Op.op_check_sender_verify
    else if b == 0x85
    then Op.op_equal_verify
    else if b == 0x86
    then Op.op_check_multi_sig_verify
    else Op.unknown b

unfoldable pub instr_of : ℕ → Instr
unfolding op_of
instr_of b =
    if ltb b op_push_data
    then Instr.direct b
    else if b == op_push_data
    then Instr.push_data
    else if b == 0x90
    then Instr.op_if
    else if b == 0x91
    then Instr.op_else
    else if b == 0x92
    then Instr.op_end_if
    else Instr.operation (op_of b)

-- `executing`
unfoldable pub executing : List Bool → Bool
executing [] = true
executing (b ∷ branches) = b && executing branches

-- The end of the signature operations: push the answer, or demand it.
unfoldable pub settle : Bool → ScriptError → Bool → Vm → Ran
unfolding push
settle true e answer v = fail_if (not answer) e >> ok v
settle false e answer v = push (bool_item answer) v

abbrev keeping : Str × Bool → Option (List (Str × Bool)) → Option (List (Str × Bool))
keeping k none = none
keeping k (some keys) = some (k ∷ keys)

abbrev pub unmarked : List Str → List (Str × Bool)
unmarked [] = []
unmarked (k ∷ keys) = (k, false) ∷ unmarked keys

unfoldable pub check_height : Vm → Ran
unfolding pop
check_height v = pop v >>= λ item.
    fail_if (ltb 8 (length item.0)) ScriptError.height_too_large
    >> ok (record item.1 {
      min_height =
          if ltb item.1.min_height (small_int item.0) then small_int item.0 else item.1.min_height;
    })

-- `msg` is the signing preimage.
module _ (env : Env) (msg : Str) where
  unfoldable pub verifies : Str → Str → Bool
  verifies key sig = env.wallet.verify (env.crypto.hex_encode key) (env.crypto.hex_encode sig) msg

  unfoldable pub check_sig : Bool → Vm → Ran
  unfolding pop settle
  check_sig demand v =
      fail_if (ltb max_script_sig_checks (v.sig_checks + 1)) ScriptError.too_many_sig_checks
      >> (pop (record v { sig_checks = v.sig_checks + 1 }) >>= λ pub_key. pop pub_key.1 >>= λ sig.
          settle demand ScriptError.check_sig_verify_failed (verifies pub_key.0 sig.0) sig.1)

  -- The inner loop of `checkMultiSig`: the keys with their marks, after the first free key that
  -- verifies is marked.
  unfoldable pub mark_key : Str → List (Str × Bool) → Option (List (Str × Bool))
  unfolding verifies
  mark_key sig [] = none
  mark_key sig ((key, used) ∷ keys) =
      let later = keeping (key, used) (mark_key sig keys) in
      if used then later else if verifies key sig then some ((key, true) ∷ keys) else later

  -- Its outer loop: how many signatures found a key.
  unfoldable pub matched : List Str → List (Str × Bool) → ℕ
  unfolding mark_key
  matched [] keys = 0
  matched (sig ∷ sigs) keys = elim (mark_key sig keys) [
    | none ↦ matched sigs keys
    | some rest ↦ matched sigs rest + 1
  ]

  -- From the threshold on, with the keys popped.
  unfoldable pub check_threshold : Bool → ℕ → List Str → Vm → Ran
  unfolding pop pop_n matched settle
  check_threshold demand n keys v = pop v >>= λ m_item.
      let m = small_int m_item.0 in
      fail_if (m == 0 || ltb n m) ScriptError.threshold_range
      >> (pop_n m m_item.1 >>= λ sigs.
          let v' = record sigs.1 { sig_checks = sigs.1.sig_checks + m * n } in
          fail_if (ltb max_script_sig_checks v'.sig_checks) ScriptError.too_many_sig_checks
          >> settle demand ScriptError.check_multi_sig_verify_failed
              (leb m (matched sigs.0 (unmarked keys))) v')

  unfoldable pub check_multi_sig : Bool → Vm → Ran
  unfolding pop pop_n check_threshold
  check_multi_sig demand v = pop v >>= λ n_item.
      let n = small_int n_item.0 in
      fail_if (n == 0 || ltb max_script_sig_checks n) ScriptError.key_count
      >> (pop_n n n_item.1 >>= λ keys. check_threshold demand n keys.0 keys.1)

  unfoldable pub exec : Op → Vm → Ran
  unfolding push pop truthy dup_top check_sig check_multi_sig check_height
  exec Op.op_true v = push (1 ∷ []) v
  exec Op.op_false v = push [] v
  exec Op.op_dup v = dup_top v.stack v
  exec Op.op_drop v = pop v >>= λ item. ok item.1
  exec Op.op_swap v = swap_top v.stack v
  exec Op.op_equal v = pop v >>= λ a. pop a.1 >>= λ b. push (bool_item (str_eq a.0 b.0)) b.1
  exec Op.op_equal_verify v = pop v >>= λ a.
      pop a.1 >>= λ b. fail_if (not (str_eq a.0 b.0)) ScriptError.equal_verify_failed >> ok b.1
  exec Op.op_verify v =
      pop v >>= λ top. fail_if (not (truthy top.0)) ScriptError.verify_failed >> ok top.1
  exec Op.op_sha256 v = pop v >>= λ top. push (env.crypto.sha256 top.0) top.1
  exec Op.op_check_sig v = check_sig false v
  exec Op.op_check_sig_verify v = check_sig true v
  exec Op.op_check_multi_sig v = check_multi_sig false v
  exec Op.op_check_multi_sig_verify v = check_multi_sig true v
  exec Op.op_check_height_verify v = check_height v
  exec Op.op_check_sender_verify v = err ScriptError.check_sender_verify
  exec (Op.unknown b) v = err ScriptError.unknown_opcode
