-- ===== src/Core/Script/Spend.antt =====
-- core/script.go: `evalScript` of a transaction that carries a well-sized script of its sender, down to
-- the loading of the witness.
use dnas.Base.{
  ◌≤◌, ◌<◌, Bool, ◌==◌, ◌||◌, ltb, leb, if◌then◌else◌, true, false, some, List, ◌∷◌, length, ◌≡◌,
  refl, arith, inl, inr, Bool-cases,
}
use dnas.Base.Str.{Str, str_eq_self}
use dnas.Base.Result.{ok, err, ◌>>=◌}
use dnas.Core.Env.{Env}
use dnas.Core.Tx.{Transaction}
use dnas.Core.Tx.Codec.{signing_bytes}
use dnas.Core.Script.{ScriptError, Vm, max_script_bytes, max_script_witness, push}
use dnas.Core.Script.Eval.{
  eval_auth, eval_script, initial_vm, load_script, push_witness, run_loaded, script_address,
}

-- The transaction with a script and the arguments of its witness.
abbrev pub spending : Transaction → Str → List Str → Transaction
spending t script_hex args = record t {
  script = some (record { script = script_hex; args = args });
}

pub eval_script-spending :
    (env : Env) (t : Transaction) (script_hex script : Str) (args : List Str)
    → env.crypto.hex_decode script_hex ≡ some script
    → env.wallet.script_address script_hex ≡ some t.from
    → 0 < length script
    → length script ≤ max_script_bytes
    → length args ≤ max_script_witness
    → eval_script env (spending t script_hex args)
      ≡ run_loaded env
          (signing_bytes env (spending t script_hex args))
          (push_witness env args initial_vm >>= λ v. ok (script, v))
unfolding eval_script eval_auth load_script script_address
eval_script-spending env t script_hex script args decoded owner filled short few =
    let nonempty : (length script == 0 || ltb max_script_bytes (length script)) ≡ false =
      ground (arith, filled, short) in
    let loads : ltb max_script_witness (length args) ≡ false = ground (arith, few) in
    rw (decoded, nonempty, owner, str_eq_self t.from, loads) refl

-- A witness item that is not too long.
abbrev pub fits : Str → Bool
fits item = leb (length item) 520

pub push_witness-item :
    (env : Env) (arg item : Str) (args : List Str) (v : Vm)
    → env.crypto.hex_decode arg ≡ some item
    → (length v.stack < 64)
    → push_witness env (arg ∷ args) v ≡ (
        if fits item
        then push_witness env args (record v { stack = item ∷ v.stack })
        else err ScriptError.witness_item)
unfolding push_witness push
push_witness-item env arg item args v decoded room = elim (Bool-cases (fits item)) [
  | inl short ↦
      let small : ltb 520 (length item) ≡ false = ground (arith, short) in
      let free : leb 64 (length v.stack) ≡ false = ground (arith, room) in
      rw (decoded, short, small, free) refl
  | inr long ↦
      let large : ltb 520 (length item) ≡ true = ground (arith, long) in
      rw (decoded, long, large) refl
]
