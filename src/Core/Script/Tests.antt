-- ===== src/Core/Script/Tests.antt =====
-- Runs of the script interpreter, and its theorems at concrete scripts.
use dnas.Base.{
  ◌+◌, ◌^◌, ◌<◌, ◌≤◌, true, false, some, is_some, List, [], ◌∷◌, length, ◌≡◌, refl, arith,
}
use dnas.Base.Str.{Str, str_eq}
use dnas.Base.Result.{ok}
use dnas.Core.Tx.{Transaction, is_coinbase}
use dnas.Core.Block.{verify_ops}
use dnas.Core.Script.{small_int, verifies}
use dnas.Core.Script.Eval.{
  Cursor, accepted_stack, step, initial_vm, eval_script, run_loop, run_script, finished,
}
use dnas.Core.Script.Limits.{IsBounded}
use dnas.Core.Script.Run.{step-IsBounded}
use dnas.Core.Script.Authorized.{IsAuthorized}
use dnas.Core.Script.Accepted.{eval_script-returns, eval_script-verify_ops, initial-IsBounded}
use dnas.Core.Script.Build.{uint_item, built_bytes, time_lock, htlc}
use dnas.Core.Script.Build.Uint.{small_int-uint_item}
use dnas.Core.Script.Items.{Item, push_item, op_item, items_valid, assemble, run_items}
use dnas.Core.Script.Items.Steps.{run_loop-assemble}
use dnas.Core.Script.Predicates.{with_witness, time_lock-spends, verdict, capped}
use dnas.Core.Tx.Auth.{verify_sender, verify_by}
use dnas.Core.Script.Verify.{with_scripts, verify_script, verify_sender-script}
use dnas.Core.Script.HashRuns.{htlc_items, claimed}
use dnas.Core.Script.HashLock.{htlc-spends}
use dnas.Core.Script.Spend.{spending}
use dnas.Core.Tx.Codec.{signing_bytes}
use dnas.Samples.{env, plain_tx}

-- The script of one `OP_TRUE`, and its account.
abbrev true_script : Transaction
true_script = record plain_tx {
  from = 115 ∷ 0x65 ∷ [];
  script = some (record { script = 0x65 ∷ []; args = [] });
}

abbrev after_true : Cursor
after_true = record {
  rest = [];
  branches = [];
  vm = record { stack = (1 ∷ []) ∷ []; ops = 1; sig_checks = 0; min_height = 0 };
}

step_true : step env [] 0x65 [] [] initial_vm ≡ ok after_true
unfolding step
step_true = refl

true_script_accepted :
    eval_script env true_script ≡ some (ok (record { result_height = 0; result_checks = 0 }))
unfolding eval_script str_eq accepted_stack
true_script_accepted = refl

abbrev key : Str
key = 7 ∷ 8 ∷ []

abbrev lock : Str
lock = 3 ∷ 4 ∷ []

abbrev signature : Str
signature = 7 ∷ 8 ∷ []

plain : is_coinbase true_script ≡ false
unfolding is_coinbase str_eq
plain = refl

small_height : 70000 < 2 ^ 64
small_height = omega arith

short_key : length key ≤ 520
short_key = omega arith

short_parts : length lock + length key + length key ≤ 520
short_parts = omega arith

abbrev two_items : List Item
two_items = push_item key ∷ op_item 0x80 ∷ []

two_items-valid : items_valid two_items ≡ true
unfolding items_valid
two_items-valid = refl

two_items-length : length (assemble two_items) ≤ 4
unfolding assemble
two_items-length = omega arith

eval_script-returns_example : is_some (eval_script env true_script) ≡ true
eval_script-returns_example = eval_script-returns env true_script

step-IsBounded_example : IsBounded after_true.vm
step-IsBounded_example =
    step-IsBounded env [] 0x65 [] [] initial_vm after_true step_true initial-IsBounded

eval_script-verify_ops_example : (0 ≤ verify_ops true_script) × (0 ≤ 2 ^ 31)
eval_script-verify_ops_example =
    eval_script-verify_ops env true_script (record { result_height = 0; result_checks = 0 })
      true_script_accepted plain refl refl refl

small_int-uint_item_example : small_int (uint_item 70000) ≡ 70000
small_int-uint_item_example = small_int-uint_item 70000 small_height

run_loop-assemble_example :
    run_loop env [] 4 (assemble two_items) [] (with_witness (signature ∷ []))
    ≡ some (run_items env [] two_items [] (with_witness (signature ∷ [])))
run_loop-assemble_example =
    run_loop-assemble env [] 4 two_items [] (with_witness (signature ∷ [])) two_items-valid
      two_items-length

time_lock-spends_example :
    (script : Str) × (built_bytes (time_lock env key 70000) ≡ ok script)
    × (finished (run_script env [] script (with_witness (signature ∷ [])))
        ≡ some (verdict (verifies env [] key signature) (capped 70000) 1))
time_lock-spends_example =
    time_lock-spends env [] key key signature 70000 refl short_key small_height

-- The account of the predicate, whose hash is the identity on what is shorter than 32 bytes.
abbrev htlc_script : Str
htlc_script = assemble (htlc_items lock key key 70000)

abbrev htlc_tx : Transaction
htlc_tx = record plain_tx { from = 115 ∷ htlc_script }

abbrev claim_tx : Transaction
claim_tx = spending htlc_tx htlc_script (signature ∷ lock ∷ (1 ∷ []) ∷ [])

abbrev refund_tx : Transaction
refund_tx = spending htlc_tx htlc_script (signature ∷ [] ∷ [])

htlc-spends_example :
    (built_bytes (htlc env lock key key 70000) ≡ ok htlc_script)
    × (eval_script env claim_tx
        ≡ some (
            claimed
              (str_eq lock (env.crypto.sha256 lock))
              (verifies env (signing_bytes env claim_tx) key signature)))
    × (eval_script env refund_tx
        ≡ some
            (verdict (verifies env (signing_bytes env refund_tx) key signature) (capped 70000) 1))
htlc-spends_example =
    htlc-spends env htlc_tx htlc_script lock key key signature lock (1 ∷ []) [] lock key key
      signature lock 70000 refl refl refl refl refl refl refl short_parts short_key small_height
      refl refl

true_script_verified : verify_sender (with_scripts env) true_script ≡ ok tt
unfolding verify_sender verify_by with_scripts verify_script eval_script str_eq accepted_stack
true_script_verified = refl

verify_sender-script_example :
    IsAuthorized env true_script (record { script = 0x65 ∷ []; args = [] })
verify_sender-script_example =
    verify_sender-script env true_script (record { script = 0x65 ∷ []; args = [] }) refl refl refl
      refl true_script_verified
