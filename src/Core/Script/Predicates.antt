-- ===== src/Core/Script/Predicates.antt =====
-- core/scriptbuild.go: the predicates that the builder makes accept what they are meant to.
use dnas.Base.{
  ℕ, ◌^◌, ◌≤◌, ◌<◌, ltb, ◌==◌, if◌then◌else◌, Bool, true, false, some, is_empty, List, [], ◌∷◌,
  length, ◌≡◌, refl, ap, ◌∙◌, arith, inl, inr, Bool-cases,
}
use dnas.Base.Str.{Str}
use dnas.Base.Result.{Result, ok, err}
use dnas.Core.Env.{Env}
use dnas.Core.Script.{
  ScriptError, Vm, exec, executing, instr_of, max_script_bytes, verifies, push, pop, settle,
  check_sig, check_height, op_of,
}
use dnas.Core.Script.Eval.{
  ScriptResult, accepted_stack, finished, initial_vm, run_instr, run_script,
}
use dnas.Core.Script.Build.{ScriptBuilder, built_bytes, push_code, time_lock, uint_item}
use dnas.Core.Script.Build.Uint.{small_int-uint_item, uint_item-length}
use dnas.Core.Script.Build.Code.{
  code_size, assemble-le, assemble-some, Built, Built-eq, new_script-items, add_op-items,
  add_push_hex-items, add_push_uint-items, fits_item,
}
use dnas.Core.Script.Items.Steps.{run_loop-assemble}
use dnas.Core.Script.Items.{
  Item, push_item, op_item, assemble, item_valid, items_valid, run_item, run_items, step_item,
}

-- The machine with a witness of one item.
abbrev pub with_witness : List Str → Vm
with_witness items = record initial_vm { stack = items }

abbrev pub verdict : Bool → ℕ → ℕ → Result ScriptError ScriptResult
verdict false height checks = err ScriptError.evaluated_to_false
verdict true height checks = ok (record { result_height = height; result_checks = checks })

abbrev pub time_lock_items : Str → ℕ → List Item
time_lock_items key height =
    push_item (uint_item height) ∷ op_item 0x83 ∷ push_item key ∷ op_item 0x80 ∷ []

push_code-length : (item : Str) → length item ≤ 520 → length (push_code item) ≤ 523
unfolding push_code
push_code-length item fits = ground arith

pub fits_uint : (v : ℕ) → ltb 520 (length (uint_item v)) ≡ false
fits_uint v = ground (arith, uint_item-length v)

pub short_uint : (v : ℕ) → ltb 8 (length (uint_item v)) ≡ false
short_uint v = ground (arith, uint_item-length v)

-- The height that the machine records.
abbrev pub capped : ℕ → ℕ
capped height = if ltb (2 ^ 31) height then 2 ^ 31 else height

pub raised_from_zero : (n : ℕ) → (if ltb 0 n then n else 0) ≡ n
raised_from_zero n = ground arith

module _ (env : Env) (msg : Str) where
  time_lock-Built :
      (key_hex key : Str) (height : ℕ)
      → env.crypto.hex_decode key_hex ≡ some key
      → length key ≤ 520
      → Built (time_lock env key_hex height) (time_lock_items key height)
  unfolding time_lock
  time_lock-Built key_hex key height decoded fits =
      add_op-items 0x80
        (add_push_hex-items env key_hex
          (add_op-items 0x83 (add_push_uint-items height new_script-items) refl) decoded fits)
        refl

  time_lock-run :
      (key sig : Str) (height : ℕ)
      → length key ≤ 520
      → height < 2 ^ 64
      → finished
          (some (run_items env msg (time_lock_items key height) [] (with_witness (sig ∷ []))))
        ≡ some (verdict (verifies env msg key sig) (capped height) 1)
  unfolding run_items step_item run_item run_instr instr_of op_of push pop settle check_sig
      check_height exec executing accepted_stack
  time_lock-run key sig height fits small_height = elim (Bool-cases (verifies env msg key sig)) [
    | inl e ↦
        rw
          (
            fits_uint height,
            short_uint height,
            fits_item key fits,
            small_int-uint_item height small_height,
            raised_from_zero (capped height),
            e,
          )
          refl
    | inr e ↦
        rw
          (
            fits_uint height,
            short_uint height,
            fits_item key fits,
            small_int-uint_item height small_height,
            e,
          )
          refl
  ]

  -- A predicate of the builder, on every machine.
  pub run_script-Built :
      (s : ScriptBuilder) (items : List Item)
      → Built s items
      → items_valid items ≡ true
      → is_empty items ≡ false
      → code_size items ≤ max_script_bytes
      → (built_bytes s ≡ ok (assemble items))
        × ((v : Vm) → run_script env msg (assemble items) v ≡ some (run_items env msg items [] v))
  unfolding built_bytes run_script
  run_script-Built s items code valid nonempty fits =
      let filled : (length (assemble items) == 0) ≡ false =
        ground (arith, assemble-some items nonempty) in
      let few : ltb max_script_bytes (length (assemble items)) ≡ false =
        ground (arith, assemble-le items) in
      (
        rw (Built-eq code, filled, few) refl,
        λ v.
            rw few
              (run_loop-assemble env msg (length (assemble items)) items [] v valid (ground arith)),
      )

  -- The predicate of `ScriptTimeLock`, for a key of at most 520 bytes and a height below 2 ^ 64, is
  -- built, and with one signature as its witness it is accepted exactly if the key verifies the
  -- signature; the height that it then requires is the given one, but at most 2 ^ 31.
  pub time_lock-spends :
      (key_hex key sig : Str) (height : ℕ)
      → env.crypto.hex_decode key_hex ≡ some key
      → length key ≤ 520
      → height < 2 ^ 64
      → (script : Str) × (built_bytes (time_lock env key_hex height) ≡ ok script)
        × (finished (run_script env msg script (with_witness (sig ∷ [])))
            ≡ some (verdict (verifies env msg key sig) (capped height) 1))
  unfolding code_size items_valid item_valid
  time_lock-spends key_hex key sig height decoded fits small_height =
      let (bytes, ran) =
        run_script-Built (time_lock env key_hex height) (time_lock_items key height)
          (time_lock-Built key_hex key height decoded fits)
          (ground (arith, uint_item-length height)) refl
          (omega (arith, uint_item-length height, fits)) in
      (
        assemble (time_lock_items key height),
        bytes,
        ap finished (ran (with_witness (sig ∷ [])))
            ∙ time_lock-run key sig height fits small_height,
      )
