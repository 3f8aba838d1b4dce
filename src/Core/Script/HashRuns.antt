-- ===== src/Core/Script/HashRuns.antt =====
-- core/scriptbuild.go: the hash-time-locked predicate as items, and its two runs.
use dnas.Base.{
  ℕ, ◌+◌, ◌^◌, ◌≤◌, ◌<◌, leb, Bool, true, false, some, List, [], ◌∷◌, length, ◌≡◌, refl, arith, inl,
  inr, Bool-cases,
}
use dnas.Base.Str.{Str, str_eq}
use dnas.Base.Result.{Result, err}
use dnas.Core.Env.{Env}
use dnas.Core.Script.Spend.{fits}
use dnas.Core.Script.{
  ScriptError, exec, executing, instr_of, verifies, push, pop, settle, check_sig, check_height,
  truthy, op_of,
}
use dnas.Core.Script.Eval.{ScriptResult, accepted_stack, finished, run_instr, run_if, run_else}
use dnas.Core.Script.Build.{htlc, uint_item}
use dnas.Core.Script.Build.Uint.{small_int-uint_item, uint_item-length}
use dnas.Core.Script.Build.Code.{
  Built, new_script-items, add_op-items, add_push_hex-items, add_push_uint-items, fits_item,
}
use dnas.Core.Script.Items.{
  Item, push_item, op_item, item_valid, items_valid, run_item, run_items, step_item,
}
use dnas.Core.Script.Predicates.{
  capped, fits_uint, with_witness, raised_from_zero, short_uint, verdict,
}

abbrev pub htlc_items : Str → Str → Str → ℕ → List Item
htlc_items hash recipient sender timeout =
    op_item 0x90
    ∷ op_item 0x70
    ∷ push_item hash
    ∷ op_item 0x85
    ∷ push_item recipient
    ∷ op_item 0x80
    ∷ op_item 0x91
    ∷ push_item (uint_item timeout)
    ∷ op_item 0x83
    ∷ push_item sender
    ∷ op_item 0x80
    ∷ op_item 0x92
    ∷ []

-- What a claim comes to: the preimage must hash to the lock, and the recipient must have signed.
abbrev pub claimed : Bool → Bool → Result ScriptError ScriptResult
claimed false signed = err ScriptError.equal_verify_failed
claimed true signed = verdict signed 0 1

valid_item : (item : Str) → length item ≤ 520 → leb (length item) 520 ≡ true
valid_item item fits = ground arith

pub htlc-valid :
    (hash recipient sender : Str) (timeout : ℕ)
    → length hash + length recipient + length sender ≤ 520
    → items_valid (htlc_items hash recipient sender timeout) ≡ true
unfolding items_valid item_valid
htlc-valid hash recipient sender timeout fits =
    rw
      (
        valid_item hash (omega (arith, fits)),
        valid_item recipient (omega (arith, fits)),
        valid_item (uint_item timeout) (omega (arith, uint_item-length timeout)),
        valid_item sender (omega (arith, fits)),
      )
      refl

module _ (env : Env) (msg : Str) where
  pub htlc-Built :
      (hash_hex recipient_hex sender_hex : Str) {hash recipient sender : Str} (timeout : ℕ)
      → env.crypto.hex_decode hash_hex ≡ some hash
      → env.crypto.hex_decode recipient_hex ≡ some recipient
      → env.crypto.hex_decode sender_hex ≡ some sender
      → length hash + length recipient + length sender ≤ 520
      → Built
          (htlc env hash_hex recipient_hex sender_hex timeout)
          (htlc_items hash recipient sender timeout)
  unfolding htlc
  htlc-Built hash_hex recipient_hex sender_hex timeout hash_ok recipient_ok sender_ok fits =
      let lock =
        add_push_hex-items env hash_hex
          (add_op-items 0x70 (add_op-items 0x90 new_script-items refl) refl) hash_ok
          (omega (arith, fits)) in
      let claim =
        add_op-items 0x80
          (add_push_hex-items env recipient_hex (add_op-items 0x85 lock refl) recipient_ok
            (omega (arith, fits)))
          refl in
      let timed =
        add_op-items 0x83 (add_push_uint-items timeout (add_op-items 0x91 claim refl)) refl in
      add_op-items 0x92
        (add_op-items 0x80 (add_push_hex-items env sender_hex timed sender_ok (omega (arith, fits)))
          refl)
        refl

  pub htlc-claim :
      (hash recipient sender preimage sig : Str) (timeout : ℕ)
      → length hash ≤ 520
      → length recipient ≤ 520
      → length (env.crypto.sha256 preimage) ≤ 520
      → finished (
          some (
            run_items env msg
              (htlc_items hash recipient sender timeout)
              []
              (with_witness ((1 ∷ []) ∷ preimage ∷ sig ∷ []))))
        ≡ some (claimed (str_eq hash (env.crypto.sha256 preimage)) (verifies env msg recipient sig))
  unfolding run_items step_item run_item run_instr instr_of op_of push pop settle check_sig
      check_height exec executing accepted_stack run_if run_else truthy
  htlc-claim hash recipient sender preimage sig timeout hash_fits recipient_fits sha_fits =
      elim (Bool-cases (str_eq hash (env.crypto.sha256 preimage))) [
        | inl same ↦ elim (Bool-cases (verifies env msg recipient sig)) [
          | inl e ↦
              rw
                (
                  fits_item hash hash_fits,
                  fits_item recipient recipient_fits,
                  fits_item (env.crypto.sha256 preimage) sha_fits,
                  same,
                  e,
                )
                refl
          | inr e ↦
              rw
                (
                  fits_item hash hash_fits,
                  fits_item recipient recipient_fits,
                  fits_item (env.crypto.sha256 preimage) sha_fits,
                  same,
                  e,
                )
                refl
        ]
        | inr other ↦
            rw (fits_item hash hash_fits, fits_item (env.crypto.sha256 preimage) sha_fits, other)
              refl
      ]

  pub htlc-refund :
      (hash recipient sender sig : Str) (timeout : ℕ)
      → length sender ≤ 520
      → timeout < 2 ^ 64
      → finished (
          some (
            run_items env msg
              (htlc_items hash recipient sender timeout)
              []
              (with_witness ([] ∷ sig ∷ []))))
        ≡ some (verdict (verifies env msg sender sig) (capped timeout) 1)
  unfolding run_items step_item run_item run_instr instr_of op_of push pop settle check_sig
      check_height exec executing accepted_stack run_if run_else truthy
  htlc-refund hash recipient sender sig timeout sender_fits small =
      elim (Bool-cases (verifies env msg sender sig)) [
        | inl e ↦
            rw
              (
                fits_uint timeout,
                short_uint timeout,
                fits_item sender sender_fits,
                small_int-uint_item timeout small,
                raised_from_zero (capped timeout),
                e,
              )
              refl
        | inr e ↦
            rw
              (
                fits_uint timeout,
                short_uint timeout,
                fits_item sender sender_fits,
                small_int-uint_item timeout small,
                e,
              )
              refl
      ]
