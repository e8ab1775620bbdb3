-- ===== src/Runs/Money.antt =====
-- src/cryptonote_core/cryptonote_format_utils.h at concrete amounts.
use lira.Prelude.{◌≡◌, refl, some, List, [], ◌∷◌, arith}
use lira.Amounts.{
  Call, dust_handler, chunk_handler, dust_call, chunk_call, digits_loop,
  decompose_amount_into_digits,
}
use lira.Amounts.Total.{total, decompose_amount_into_digits_lem}

-- 62387 = 387 + 2000 + 60000 with a threshold of 500.
decompose_small :
    decompose_amount_into_digits 62387 500
    ≡ some (dust_handler 387 ∷ chunk_handler 2000 ∷ chunk_handler 60000 ∷ [])
unfolding decompose_amount_into_digits digits_loop dust_call chunk_call
decompose_small = refl

decompose_amount_into_digits_lem_example :
    (calls : List Call) × (decompose_amount_into_digits 62387 500 ≡ some calls)
    × (total calls ≡ 62387)
decompose_amount_into_digits_lem_example = decompose_amount_into_digits_lem 62387 500 (omega arith)
