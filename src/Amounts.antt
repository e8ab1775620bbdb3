-- ===== src/Amounts.antt =====
-- src/cryptonote_core/cryptonote_format_utils.h: decompose_amount_into_digits. The two handlers are
-- callbacks; what they are called with is the list of calls, in order.
pub mod Total
use lira.Prelude.{
  ℕ, zero, suc, ◌+◌, ◌*◌, ◌/◌, ◌%◌, ◌^◌, not, ◌&&◌, ◌||◌, leb, ◌==◌, if◌then◌else◌, Bool, true,
  false, Option, none, some, ◌>>=◌, List, [], ◌∷◌, ◌++◌,
}

pub data Call : Type 0 where
  dust_handler : ℕ → Call
  chunk_handler : ℕ → Call

-- if (!is_dust_handled && 0 != dust) dust_handler(dust)
unfoldable pub dust_call : Bool → ℕ → List Call
dust_call is_dust_handled dust =
    if not is_dust_handled && not (0 == dust) then dust_handler dust ∷ [] else []

unfoldable pub chunk_call : ℕ → List Call
chunk_call chunk = if not (0 == chunk) then chunk_handler chunk ∷ [] else []

-- while (0 != amount), and the dust that is left when it ends.
unfoldable pub digits_loop : ℕ → ℕ → ℕ → Bool → ℕ → ℕ → Option (List Call)
digits_loop zero dust_threshold amount is_dust_handled dust order = none
digits_loop (suc fuel) dust_threshold amount is_dust_handled dust order =
    let chunk = amount % 10 * order % 2 ^ 64 in
    let sum = (dust + chunk) % 2 ^ 64 in
    let fits = leb sum dust_threshold in
    let calls = if fits then [] else (dust_call is_dust_handled dust ++ chunk_call chunk) in
    let handled = if fits then is_dust_handled else (is_dust_handled || not (0 == dust)) in
    let next = if fits then sum else dust in
    let rest = digits_loop fuel dust_threshold (amount / 10) handled next (order * 10 % 2 ^ 64) in
    if amount == 0
    then some (dust_call is_dust_handled dust)
    else (rest >>= λ more. some (calls ++ more))

-- 21 rounds: a 64-bit number has at most 20 digits.
unfoldable pub decompose_amount_into_digits : ℕ → ℕ → Option (List Call)
decompose_amount_into_digits amount dust_threshold =
    if 0 == amount then some [] else digits_loop 21 dust_threshold amount false 0 1
