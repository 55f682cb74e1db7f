-- ===== src/Examples/Costs.antt =====
-- The cost of posting a transaction, with a compressor that keeps the first byte of two or
-- more, and fails on one.
use arbitrum_revm.Prelude.{
  ℕ, ◌+◌, ◌*◌, ◌≤◌, ◌<◌, ◌≡◌, ◌⊎◌, refl, Option, none, some, List, [], ◌∷◌, ◌++◌, arith,
}
use arbitrum_revm.Words.{u64_max, sat_mul}
use arbitrum_revm.L1Cost.{
  PosterInfo, batch_poster_address, rlp_payload, rlp_encode_list, rlp_encode_bytes,
  rlp_write_length, compute_poster_info, price_compressed, gas_of_cost,
}
use arbitrum_revm.L1Cost.Poster.{compute_poster_info_lem}
use arbitrum_revm.L1Cost.Rlp.{IsMeasured, decode_items, decode_items-rlp_payload}

abbrev thin : List ℕ → ℕ → Option (List ℕ)
thin [] level = some []
thin (b ∷ []) level = none
thin (b ∷ c ∷ bs) level = some (b ∷ [])

abbrev posted : PosterInfo
posted = compute_poster_info thin (1 ∷ 2 ∷ []) batch_poster_address 70 100 1

compute_poster_info_lem_example :
    (posted.poster_fee ≡ 100 * posted.poster_gas)
    × (posted.poster_fee ≤ posted.poster_cost)
    × ((posted.poster_gas ≡ u64_max) ⊎ (posted.poster_cost < posted.poster_fee + 100))
compute_poster_info_lem_example =
    compute_poster_info_lem thin (1 ∷ 2 ∷ []) batch_poster_address 70 100 1 (omega arith)

-- A cost of 16 units at 70 is paid by 11 units of gas at 100.
posted_values :
    (posted.poster_cost ≡ 1_120) × (posted.poster_gas ≡ 11) × (posted.poster_fee ≡ 1_100)
unfolding compute_poster_info price_compressed gas_of_cost sat_mul
posted_values = (refl, refl, refl)

abbrev fields : List (List ℕ)
fields = (5 ∷ []) ∷ [] ∷ (0xff ∷ []) ∷ (1 ∷ 2 ∷ []) ∷ []

fields-IsMeasured : IsMeasured fields
unfolding IsMeasured
fields-IsMeasured = (omega arith, (omega arith, (omega arith, (omega arith, tt))))

decode_items-rlp_payload_example : decode_items 4 (rlp_payload fields ++ 9 ∷ []) ≡ (fields, 9 ∷ [])
decode_items-rlp_payload_example = decode_items-rlp_payload fields (9 ∷ []) fields-IsMeasured

encoded_fields : rlp_encode_list [] fields ≡ 0xc7 ∷ 5 ∷ 0x80 ∷ 0x81 ∷ 0xff ∷ 0x82 ∷ 1 ∷ 2 ∷ []
unfolding rlp_encode_list rlp_payload rlp_encode_bytes rlp_write_length
encoded_fields = refl
