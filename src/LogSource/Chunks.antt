-- ===== src/LogSource/Chunks.antt =====
-- The chunks of an address filter.
use stunks.Prelude.{
  false, ℕ, zero, suc, ◌+◌, ◌-◌, ◌≤◌, ◌<◌, ◌≡◌, refl, ap, ◌∙◌, max, List, [], ◌∷◌, ◌++◌, All, arith,
  length, take, drop,
}
use stunks.Prelude.Text.{Text}
use stunks.LogSource.{concat, is_empty, max_log_addresses_per_query, chunks_from, address_chunks}

take-drop : {A : Type 0} (n : ℕ) (xs : List A) → take n xs ++ drop n xs ≡ xs
take-drop zero xs = refl
take-drop (suc n) [] = refl
take-drop (suc n) (x ∷ xs) = ap (λ r. x ∷ r) (take-drop n xs)

length-take_le : {A : Type 0} (n : ℕ) (xs : List A) → length (take n xs) ≤ n
length-take_le zero xs = omega arith
length-take_le (suc n) [] = omega arith
length-take_le (suc n) (x ∷ xs) = omega (arith, length-take_le n xs)

length-drop_le : {A : Type 0} (n : ℕ) (xs : List A) → length (drop n xs) ≤ length xs
length-drop_le zero xs = omega arith
length-drop_le (suc n) [] = omega arith
length-drop_le (suc n) (x ∷ xs) = omega (arith, length-drop_le n xs)

pub chunks_from_lem :
    {A : Type 0} (fuel size : ℕ) (xs : List A)
    → length xs ≤ fuel
    → (concat (chunks_from fuel (suc size) xs) ≡ xs)
      × All (λ c. length c ≤ suc size) (chunks_from fuel (suc size) xs)
unfolding chunks_from concat
chunks_from_lem zero size [] enough = (refl, tt)
chunks_from_lem zero size (x ∷ xs) enough = absurd (omega arith)
chunks_from_lem (suc fuel) size [] enough = (refl, tt)
chunks_from_lem (suc fuel) size (x ∷ xs) enough =
    let (whole, all) =
      chunks_from_lem fuel size (drop size xs) (omega (arith, length-drop_le size xs)) in
    (
      ap (λ r. x ∷ (take size xs ++ r)) whole ∙ ap (λ r. x ∷ r) (take-drop size xs),
      (length-take_le (suc size) (x ∷ xs), all),
    )

pub chunks_from-filled :
    {A : Type 0} (fuel size : ℕ) (xs : List A)
    → All (λ c. is_empty c ≡ false) (chunks_from fuel (suc size) xs)
unfolding chunks_from
chunks_from-filled zero size xs = tt
chunks_from-filled (suc fuel) size [] = tt
chunks_from-filled (suc fuel) size (x ∷ xs) = (refl, chunks_from-filled fuel size (drop size xs))

small_chunks :
    (size topics : ℕ) (cs : List (List Text))
    → size + topics ≤ max_log_addresses_per_query
    → All (λ c. length c ≤ size) cs
    → All (λ c. length c + topics ≤ max_log_addresses_per_query) cs
small_chunks size topics [] h all = tt
small_chunks size topics (c ∷ cs) h (le, all) = (omega arith, small_chunks size topics cs h all)

-- `addressChunks` splits the addresses: the chunks hold all of them in order, and the addresses of a
-- chunk and the topics together are at most the providers' cap, where fewer topics than the cap are
-- asked for.
pub address_chunks_lem :
    (addresses : List Text) (topics : ℕ)
    → topics < max_log_addresses_per_query
    → (concat (address_chunks addresses topics) ≡ addresses)
      × All
          (λ chunk. length chunk + topics ≤ max_log_addresses_per_query)
          (address_chunks addresses topics)
unfolding address_chunks concat
address_chunks_lem [] topics few = (refl, (omega arith, tt))
address_chunks_lem (a ∷ rest) topics few =
    let (whole, small) =
      chunks_from_lem (length (a ∷ rest)) (999 - topics) (a ∷ rest) (omega arith) in
    let size : max 1 (max_log_addresses_per_query - topics) ≡ suc (999 - topics) = omega arith in
    rw (size, address_chunks)
      (
        whole,
        small_chunks (suc (999 - topics)) topics
            (chunks_from (length (a ∷ rest)) (suc (999 - topics)) (a ∷ rest)) (omega arith) small,
      )
