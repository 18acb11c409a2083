-- ===== src/Exemptions/Listed.antt =====
-- What a whitelist that passes the validation holds.
use stunks.Prelude.{
  ℕ, suc, ◌+◌, ◌≡◌, refl, sym, ap, ◌∙◌, ◌↔◌, ◌⊎◌, inl, inr, Bool, true, false, ◌&&◌, ◌||◌, Option,
  none, some, some-injective, Bool-cases, List, [], ◌∷◌, ◌++◌, map, length, All, arith,
}
use stunks.Prelude.Text.{Text, lower, text_eq, text_eq_refl, text_eq→≡, has}
use stunks.Graduation.{Address}
use stunks.Exemptions.{
  zero_address, is_blank, trim, ExemptionValidationInput, recipient_keys, auto_exempt, Entry,
  skipped, not_an_address, the_zero_address, seen_before, auto_exempted, listed, Collected,
  seen_after, enter, entry_of, collect, validate_snipe_exemptions,
}

-- No two of the addresses are the same but for case, and none is among `seen` or `auto` or is the zero
-- address.
abbrev pub AreListed : List Text → List Text → List Address → Type 0
AreListed auto seen [] = Unit
AreListed auto seen (a ∷ as') =
    (has (lower a) seen ≡ false)
    × (has (lower a) auto ≡ false)
    × (text_eq (lower a) (lower zero_address) ≡ false)
    × AreListed auto (lower a ∷ seen) as'

-- The set of the keys that are exempt without a slot.
abbrev pub IsAutoExempt : ExemptionValidationInput → List Text → Type 0
IsAutoExempt input keys =
    (key : Text)
    → (has key keys ≡ true) ↔ (
        (key ≡ lower input.deployer)
        ⊎ ((r : Address) × (input.creator_fee_recipient ≡ some r) × (key ≡ lower r)))

has-keys :
    (key : Text) (keys : List Text) (a : Text)
    → (has key (a ∷ keys) ≡ true) ↔ ((key ≡ a) ⊎ (has key keys ≡ true))
unfolding has
has-keys key keys a = elim (Bool-cases (text_eq a key)) [
  | inl e ↦ (λ h. inl (sym (text_eq→≡ a key e)), λ h. rw e refl)
  | inr e ↦ (
    λ h. inr (rw e at h),
    λ h. elim h [
      | inl same ↦ cc (sym e ∙ ap (λ k. text_eq a k) same ∙ text_eq_refl a)
      | inr rest ↦ rw e rest
    ],
  )
]

recipient_keys_lem :
    (key : Text) (d : Address) (o : Option Address)
    → (has key (lower d ∷ recipient_keys d o) ≡ true)
      ↔ ((key ≡ lower d) ⊎ ((r : Address) × (o ≡ some r) × (key ≡ lower r)))
unfolding has
recipient_keys_lem key d none =
    let one = has-keys key [] (lower d) in
    (
      λ h. elim (one.0 h) [ inl e ↦ inl e | inr e ↦ cc ],
      λ h. elim h [ inl e ↦ one.1 (inl e) | inr (r, e, _) ↦ cc ],
    )
recipient_keys_lem key d (some r) = elim (Bool-cases (text_eq (lower r) (lower d))) [
  | inl same ↦
      let one = has-keys key [] (lower d) in
      let is = text_eq→≡ (lower r) (lower d) same in
      rw same (
        λ h. elim (one.0 h) [ inl e ↦ inl e | inr e ↦ cc ],
        λ h. elim h [
          | inl e ↦ one.1 (inl e)
          | inr (r', e, at) ↦ one.1 (inl (at ∙ ap lower (sym (some-injective e)) ∙ is))
        ],
      )
  | inr other ↦
      let one = has-keys key (lower r ∷ []) (lower d) in
      let two = has-keys key [] (lower r) in
      rw other (
        λ h. elim (one.0 h) [
          | inl e ↦ inl e
          | inr rest ↦ elim (two.0 rest) [ inl e ↦ inr (r, refl, e) | inr e ↦ cc ]
        ],
        λ h. elim h [
          | inl e ↦ one.1 (inl e)
          | inr (r', e, at) ↦ one.1 (inr (two.1 (inl (at ∙ ap lower (sym (some-injective e))))))
        ],
      )
]

auto_exempt-IsAutoExempt :
    (input : ExemptionValidationInput) → IsAutoExempt input (auto_exempt input)
unfolding auto_exempt
auto_exempt-IsAutoExempt input key =
    recipient_keys_lem key input.deployer input.creator_fee_recipient

All-weaken :
    {A : Type 0} {P Q : A → Type 0} (xs : List A) → ((x : A) → P x → Q x) → All P xs → All Q xs
All-weaken [] f ps = tt
All-weaken (x ∷ xs) f (p, ps) = (f x p, All-weaken xs f ps)

module _ (is_address : Text → Bool) (get_address : Text → Address) where
  enter-AreListed :
      (auto seen : List Text) (place : ℕ) (raw : Text) (entry : Entry) (c : Collected)
      → entry_of is_address get_address auto seen raw ≡ entry
      → AreListed auto (seen_after seen entry) c.addresses
      → AreListed auto seen (enter place raw entry c).addresses
  unfolding entry_of
  enter-AreListed auto seen place raw skipped c e h = h
  enter-AreListed auto seen place raw not_an_address c e h = h
  enter-AreListed auto seen place raw the_zero_address c e h = h
  enter-AreListed auto seen place raw (seen_before a) c e h = h
  enter-AreListed auto seen place raw (auto_exempted a) c e h = h
  enter-AreListed auto seen place raw (listed a) c e h =
      (ground arith, ground arith, ground arith, h)

  collect-AreListed :
      (auto seen : List Text) (place : ℕ) (raws : List Text)
      → AreListed auto seen (collect is_address get_address auto seen place raws).addresses
  unfolding collect
  collect-AreListed auto seen place [] = tt
  collect-AreListed auto seen place (raw ∷ raws) = enter-AreListed auto seen place raw _ _ refl (
      collect-AreListed auto (seen_after seen (entry_of is_address get_address auto seen raw))
        (suc place) raws)

  -- The entry is blank, or its address is among `auto`, `seen` or the addresses that are listed.
  abbrev pub covered : List Text → List Text → List Address → Text → Bool
  covered auto seen addresses raw =
      let key = lower (get_address (trim raw)) in
      is_blank (trim raw)
      || (is_address (trim raw) && (has key auto || has key seen || has key (map lower addresses)))

  abbrev AllCovered : List Text → List Text → Collected → List Text → Type 0
  AllCovered auto seen c raws = All (λ raw. covered auto seen c.addresses raw ≡ true) raws

  listed-covered :
      (auto seen : List Text) (a : Address) (as' : List Address) (raw : Text)
      → covered auto (lower a ∷ seen) as' raw ≡ true
      → covered auto seen (a ∷ as') raw ≡ true
  unfolding has
  listed-covered auto seen a as' raw h = ground arith

  enter-AllCovered :
      (auto seen : List Text) (place : ℕ) (raw : Text) (raws : List Text) (entry : Entry)
      (c : Collected)
      → entry_of is_address get_address auto seen raw ≡ entry
      → (enter place raw entry c).errors ≡ []
      → (c.errors ≡ [] → AllCovered auto (seen_after seen entry) c raws)
      → AllCovered auto seen (enter place raw entry c) (raw ∷ raws)
  unfolding entry_of has
  enter-AllCovered auto seen place raw raws skipped c e none_found rest =
      (ground arith, rest none_found)
  enter-AllCovered auto seen place raw raws not_an_address c e none_found rest = cc
  enter-AllCovered auto seen place raw raws the_zero_address c e none_found rest = cc
  enter-AllCovered auto seen place raw raws (seen_before a) c e none_found rest =
      (ground arith, rest none_found)
  enter-AllCovered auto seen place raw raws (auto_exempted a) c e none_found rest =
      (ground arith, rest none_found)
  enter-AllCovered auto seen place raw raws (listed a) c e none_found rest = (
    ground (arith, text_eq_refl (lower a)),
    All-weaken raws (listed-covered auto seen a c.addresses) (rest none_found),
  )

  collect-AllCovered :
      (auto seen : List Text) (place : ℕ) (raws : List Text)
      → (collect is_address get_address auto seen place raws).errors ≡ []
      → AllCovered auto seen (collect is_address get_address auto seen place raws) raws
  unfolding collect
  collect-AllCovered auto seen place [] none_found = tt
  collect-AllCovered auto seen place (raw ∷ raws) none_found =
      enter-AllCovered auto seen place raw raws _ _ refl none_found (
        collect-AllCovered auto (seen_after seen (entry_of is_address get_address auto seen raw))
          (suc place) raws)

  no_errors : {A : Type 0} (xs ys : List A) → xs ++ ys ≡ [] → (xs ≡ []) × (ys ≡ [])
  no_errors [] ys h = (refl, h)
  no_errors (x ∷ xs) ys h = cc

  -- A whitelist without errors has at most 31 addresses and the rest of the 31 slots are free; no two
  -- are the same but for case, and none is the zero address or exempt without a slot, which is the
  -- deployer and the creator fee recipient, in any case, and no other. Every entry that was typed is
  -- blank, or is an address that is exempt without a slot or on the list.
  pub validate_snipe_exemptions-AreListed :
      (input : ExemptionValidationInput)
      → let result = validate_snipe_exemptions is_address get_address input in
        result.errors ≡ []
        → (result.slots_used ≡ length result.addresses)
          × (result.slots_used + result.slots_remaining ≡ 31)
          × IsAutoExempt input (auto_exempt input)
          × AreListed (auto_exempt input) [] result.addresses
          × All (λ raw. covered (auto_exempt input) [] result.addresses raw ≡ true) input.addresses
  unfolding validate_snipe_exemptions
  validate_snipe_exemptions-AreListed input h =
      let (collected, counted) = no_errors _ _ h in
      (
        refl,
        ground arith,
        auto_exempt-IsAutoExempt input,
        collect-AreListed (auto_exempt input) [] 1 input.addresses,
        collect-AllCovered (auto_exempt input) [] 1 input.addresses collected,
      )
