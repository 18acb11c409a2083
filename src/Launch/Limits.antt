-- ===== src/Launch/Limits.antt =====
-- What the validation of a launch input passes: packages/pons/src/launch/builder.ts.
use stunks.Prelude.{
  ℕ, ◌≤◌, ◌≡◌, refl, ap, inl, inr, true, false, not, ◌&&◌, Option, none, some, List, [], ◌∷◌, ◌++◌,
  map, length, ltb, All, arith, Bool-cases,
}
use stunks.Prelude.Int.{ℤ, pos, negsuc, ltb_ℤ, leb_ℤ}
use stunks.Prelude.Text.{Text}
use stunks.Exemptions.{is_blank, trim}
use stunks.Launch.{
  LaunchSocials, BuildLaunchInput, Check, failing, is_whole, is_above, launch_checks,
  validate_launch_input, text_or_empty, is_http, is_zero, SocialKey, on_website, on_twitter,
  on_telegram, on_discord, on_farcaster, social_checks,
}

-- No check fails where no error is left.
failing-none : (checks : List Check) → failing checks ≡ [] → All (λ c. c.0 ≡ false) checks
unfolding failing
failing-none [] h = tt
failing-none ((fails, error) ∷ checks) h = elim (Bool-cases fails) [
  | inl e ↦ cc (rw e at h)
  | inr e ↦ (e, failing-none checks (rw e at h))
]

pub no_errors : {A : Type 0} (xs ys : List A) → xs ++ ys ≡ [] → (xs ≡ []) × (ys ≡ [])
no_errors [] ys h = (refl, h)
no_errors (x ∷ xs) ys h = cc

pub map-none : {A B : Type 0} (f : A → B) (xs : List A) → map f xs ≡ [] → xs ≡ []
map-none f [] h = refl
map-none f (x ∷ xs) h = cc

within : (limit n : ℕ) → ltb limit n ≡ false → n ≤ limit
within limit n h = ground arith

whole :
    (ceiling : ℤ) (tax : Option ℤ)
    → not (is_whole tax) ≡ false
    → (is_whole tax && is_above ceiling tax) ≡ false
    → (n : ℕ) × (tax ≡ some (pos n)) × (leb_ℤ (pos n) ceiling ≡ true)
whole ceiling none h k = cc
whole ceiling (some (negsuc n)) h k = cc
whole ceiling (some (pos n)) h k = (n, refl, ap not k)

not_negative : (amount : ℤ) → ltb_ℤ amount (pos 0) ≡ false → (n : ℕ) × (amount ≡ pos n)
not_negative (pos n) h = (n, refl)
not_negative (negsuc n) h = cc

-- A link that is given has at most 256 characters and is blank or an http link.
abbrev pub LinkFits : Option Text → Type 0
LinkFits none = Unit
LinkFits (some link) = (length link ≤ 256) × (is_blank link ≡ false → is_http link ≡ true)

link_lem :
    (key : SocialKey) (link : Option Text)
    → All (λ c. c.0 ≡ false) (social_checks key link)
    → LinkFits link
link_lem key none h = tt
link_lem key (some link) (short, (http, _)) = (within 256 _ short, λ e. ground arith)

checks_split :
    (xs ys : List Check)
    → All (λ c. c.0 ≡ false) (xs ++ ys)
    → All (λ c. c.0 ≡ false) xs × All (λ c. c.0 ≡ false) ys
checks_split [] ys h = (tt, h)
checks_split (x ∷ xs) ys (p, ps) = let (qs, rs) = checks_split xs ys ps in ((p, qs), rs)

links_lem :
    (s : LaunchSocials)
    → All
        (λ c. c.0 ≡ false)
        (social_checks on_website s.website
          ++ social_checks on_twitter s.twitter
          ++ social_checks on_telegram s.telegram
          ++ social_checks on_discord s.discord
          ++ social_checks on_farcaster s.farcaster)
    → LinkFits s.website
      × LinkFits s.twitter
      × LinkFits s.telegram
      × LinkFits s.discord
      × LinkFits s.farcaster
links_lem s h =
    let one = social_checks on_website s.website in
    let two = one ++ social_checks on_twitter s.twitter in
    let three = two ++ social_checks on_telegram s.telegram in
    let four = three ++ social_checks on_discord s.discord in
    let (h1, farcaster) = checks_split four (social_checks on_farcaster s.farcaster) h in
    let (h2, discord) = checks_split three (social_checks on_discord s.discord) h1 in
    let (h3, telegram) = checks_split two (social_checks on_telegram s.telegram) h2 in
    let (website, twitter) = checks_split one (social_checks on_twitter s.twitter) h3 in
    (
      link_lem on_website s.website website,
      link_lem on_twitter s.twitter twitter,
      link_lem on_telegram s.telegram telegram,
      link_lem on_discord s.discord discord,
      link_lem on_farcaster s.farcaster farcaster,
    )

-- The texts and amounts of an input keep the limits.
abbrev pub KeepsLimits : BuildLaunchInput → ℤ → Type 0
KeepsLimits input max_creator_tax_bps =
    (is_blank (trim input.name) ≡ false)
    × (length input.name ≤ 64)
    × (is_blank (trim input.symbol) ≡ false)
    × (length input.symbol ≤ 16)
    × (is_blank (trim input.logo) ≡ false)
    × (length input.logo ≤ 256)
    × (length (text_or_empty input.description) ≤ 512)
    × ((n : ℕ) × (input.creator_tax_bps ≡ some (pos n))
        × (leb_ℤ (pos n) max_creator_tax_bps ≡ true))
    × ((n : ℕ) × (input.dev_buy_amount ≡ pos n))
    × (is_zero input.dev_buy_amount ≡ true → ltb_ℤ (pos 0) input.min_tokens_out ≡ false)
    × LinkFits input.socials.website
    × LinkFits input.socials.twitter
    × LinkFits input.socials.telegram
    × LinkFits input.socials.discord
    × LinkFits input.socials.farcaster

pub validate-KeepsLimits :
    (input : BuildLaunchInput) (ceiling : ℤ)
    → validate_launch_input input ceiling ≡ []
    → KeepsLimits input ceiling
unfolding validate_launch_input
validate-KeepsLimits input ceiling h =
    let (
      name,
      (
        name_fits,
        (
          symbol,
          (
            symbol_fits,
            (logo, (logo_fits, (description_fits, (tax, (tax_low, (buy, (no_buy, links))))))),
          ),
        ),
      ),
    ) =
      failing-none (launch_checks input ceiling) h in
    let (website, twitter, telegram, discord, farcaster) = links_lem input.socials links in
    (
      name,
      within 64 _ name_fits,
      symbol,
      within 16 _ symbol_fits,
      logo,
      within 256 _ logo_fits,
      within 512 _ description_fits,
      whole ceiling input.creator_tax_bps tax tax_low,
      not_negative input.dev_buy_amount buy,
      λ none_bought. rw none_bought at no_buy,
      website,
      twitter,
      telegram,
      discord,
      farcaster,
    )
