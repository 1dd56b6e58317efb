-- ===== src/Server/Api/Escape.antt =====
-- api.rs: what `esc` does to a text, and that no name can bring markup into the status page.
use Prim.Native.Char.{Char, code}
use Prim.Native.String.{◌++◌}
use Prim.Native.String.append
use bigtop.Common.{
  ℕ, suc, ◌+◌, ◌≡◌, ◌⊎◌, refl, ap, sym, ◌∙◌, false, String, eqb, arith, if◌then◌else◌, Bool-cases,
  inl, inr,
}
use bigtop.Server.Api.Html.{esc}
use bigtop.Common.Text.{replace, replace-append}

-- The reference: what each character becomes.
unfoldable pub entity : Char → String
entity c =
    if eqb (code c) b'&'
    then "&amp;"
    else (if eqb (code c) b'<'
        then "&lt;"
        else (if eqb (code c) b'>'
            then "&gt;"
            else (if eqb (code c) b'"' then "&quot;" else String.◌∷◌ c "")))

escaped : String → String
unfolding entity
escaped String.[] = ""
escaped (String.◌∷◌ c s) = entity c ++ escaped s

-- `esc` up to its second and third replacement.
abbrev lesser : String → String
lesser s = replace b'<' "&lt;" (replace b'&' "&amp;" s)

abbrev greater : String → String
greater s = replace b'>' "&gt;" (lesser s)

esc-cons : (c : Char) (s : String) → esc (String.◌∷◌ c s) ≡ entity c ++ esc s
unfolding esc entity replace
esc-cons c s = elim (Bool-cases (eqb (code c) b'&')) [
  | inl amp ↦
      rw (amp, replace-append b'<' "&lt;" "&amp;" (replace b'&' "&amp;" s))
        (ap (replace b'"' "&quot;") (replace-append b'>' "&gt;" "&amp;" (lesser s))
          ∙ replace-append b'"' "&quot;" "&amp;" (greater s))
  | inr a ↦ elim (Bool-cases (eqb (code c) b'<')) [
    | inl less ↦
        rw (a, less)
          (ap (replace b'"' "&quot;") (replace-append b'>' "&gt;" "&lt;" (lesser s))
            ∙ replace-append b'"' "&quot;" "&lt;" (greater s))
    | inr b ↦ elim (Bool-cases (eqb (code c) b'>')) [
      | inl more ↦ rw (a, b, more) (replace-append b'"' "&quot;" "&gt;" (greater s))
      | inr d ↦ elim (Bool-cases (eqb (code c) b'"')) [
        | inl quote ↦ rw (a, b, d, quote) refl
        | inr e ↦
            rw (a, b, d, e)
              (sym (append.cons c "" (esc s) ∙ ap (String.◌∷◌ c) (append.nil (esc s))))
      ]
    ]
  ]
]

-- The four replacements of `esc`, one after another, are one pass over the text in which each
-- ampersand, angle bracket and double quote becomes its entity and every other character stays.
esc-escaped : (s : String) → esc s ≡ escaped s
unfolding escaped esc replace
esc-escaped String.[] = refl
esc-escaped (String.◌∷◌ c s) = esc-cons c s ∙ ap (λ t. entity c ++ t) (esc-escaped s)

-- How often a character occurs, by its number.
unfoldable pub count : ℕ → String → ℕ
count k String.[] = 0
count k (String.◌∷◌ c s) = let rest = count k s in if eqb (code c) k then suc rest else rest

pub count-append : (k : ℕ) (s t : String) → count k (s ++ t) ≡ count k s + count k t
unfolding count
count-append k String.[] t = rw (append.nil t) (omega arith)
count-append k (String.◌∷◌ c s) t = rw (append.cons c s t) (ground (arith, count-append k s t))

-- What holds of the four entities, and of a character that needs none, holds of all that `entity`
-- returns.
entity-all {ℓ} :
    (P : String → Type ℓ) (c : Char)
    → P "&amp;"
    → P "&lt;"
    → P "&gt;"
    → P "&quot;"
    → (eqb (code c) b'<' ≡ false
        → eqb (code c) b'>' ≡ false
        → eqb (code c) b'"' ≡ false
        → P (String.◌∷◌ c ""))
    → P (entity c)
unfolding entity
entity-all P c amp less more quote plain = elim (Bool-cases (eqb (code c) b'&')) [
  | inl q ↦ rw q amp
  | inr r ↦ elim (Bool-cases (eqb (code c) b'<')) [
    | inl q ↦ rw (r, q) less
    | inr a ↦ elim (Bool-cases (eqb (code c) b'>')) [
      | inl q ↦ rw (r, a, q) more
      | inr b ↦ elim (Bool-cases (eqb (code c) b'"')) [
        | inl q ↦ rw (r, a, b, q) quote
        | inr d ↦ rw (r, a, b, d) (plain a b d)
      ]
    ]
  ]
]

count-entity : (k : ℕ) (c : Char) → (k ≡ b'<') ⊎ (k ≡ b'>') ⊎ (k ≡ b'"') → count k (entity c) ≡ 0
unfolding count
count-entity k c (inl h) =
    rw h (entity-all (λ t. count b'<' t ≡ 0) c refl refl refl refl λ a b d. rw a refl)
count-entity k c (inr (inl h)) =
    rw h (entity-all (λ t. count b'>' t ≡ 0) c refl refl refl refl λ a b d. rw b refl)
count-entity k c (inr (inr h)) =
    rw h (entity-all (λ t. count b'"' t ≡ 0) c refl refl refl refl λ a b d. rw d refl)

-- x
pub count-esc : (k : ℕ) (s : String) → (k ≡ b'<') ⊎ (k ≡ b'>') ⊎ (k ≡ b'"') → count k (esc s) ≡ 0
unfolding escaped count
count-esc k s h = rw (esc-escaped s) (go s)
  where
    go : (t : String) → count k (escaped t) ≡ 0
    go String.[] = refl
    go (String.◌∷◌ c t) =
        rw (count-append k (entity c) (escaped t)) (ground (arith, count-entity k c h, go t))
