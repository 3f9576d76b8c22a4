-- ===== src/Orgs/Slug.antt =====
-- The slug of an organization (resolveOrgSlug of internal/store/orgs.go).
-- The random suffixes are an argument: `suffix n` is the text that is appended when n attempts are
-- left.
use erebrus_gateway.Base.{
  ℕ, zero, suc, Bool, true, false, not, ◌&&◌, ◌||◌, Option, none, some, [], ◌∷◌, ◌++◌, leb, ◌==◌,
  if◌then◌else◌,
}
use erebrus_gateway.Base.Table.{Table}
use erebrus_gateway.Base.Text.{Text, codes, text_eq, to_lower, trim_space}
use erebrus_gateway.Base.Tx.{refused, Result, ok, err}
use erebrus_gateway.Model.Org.{Org}
use erebrus_gateway.Orgs.Members.{is_blank}

abbrev pub is_slug_char : ℕ → Bool
is_slug_char c = (leb b'a' c && leb c b'z') || (leb b'0' c && leb c b'9')

-- slugSanitizer.ReplaceAllString(t, "-"), where `in_run` says that the character before belonged to
-- a run that is replaced already
unfoldable pub sanitize : Bool → Text → Text
sanitize in_run [] = []
sanitize in_run (c ∷ cs) =
    let kept = sanitize false cs in
    let cut = sanitize true cs in
    if is_slug_char c then c ∷ kept else if in_run then cut else b'-' ∷ cut

-- strings.Trim(t, "-")
unfoldable pub trim_left_dash : Text → Text
trim_left_dash [] = []
trim_left_dash (c ∷ cs) = let rest = trim_left_dash cs in if c == b'-' then rest else c ∷ cs

unfoldable pub trim_right_dash : Text → Text
trim_right_dash [] = []
trim_right_dash (c ∷ cs) =
    let rest = trim_right_dash cs in if c == b'-' && is_blank rest then [] else c ∷ rest

unfoldable pub slugify : Text → Text
unfolding sanitize trim_left_dash trim_right_dash to_lower
slugify t = trim_right_dash (trim_left_dash (sanitize false (to_lower t)))

abbrev or_org : Text → Text
or_org t = if is_blank t then codes "org" else t

-- The slug before it is made unique.
unfoldable pub base_slug : Text → Text → Text
unfolding slugify trim_space
base_slug requested name = or_org (
    slugify
      (or_org (if is_blank (trim_space requested) then slugify name else trim_space requested)))

-- SELECT EXISTS(...) over the organizations but the excluded one
unfoldable pub slug_taken : Option ℕ → Text → Table Org → Bool
slug_taken excluded slug [] = false
slug_taken excluded slug ((i, o) ∷ t) =
    let rest = slug_taken excluded slug t in
    (text_eq o.slug slug && not (elim excluded [ none ↦ false | some e ↦ i == e ])) || rest

-- The loop: an excluded organization has one attempt.
unfoldable pub try_slugs : Option ℕ → Text → Text → (ℕ → Text) → Table Org → ℕ → Result Text
unfolding slug_taken
try_slugs excluded base slug suffix orgs zero = err refused
try_slugs excluded base slug suffix orgs (suc n) =
    let again = try_slugs excluded base (base ++ (b'-' ∷ suffix n)) suffix orgs n in
    if not (slug_taken excluded slug orgs)
    then ok slug
    else elim excluded [ none ↦ again | some _ ↦ err refused ]

-- resolveOrgSlug
unfoldable pub resolve_org_slug : Text → Text → Option ℕ → (ℕ → Text) → Table Org → Result Text
unfolding base_slug try_slugs
resolve_org_slug requested name excluded suffix orgs =
    try_slugs excluded (base_slug requested name) (base_slug requested name) suffix orgs 5
