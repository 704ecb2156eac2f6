-- ===== src/Identity/Values.antt =====
-- packages/domain/src/identity: email-address.ts, organization-slug.ts and password-policy.ts. Unicode
-- normalization and lower case are the parameter `Unicode`, the runtime's own functions.
use sentriqora.Base.{
  ℕ, suc, Bool, true, false, not, List, [], ◌∷◌, ◌++◌, Text, units, within, is_space, trim, text_eq,
  Result, ok, err, ◌==◌, ◌&&◌, ◌||◌, any, every, ltb, leb, length, if◌then◌else◌,
}

pub record Unicode : Type 0 where
  pub nfc : Text → Text
  pub nfkd : Text → Text
  pub lower_case : Text → Text

-- The errors of identity-errors.ts, with the reasons for a weak password.
pub data Reason : Type 0 where
  minimum_length maximum_length common_password contains_identity : Reason

pub data DomainError : Type 0 where
  invalid_email invalid_organization_slug : DomainError
  weak_password : List Reason → DomainError

-- `[^\s@]`
abbrev is_word : ℕ → Bool
is_word c = not (is_space c || c == 64)

-- `[^\s@]*\.[^\s@]+$`: a dot that something follows, and no space or @
dotted : Text → Bool
dotted [] = false
dotted (c ∷ s) =
    let rest = dotted s in
    (c == 46 && not (leb (length s) 0) && every is_word s) || (is_word c && rest)

-- `[^\s@]+\.[^\s@]+$`
domain_matches : Text → Bool
unfolding dotted
domain_matches [] = false
domain_matches (c ∷ s) = is_word c && dotted s

-- `[^\s@]*@…`
at_sign : Text → Bool
unfolding domain_matches
at_sign [] = false
at_sign (c ∷ s) = let rest = at_sign s in if c == 64 then domain_matches s else is_word c && rest

-- `EMAIL_PATTERN`
unfoldable pub email_matches : Text → Bool
unfolding at_sign
email_matches [] = false
email_matches (c ∷ s) = is_word c && at_sign s

pub record EmailAddress : Type 0 where
  pub value : Text
  pub normalized : Text

-- `EmailAddress.create`
unfoldable pub create_email : Unicode → Text → Result DomainError EmailAddress
create_email unicode candidate =
    let value = unicode.nfc (trim candidate) in
    if ltb 254 (length value) || not (email_matches value)
    then err invalid_email
    else ok (record { value = value; normalized = unicode.lower_case value })

-- `[a-z0-9]`
abbrev is_slug_unit : ℕ → Bool
is_slug_unit c = within 97 122 c || within 48 57 c

-- `replace(/[\u0300-\u036f]/gu, '')`
without_marks : Text → Text
without_marks [] = []
without_marks (c ∷ s) =
    let rest = without_marks s in if within 0x300 0x36f c then rest else c ∷ rest

-- `replace(/[^a-z0-9]+/gu, '-')`: the flag says that the unit before was replaced
hyphenate : Bool → Text → Text
hyphenate inside [] = []
hyphenate inside (c ∷ s) =
    let after = hyphenate false s in
    let within_run = hyphenate true s in
    if is_slug_unit c then c ∷ after else if inside then within_run else 45 ∷ within_run

-- `replace(/^-|-$/gu, '')`
without_last : Text → Text
without_last [] = []
without_last (c ∷ []) = if c == 45 then [] else c ∷ []
without_last (c ∷ d ∷ s) = c ∷ without_last (d ∷ s)

without_ends : Text → Text
unfolding without_last
without_ends [] = []
without_ends (c ∷ s) = if c == 45 then without_last s else without_last (c ∷ s)

-- `SLUG_PATTERN`: the flag says that a unit of a word came before
slug_from : Bool → Text → Bool
slug_from word [] = word
slug_from word (c ∷ s) =
    let rest = slug_from true s in
    let next = slug_from false s in if is_slug_unit c then rest else c == 45 && word && next

-- `OrganizationSlug.create`
unfoldable pub create_slug : Unicode → Text → Result DomainError Text
unfolding without_marks hyphenate without_ends slug_from
create_slug unicode candidate =
    let plain = without_marks (unicode.nfkd (trim candidate)) in
    let value = without_ends (hyphenate false (unicode.lower_case plain)) in
    if ltb (length value) 2 || ltb 80 (length value) || not (slug_from false value)
    then err invalid_organization_slug
    else ok value

-- `[...password].length`: a pair of surrogates is one code point
unfoldable pub code_points : Text → ℕ
code_points [] = 0
code_points (c ∷ []) = 1
code_points (c ∷ d ∷ s) =
    let rest = code_points (d ∷ s) in
    let after = code_points s in
    if within 0xd800 0xdbff c && within 0xdc00 0xdfff d then suc after else suc rest

starts_with : Text → Text → Bool
starts_with [] s = true
starts_with (c ∷ p) [] = false
starts_with (c ∷ p) (d ∷ s) = c == d && starts_with p s

-- `String.prototype.includes`
contains : Text → Text → Bool
unfolding starts_with
contains p [] = starts_with p []
contains p (c ∷ s) = starts_with p (c ∷ s) || contains p s

-- `COMMON_PASSWORDS`
common_passwords : List Text
common_passwords =
    units "12345678901234"
    ∷ units "admin123456789"
    ∷ units "contraseña12345"
    ∷ units "password123456"
    ∷ units "qwerty123456789"
    ∷ units "welcome1234567"
    ∷ []

abbrev reason_if : Bool → Reason → List Reason
reason_if true reason = reason ∷ []
reason_if false reason = []

names_identity : Unicode → Text → Text → Bool
unfolding contains
names_identity unicode normalized hint =
    let normalized_hint = unicode.lower_case (trim hint) in
    leb 4 (length normalized_hint) && contains normalized_hint normalized

unfoldable pub password_reasons : Unicode → Text → List Text → List Reason
unfolding common_passwords names_identity
password_reasons unicode password hints =
    let points = code_points password in
    let normalized = unicode.lower_case password in
    reason_if (ltb points 14) minimum_length
    ++ reason_if (ltb 128 points) maximum_length
    ++ reason_if (any (text_eq normalized) common_passwords) common_password
    ++ reason_if (any (names_identity unicode normalized) hints) contains_identity

abbrev pub accepted_if : List Reason → Text → Result DomainError Text
accepted_if [] password = ok password
accepted_if (reason ∷ reasons) password = err (weak_password (reason ∷ reasons))

-- `PasswordPolicy.validate`
unfoldable pub validate_password : Unicode → Text → List Text → Result DomainError Text
validate_password unicode candidate hints =
    let password = unicode.nfc candidate in
    accepted_if (password_reasons unicode password hints) password
