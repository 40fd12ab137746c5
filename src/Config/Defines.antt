-- ===== src/Config/Defines.antt =====
-- src/config.rs: which settings `-d` takes.
use polychrome_php.Prelude.{
  ℕ, ◌≤◌, ◌≡◌, refl, ap, sym, subst, ◌∙◌, ◌≢◌, ◌↔◌, ◌⊎◌, inl, inr, true, false, [], ◌∷◌, ◌++◌, map,
  some, ok, err, arith, all, any, All, All-map, Option-cases,
}
use polychrome_php.Bytes.{Bytes, split_once, is_ascii_alphanumeric, to_ascii_lowercase}
use polychrome_php.Bytes.Compare.{
  split_once-append, split_once_first, eq_ignore_ascii_case_of_lower, lower_of_eq_ignore_ascii_case,
}
use polychrome_php.Config.{
  Config, define_reserved, add_define, key_byte, breaks_line, is_empty, is_reserved,
}
use polychrome_php.Config.Flag

abbrev pub IsKeyByte : ℕ → Type 0
IsKeyByte c =
    ((b'0' ≤ c) × (c ≤ b'9'))
    ⊎ ((b'A' ≤ c) × (c ≤ b'Z'))
    ⊎ ((b'a' ≤ c) × (c ≤ b'z'))
    ⊎ (c ≡ b'.')
    ⊎ (c ≡ b'_')

abbrev pub StaysOnLine : ℕ → Type 0
StaysOnLine c = (c ≢ 0x0A) × (c ≢ 0x0D) × (c ≢ 0)

abbrev pub lower : Bytes → Bytes
lower = map to_ascii_lowercase

-- `KEY=VALUE` on one line, with a key of letters, digits, dots and underscores that is not one of
-- the two settings which the program sets itself, however these are capitalised.
pub record IsDefine (value : Bytes) : Type 0 where
  pub key : Bytes
  pub rest : Bytes
  pub shape : value ≡ key ++ b'=' ∷ rest
  pub named : key ≢ []
  pub key_bytes : All IsKeyByte key
  pub one_line : All StaysOnLine value
  pub not_preload : lower key ≢ lower Flag.preload_key
  pub not_preload_user : lower key ≢ lower Flag.preload_user_key

key_byte→IsKeyByte : (c : ℕ) → key_byte c ≡ true → IsKeyByte c
unfolding key_byte is_ascii_alphanumeric
key_byte→IsKeyByte c h = ground arith

IsKeyByte→key_byte : (c : ℕ) → IsKeyByte c → key_byte c ≡ true
unfolding key_byte is_ascii_alphanumeric
IsKeyByte→key_byte c h = ground arith

all-key_byte : (key : Bytes) → (all key_byte key ≡ true) ↔ All IsKeyByte key
all-key_byte [] = (λ _. tt, λ _. refl)
all-key_byte (c ∷ key) = (
  λ h. (key_byte→IsKeyByte c (ground arith), (all-key_byte key).0 (ground arith)),
  λ h. ground (arith, IsKeyByte→key_byte c h.0, (all-key_byte key).1 h.1),
)

any-breaks_line : (s : Bytes) → (any breaks_line s ≡ false) ↔ All StaysOnLine s
unfolding breaks_line
any-breaks_line [] = (λ _. tt, λ _. refl)
any-breaks_line (c ∷ s) = (
  λ h. (ground arith, (any-breaks_line s).0 (ground arith)),
  λ h. ground (arith, (any-breaks_line s).1 h.1),
)

is_reserved_iff :
    (key : Bytes)
    → (is_reserved key ≡ false)
      ↔ ((lower key ≢ lower Flag.preload_key) × (lower key ≢ lower Flag.preload_user_key))
unfolding is_reserved
is_reserved_iff key = (
  λ h. (
    λ e. ground (arith, eq_ignore_ascii_case_of_lower key Flag.preload_key e),
    λ e. ground (arith, eq_ignore_ascii_case_of_lower key Flag.preload_user_key e),
  ),
  λ h. ground (
    arith,
    lower_of_eq_ignore_ascii_case key Flag.preload_key,
    lower_of_eq_ignore_ascii_case key Flag.preload_user_key,
  ),
)

IsKeyByte-ne : (c : ℕ) → IsKeyByte c → c ≢ b'='
IsKeyByte-ne c h = ground arith

is_empty_iff : (key : Bytes) → (is_empty key ≡ false) ↔ (key ≢ [])
unfolding is_empty
is_empty_iff [] = (λ h. cc, λ h. absurd (h refl))
is_empty_iff (c ∷ key) = (λ h e. cc, λ h. refl)

abbrev pub with_define : Bytes → Config → Config
with_define value c = record c { defines = c.defines ++ value ∷ [] }

add_define_sound :
    (value : Bytes) (c d : Config)
    → add_define value c ≡ ok d
    → IsDefine value × (d ≡ with_define value c)
unfolding add_define
add_define_sound value c d h = elim (Option-cases (split_once b'=' value)) [
  | inl e ↦ absurd (ground (arith, e))
  | inr ((key, rest), e) ↦
      let free : is_reserved key ≡ false = ground (arith, e) in
      (
        record {
          key = key;
          rest = rest;
          shape = split_once-append b'=' value key rest e;
          named = (is_empty_iff key).0 (ground (arith, e));
          key_bytes = (all-key_byte key).0 (ground (arith, e));
          one_line = (any-breaks_line value).0 (ground (arith, e));
          not_preload = ((is_reserved_iff key).0 free).0;
          not_preload_user = ((is_reserved_iff key).0 free).1;
        },
        ground (arith, e),
      )
]

add_define_complete :
    (value : Bytes) (c : Config) → IsDefine value → add_define value c ≡ ok (with_define value c)
unfolding add_define
add_define_complete value c s =
    let e : split_once b'=' value ≡ some (s.key, s.rest) =
      subst (λ v. split_once b'=' v ≡ some (s.key, s.rest)) (sym s.shape)
        (split_once_first b'=' s.key s.rest (All-map IsKeyByte _ s.key IsKeyByte-ne s.key_bytes)) in
    ground (
      arith,
      e,
      (is_empty_iff s.key).1 s.named,
      (all-key_byte s.key).1 s.key_bytes,
      (any-breaks_line value).1 s.one_line,
      (is_reserved_iff s.key).1 (s.not_preload, s.not_preload_user),
    )

-- `-d` takes a value exactly if it is a `KEY=VALUE` on one line, with a nonempty key of ASCII
-- letters, digits, dots and underscores that is neither of the two reserved keys in any
-- capitalisation; it then appends the value to the overrides and changes nothing else.
pub add_define_iff :
    (value : Bytes) (c d : Config)
    → (add_define value c ≡ ok d) ↔ (IsDefine value × (d ≡ with_define value c))
add_define_iff value c d =
    (add_define_sound value c d, λ h. add_define_complete value c h.0 ∙ ap ok (sym h.1))

-- A reserved key is refused however it is capitalised, with the message that names the way out,
-- whatever the value, as long as that stays on the line.
pub add_define_reserved :
    (key rest : Bytes) (c : Config)
    → (lower key ≡ lower Flag.preload_key) ⊎ (lower key ≡ lower Flag.preload_user_key)
    → All IsKeyByte key
    → All StaysOnLine (key ++ b'=' ∷ rest)
    → add_define (key ++ b'=' ∷ rest) c ≡ err define_reserved
unfolding add_define is_reserved
add_define_reserved key rest c same bytes line = ground (
  arith,
  split_once_first b'=' key rest (All-map IsKeyByte _ key IsKeyByte-ne bytes),
  (is_empty_iff key).1 (named same),
  (all-key_byte key).1 bytes,
  (any-breaks_line (key ++ b'=' ∷ rest)).1 line,
  eq_ignore_ascii_case_of_lower key Flag.preload_key,
  eq_ignore_ascii_case_of_lower key Flag.preload_user_key,
)
  where
    named :
        (lower key ≡ lower Flag.preload_key) ⊎ (lower key ≡ lower Flag.preload_user_key) → key ≢ []
    named (inl e) n = cc (ap lower n)
    named (inr e) n = cc (ap lower n)
