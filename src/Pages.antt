-- ===== src/Pages.antt =====
-- Windows of an upstream collection and the cursors between them (internal/adapters/page.go).
--
-- base64 is the parameter `Base64`. Offsets and lengths are Go's `int`, of 64 bits: what an upstream
-- returned is a length, and a sum wraps.
pub mod Cursors
pub mod Walks
mod Examples
use bsystem_integration_core.Base.{
  ℕ, zero, suc, ◌+◌, ◌-◌, ◌*◌, ◌%◌, Bool, true, false, ◌||◌, ◌&&◌, not, ◌==◌, leb, ltb, Option,
  none, some, List, [], ◌∷◌, if◌then◌else◌,
}
use bsystem_integration_core.Base.Int.{
  ℤ, pos, negsuc, ltb_ℤ, leb_ℤ, max_int64, int64_sign, int64_mod, of_bits,
}
use bsystem_integration_core.Base.Text.{str_eq, is_empty, append, trim_space}
use bsystem_integration_core.Base.Decimal.{itoa, read_digits}
use Prim.Native.String.{String}
use Prim.Native.Char.{code}

-- `base64.RawURLEncoding`
pub record Base64 : Type 0 where
  pub encode : String → String
  pub decode : String → Option String

pub record Page : Type 0 where
  pub limit : ℤ
  pub cursor : String

pub record PageInfo : Type 0 where
  pub total : ℤ
  pub next_cursor : String

-- `strconv.Itoa` of an integer.
pub itoa_ℤ : ℤ → String
itoa_ℤ (pos n) = itoa n
itoa_ℤ (negsuc n) = String.◌∷◌ "-" (itoa (suc n))

-- `EncodeCursor`
pub encode_cursor : Base64 → ℤ → String
unfolding itoa_ℤ append
encode_cursor b offset = if leb_ℤ offset (pos 0) then "" else b.encode (append "o:" (itoa_ℤ offset))

-- The digits of a number, of which there is one at least.
abbrev pub unsigned : String → Option ℕ
unsigned String.[] = none
unsigned (String.◌∷◌ c s) = read_digits 0 (String.◌∷◌ c s)

abbrev pub positive : Option ℕ → Option ℤ
positive none = none
positive (some n) = if leb n max_int64 then some (pos n) else none

abbrev pub negative : Option ℕ → Option ℤ
negative none = none
negative (some zero) = some (pos 0)
negative (some (suc n)) = if leb n max_int64 then some (negsuc n) else none

-- `strconv.Atoi`, whose error is `none`.
pub atoi : String → Option ℤ
atoi String.[] = none
atoi (String.◌∷◌ c s) =
    if code c == 45
    then negative (unsigned s)
    else if code c == 43
    then positive (unsigned s)
    else positive (unsigned (String.◌∷◌ c s))

-- `strings.CutPrefix(s, "o:")`
abbrev pub cut_prefix : String → Option String
cut_prefix String.[] = none
cut_prefix (String.◌∷◌ c String.[]) = none
cut_prefix (String.◌∷◌ c (String.◌∷◌ d s)) = if code c == 111 && code d == 58 then some s else none

abbrev pub not_negative : Option ℤ → Option ℤ
not_negative none = none
not_negative (some n) = if ltb_ℤ n (pos 0) then none else some n

abbrev pub offset_of : Option String → Option ℤ
offset_of none = none
offset_of (some body) = not_negative (atoi body)

abbrev pub decoded_offset : Option String → Option ℤ
decoded_offset none = none
decoded_offset (some text) = offset_of (cut_prefix text)

-- `DecodeCursor`; `none` is `ErrInvalidCursor`.
pub decode_cursor : Base64 → String → Option ℤ
unfolding trim_space atoi
decode_cursor b cursor =
    if is_empty (trim_space cursor)
    then some (pos 0)
    else decoded_offset (b.decode (trim_space cursor))

abbrev pub at_most : ℤ → ℤ → ℤ
at_most limit greatest = if ltb_ℤ greatest limit then greatest else limit

-- `ClampLimit`
unfoldable pub clamp_limit : ℤ → ℤ → ℤ → ℤ
clamp_limit limit fallback greatest =
    at_most (if leb_ℤ limit (pos 0) then fallback else limit) greatest

abbrev pub resolved : Option ℤ → ℤ → Option (ℤ × ℤ)
resolved none limit = none
resolved (some offset) limit = some (offset, limit)

-- `Page.Resolve`
pub resolve_page : Base64 → Page → ℤ → ℤ → Option (ℤ × ℤ)
unfolding decode_cursor clamp_limit
resolve_page b p default_limit max_limit =
    resolved (decode_cursor b p.cursor) (clamp_limit p.limit default_limit max_limit)

-- `offset + returned` of a decoded offset and a length.
abbrev pub add_int : ℕ → ℕ → ℤ
add_int a b = of_bits ((a + b) % int64_mod)

-- `NewPageInfo`
pub new_page_info : Base64 → ℤ → ℕ → ℕ → PageInfo
unfolding encode_cursor
new_page_info b total offset returned = record {
  total = total;
  next_cursor =
      if ltb 0 returned && ltb_ℤ (add_int offset returned) total
      then encode_cursor b (add_int offset returned)
      else "";
}
