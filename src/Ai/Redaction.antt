-- ===== src/Ai/Redaction.antt =====
-- The redaction of what looks like a credential (internal/ai/ai.go).
--
-- `lower` is `strings.ToLower`, which may change the number of bytes. A slice that is out of range
-- panics. The runes of a word that are not ASCII have only bytes from 128 on, and the test of a word
-- treats every other rune alike.
pub mod Pem
pub mod Clean
pub mod Ascii
use bsystem_integration_core.Base.{
  ℕ, zero, suc, ◌+◌, ltb, leb, ◌==◌, Bool, true, false, not, ◌&&◌, ◌||◌, Option, none, some, List,
  [], ◌∷◌, ◌++◌, map, any, length, if◌then◌else◌,
}
use bsystem_integration_core.Base.Bytes.{
  Bytes, utf8, take, drop, has_prefix, index, split, join, trim, trim_left, trim_right,
}
use Prim.Native.String.{String}

-- What a computation ends in: a value, a panic, or no end within its fuel.
pub data Run {ℓ} (A : Type ℓ) : Type ℓ where
  returned : A → Run A
  panicked unfinished : Run A

abbrev pub and_then {ℓ κ} : {A : Type ℓ} {B : Type κ} → Run A → (A → Run B) → Run B
and_then (returned a) f = f a
and_then panicked f = panicked
and_then unfinished f = unfinished

-- `redactionMarker`
unfoldable pub marker : Bytes
unfolding utf8
marker = utf8 "[REDACTED]"

unfoldable pub begin_key : Bytes
unfolding utf8
begin_key = utf8 "-----BEGIN"

unfoldable pub end_key : Bytes
unfolding utf8
end_key = utf8 "-----END"

abbrev pub newline : ℕ
newline = 10

abbrev pub space : ℕ
space = 32

-- One turn of the loop of `redactPEM`: its result, or the text of the next turn.
pub data Turn : Type 0 where
  done again : Bytes → Turn

abbrev pub after_line : Bytes → ℕ → Bytes → Option ℕ → Turn
after_line text start tail none = again (take start text ++ marker)
after_line text start tail (some line_end) =
    again (take start text ++ (marker ++ drop line_end tail))

abbrev pub after_end : Bytes → ℕ → Option ℕ → Turn
after_end text start none = done (take start text ++ marker)
after_end text start (some finish) =
    let tail = drop (start + finish) text in after_line text start tail (index tail (newline ∷ []))

abbrev pub after_begin : Bytes → Option ℕ → Turn
after_begin text none = done text
after_begin text (some start) = after_end text start (index (drop start text) end_key)

pub turn : Bytes → Turn
unfolding index
turn text = after_begin text (index text begin_key)

-- `redactPEM`, of as many turns as the fuel allows.
pub redact_pem : ℕ → Bytes → Run Bytes
unfolding turn
redact_pem zero text = unfinished
redact_pem (suc fuel) text = elim (turn text) [
  | done text' ↦ returned text'
  | again text' ↦ redact_pem fuel text'
]

-- `credentialKeys`
unfoldable pub credential_keys : List Bytes
unfolding utf8
credential_keys = map utf8 (
    "authorization" ∷ "proxy-authorization" ∷ "x-api-key" ∷ "x-auth-token" ∷ "api_key" ∷ "apikey"
    ∷ "api-key" ∷ "secret" ∷ "client_secret" ∷ "password" ∷ "passwd" ∷ "pwd" ∷ "token"
    ∷ "access_token" ∷ "refresh_token" ∷ "id_token" ∷ "bearer" ∷ "private_key" ∷ "priv_key"
    ∷ "session" ∷ "cookie" ∷ "credential" ∷ [])

abbrev pub is_blank : ℕ → Bool
is_blank b = b == 32 || b == 9

abbrev pub is_nil : Bytes → Bool
is_nil [] = true
is_nil (b ∷ s) = false

abbrev pub starts : (ℕ → Bool) → Bytes → Bool
starts p [] = false
starts p (b ∷ s) = p b

-- ':' and '='.
abbrev pub is_separator : ℕ → Bool
is_separator b = b == 58 || b == 61

-- The two keys that carry their value with no separator.
unfoldable pub is_bare : Bytes → Bool
unfolding utf8 has_prefix
is_bare key = equal key (utf8 "bearer") || equal key (utf8 "authorization")
  where
    equal : Bytes → Bytes → Bool
    equal s t = has_prefix s t && has_prefix t s

-- The end of a line from a place on.
abbrev pub slice_from : ℕ → Bytes → Option Bytes
slice_from n s = if leb n (length s) then some (drop n s) else none

-- What the loop over the keys has found: nothing, or the redacted line.
abbrev pub of_value : Bytes → Bytes → Run (Option Bytes) → ℕ → Option Bytes → Run (Option Bytes)
of_value line key rest n none = panicked
of_value line key rest n (some value) =
    let trimmed = trim_left is_blank value in
    if starts is_separator trimmed
    then returned (some (take n line ++ (take 1 trimmed ++ space ∷ marker)))
    else if is_bare key && starts is_blank value && not (is_nil trimmed)
    then returned (some (take n line ++ space ∷ marker))
    else rest

abbrev pub of_key : Bytes → Bytes → Run (Option Bytes) → Option ℕ → Run (Option Bytes)
of_key line key rest none = rest
of_key line key rest (some i) =
    of_value line key rest (i + length key) (slice_from (i + length key) line)

-- `redactKeyedValue`, of a line and its lower case.
pub redact_keyed_value : Bytes → Bytes → List Bytes → Run (Option Bytes)
unfolding index trim_left
redact_keyed_value line lowered [] = returned none
redact_keyed_value line lowered (key ∷ keys) =
    of_key line key (redact_keyed_value line lowered keys) (index lowered key)

-- `secretPrefixes`
unfoldable pub secret_prefixes : List Bytes
unfolding utf8
secret_prefixes = map utf8 (
    "sk-" ∷ "sk_" ∷ "pk_" ∷ "rk_" ∷ "ghp_" ∷ "gho_" ∷ "ghu_" ∷ "ghs_" ∷ "ghr_" ∷ "github_pat_"
    ∷ "xoxb-" ∷ "xoxp-" ∷ "xapp-" ∷ "glpat-" ∷ "AKIA" ∷ "ASIA" ∷ "eyJ" ∷ [])

abbrev pub is_digit : ℕ → Bool
is_digit b = leb 48 b && leb b 57

abbrev pub is_letter : ℕ → Bool
is_letter b = (leb 97 b && leb b 122) || (leb 65 b && leb b 90)

-- '-', '_', '.', '+', '/' and '='.
abbrev pub is_joint : ℕ → Bool
is_joint b = b == 45 || b == 95 || b == 46 || b == 43 || b == 47 || b == 61

-- The loop over the runes of a word, with the letters and the digits so far.
pub is_mixed : ℕ → ℕ → Bytes → Bool
is_mixed letters digits [] = ltb 0 letters && ltb 0 digits
is_mixed letters digits (b ∷ s) =
    let with_digit = is_mixed letters (suc digits) s in
    let with_letter = is_mixed (suc letters) digits s in
    let with_joint = is_mixed letters digits s in
    if is_digit b then with_digit else if is_letter b then with_letter else is_joint b && with_joint

-- `looksSecret`
pub looks_secret : Bytes → Bool
unfolding has_prefix is_mixed
looks_secret word =
    any (λ prefix. has_prefix word prefix && ltb (length prefix + 6) (length word)) secret_prefixes
    || (leb 16 (length word) && is_mixed 0 0 word)

-- The cut set of `redactSecretLookingWords`.
unfoldable pub is_punctuation : ℕ → Bool
unfolding utf8
is_punctuation b = any (λ c. c == b) (utf8 ".,;:!?()[]{}\"'")

-- `strings.Replace`, of the first occurrence.
abbrev pub replace_at : Bytes → Bytes → Option ℕ → Bytes
replace_at s old none = s
replace_at s old (some i) = take i s ++ (marker ++ drop (i + length old) s)

unfoldable pub is_secret : Bytes → Bool
unfolding looks_secret trim_left trim_right
is_secret field =
    let trimmed = trim is_punctuation field in not (is_nil trimmed) && looks_secret trimmed

unfoldable pub redact_word : Bytes → Bytes
unfolding index trim_left trim_right
redact_word field =
    let trimmed = trim is_punctuation field in
    if is_secret field then replace_at field trimmed (index field trimmed) else field

-- `redactSecretLookingWords`
pub redact_secret_looking_words : Bytes → Bytes
unfolding split join
redact_secret_looking_words line =
    if any is_secret (split space line)
    then join space (map redact_word (split space line))
    else line

abbrev pub or_words : Bytes → Option Bytes → Bytes
or_words line none = redact_secret_looking_words line
or_words line (some redacted) = redacted

-- `redactLine`
pub redact_line : (Bytes → Bytes) → Bytes → Run Bytes
unfolding redact_keyed_value redact_secret_looking_words
redact_line lower line =
    and_then (redact_keyed_value line (lower line) credential_keys)
      (λ found. returned (or_words line found))

-- The loop over the lines.
pub redact_lines : (Bytes → Bytes) → List Bytes → Run (List Bytes)
unfolding redact_line
redact_lines lower [] = returned []
redact_lines lower (x ∷ xs) =
    and_then (redact_line lower x) (λ y. and_then (redact_lines lower xs) (λ ys. returned (y ∷ ys)))

-- `Redact`; one turn more than the text has bytes is enough for `redact_pem`.
unfoldable pub redact : (Bytes → Bytes) → Bytes → Run Bytes
unfolding redact_pem redact_lines split join
redact lower [] = returned []
redact lower (b ∷ s) = and_then (redact_pem (suc (length (b ∷ s))) (b ∷ s)) (λ text.
    and_then (redact_lines lower (split newline text)) (λ lines. returned (join newline lines)))
