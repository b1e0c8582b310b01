-- ===== src/Receipt/NotFound.antt =====
-- `isReceiptNotFoundError` of src/core/action/suiChainReceiptMapping.ts and `isWaitTimeoutError`
-- of suiChainReceiptVerifier.ts. The regular expression is
-- `/\b(not found|not indexed|could not find|unable to find|no transaction)\b/i`.
use Prim.Native.Char.{Char, code}
use Prim.Native.String.{[], ◌∷◌}
use say_ur_intent.Prelude.{
  ℕ, ◌+◌, String, Bool, false, ◌&&◌, ◌||◌, not, ◌==◌, leb, eqb, if◌then◌else◌, Option, some, none,
  same_text,
}
use say_ur_intent.Receipt.Chain.{
  ThrownCode, code_text, code_number, ThrownValue, error_object, error_text, error_other,
}

-- `\w`.
abbrev is_word : Char → Bool
is_word c =
    leb 48 (code c) && leb (code c) 57
    || leb 65 (code c) && leb (code c) 90
    || eqb (code c) 95
    || leb 97 (code c) && leb (code c) 122

abbrev begins_with_word : String → Bool
begins_with_word [] = false
begins_with_word (c ∷ s) = is_word c

-- The flag `i`: capital letters of ASCII count as small ones.
abbrev small_code : Char → ℕ
small_code c = if leb 65 (code c) && leb (code c) 90 then code c + 32 else code c

-- A phrase in small letters at the start of a text, up to the end of a word.
unfoldable pub phrase_here : String → String → Bool
phrase_here [] s = not (begins_with_word s)
phrase_here (p ∷ ps) [] = false
phrase_here (p ∷ ps) (c ∷ s) = eqb (small_code c) (code p) && phrase_here ps s

unfoldable pub phrase_in : String → Bool → String → Bool
unfolding phrase_here
phrase_in phrase behind_word [] = false
phrase_in phrase behind_word (c ∷ s) =
    not behind_word && phrase_here phrase (c ∷ s) || phrase_in phrase (is_word c) s

abbrev message_of : ThrownValue → String
message_of (error_object e) = elim e.message [ none ↦ "" | some m ↦ m ]
message_of (error_text m) = m
message_of error_other = ""

unfoldable pub says_not_found : String → Bool
unfolding phrase_in
says_not_found message =
    phrase_in "not found" false message
    || phrase_in "not indexed" false message
    || phrase_in "could not find" false message
    || phrase_in "unable to find" false message
    || phrase_in "no transaction" false message

abbrev is_not_found_code : Option ThrownCode → Bool
is_not_found_code none = false
is_not_found_code (some (code_text s)) =
    s == "NOT_FOUND" || s == "NotFound" || s == "NOT_FOUND_ERROR"
is_not_found_code (some (code_number n)) = eqb n 5

-- `code ?? status`.
abbrev error_code : ThrownValue → Option ThrownCode
error_code (error_object e) = elim e.code [ none ↦ e.status | some c ↦ some c ]
error_code _ = none

unfoldable pub is_receipt_not_found_error : ThrownValue → Bool
unfolding says_not_found
is_receipt_not_found_error error =
    is_not_found_code (error_code error) || says_not_found (message_of error)

unfoldable pub is_wait_timeout_error : ThrownValue → Bool
is_wait_timeout_error (error_object e) = same_text e.name (some "TimeoutError")
is_wait_timeout_error _ = false
