-- ===== src/Host.antt =====
-- What the program takes from outside the repository (the JavaScript runtime, node:crypto and
-- the Sui SDK), and src/core/suiAddress.ts on top of it. Times are milliseconds since 1970;
-- dates before it do not occur.
use say_ur_intent.Prelude.{
  ℕ, String, Bool, List, Option, none, some, true, false, if◌then◌else◌, ◌==◌, ◌≡◌, arith, eq_iff,
}

abbrev pub Bytes : Type 0
Bytes = List ℕ

pub record Host : Type 0 where
  -- `Date.prototype.toISOString` and `Date.parse`, which fails with `NaN`.
  pub to_iso : ℕ → String
  pub parse_date : String → Option ℕ
  -- `isValidSuiAddress`, `normalizeSuiAddress` and `isValidTransactionDigest` of the Sui SDK.
  pub is_valid_sui_address : String → Bool
  pub normalize_sui_address : String → String
  pub is_valid_transaction_digest : String → Bool
  -- `Transaction.from(bytes).getDigest()`, which rejects bytes that are no transaction.
  pub transaction_digest : Bytes → Option String
  -- SHA-256 in hexadecimal, and `Buffer`'s codings.
  pub sha256_hex : String → String
  pub hex_bytes : String → Bytes
  pub base64 : Bytes → String
  -- `length` of a JavaScript string.
  pub utf16_length : String → ℕ

-- `Date` prints and reads back the same instant.
abbrev pub ReadsBack : Host → Type 0
ReadsBack host = (t : ℕ) → host.parse_date (host.to_iso t) ≡ some t

unfoldable pub parse_sui_address : Host → String → Option String
parse_sui_address host value =
    if host.is_valid_sui_address value then some (host.normalize_sui_address value) else none

-- `isoDateStringSchema`: a text that `Date` prints as it stands.
unfoldable pub is_iso_utc : Host → String → Bool
is_iso_utc host value = elim (host.parse_date value) [
  | none ↦ false
  | some t ↦ host.to_iso t == value
]

pub to_iso-is_iso_utc :
    (host : Host) (t : ℕ) → ReadsBack host → is_iso_utc host (host.to_iso t) ≡ true
unfolding is_iso_utc
to_iso-is_iso_utc host t back = ground (arith, back t, eq_iff (host.to_iso t) (host.to_iso t))
