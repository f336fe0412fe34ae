-- ===== src/Webhook/Signature.antt =====
-- internal/webhook/signature.go. HMAC-SHA256 is the environment's; time is in nanoseconds.
--
-- `now.Sub(time.Unix(ts, 0))` is the difference clamped to the range of Duration, an int64 of
-- nanoseconds, as package time documents. A Time counts its seconds from the year 1 in an int64, so
-- `time.Unix` wraps near the end of the range of `ts`.
pub mod Window
use Prim.Native.String.{◌++◌}
use dodo_payment_gateway.Base.{
  ℕ, ◌+◌, ◌-◌, ◌*◌, ◌^◌, String, Bool, Option, none, some, not, leb, ◌==◌, if◌then◌else◌,
}
use dodo_payment_gateway.Base.Int.{ℤ, pos, negsuc, pos_part, neg_part, ◌-ℤ◌, ltb_ℤ}
use dodo_payment_gateway.Base.Decimal.{codes, decimal_ℤ, parse_int}
use dodo_payment_gateway.Errors.{Error, invalid_signature, replay}
use dodo_payment_gateway.Store.{Env}
use dodo_payment_gateway.Webhook.Retry.{second, minute}

abbrev pub replay_window : ℕ
replay_window = 5 * minute

abbrev pub default_psp_secret : String
default_psp_secret = "whsec_mock_psp_dev"

-- unixToInternal of package time
abbrev unix_to_internal : ℕ
unix_to_internal = 62135596800

-- The seconds that the Time of `time.Unix(ts, 0)` stands for.
unfoldable pub unix_seconds : ℤ → ℤ
unix_seconds ts = if ltb_ℤ ts (pos (2 ^ 63 - unix_to_internal)) then ts else ts -ℤ pos (2 ^ 64)

abbrev pub max_duration : ℕ
max_duration = 2 ^ 63 - 1

-- minDuration is -2 ^ 63.
abbrev pub min_duration : ℤ
min_duration = negsuc max_duration

unfoldable pub clamp_duration : ℤ → ℤ
clamp_duration (pos n) = if leb n max_duration then pos n else pos max_duration
clamp_duration (negsuc n) = if leb n max_duration then negsuc n else min_duration

-- A number of seconds in nanoseconds.
abbrev pub nanoseconds : ℤ → ℤ
nanoseconds s = pos (pos_part s * second) -ℤ pos (neg_part s * second)

-- `now.Sub(time.Unix(ts, 0))`
unfoldable pub skew : ℕ → ℤ → ℤ
unfolding unix_seconds clamp_duration
skew now ts = clamp_duration (pos now -ℤ nanoseconds (unix_seconds ts))

-- `-d` in an int64: the least value is its own negation.
unfoldable pub negate : ℤ → ℤ
negate d = if ltb_ℤ min_duration d then pos 0 -ℤ d else min_duration

-- `if skew < 0 { skew = -skew }`
unfoldable pub magnitude : ℤ → ℤ
unfolding negate
magnitude d = if ltb_ℤ d (pos 0) then negate d else d

unfoldable pub signed_payload : String → ℤ → String → String
signed_payload event_id unix_ts body = event_id ++ "." ++ decimal_ℤ unix_ts ++ "." ++ body

-- The time is given by its Unix seconds.
unfoldable pub sign : Env → String → String → ℤ → String → String
unfolding signed_payload
sign env secret event_id unix_ts body =
    "v1=" ++ env.hmac_sha256_hex secret (signed_payload event_id unix_ts body)

unfoldable pub verify_at : Env → String → String → ℤ → String → String → ℕ → Option Error
unfolding skew magnitude
verify_at env secret event_id unix_ts signature body now =
    if ltb_ℤ (pos replay_window) (magnitude (skew now unix_ts))
    then some replay
    else if sign env secret event_id unix_ts body == signature
    then none
    else some invalid_signature

-- `nil` is none.
unfoldable pub verify : Env → String → String → String → String → String → ℕ → Option Error
unfolding verify_at
verify env secret event_id timestamp_header signature body now =
    elim (parse_int (codes timestamp_header)) [
      | none ↦ some invalid_signature
      | some unix_ts ↦ verify_at env secret event_id unix_ts signature body now
    ]
