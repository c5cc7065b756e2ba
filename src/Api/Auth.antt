-- ===== src/Api/Auth.antt =====
-- api/middleware/tma-auth.ts. URLSearchParams, the order of `localeCompare`, HMAC-SHA-256 and JSON.parse
-- are the parameter `Platform`.
use vpn_relay.Prelude.{
  ℕ, ◌+◌, ◌*◌, Text, text, text_eq, starts_with, drop, ltb, ◌==◌, if◌then◌else◌, Bool, false, not,
  Option, none, some, List, [], ◌∷◌, ◌++◌,
}

-- A field of the init data: its name and its value.
abbrev pub Params : Type 0
Params = List (Text × Text)

pub record Platform : Type 0 where
  pub parse : Text → Params
  pub sort_by_name : Params → Params
  -- key and message; the second in hexadecimal digits
  pub hmac : Text → Text → Text
  pub hmac_hex : Text → Text → Text
  -- parseInt(s, 10): `none` for NaN, and for a number below 0, which is as old
  pub parse_seconds : Text → Option ℕ
  -- the id in the JSON of a user; `none` where it throws
  pub user_id : Text → Option ℕ

pub record Secrets : Type 0 where
  pub bot_token : Text
  pub admin_id : ℕ

abbrev pub param : Params → Text → Option Text
param [] name = none
param ((n, v) ∷ ps) name = if text_eq n name then some v else param ps name

abbrev pub without : Text → Params → Params
without name [] = []
without name ((n, v) ∷ ps) =
    let rest = without name ps in if text_eq n name then rest else (n, v) ∷ rest

abbrev lines_of : Params → Text
lines_of [] = []
lines_of ((n, v) ∷ []) = n ++ (b'=' ∷ v)
lines_of ((n, v) ∷ p ∷ ps) = n ++ (b'=' ∷ (v ++ (10 ∷ lines_of (p ∷ ps))))

module _ (platform : Platform) (secrets : Secrets) where
  open platform use {parse, sort_by_name, hmac, hmac_hex, parse_seconds, user_id}

  -- The hash that the init data must have.
  unfoldable pub expected_hash : Params → Text
  expected_hash params =
      hmac_hex (hmac (text "WebAppData") secrets.bot_token)
        (lines_of (sort_by_name (without (text "hash") params)))

  -- `Date.now() / 1000 - authDate > 3600`; false of NaN
  abbrev pub is_stale : ℕ → Option ℕ → Bool
  is_stale now none = false
  is_stale now (some auth_date) = ltb ((auth_date + 3600) * 1000) now

  abbrev auth_date_of : Option Text → Option ℕ
  auth_date_of none = some 0
  auth_date_of (some s) = parse_seconds s

  abbrev user_of : Option Text → Option ℕ
  user_of none = none
  user_of (some []) = none
  user_of (some (c ∷ s)) = user_id (c ∷ s)

  abbrev pub check_hash : ℕ → Params → Option Text → Option ℕ
  check_hash now params none = none
  check_hash now params (some []) = none
  check_hash now params (some (c ∷ hash)) =
      if not (text_eq (expected_hash params) (c ∷ hash))
      then none
      else if is_stale now (auth_date_of (param params (text "auth_date")))
      then none
      else user_of (param params (text "user"))

  -- `validateInitData`
  unfoldable pub validate_init_data : ℕ → Text → Option ℕ
  unfolding expected_hash text_eq
  validate_init_data now init_data =
      let params = parse init_data in check_hash now params (param params (text "hash"))

  -- What the middleware answers; `pass` lets the request on.
  pub data Verdict : Type 0 where
    pass missing invalid forbidden : Verdict

  abbrev pub verdict_of : Option ℕ → Verdict
  verdict_of none = invalid
  verdict_of (some id) = if id == secrets.admin_id then pass else forbidden

  abbrev header_of : Option Text → Text
  header_of none = []
  header_of (some s) = s

  -- `tmaAuthMiddleware`
  unfoldable pub tma_auth_middleware : ℕ → Option Text → Verdict
  unfolding validate_init_data starts_with
  tma_auth_middleware now authorization =
      let auth = header_of authorization in
      if not (starts_with auth (text "tma "))
      then missing
      else verdict_of (validate_init_data now (drop 4 auth))
