-- ===== src/Auth/Replay.antt =====
-- internal/auth/replay.go: a request is fresh, by its timestamp, and single-use, by its nonce.
-- The guard is generic over the store. `time.Unix` of an int64 beyond the range of `time.Time` wraps
-- to an instant that no window reaches, as the exact distance here does.
pub mod Single
pub mod Isolation
use muthur.Prelude.{
  ℕ, ◌+◌, ◌*◌, ◌^◌, Text, codes, List, [], ◌∷◌, ◌++◌, Bool, true, false, Option, none, some, Result,
  ok, err, ℤ, pos_part, neg_part, parse_int, ltb, leb, length, is_empty, ◌&&◌, ◌||◌, if◌then◌else◌,
  ◌==◌,
}
use muthur.Auth.Identity.{Identity, to_string}
use muthur.Store.{Store, StoreError}

pub data ReplayError : Type 0 where
  no_identity : ReplayError
  missing_timestamp : ReplayError
  bad_timestamp : ReplayError
  clock_skew : ReplayError
  missing_nonce : ReplayError
  bad_nonce : ReplayError
  nonce_reused : ReplayError
  nonce_store : ReplayError

abbrev pub second : ℕ
second = 10 ^ 9

-- Hexadecimal characters.
abbrev pub min_nonce_hex_len : ℕ
min_nonce_hex_len = 32

pub record ReplayGuard : Type 0 where
  pub window : ℕ
  pub nonce_ttl : ℕ
  pub prefix : Text

-- A window that is not positive is five minutes.
unfoldable pub new_replay_guard : ℕ → Text → ReplayGuard
new_replay_guard window prefix =
    let w = if window == 0 then 300 * second else window in
    record { window = w; nonce_ttl = 2 * w; prefix = prefix }

-- `delta > window || delta < -window`, for the distance from the request's second to now.
unfoldable pub outside_window : ℕ → ℕ → ℤ → Bool
outside_window window now ts =
    ltb (window + pos_part ts * second) (now + neg_part ts * second)
    || ltb (now + neg_part ts * second + window) (pos_part ts * second)

abbrev pub is_hex_digit : ℕ → Bool
is_hex_digit c =
    (leb b'0' c && leb c b'9') || (leb b'a' c && leb c b'f') || (leb b'A' c && leb c b'F')

-- `hex.DecodeString` accepts: hexadecimal digits, an even number of them.
unfoldable pub is_hex_string : Text → Bool
is_hex_string [] = true
is_hex_string (c ∷ []) = false
is_hex_string (c ∷ d ∷ s) = is_hex_digit c && is_hex_digit d && is_hex_string s

unfoldable pub nonce_key : ReplayGuard → Identity → Text → Text
unfolding to_string
nonce_key g id nonce = g.prefix ++ (codes "nonce:" ++ (to_string id ++ (b':' ∷ nonce)))

-- The tests before the store is asked: the parsed timestamp, or the error.
unfoldable pub check_timestamp : ReplayGuard → ℕ → Text → Result ReplayError ℤ
unfolding parse_int outside_window
check_timestamp g now ts_str =
    if is_empty ts_str then err missing_timestamp else elim (parse_int ts_str) [
      | none ↦ err bad_timestamp
      | some ts ↦ if outside_window g.window now ts then err clock_skew else ok ts
    ]

unfoldable pub check_nonce : Text → Result ReplayError (Unit {0})
unfolding is_hex_string
check_nonce nonce =
    if is_empty nonce
    then err missing_nonce
    else if ltb (length nonce) min_nonce_hex_len
    then err bad_nonce
    else if is_hex_string nonce
    then ok tt
    else err bad_nonce

-- What the answer of `SetNX` means for the request.
abbrev pub claim : Result StoreError Bool → Result ReplayError (Unit {0})
claim (err e) = err nonce_store
claim (ok true) = ok tt
claim (ok false) = err nonce_reused

module _ {S : Type 0} (st : Store S) (g : ReplayGuard) where
  unfoldable pub claim_nonce : ℕ → Identity → Text → S → Result ReplayError (Unit {0}) × S
  unfolding nonce_key
  claim_nonce now id nonce s =
      let (set, s') = st.set_nx now (nonce_key g id nonce) (1 ∷ []) g.nonce_ttl s in (claim set, s')

  abbrev then_nonce :
      ℕ → Identity → Text → Result ReplayError ℤ → S → Result ReplayError (Unit {0}) × S
  then_nonce now id nonce (err e) s = (err e, s)
  then_nonce now id nonce (ok ts) s = elim (check_nonce nonce) [
    | err e ↦ (err e, s)
    | ok _ ↦ claim_nonce now id nonce s
  ]

  -- `Verify`; a missing identity is refused first.
  unfoldable pub verify : ℕ → Option Identity → Text → Text → S → Result ReplayError (Unit {0}) × S
  verify now none ts_str nonce s = (err no_identity, s)
  verify now (some id) ts_str nonce s = then_nonce now id nonce (check_timestamp g now ts_str) s
