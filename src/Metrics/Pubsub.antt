-- ===== src/Metrics/Pubsub.antt =====
-- The pub/sub payload of src/metrics/helpers.rs: a time in 16 big-endian bytes before the user's
-- bytes. A u128 is a number below 2 ^ 128.
use strobengine.Prelude.{
  ℕ, zero, suc, ◌+◌, ◌*◌, ◌/◌, ◌%◌, ◌^◌, ◌<◌, ◌≡◌, refl, sym, ◌∙◌, ap, false, [], ◌∷◌, ◌++◌, Option,
  none, some, arith, ltb, if◌then◌else◌, length, take, drop, length-append, take-append,
  drop-append,
}
use strobengine.Text.Utf8.{Bytes}

-- The `k` low bytes of `n`, the lowest last.
unfoldable pub be_bytes : ℕ → ℕ → Bytes
be_bytes zero n = []
be_bytes (suc k) n = be_bytes k (n / 256) ++ n % 256 ∷ []

unfoldable pub from_be_bytes : ℕ → Bytes → ℕ
from_be_bytes acc [] = acc
from_be_bytes acc (b ∷ bs) = from_be_bytes (acc * 256 + b) bs

-- `create_pubsub_payload` at the wall-clock time `now_ns`.
unfoldable pub create_pubsub_payload : ℕ → Bytes → Bytes
create_pubsub_payload now_ns user_payload = be_bytes 16 now_ns ++ user_payload

unfoldable pub parse_pubsub_payload : Bytes → Option (ℕ × Bytes)
parse_pubsub_payload bytes =
    if ltb (length bytes) 16 then none else some (from_be_bytes 0 (take 16 bytes), drop 16 bytes)

length-be_bytes : (k n : ℕ) → length (be_bytes k n) ≡ k
unfolding be_bytes
length-be_bytes zero n = refl
length-be_bytes (suc k) n =
    omega (arith, length-append (be_bytes k (n / 256)) (n % 256 ∷ []), length-be_bytes k (n / 256))

-- `n` has no byte above the `k` low ones.
abbrev IsBelow : ℕ → ℕ → Type 0
IsBelow zero n = n ≡ 0
IsBelow (suc k) n = IsBelow k (n / 256)

from_be_bytes-append :
    (acc : ℕ) (xs : Bytes) (b : ℕ)
    → from_be_bytes acc (xs ++ b ∷ []) ≡ from_be_bytes acc xs * 256 + b
unfolding from_be_bytes
from_be_bytes-append acc [] b = refl
from_be_bytes-append acc (x ∷ xs) b = from_be_bytes-append (acc * 256 + x) xs b

from_be_bytes-be_bytes : (k n : ℕ) → IsBelow k n → from_be_bytes 0 (be_bytes k n) ≡ n
unfolding from_be_bytes be_bytes
from_be_bytes-be_bytes zero n h = omega (arith, h)
from_be_bytes-be_bytes (suc k) n h =
    from_be_bytes-append 0 (be_bytes k (n / 256)) (n % 256)
    ∙ omega (arith, from_be_bytes-be_bytes k (n / 256) h)

below : (n : ℕ) → n < 2 ^ 128 → IsBelow 16 n
below n h = omega arith

parse_split :
    (xs ys : Bytes)
    → length xs ≡ 16
    → parse_pubsub_payload (xs ++ ys) ≡ some (from_be_bytes 0 xs, ys)
unfolding parse_pubsub_payload
parse_split xs ys h = rw (long, taken, dropped) refl
  where
    long : ltb (length (xs ++ ys)) 16 ≡ false
    long = ground (arith, length-append xs ys, h)

    taken : take 16 (xs ++ ys) ≡ xs
    taken = ap (λ n. take n (xs ++ ys)) (sym h) ∙ take-append xs ys

    dropped : drop 16 (xs ++ ys) ≡ ys
    dropped = ap (λ n. drop n (xs ++ ys)) (sym h) ∙ drop-append xs ys

-- A payload that was created at a time below 2 ^ 128 is parsed to that time and the user's bytes.
pub parse-create_pubsub_payload :
    (now_ns : ℕ) (user_payload : Bytes)
    → now_ns < 2 ^ 128
    → parse_pubsub_payload (create_pubsub_payload now_ns user_payload) ≡ some (now_ns, user_payload)
unfolding create_pubsub_payload
parse-create_pubsub_payload now_ns user_payload h =
    parse_split (be_bytes 16 now_ns) user_payload (length-be_bytes 16 now_ns)
    ∙ ap (λ n. some (n, user_payload)) (from_be_bytes-be_bytes 16 now_ns (below now_ns h))
