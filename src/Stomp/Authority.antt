-- ===== src/Stomp/Authority.antt =====
-- `parse_authority` and the construction of the engine, src/protocols/stomp.rs.
use strobengine.Prelude.{
  ℕ, ◌≡◌, refl, ◌≢◌, inl, inr, Bool, true, false, ◌||◌, [], ◌∷◌, ◌++◌, none, some, arith, ◌==◌, max,
  if◌then◌else◌, is_empty, All, Bool-cases, Option-cases,
}
use strobengine.Text.Utf8.{Bytes}
use strobengine.Text.Trim.{trim}
use strobengine.Chaos.{ascii}
use strobengine.Sse.{strip_prefix, starts_with}
use strobengine.Stomp.Engine.{StompEngine}

-- The errors of `StompEngine::new`.
pub data Rejected : Type 0 where
  no_destination tls_unsupported unsupported_scheme no_host : Rejected

pub data Parsed (A : Type 0) : Type 0 where
  accepted : A → Parsed A
  refuses : Rejected → Parsed A

-- `contains` of a `char`
unfoldable pub has_byte : ℕ → Bytes → Bool
has_byte needle [] = false
has_byte needle (b ∷ bs) = b == needle || has_byte needle bs

-- `split(['/', '?']).next()`
unfoldable pub before_path : Bytes → Bytes
before_path [] = []
before_path (b ∷ bs) = if b == b'/' || b == b'?' then [] else b ∷ before_path bs

-- `rsplit('@').next()`
unfoldable pub after_last_at : Bytes → Bytes
after_last_at [] = []
after_last_at (b ∷ bs) =
    if has_byte b'@' bs then after_last_at bs else if b == b'@' then bs else b ∷ bs

unfoldable pub with_port : Bytes → Parsed Bytes
with_port authority =
    if is_empty authority
    then refuses no_host
    else accepted (if has_byte b':' authority then authority else authority ++ ascii ":61613")

unfoldable pub parse_authority : Bytes → Parsed Bytes
parse_authority url = elim (strip_prefix (ascii "stomp://") url) [
  | some rest ↦ with_port (after_last_at (before_path rest))
  | none ↦
      if starts_with (ascii "stomps://") url
      then refuses tls_unsupported
      else refuses unsupported_scheme
]

-- `StompEngine::new`, but for its chaos engine.
unfoldable pub new_engine : Bytes → StompEngine → Parsed StompEngine
new_engine url e =
    if is_empty (trim e.destination) then refuses no_destination else elim (parse_authority url) [
      | refuses r ↦ refuses r
      | accepted authority ↦
          accepted (record e { authority = authority; timeout_secs = max e.timeout_secs 1 })
    ]

-- No byte that begins a path or a query, or ends a user.
abbrev IsHost : Bytes → Type 0
IsHost bs = All (λ b. (b ≢ b'/') × (b ≢ b'?')) bs × (has_byte b'@' bs ≡ false)

before_path-none : (bs : Bytes) → All (λ b. (b ≢ b'/') × (b ≢ b'?')) (before_path bs)
unfolding before_path
before_path-none [] = tt
before_path-none (b ∷ bs) = ground (arith, before_path-none bs)

has_byte-tail :
    (b : ℕ) (bs : Bytes)
    → has_byte b'@' bs ≡ false
    → b == b'@' ≡ false
    → has_byte b'@' (b ∷ bs) ≡ false
unfolding has_byte
has_byte-tail b bs h k = ground (arith, h, k)

after_last_at-IsHost :
    (bs : Bytes) → All (λ b. (b ≢ b'/') × (b ≢ b'?')) bs → IsHost (after_last_at bs)
unfolding after_last_at has_byte
after_last_at-IsHost [] h = (tt, refl)
after_last_at-IsHost (b ∷ bs) h = elim (Bool-cases (has_byte b'@' bs)) [
  | inl t ↦ rw (t, after_last_at) (after_last_at-IsHost bs h.1)
  | inr t ↦ elim (Bool-cases (b == b'@')) [
    | inl u ↦ rw (t, u, after_last_at) (h.1, t)
    | inr u ↦ rw (t, u, after_last_at) (h, has_byte-tail b bs t u)
  ]
]

-- The host with the default port.
with_default-IsHost : (bs : Bytes) → IsHost bs → IsHost (bs ++ ascii ":61613")
unfolding has_byte
with_default-IsHost [] h = (omega arith, refl)
with_default-IsHost (b ∷ bs) (h, k) =
    let rest = with_default-IsHost bs (h.1, tail_of b bs k) in
    ((h.0, rest.0), ground (arith, k, rest.1))
  where
    tail_of : (b : ℕ) (bs : Bytes) → has_byte b'@' (b ∷ bs) ≡ false → has_byte b'@' bs ≡ false
    tail_of b bs k = ground (arith, k)

with_default-port : (bs : Bytes) → has_byte b':' (bs ++ ascii ":61613") ≡ true
unfolding has_byte
with_default-port [] = refl
with_default-port (b ∷ bs) = ground (arith, with_default-port bs)

-- What is accepted is a host with a port, or at least a colon.
abbrev pub IsAuthority : Parsed Bytes → Type 0
IsAuthority (accepted a) = IsHost a × (has_byte b':' a ≡ true)
IsAuthority (refuses r) = Unit

with_port-IsAuthority : (bs : Bytes) → IsHost bs → IsAuthority (with_port bs)
unfolding with_port
with_port-IsAuthority bs h = elim (Bool-cases (is_empty bs)) [
  | inl t ↦ rw (t, with_port) tt
  | inr t ↦ elim (Bool-cases (has_byte b':' bs)) [
    | inl u ↦ rw (t, u, with_port) (h, u)
    | inr u ↦ rw (t, u, with_port) (with_default-IsHost bs h, with_default-port bs)
  ]
]

-- An authority that is accepted holds a colon, and no byte of a path, a query or a user: no `/`,
-- `?` or `@`.
pub parse_authority-IsAuthority : (url : Bytes) → IsAuthority (parse_authority url)
unfolding parse_authority
parse_authority-IsAuthority url = elim (Option-cases (strip_prefix (ascii "stomp://") url)) [
  | inr (rest, e) ↦
      rw (e, parse_authority)
        (with_port-IsAuthority (after_last_at (before_path rest))
          (after_last_at-IsHost (before_path rest) (before_path-none rest)))
  | inl e ↦ elim (Bool-cases (starts_with (ascii "stomps://") url)) [
    | inl t ↦ rw (e, t, parse_authority) tt
    | inr t ↦ rw (e, t, parse_authority) tt
  ]
]
