-- ===== src/Address/Shape.antt =====
-- The URLs that name an address, by their parts.
use itba_os_tp1_ipc_2016_q.Base.{
  ℕ, ◌≡◌, refl, ◌∙◌, sym, ap, arith, inl, inr, Bool, Bool-cases, true, false, ◌||◌, [], ◌∷◌, ◌++◌,
  Option, none, some, Bytes, codes, ◌==◌, All,
}
use itba_os_tp1_ipc_2016_q.Address.{
  AddrError, address_ok, Addr, colon, slash, ends_text, token, after_protocol, read_offset,
  read_protocol, read_url,
}

-- A character at which a protocol or a host ends.
abbrev pub stops : ℕ → Bool
stops c = c == colon || ends_text c

-- No character of the text ends it.
abbrev pub IsToken : Bytes → Type 0
IsToken = All (λ c. stops c ≡ false)

-- The text is empty or begins with a character that ends a token.
abbrev pub Stops : Bytes → Type 0
Stops [] = Unit
Stops (c ∷ s) = stops c ≡ true

pub token-append : (s t : Bytes) → IsToken s → Stops t → token (s ++ t) ≡ (s, t)
unfolding token
token-append [] [] h e = refl
token-append [] (d ∷ t) h e = rw e refl
token-append (c ∷ s) t (h, hs) e = ground (arith, h, token-append s t hs e)

-- Every text is a token and what follows it.
pub token-parts :
    (s : Bytes) → (IsToken (token s).0) × Stops (token s).1 × (s ≡ (token s).0 ++ (token s).1)
unfolding token
token-parts [] = (tt, tt, refl)
token-parts (c ∷ s) = elim (Bool-cases (stops c)) [
  | inl t ↦ rw t (tt, t, refl)
  | inr f ↦ let (a, b, e) = token-parts s in rw f ((f, a), b, ap (λ r. c ∷ r) e)
]

after_protocol-some : (s t : Bytes) → after_protocol s ≡ some t → s ≡ colon ∷ slash ∷ slash ∷ t
unfolding after_protocol
after_protocol-some [] t e = cc
after_protocol-some (c ∷ []) t e = cc
after_protocol-some (c ∷ d ∷ []) t e = cc
after_protocol-some (c ∷ d ∷ f ∷ s) t e = ground arith

-- A URL of this protocol, host and tail; the protocol has this first character.
pub record IsUrl (first : ℕ) (url protocol host tail : Bytes) : Type 0 where
  pub more : Bytes
  pub first_char : protocol ≡ first ∷ more
  pub protocol_token : IsToken protocol
  pub host_token : IsToken host
  pub tail_stops : Stops tail
  pub shape : url ≡ protocol ++ (codes "://" ++ (host ++ tail))

pub read_protocol-token :
    (read : Bytes → Addr → AddrError × Addr) (p rest : Bytes) (a : Addr)
    → IsToken p
    → read_protocol read (p ++ (codes "://" ++ rest)) a ≡ read rest (record a { protocol = some p })
unfolding read_protocol
read_protocol-token read p rest a h =
    ap (λ t. read_offset read t.0 (after_protocol t.1) a)
      (token-append p (codes "://" ++ rest) h refl)
    ∙ unfold read_offset after_protocol in refl

same : (c : ℕ) → (c == c) ≡ true
same c = ground arith

read_url-first :
    (first : ℕ) (read : Bytes → Addr → AddrError × Addr) (url : Bytes) (a : Addr)
    → read_url first read (first ∷ url) a ≡ read_protocol read (first ∷ url) a
unfolding read_url
read_url-first first read url a = rw (same first) refl

-- The whole reading up to the host.
pub read_url-IsUrl :
    (first : ℕ) (read : Bytes → Addr → AddrError × Addr) (url protocol host tail : Bytes) (a : Addr)
    → IsUrl first url protocol host tail
    → read_url first read url a ≡ read (host ++ tail) (record a { protocol = some protocol })
read_url-IsUrl first read url protocol host tail a u =
    let p = protocol in
    ap (λ t. read_url first read t a)
      (u.shape ∙ ap (λ q. q ++ (codes "://" ++ (host ++ tail))) u.first_char)
    ∙ read_url-first first read (u.more ++ (codes "://" ++ (host ++ tail))) a
    ∙ ap (λ q. read_protocol read (q ++ (codes "://" ++ (host ++ tail))) a) (sym u.first_char)
    ∙ read_protocol-token read protocol (host ++ tail) a u.protocol_token

offset_found :
    (read : Bytes → Addr → AddrError × Addr) (p : Bytes) (o : Option Bytes) (a : Addr)
    → (read_offset read p o a).0 ≡ address_ok
    → (offset : Bytes) × (o ≡ some offset)
unfolding read_offset
offset_found read p none a e = cc
offset_found read p (some offset) a e = (offset, refl)

first_found :
    (first : ℕ) (read : Bytes → Addr → AddrError × Addr) (url : Bytes) (a : Addr)
    → (read_url first read url a).0 ≡ address_ok
    → (more : Bytes) × (url ≡ first ∷ more)
unfolding read_url
first_found first read [] a e = cc
first_found first read (c ∷ url) a e = (url, ground arith)

token-first : (c : ℕ) (s : Bytes) → stops c ≡ false → (token (c ∷ s)).0 ≡ c ∷ (token s).0
unfolding token
token-first c s h = rw h refl

-- A URL that the reading does not refuse has the shape.
pub read_url-parts :
    (first : ℕ) (read : Bytes → Addr → AddrError × Addr) (url : Bytes) (a : Addr)
    → stops first ≡ false
    → (read_url first read url a).0 ≡ address_ok
    → (protocol : Bytes) × (host : Bytes) × (tail : Bytes) × IsUrl first url protocol host tail
read_url-parts first read url a h e =
    let (more, s) = first_found first read url a e in
    let e' : (read_protocol read (first ∷ more) a).0 ≡ address_ok =
      sym (ap (λ r. r.0) (ap (λ t. read_url first read t a) s ∙ read_url-first first read more a))
      ∙ e in
    let protocol = (token (first ∷ more)).0 in
    let (ip, _, ep) = token-parts (first ∷ more) in
    let (offset, f) =
      offset_found read protocol (after_protocol (token (first ∷ more)).1) a
        (unfold read_protocol in e') in
    let (ih, st, eh) = token-parts offset in
    (
      protocol,
      (token offset).0,
      (token offset).1,
      record {
        more = (token more).0;
        first_char = token-first first more h;
        protocol_token = ip;
        host_token = ih;
        tail_stops = st;
        shape =
            s
            ∙ ep
            ∙ ap (λ r. protocol ++ r) (after_protocol-some _ offset f)
            ∙ ap (λ r. protocol ++ (codes "://" ++ r)) eh;
      },
    )
