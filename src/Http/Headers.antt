-- ===== src/Http/Headers.antt =====
-- Which header the extractor answers with.
use dpi_engine_python.Hello.{http_request}
use dpi_engine_python.Http.{crlf, host_of_line, first_host, extract}
use dpi_engine_python.Bytes.{Bytes}
use dpi_engine_python.Prelude.{
  ℕ, ◌≡◌, ◌≢◌, refl, ap, ◌∙◌, ◌⊎◌, inl, inr, true, false, Option, none, some, List, [], ◌∷◌, ◌++◌,
  arith, Bool-cases, Option-cases, All, drop,
}
use dpi_engine_python.Prelude.Eq.{nat_eq, contains}
use dpi_engine_python.Text.{
  Str, codes, lower, lower_code, is_space, strip, starts_with, split, decode, encode, IsScalar,
  encode_code, decode-encode, or_none-eq, or_none_filled, split_first,
}

-- `line` is a Host header, whatever the case of its name, with the stripped value `host`.
pub record IsHostLine (line host : Str) : Type 0 where
  pub named : starts_with (lower line) (codes "host:") ≡ true
  pub value : host ≡ strip (drop 5 line)
  pub filled : host ≢ []

host_of_line_sound : (line host : Str) → host_of_line line ≡ some host → IsHostLine line host
unfolding host_of_line
host_of_line_sound line host h = elim (Bool-cases (starts_with (lower line) (codes "host:"))) [
  | inl named ↦
      let (value, filled) = or_none-eq (strip (drop 5 line)) host (rw named at h) in
      record { named = named; value = value; filled = filled }
  | inr other ↦ absurd (ground arith)
]

-- A line that is no Host header with a value.
abbrev pub IsNoHostLine : Str → Type 0
IsNoHostLine line = (host : Str) → ¬ IsHostLine line host

host_of_line-IsNoHostLine : (line : Str) → host_of_line line ≡ none → IsNoHostLine line
unfolding host_of_line
host_of_line-IsNoHostLine line h host header =
    let value : strip (drop 5 line) ≢ [] = rw (← header.value) header.filled in
    let found = rw (or_none_filled (strip (drop 5 line)) value) at (rw header.named at h) in
    absurd cc

-- `lines` splits at the first Host header with a value, and that value is `host`.
pub record IsFirstHost (lines : List Str) (host : Str) : Type 0 where
  pub before : List Str
  pub line : Str
  pub after : List Str
  pub splits : lines ≡ before ++ line ∷ after
  pub skipped : All IsNoHostLine before
  pub header : IsHostLine line host

first_host-IsFirstHost :
    (lines : List Str) (host : Str) → first_host lines ≡ some host → IsFirstHost lines host
unfolding first_host
first_host-IsFirstHost [] host h = absurd (cc)
first_host-IsFirstHost (l ∷ ls) host h = elim (Option-cases (host_of_line l)) [
  | inr (x, e) ↦
      let same : x ≡ host = ground arith in
      record {
        before = [];
        line = l;
        after = ls;
        splits = refl;
        skipped = tt;
        header = host_of_line_sound l host (e ∙ ap some same);
      }
  | inl e ↦
      let f = first_host-IsFirstHost ls host (ground arith) in
      record {
        before = l ∷ f.before;
        line = f.line;
        after = f.after;
        splits = ap (◌∷◌ l) f.splits;
        skipped = (host_of_line-IsNoHostLine l e, f.skipped);
        header = f.header;
      }
]

-- The answer is the value of the first Host header of the request that is not blank, whatever the
-- case of its name: no line before it is such a header.
pub extract-IsFirstHost :
    (payload : Bytes) (host : Str)
    → extract payload ≡ some host
    → IsFirstHost (split crlf (decode payload)) host
unfolding extract
extract-IsFirstHost [] host h = absurd (cc)
extract-IsFirstHost (b ∷ bs) host h = first_host-IsFirstHost (split crlf (decode (b ∷ bs))) host h

-- Nothing is answered only if no line is a Host header with a value.
first_host-none : (lines : List Str) → first_host lines ≡ none → All IsNoHostLine lines
unfolding first_host
first_host-none [] h = tt
first_host-none (l ∷ ls) h = elim (Option-cases (host_of_line l)) [
  | inr (x, e) ↦ absurd (ground arith)
  | inl e ↦ (host_of_line-IsNoHostLine l e, first_host-none ls (ground arith))
]

-- No host is answered only for an empty payload, or if no line of the request is a Host
-- header with a value.
pub extract-none :
    (payload : Bytes)
    → extract payload ≡ none
    → (payload ≡ []) ⊎ All IsNoHostLine (split crlf (decode payload))
unfolding extract
extract-none [] h = inl refl
extract-none (b ∷ bs) h = inr (first_host-none (split crlf (decode (b ∷ bs))) h)

-- What an answer says of the lines: the first Host header with a value, or that there is none.
abbrev pub Answers : List Str → Option Str → Type 0
Answers lines (some host) = IsFirstHost lines host
Answers lines none = All IsNoHostLine lines

answers :
    (payload : Bytes) (answer : Option Str)
    → extract payload ≡ answer
    → Answers (split crlf (decode payload)) answer
answers payload (some host) h = extract-IsFirstHost payload host h
answers payload none h = elim (extract-none payload h) [
  | inr no_header ↦ no_header
  | inl empty ↦ rw empty (unfold decode split in (no_name, tt))
]
  where
    no_name : IsNoHostLine []
    no_name host header = absurd (different header.named)
      where
        different : ¬ false ≡ true
        different = cc

-- On every payload the extractor answers with the value of the first Host header that has one,
-- whatever the case of its name, and with nothing exactly where no line is such a header.
pub extract-Answers : (payload : Bytes) → Answers (split crlf (decode payload)) (extract payload)
extract-Answers payload = answers payload (extract payload) refl

host_line :
    (host : Str) → strip host ≡ host → host ≢ [] → host_of_line (codes "Host: " ++ host) ≡ some host
unfolding host_of_line lower_code
host_line host clean filled =
    let blank : strip (0x20 ∷ host) ≡ strip host = unfold strip is_space in refl in
    let inner : strip (0x20 ∷ host) ≡ host = blank ∙ clean in rw inner (or_none_filled host filled)

first_host_miss :
    (l : Str) (ls : List Str) → host_of_line l ≡ none → first_host (l ∷ ls) ≡ first_host ls
unfolding first_host
first_host_miss l ls h = rw (h, first_host)

first_host_hit :
    (l : Str) (ls : List Str) {host : Str}
    → host_of_line l ≡ some host
    → first_host (l ∷ ls) ≡ some host
unfolding first_host
first_host_hit l ls h = rw (h, first_host)

extract_filled : (p : Bytes) → p ≢ [] → extract p ≡ first_host (split crlf (decode p))
unfolding extract
extract_filled [] ne = absurd (ne refl)
extract_filled (b ∷ bs) ne = refl

http_request-lines :
    (host : Str)
    → contains 0x0d host ≡ false
    → split crlf (http_request host)
      ≡ codes "GET / HTTP/1.1"
        ∷ (codes "Host: " ++ host)
        ∷ split crlf (codes "User-Agent: DPI-Test/1.0\r\n\r\n")
unfolding http_request
http_request-lines host one_line =
    let tail = codes "User-Agent: DPI-Test/1.0\r\n\r\n" in
    split_first 0x0d (0x0a ∷ []) (codes "GET / HTTP/1.1")
      (codes "Host: " ++ (host ++ (crlf ++ tail))) refl
    ∙ ap (◌∷◌ (codes "GET / HTTP/1.1"))
        (split_first 0x0d (0x0a ∷ []) (codes "Host: " ++ host) tail one_line)

All-append : (P : ℕ → Type 0) (xs ys : Str) → All P xs → All P ys → All P (xs ++ ys)
All-append P [] ys h k = k
All-append P (x ∷ xs) ys h k = (h.0, All-append P xs ys h.1 k)

encode_request-filled : (host : Str) → encode (http_request host) ≢ []
unfolding http_request encode_code
encode_request-filled host e = cc

http_request-scalars : (host : Str) → All IsScalar host → All IsScalar (http_request host)
unfolding http_request
http_request-scalars host scalars =
    All-append IsScalar (codes "GET / HTTP/1.1\r\nHost: ") _ (omega arith) (
      All-append IsScalar host (codes "\r\nUser-Agent: DPI-Test/1.0\r\n\r\n") scalars (omega arith))

-- The extractor finds in the generated request the very host that was put in, if the host is not
-- empty, can be encoded, has no carriage return and no white space at its ends.
pub extract-http_request :
    (host : Str)
    → All IsScalar host
    → contains 0x0d host ≡ false
    → strip host ≡ host
    → host ≢ []
    → extract (encode (http_request host)) ≡ some host
extract-http_request host scalars one_line clean filled =
    let first : host_of_line (codes "GET / HTTP/1.1") ≡ none =
      unfold host_of_line lower_code in refl in
    extract_filled (encode (http_request host)) (encode_request-filled host)
    ∙ rw
        (
          decode-encode (http_request host) (http_request-scalars host scalars),
          http_request-lines host one_line,
        )
        (first_host_miss _ _ first ∙ first_host_hit _ _ (host_line host clean filled))
